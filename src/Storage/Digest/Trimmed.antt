-- ===== src/Storage/Digest/Trimmed.antt =====
-- internal/storage/filesystem.go: a digest has no white space around it, so reading it back from a file
-- by strings.TrimSpace keeps it.
use simplecontainerregistry.Base.{
  Bytes, false, [], ◌∷◌, reverse, drop_while, trim, trim_right, trim_space, is_space, All,
  All-append, ◌≡◌, refl, inl, inr, arith, ok,
}
use mathlib.Core.List.{reverse-append, reverse-reverse}
use simplecontainerregistry.Storage.Digest.{sha256, sha512, parse_digest}
use simplecontainerregistry.Storage.Digest.Valid.{IsHexDigit, IsDigest, parse_digest-IsDigest}

abbrev NoSpace : Bytes → Type 0
NoSpace s = All (λ c. is_space c ≡ false) s

drop_while_lem : (s : Bytes) → NoSpace s → drop_while is_space s ≡ s
unfolding drop_while
drop_while_lem [] h = refl
drop_while_lem (c ∷ s) (h, hs) = rw h refl

NoSpace-reverse : (s : Bytes) → NoSpace s → NoSpace (reverse s)
NoSpace-reverse [] h = h
NoSpace-reverse (c ∷ s) (h, hs) =
    rw (reverse-append (c ∷ []) s)
      (All-append (λ c. is_space c ≡ false) (reverse s) (c ∷ []) (NoSpace-reverse s hs) (h, tt))

trim_space_lem : (s : Bytes) → NoSpace s → trim_space s ≡ s
unfolding trim_space trim trim_right
trim_space_lem s h =
    rw (drop_while_lem s h, drop_while_lem (reverse s) (NoSpace-reverse s h), reverse-reverse s)
      refl

hex-NoSpace : (s : Bytes) → All IsHexDigit s → NoSpace s
hex-NoSpace [] h = tt
hex-NoSpace (c ∷ s) (h, hs) = (ground (arith, h), hex-NoSpace s hs)

digest-NoSpace : (digest a e : Bytes) → IsDigest digest a e → NoSpace digest
digest-NoSpace digest a e d = rw (d.text) (elim (d.size) [
  | inl (named, size) ↦ rw named (
      All-append (λ c. is_space c ≡ false) sha256 (b':' ∷ e)
        (refl, (refl, (refl, (refl, (refl, (refl, tt)))))) (refl, hex-NoSpace e (d.digits)))
  | inr (named, size) ↦ rw named (
      All-append (λ c. is_space c ≡ false) sha512 (b':' ∷ e)
        (refl, (refl, (refl, (refl, (refl, (refl, tt)))))) (refl, hex-NoSpace e (d.digits)))
])

pub parse_digest-trim_space :
    (digest : Bytes) (parsed : Bytes × Bytes)
    → parse_digest digest ≡ ok parsed
    → trim_space digest ≡ digest
parse_digest-trim_space digest (a, e) h =
    trim_space_lem digest (digest-NoSpace digest a e ((parse_digest-IsDigest digest a e).0 h))
