-- ===== src/Storage/Digest/Valid.antt =====
-- internal/storage/filesystem.go: what parseDigest accepts, and that computed digests are accepted.
use simplecontainerregistry.Base.{
  ℕ, Bytes, beq, beq_iff, beq_refl, true, false, [], ◌∷◌, ◌++◌, none, some, cut, ◌≤◌, ◌≡◌, length,
  all, All, ok, err, invalid_digest, ◌⊎◌, ◌↔◌, inl, inr, arith, Option-cases, refl, sym, ap, ◌∙◌,
}
use mathlib.Core.Path.{ap₂}
use simplecontainerregistry.Base.Laws.{Lacks, cut-eq, cut-append_Lacks}
use simplecontainerregistry.Storage.Digest.{
  sha256, sha512, colon, is_hex, check_digest, parse_digest,
}

-- A digit 0-9 or a-f.
abbrev pub IsHexDigit : ℕ → Type 0
IsHexDigit r = ((b'0' ≤ r) × (r ≤ b'9')) ⊎ ((b'a' ≤ r) × (r ≤ b'f'))

-- The algorithm is known, and the rest has its length in lower-case hexadecimal digits.
pub record IsDigest (digest algorithm encoded : Bytes) : Type 0 where
  pub text : digest ≡ algorithm ++ b':' ∷ encoded
  pub size :
      ((algorithm ≡ sha256) × (length encoded ≡ 64))
      ⊎ ((algorithm ≡ sha512) × (length encoded ≡ 128))
  pub digits : All IsHexDigit encoded

all_hex-All : (s : Bytes) → all is_hex s ≡ true → All IsHexDigit s
unfolding all is_hex
all_hex-All [] h = tt
all_hex-All (c ∷ s) h = (ground arith, all_hex-All s (ground arith))

All-all_hex : (s : Bytes) → All IsHexDigit s → all is_hex s ≡ true
unfolding all is_hex
All-all_hex [] h = refl
All-all_hex (c ∷ s) (h, hs) = ground (arith, All-all_hex s hs)

check_sound :
    (a e x y : Bytes)
    → check_digest a e ≡ ok (x, y)
    → (x ≡ a)
      × (y ≡ e)
      × (((a ≡ sha256) × (length e ≡ 64)) ⊎ ((a ≡ sha512) × (length e ≡ 128)))
      × (all is_hex e ≡ true)
unfolding check_digest
check_sound a e x y h = ground (arith, beq_iff a sha256, beq_iff a sha512)

known_Lacks : (a : Bytes) → ((a ≡ sha256) ⊎ (a ≡ sha512)) → Lacks b':' a
known_Lacks a (inl e) = rw e (omega arith)
known_Lacks a (inr e) = rw e (omega arith)

sha512_not_sha256 : beq sha512 sha256 ≡ false
unfolding beq
sha512_not_sha256 = refl

check_complete :
    (a e : Bytes)
    → ((a ≡ sha256) × (length e ≡ 64)) ⊎ ((a ≡ sha512) × (length e ≡ 128))
    → all is_hex e ≡ true
    → check_digest a e ≡ ok (a, e)
unfolding check_digest
check_complete a [] (inl (p, q)) h = absurd (omega arith)
check_complete a [] (inr (p, q)) h = absurd (omega arith)
check_complete a (c ∷ e) (inl (p, q)) h = rw p (ground (arith, beq_refl sha256))
check_complete a (c ∷ e) (inr (p, q)) h = rw p (ground (arith, beq_refl sha512, sha512_not_sha256))

parsed_none : (digest : Bytes) → cut digest colon ≡ none → parse_digest digest ≡ err invalid_digest
unfolding parse_digest
parsed_none digest q = rw (q, parse_digest)

parsed_some :
    (digest x y : Bytes) → cut digest colon ≡ some (x, y) → parse_digest digest ≡ check_digest x y
unfolding parse_digest
parsed_some digest x y q = rw (q, parse_digest)

IsDigest-sound : (digest a e : Bytes) → parse_digest digest ≡ ok (a, e) → IsDigest digest a e
unfolding parse_digest
IsDigest-sound digest a e h = elim (Option-cases (cut digest colon)) [
  | inl q ↦ cc (parsed_none digest q, h)
  | inr ((x, y), q) ↦
      let (ex, ey, size, hex) = check_sound x y a e (sym (parsed_some digest x y q) ∙ h) in
      record {
        text = cut-eq digest colon x y q ∙ ap₂ (λ (s t : Bytes). s ++ b':' ∷ t) (sym ex) (sym ey);
        size = rw (ex, ey) size;
        digits = rw ey (all_hex-All y hex);
      }
]

known_of_size :
    (a e : Bytes)
    → ((a ≡ sha256) × (length e ≡ 64)) ⊎ ((a ≡ sha512) × (length e ≡ 128))
    → (a ≡ sha256) ⊎ (a ≡ sha512)
known_of_size a e (inl (p, q)) = inl p
known_of_size a e (inr (p, q)) = inr p

digest_complete : (digest a e : Bytes) → IsDigest digest a e → parse_digest digest ≡ ok (a, e)
digest_complete digest a e d =
    parsed_some digest a e (
      ap (λ (t : Bytes). cut t colon) d.text
      ∙ cut-append_Lacks b':' a e (known_Lacks a (known_of_size a e d.size)))
    ∙ check_complete a e d.size (All-all_hex e d.digits)

-- A text is parsed as a digest exactly when it is "sha256:" with 64 or "sha512:" with 128 lower-case
-- hexadecimal digits; what comes back is the algorithm and the digits.
pub parse_digest-IsDigest :
    (digest a e : Bytes) → (parse_digest digest ≡ ok (a, e)) ↔ IsDigest digest a e
parse_digest-IsDigest digest a e = (IsDigest-sound digest a e, digest_complete digest a e)

pub known_algorithm : {digest a e : Bytes} → IsDigest digest a e → (a ≡ sha256) ⊎ (a ≡ sha512)
known_algorithm {digest} {a} {e} d = known_of_size a e d.size
