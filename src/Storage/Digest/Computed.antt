-- ===== src/Storage/Digest/Computed.antt =====
-- internal/storage/filesystem.go: a digest that is computed for content is a digest.
use simplecontainerregistry.Base.{
  ℕ, Bytes, beq, beq_iff, [], ◌∷◌, ◌++◌, ◌*◌, ◌/◌, ◌%◌, ◌<◌, ◌≡◌, length, All, if◌then◌else◌, ok,
  err, invalid_digest, ◌>>=◌, >>=-eq-ok, ◌⊎◌, ◌↔◌, inl, inr, arith, refl, sym, ap, ◌∙◌,
}
use simplecontainerregistry.Storage.Digest.{
  sha256, sha512, Hashes, parse_digest, hex_digit, hex_encode, digest_hash, digest_for_content,
  verify_digest,
}
use simplecontainerregistry.Storage.Digest.Valid.{
  IsHexDigit, parse_digest-IsDigest, known_algorithm,
}

hex_digit-IsHexDigit : (n : ℕ) → n < 16 → IsHexDigit (hex_digit n)
unfolding hex_digit
hex_digit-IsHexDigit n h = ground arith

hex_encode-IsHexDigit : (bs : Bytes) → All (λ b. b < 256) bs → All IsHexDigit (hex_encode bs)
unfolding hex_encode
hex_encode-IsHexDigit [] h = tt
hex_encode-IsHexDigit (b ∷ bs) (h, hs) = (
  hex_digit-IsHexDigit (b / 16) (omega arith),
  (hex_digit-IsHexDigit (b % 16) (omega arith), hex_encode-IsHexDigit bs hs),
)

length-hex_encode : (bs : Bytes) → length (hex_encode bs) ≡ 2 * length bs
unfolding hex_encode
length-hex_encode [] = refl
length-hex_encode (b ∷ bs) = omega (arith, length-hex_encode bs)

module _ (hashes : Hashes) (content : Bytes) where
  digest256 :
      digest_for_content hashes sha256 content ≡ sha256 ++ b':' ∷ hex_encode (hashes.sum256 content)
  unfolding digest_for_content digest_hash beq
  digest256 = refl

  digest512 :
      digest_for_content hashes sha512 content ≡ sha512 ++ b':' ∷ hex_encode (hashes.sum512 content)
  unfolding digest_for_content digest_hash beq
  digest512 = refl

  parse256 :
      parse_digest (digest_for_content hashes sha256 content)
      ≡ ok (sha256, hex_encode (hashes.sum256 content))
  parse256 =
      let (size, bytes) = hashes.sum256_size content in
      (parse_digest-IsDigest _ _ _).1 (record {
        text = digest256;
        size = inl (refl, omega (arith, length-hex_encode (hashes.sum256 content), size));
        digits = hex_encode-IsHexDigit (hashes.sum256 content) bytes;
      })

  parse512 :
      parse_digest (digest_for_content hashes sha512 content)
      ≡ ok (sha512, hex_encode (hashes.sum512 content))
  parse512 =
      let (size, bytes) = hashes.sum512_size content in
      (parse_digest-IsDigest _ _ _).1 (record {
        text = digest512;
        size = inr (refl, omega (arith, length-hex_encode (hashes.sum512 content), size));
        digits = hex_encode-IsHexDigit (hashes.sum512 content) bytes;
      })

-- The digest that is computed for content, under a known algorithm, is one that parseDigest accepts,
-- with that algorithm.
pub parse_digest-digest_for_content :
    (hashes : Hashes) (algorithm content : Bytes)
    → (algorithm ≡ sha256) ⊎ (algorithm ≡ sha512)
    → (e : Bytes) × (parse_digest (digest_for_content hashes algorithm content) ≡ ok (algorithm, e))
parse_digest-digest_for_content hashes algorithm content (inl h) =
    (hex_encode (hashes.sum256 content), rw h (parse256 hashes content))
parse_digest-digest_for_content hashes algorithm content (inr h) =
    (hex_encode (hashes.sum512 content), rw h (parse512 hashes content))

verify_step :
    (hashes : Hashes) (content expected a e : Bytes)
    → parse_digest expected ≡ ok (a, e)
    → verify_digest hashes content expected
      ≡ (if beq (digest_for_content hashes a content) expected then ok tt else err invalid_digest)
unfolding verify_digest
verify_step hashes content expected a e h = rw (h, ◌>>=◌)

verify_sound :
    (hashes : Hashes) (content expected : Bytes)
    → verify_digest hashes content expected ≡ ok tt
    → (expected ≡ digest_for_content hashes sha256 content)
      ⊎ (expected ≡ digest_for_content hashes sha512 content)
unfolding verify_digest
verify_sound hashes content expected h =
    let ((a, e), p, q) = >>=-eq-ok (parse_digest expected) _ h in
    let same : digest_for_content hashes a content ≡ expected =
      ground (arith, beq_iff (digest_for_content hashes a content) expected, q) in
    elim (known_algorithm ((parse_digest-IsDigest expected a e).0 p)) [
      | inl k ↦ inl (rw k at (sym same))
      | inr k ↦ inr (rw k at (sym same))
    ]

verify_complete :
    (hashes : Hashes) (content expected a e : Bytes)
    → parse_digest expected ≡ ok (a, e)
    → expected ≡ digest_for_content hashes a content
    → verify_digest hashes content expected ≡ ok tt
verify_complete hashes content expected a e p same = ground (
  arith,
  verify_step hashes content expected a e p,
  beq_iff (digest_for_content hashes a content) expected,
)

-- Content passes verifyDigest exactly when the expected text is the digest of the content under one
-- of the two algorithms.
pub verify_digest-eq :
    (hashes : Hashes) (content expected : Bytes)
    → (verify_digest hashes content expected ≡ ok tt) ↔ (
        (expected ≡ digest_for_content hashes sha256 content)
        ⊎ (expected ≡ digest_for_content hashes sha512 content))
verify_digest-eq hashes content expected = (
  verify_sound hashes content expected,
  λ h. elim h [
    | inl q ↦
        verify_complete hashes content expected sha256 _
          (ap parse_digest q ∙ parse256 hashes content) q
    | inr q ↦
        verify_complete hashes content expected sha512 _
          (ap parse_digest q ∙ parse512 hashes content) q
  ],
)
