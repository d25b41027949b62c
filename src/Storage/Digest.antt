-- ===== src/Storage/Digest.antt =====
-- internal/storage/filesystem.go: digests of content, "ALGORITHM:HEX".
-- The hash functions of crypto/sha256 and crypto/sha512 are parameters; of them the program relies on
-- the number of bytes that they return.
pub mod Valid
pub mod Computed
pub mod Algorithm
pub mod Trimmed
use simplecontainerregistry.Base.{
  ℕ, Bytes, codes, beq, Bool, true, false, ◌&&◌, ◌||◌, not, List, [], ◌∷◌, ◌++◌, Option, none, some,
  cut, ◌==◌, ◌+◌, ◌-◌, ◌/◌, ◌%◌, ◌<◌, ◌≡◌, leb, ltb, is_nil, length, all, All, if◌then◌else◌,
  Result, ok, err, invalid_digest, ◌>>=◌,
}
use simplecontainerregistry.Base.Int.{ℤ}

abbrev pub sha256 : Bytes
sha256 = codes "sha256"

abbrev pub sha512 : Bytes
sha512 = codes "sha512"

abbrev pub colon : Bytes
colon = b':' ∷ []

-- The bytes that a hash function returns.
abbrev pub IsHash : ℕ → (Bytes → Bytes) → Type 0
IsHash size h = (content : Bytes) → (length (h content) ≡ size) × All (λ b. b < 256) (h content)

pub record Hashes : Type 0 where
  pub sum256 : Bytes → Bytes
  pub sum512 : Bytes → Bytes
  pub sum256_size : IsHash 32 sum256
  pub sum512_size : IsHash 64 sum512

pub record Descriptor : Type 0 where
  pub media_type : Bytes
  pub artifact_type : Bytes
  pub digest : Bytes
  pub size : ℤ
  pub annotations : List (Bytes × Bytes)

unfoldable pub digest_hex_length : Bytes → ℕ
digest_hex_length algorithm =
    if beq algorithm sha256 then 64 else if beq algorithm sha512 then 128 else 0

-- A digit of a digest; Go ranges over runes, and no rune beyond ASCII passes.
unfoldable pub is_hex : ℕ → Bool
is_hex r = leb b'0' r && leb r b'9' || leb b'a' r && leb r b'f'

unfoldable pub check_digest : Bytes → Bytes → Result (Bytes × Bytes)
unfolding is_hex digest_hex_length
check_digest algorithm encoded =
    if is_nil algorithm || is_nil encoded
    then err invalid_digest
    else if not (beq algorithm sha256) && not (beq algorithm sha512)
    then err invalid_digest
    else if not (length encoded == digest_hex_length algorithm)
    then err invalid_digest
    else if not (all is_hex encoded)
    then err invalid_digest
    else ok (algorithm, encoded)

unfoldable pub parse_digest : Bytes → Result (Bytes × Bytes)
parse_digest digest = elim (cut digest colon) [
  | none ↦ err invalid_digest
  | some (algorithm, encoded) ↦ check_digest algorithm encoded
]

-- hex.EncodeToString.
unfoldable pub hex_digit : ℕ → ℕ
hex_digit n = if ltb n 10 then b'0' + n else b'a' + (n - 10)

unfoldable pub hex_encode : Bytes → Bytes
unfolding hex_digit
hex_encode [] = []
hex_encode (b ∷ bs) = hex_digit (b / 16) ∷ hex_digit (b % 16) ∷ hex_encode bs

-- digestHash, and the sum of one write.
unfoldable pub digest_hash : Hashes → Bytes → Option (Bytes → Bytes)
digest_hash hashes algorithm =
    if beq algorithm sha256
    then some hashes.sum256
    else if beq algorithm sha512
    then some hashes.sum512
    else none

abbrev pub sum_with : Option (Bytes → Bytes) → Bytes → Bytes
sum_with none content = []
sum_with (some h) content = h content

-- For an unknown algorithm Go's nil hash panics; no caller passes one.
unfoldable pub digest_for_content : Hashes → Bytes → Bytes → Bytes
digest_for_content hashes algorithm content =
    algorithm ++ b':' ∷ hex_encode (sum_with (digest_hash hashes algorithm) content)

unfoldable pub verify_digest : Hashes → Bytes → Bytes → Result (Unit {0})
verify_digest hashes content expected = parse_digest expected >>= λ parsed.
    if beq (digest_for_content hashes parsed.0 content) expected then ok tt else err invalid_digest

-- ValidateDigest.
unfoldable pub validate_digest : Bytes → Result (Unit {0})
validate_digest digest = parse_digest digest >>= λ _. ok tt

-- The loop of manifestDigestAlgorithm over the digests of the descriptors.
unfoldable pub algorithm_loop : Bytes → List Descriptor → Bytes
algorithm_loop algorithm [] = if is_nil algorithm then sha256 else algorithm
algorithm_loop algorithm (descriptor ∷ descriptors) = elim (parse_digest descriptor.digest) [
  | err e ↦ algorithm_loop algorithm descriptors
  | ok (candidate, encoded) ↦
      let first = algorithm_loop candidate descriptors in
      let same = algorithm_loop algorithm descriptors in
      if is_nil algorithm then first else if not (beq algorithm candidate) then sha256 else same
]
