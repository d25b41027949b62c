-- ===== src/Auth/Password.antt =====
-- internal/auth/password.go: secrets and their hashes. argon2.IDKey and the encodings of package base64
-- are parameters; `salt` and `secret` are the bytes that crypto/rand yields.
pub mod Verified
use simplecontainerregistry.Base.{
  ℕ, ◌^◌, ◌*◌, Bytes, codes, beq, Bool, true, false, ◌||◌, not, List, [], ◌∷◌, ◌++◌, Option, none,
  some, cut, split, ltb, ◌==◌, length, is_nil, if◌then◌else◌, Result, ok, err, failure, ◌>>=◌,
}
use simplecontainerregistry.Base.Number.{parse_digits, itoa}
use simplecontainerregistry.Db.Audit.{Base64}

abbrev pub argon_memory : ℕ
argon_memory = 64 * 1024

abbrev pub argon_iterations : ℕ
argon_iterations = 3

abbrev pub argon_parallelism : ℕ
argon_parallelism = 1

abbrev pub argon_key_length : ℕ
argon_key_length = 32

pub record ArgonParams : Type 0 where
  pub memory : ℕ
  pub iterations : ℕ
  pub parallelism : ℕ

-- argon2.IDKey: password, salt, the parameters, and the length of the key.
abbrev pub IdKey : Type 0
IdKey = Bytes → Bytes → ArgonParams → ℕ → Bytes

abbrev pub hash_params : ArgonParams
hash_params = record {
  memory = argon_memory;
  iterations = argon_iterations;
  parallelism = argon_parallelism;
}

-- strconv.ParseUint(s, 10, 32).
unfoldable pub parse_uint32 : Bytes → Result ℕ
unfolding parse_digits
parse_uint32 s = elim (parse_digits s) [
  | none ↦ err (failure (codes "invalid syntax"))
  | some n ↦ if ltb n (2 ^ 32) then ok n else err (failure (codes "value out of range"))
]

-- The switch on the name of one parameter.
unfoldable pub set_param : Bytes → ℕ → ArgonParams → Result ArgonParams
set_param name parsed params =
    if beq name (codes "m")
    then ok (record params { memory = parsed })
    else if beq name (codes "t")
    then ok (record params { iterations = parsed })
    else if beq name (codes "p")
    then (if ltb 255 parsed
        then err (failure (codes "secret hash parallelism is too large"))
        else ok (record params { parallelism = parsed }))
    else err (failure (codes "unknown secret hash param"))

unfoldable pub read_param : Bytes → ArgonParams → Result ArgonParams
unfolding parse_uint32 set_param
read_param pair params = elim (cut pair (b'=' ∷ [])) [
  | none ↦ err (failure (codes "invalid secret hash params"))
  | some (name, value) ↦ (parse_uint32 value >>= λ parsed. set_param name parsed params)
]

unfoldable pub read_params : List Bytes → ArgonParams → Result ArgonParams
unfolding read_param
read_params [] params = ok params
read_params (pair ∷ pairs) params = read_param pair params >>= λ changed. read_params pairs changed

abbrev pub no_params : ArgonParams
no_params = record { memory = 0; iterations = 0; parallelism = 0 }

unfoldable pub complete_params : ArgonParams → Result ArgonParams
complete_params params =
    if params.memory == 0 || (params.iterations == 0 || params.parallelism == 0)
    then err (failure (codes "incomplete secret hash params"))
    else ok params

module _ (base64 : Base64) where
  abbrev pub decode_base64 : Bytes → Result Bytes
  decode_base64 text = elim (base64.decode text) [
    | none ↦ err (failure (codes "illegal base64 data"))
    | some bytes ↦ ok bytes
  ]

  -- decodeHash, on the six parts of the text.
  unfoldable pub decode_parts : List Bytes → Result (ArgonParams × Bytes × Bytes)
  unfolding read_params complete_params
  decode_parts (first ∷ name ∷ version ∷ params ∷ salt ∷ hash ∷ []) =
      if not (beq name (codes "argon2id")) || not (beq version (codes "v=19"))
      then err (failure (codes "invalid secret hash format"))
      else (read_params (split params b',') no_params >>= λ given.
          complete_params given >>= λ complete. decode_base64 salt >>= λ decoded_salt.
          decode_base64 hash >>= λ decoded_hash. ok (complete, decoded_salt, decoded_hash))
  decode_parts _ = err (failure (codes "invalid secret hash format"))

  unfoldable pub decode_hash : Bytes → Result (ArgonParams × Bytes × Bytes)
  unfolding decode_parts
  decode_hash encoded = decode_parts (split encoded b'$')

  -- fmt.Sprintf("$argon2id$v=19$m=%d,t=%d,p=%d$%s$%s", ...).
  unfoldable pub hash_text : Bytes → Bytes → Bytes
  hash_text salt hash =
      codes "$argon2id$v=19$m="
      ++ (itoa argon_memory
          ++ (codes ",t="
              ++ (itoa argon_iterations
                  ++ (codes ",p="
                      ++ (itoa argon_parallelism
                          ++ b'$' ∷ (base64.encode salt ++ b'$' ∷ base64.encode hash))))))

  module _ (id_key : IdKey) where
    unfoldable pub hash_secret : Bytes → Bytes → Result Bytes
    unfolding hash_text
    hash_secret salt secret =
        if is_nil secret
        then err (failure (codes "secret is required"))
        else ok (hash_text salt (id_key secret salt hash_params argon_key_length))

    -- subtle.ConstantTimeCompare is the comparison of the bytes.
    unfoldable pub verify_secret : Bytes → Bytes → Result Bool
    unfolding decode_hash
    verify_secret secret encoded = decode_hash encoded >>= λ decoded.
        ok (beq (id_key secret decoded.1 decoded.0 (length decoded.2)) decoded.2)

-- GenerateSecret: 32 bytes in the encoding RawURLEncoding.
unfoldable pub generate_secret : (Bytes → Bytes) → Bytes → Bytes
generate_secret encode_url secret = encode_url secret
