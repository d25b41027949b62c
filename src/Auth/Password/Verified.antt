-- ===== src/Auth/Password/Verified.antt =====
-- internal/auth/password.go: a secret is verified against its hash.
use simplecontainerregistry.Base.{
  ℕ, Bytes, codes, beq, Bool, true, false, ◌≢◌, List, [], ◌∷◌, ◌++◌, ◌≡◌, refl, ap, ◌∙◌, Option,
  none, some, split, length, is_nil, if◌then◌else◌, Result, ok, err, arith, All, ◌>>=◌, >>=-eq-ok,
}
use simplecontainerregistry.Base.Number.{itoa}
use simplecontainerregistry.Base.Laws.{split-append, Lacks-split, Lacks}
use simplecontainerregistry.Db.Audit.{Base64}
use simplecontainerregistry.Auth.Password.{
  ArgonParams, IdKey, hash_params, argon_key_length, decode_hash, decode_parts, hash_text,
  hash_secret, verify_secret, read_params, no_params, complete_params, decode_base64,
}

abbrev params_text : Bytes
params_text = codes "m=65536,t=3,p=1"

module _ (base64 : Base64) (id_key : IdKey)
    (decode-encode : (bytes : Bytes) → base64.decode (base64.encode bytes) ≡ some bytes)
    (encode-Lacks : (bytes : Bytes) → Lacks b'$' (base64.encode bytes)) where
  split-hash_text :
      (salt hash : Bytes)
      → split (hash_text base64 salt hash) b'$'
        ≡ []
          ∷ codes "argon2id"
          ∷ codes "v=19"
          ∷ params_text
          ∷ base64.encode salt
          ∷ base64.encode hash
          ∷ []
  unfolding hash_text itoa simplecontainerregistry.Base.Number.digits_onto split
  split-hash_text salt hash =
      ap (λ (parts : List Bytes). [] ∷ codes "argon2id" ∷ codes "v=19" ∷ params_text ∷ parts)
        (split-append b'$' (base64.encode salt) (base64.encode hash) (encode-Lacks salt)
          ∙ ap (λ (parts : List Bytes). base64.encode salt ∷ parts)
              (Lacks-split b'$' (base64.encode hash) (encode-Lacks hash)))

  params-read :
      (read_params (split params_text b',') no_params >>= λ given. complete_params given)
      ≡ ok hash_params
  unfolding read_params split complete_params simplecontainerregistry.Auth.Password.read_param
      simplecontainerregistry.Auth.Password.parse_uint32
      simplecontainerregistry.Auth.Password.set_param simplecontainerregistry.Base.cut
      simplecontainerregistry.Base.strip_prefix beq simplecontainerregistry.Base.Number.parse_digits
      simplecontainerregistry.Base.all simplecontainerregistry.Base.Number.digits_value
  params-read = refl

  params_parts :
      (given : ArgonParams) × (read_params (split params_text b',') no_params ≡ ok given)
      × (complete_params given ≡ ok hash_params)
  params_parts =
      >>=-eq-ok (read_params (split params_text b',') no_params) complete_params params-read

  decode_base64-encode : (bytes : Bytes) → decode_base64 base64 (base64.encode bytes) ≡ ok bytes
  decode_base64-encode bytes = rw (decode_base64, decode-encode bytes) refl

  decoded_parts :
      (salt hash : Bytes)
      → decode_parts base64 (
          []
          ∷ codes "argon2id"
          ∷ codes "v=19"
          ∷ params_text
          ∷ base64.encode salt
          ∷ base64.encode hash
          ∷ [])
        ≡ ok (hash_params, salt, hash)
  unfolding decode_parts beq
  decoded_parts salt hash =
      let (given, read, complete) = params_parts in rw (read, complete) (simp decode_base64-encode)

  decoded :
      (salt hash : Bytes)
      → decode_hash base64 (hash_text base64 salt hash) ≡ ok (hash_params, salt, hash)
  unfolding decode_hash
  decoded salt hash = rw (split-hash_text salt hash) (decoded_parts salt hash)

  -- Any secret that is not empty is verified against its hash, and another one passes exactly when it
  -- has the same key under the salt: the parameters, the salt and the key come back from the text. That
  -- a key has the length that is asked for, and that base64 has no dollar sign and is decoded to what
  -- was encoded, is what those packages promise.
  pub verify_secret-hash_secret :
      ((secret salt : Bytes)
        → length (id_key secret salt hash_params argon_key_length) ≡ argon_key_length)
      → (salt secret other : Bytes) → is_nil secret ≡ false
      → (text : Bytes) × (hash_secret base64 id_key salt secret ≡ ok text)
        × (verify_secret base64 id_key other text
            ≡ ok (
                beq
                  (id_key other salt hash_params argon_key_length)
                  (id_key secret salt hash_params argon_key_length)))
  unfolding hash_secret verify_secret
  verify_secret-hash_secret key_length salt secret other given =
      let key : Bytes = id_key secret salt hash_params argon_key_length in
      (hash_text base64 salt key, rw given refl, rw (decoded salt key, key_length secret salt) refl)
