-- ===== src/Tests/Accounts.antt =====
-- internal/auth/password.go, service.go and token.go, on a user `ann`.
use simplecontainerregistry.Base.{
  ℕ, zero, suc, ◌+◌, ◌-◌, ◌*◌, ◌%◌, ◌≤◌, ◌<◌, ◌≢◌, Bytes, codes, beq, ltb, leb, ◌&&◌, ◌≡◌, ◌↔◌,
  refl, ap, inl, inr, List, [], ◌∷◌, Option, none, some, Result, ok, arith, length, is_nil,
  if◌then◌else◌, In, true, false,
}
use simplecontainerregistry.Base.Laws.{Lacks}
use simplecontainerregistry.Domain.{User, SigningKey, role_reader, status_active}
use simplecontainerregistry.Db.Tables.{Database, SigningKeyRow, empty_database, first_row}
use simplecontainerregistry.Db.Users.{delete_user, has_id}
use simplecontainerregistry.Db.Audit.{Base64, active_signing_key}
use simplecontainerregistry.Auth.Password.{
  IdKey, hash_secret, verify_secret, hash_params, argon_key_length,
}
use simplecontainerregistry.Auth.Password.Verified.{verify_secret-hash_secret}
use simplecontainerregistry.Auth.Service.{authenticate, usable}
use simplecontainerregistry.Auth.Service.Credentials.{Authentic, authenticate-Authentic}
use simplecontainerregistry.Auth.Token.{
  Claims, Jwt, TokenService, claims_of, second, mint, validate,
}
use simplecontainerregistry.Auth.Token.Current.{IsCurrent, validate-Ended}
use simplecontainerregistry.Auth.Token.Minted.{ParsesSigned, principal_for, validate-mint}
use simplecontainerregistry.Tests.Samples.{zeros}

-- Bytes moved beyond the dollar sign stand for base64.
abbrev pub moved : Bytes → Bytes
moved [] = []
moved (b ∷ bytes) = (b + 37) ∷ moved bytes

abbrev moved_back : Bytes → Bytes
moved_back [] = []
moved_back (b ∷ bytes) = (b - 37) ∷ moved_back bytes

abbrev pub base64 : Base64
base64 = record { encode = moved; decode = λ text. some (moved_back text) }

back : (bytes : Bytes) → moved_back (moved bytes) ≡ bytes
back [] = refl
back (b ∷ bytes) = ground (arith, back bytes)

decode-encode : (bytes : Bytes) → base64.decode (base64.encode bytes) ≡ some bytes
decode-encode bytes = ap some (back bytes)

encode-Lacks : (bytes : Bytes) → Lacks b'$' (base64.encode bytes)
encode-Lacks [] = tt
encode-Lacks (b ∷ bytes) = (λ e. absurd (omega arith), encode-Lacks bytes)

-- A key that starts with the length of the secret.
abbrev pub id_key : IdKey
id_key = λ secret salt params size. length secret ∷ zeros 31

verify_secret-hash_secret_example :
    (text : Bytes) × (hash_secret base64 id_key (codes "salt") (codes "one") ≡ ok text)
    × (verify_secret base64 id_key (codes "other") text
        ≡ ok (
            beq
              (id_key (codes "other") (codes "salt") hash_params argon_key_length)
              (id_key (codes "one") (codes "salt") hash_params argon_key_length)))
verify_secret-hash_secret_example =
    verify_secret-hash_secret base64 id_key decode-encode encode-Lacks (λ secret salt. refl)
      (codes "salt") (codes "one") (codes "other") refl

abbrev pub account : Bytes → User
account id = record {
  id = id;
  username = id;
  display_name = id;
  role = role_reader;
  status = status_active;
  secret_hash = [];
  not_before = none;
  expires_at = none;
  last_used_at = none;
  created_at = 0;
  updated_at = 0;
  disabled_at = none;
}

abbrev ann : User
ann = account (codes "ann")

abbrev pub stored_key : SigningKeyRow
stored_key = record { id = codes "k"; secret = []; created_at = 0; retired_at = none }

abbrev accounts : Database
accounts = record empty_database {
  users = ann ∷ account (codes "bob") ∷ [];
  signing_keys = stored_key ∷ [];
}

authenticate-Authentic_example :
    ((authenticate base64 id_key (codes "ann") (codes "one") 7 accounts).0 ≡ ok ann)
    ↔ Authentic base64 id_key (codes "ann") (codes "one") 7 accounts ann
authenticate-Authentic_example =
    authenticate-Authentic base64 id_key (codes "ann") (codes "one") 7 accounts ann

abbrev pub service : TokenService
service = record { issuer = codes "scr"; service = codes "scr"; ttl = 600 * second }

-- Whole seconds.
abbrev whole : ℕ → ℕ
whole time = time - time % second

pub whole_before : (time : ℕ) → whole time ≤ time
whole_before time = omega arith

abbrev pub unread : Jwt
unread = record {
  numeric_date = whole;
  sign = λ secret kid claims. kid;
  parse = λ secret raw expected issuer now. none;
}

abbrev claims : Claims
claims = claims_of unread service (1 ∷ []) ann [] (10 * second)

-- A token is read as the one above, in its time.
abbrev jwt : Jwt
jwt = record unread {
  parse = λ secret raw expected issuer now.
      if leb claims.not_before now && ltb now claims.expires_at then some claims else none;
}

parses : ParsesSigned jwt claims
parses secret kid audience issuer now _ _ from until = ground (arith, from, until)

abbrev remaining : Database
remaining = (delete_user (codes "bob") accounts).1

validated :
    (validate base64 jwt service (codes "k") (20 * second) remaining).0 ≡ ok (principal_for ann [])
unfolding validate simplecontainerregistry.Db.Tables.scan_row first_row
    simplecontainerregistry.Db.Tables.order_by simplecontainerregistry.Base.keep delete_user
    simplecontainerregistry.Db.Tables.delete_where beq simplecontainerregistry.Auth.Service.started
    simplecontainerregistry.Auth.Service.unexpired
validated = refl

validate-Ended_example :
    IsCurrent remaining (20 * second) (principal_for ann []) × (ann.id ≢ codes "bob")
validate-Ended_example =
    validate-Ended base64 jwt service (codes "bob") (codes "k") 0 (20 * second) accounts remaining
      (principal_for ann []) (inr refl) validated

abbrev key : SigningKey
key = record { id = codes "k"; secret = []; created_at = 0; retired_at = none }

active : (active_signing_key base64 accounts).0 ≡ ok key
unfolding active_signing_key simplecontainerregistry.Db.Tables.scan_row first_row
    simplecontainerregistry.Db.Tables.order_by simplecontainerregistry.Base.keep
active = refl

ann_found : first_row (has_id ann.id) accounts.users ≡ some ann
unfolding first_row beq
ann_found = refl

ann-usable : usable ann (20 * second) ≡ true
unfolding beq simplecontainerregistry.Auth.Service.started
    simplecontainerregistry.Auth.Service.unexpired
ann-usable = refl

validate-mint_example :
    (token : Bytes) × ((mint base64 jwt service (1 ∷ []) ann [] (10 * second) accounts).0
      ≡ ok (token, 10 * second + service.ttl))
    × ((validate base64 jwt service token (20 * second) accounts).0 ≡ ok (principal_for ann []))
validate-mint_example =
    validate-mint base64 jwt service (1 ∷ []) ann [] (10 * second) (20 * second) accounts key
      whole_before parses active ann_found ann-usable (omega arith) (omega arith)
