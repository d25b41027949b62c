-- ===== src/Auth/Token.antt =====
-- internal/auth/token.go: tokens. Package jwt is a parameter: `sign` is SignedString with HS256 and the
-- key's id in the header, and `parse` is ParseWithClaims with the audience and the issuer that are
-- expected, at a time. Instants are nanoseconds.
pub mod Current
pub mod Minted
use simplecontainerregistry.Base.{
  ℕ, ◌+◌, ◌-◌, ◌*◌, ◌/◌, ◌%◌, ◌≤◌, ◌<◌, ◌≡◌, Bytes, codes, beq, Bool, true, false, not, List, [],
  ◌∷◌, Option, none, some, if◌then◌else◌, Result, ok, err, failure,
}
use simplecontainerregistry.Domain.{Role, User, SigningKey, status_active}
use simplecontainerregistry.Storage.Disk.{Step, ◌>>=◌, lift, return}
use simplecontainerregistry.Db.Tables.{Database, require}
use simplecontainerregistry.Db.Users.{new_id, get_user}
use simplecontainerregistry.Db.Audit.{Base64, active_signing_key}
use simplecontainerregistry.Auth.Scope.{AccessClaim}
use simplecontainerregistry.Auth.Principal.{Principal}
use simplecontainerregistry.Auth.Service.{started, unexpired}

pub record Claims : Type 0 where
  pub username : Bytes
  pub role : Role
  pub access : List AccessClaim
  pub issuer : Bytes
  pub subject : Bytes
  pub audience : List Bytes
  pub expires_at : ℕ
  pub not_before : ℕ
  pub issued_at : ℕ
  pub id : Bytes

abbrev pub second : ℕ
second = 1_000_000_000

-- Package jwt; `numeric_date` is NewNumericDate.
pub record Jwt : Type 0 where
  pub numeric_date : ℕ → ℕ
  pub sign : Bytes → Bytes → Claims → Bytes
  pub parse : Bytes → Bytes → Bytes → Bytes → ℕ → Option Claims

pub record TokenService : Type 0 where
  pub issuer : Bytes
  pub service : Bytes
  pub ttl : ℕ

abbrev pub claims_of : Jwt → TokenService → Bytes → User → List AccessClaim → ℕ → Claims
claims_of jwt s random user access now = record {
  username = user.username;
  role = user.role;
  access = access;
  issuer = s.issuer;
  subject = user.id;
  audience = s.service ∷ [];
  expires_at = jwt.numeric_date (now + s.ttl);
  not_before = jwt.numeric_date (now - 5 * second);
  issued_at = jwt.numeric_date now;
  id = new_id (codes "tok") random;
}

module _ (base64 : Base64) (jwt : Jwt) (s : TokenService) where
  unfoldable pub mint : Bytes → User → List AccessClaim → ℕ → Step Database (Bytes × ℕ)
  unfolding active_signing_key
  mint random user access now = do
    key ← active_signing_key base64
    return (jwt.sign key.secret key.id (claims_of jwt s random user access now), now + s.ttl)

  abbrev pub parsed : Option Claims → Result Claims
  parsed none = err (failure (codes "invalid token"))
  parsed (some claims) = ok claims

  -- The end of Validate.
  unfoldable pub principal_of : User → Claims → ℕ → Result Principal
  principal_of user claims now =
      if not (beq user.status status_active)
      then err (failure (codes "user is not active"))
      else if not (started user.not_before now)
      then err (failure (codes "user is not valid yet"))
      else if not (unexpired user.expires_at now)
      then err (failure (codes "user is expired"))
      else ok (record {
        user_id = user.id;
        username = user.username;
        role = user.role;
        access = claims.access;
      })

  unfoldable pub validate : Bytes → ℕ → Step Database Principal
  unfolding active_signing_key principal_of get_user
  validate raw now = do
    key ← active_signing_key base64
    claims ← lift (parsed (jwt.parse key.secret raw s.service s.issuer now))
    user ← get_user claims.subject
    lift (principal_of user claims now)

  unfoldable pub ttl_seconds : ℕ
  ttl_seconds = s.ttl / second
