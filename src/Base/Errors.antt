-- ===== src/Base/Errors.antt =====
-- Go's `(value, error)`: the sentinel errors that the program tells apart by `errors.Is`, and every
-- other error as a text without its formatted arguments.
use mathlib.Core.Path.{◌≡◌, refl}
use mathlib.Core.Logic.{◌⊎◌, inl, inr}
use simplecontainerregistry.Base.Lists.{Bytes}

pub data Error : Type 0 where
  -- storage.ErrNotFound, which is os.ErrNotExist
  not_exist : Error
  -- os.ErrExist
  exists : Error
  -- storage.ErrInvalidDigest
  invalid_digest : Error
  -- storage.ErrInvalidReference
  invalid_reference : Error
  -- httpserver.ErrTagOverwriteProtected
  tag_overwrite_protected : Error
  -- httpserver.errUploadTooLarge
  upload_too_large : Error
  -- auth.ErrInvalidCredentials
  invalid_credentials : Error
  -- db.ErrNotFound
  db_not_found : Error
  failure : Bytes → Error

pub data Result {ℓ} (A : Type ℓ) : Type ℓ where
  err : Error → Result A
  ok : A → Result A

pub Result-cases {ℓ} :
    {A : Type ℓ} (r : Result A) → ((a : A) × (r ≡ ok a)) ⊎ ((e : Error) × (r ≡ err e))
Result-cases (ok a) = inl (a, refl)
Result-cases (err e) = inr (e, refl)

-- Go's `if err != nil { return err }` behind a call.
infixl 5 ◌>>=◌
abbrev pub ◌>>=◌ {ℓ κ} :
    {Value : Type ℓ} {Next : Type κ} → Result Value → (Value → Result Next) → Result Next
err e >>= rest = err e
ok value >>= rest = rest value

-- A call was followed by success: it succeeded, and so did what followed.
pub >>=-eq-ok {ℓ κ} :
    {Value : Type ℓ} {Next : Type κ} (call : Result Value) (rest : Value → Result Next)
    {result : Next}
    → (call >>= rest) ≡ ok result
    → (value : Value) × (call ≡ ok value) × (rest value ≡ ok result)
>>=-eq-ok (err e) rest h = cc h
>>=-eq-ok (ok value) rest h = (value, refl, h)
