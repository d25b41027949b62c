-- ===== src/Db/Keeping.antt =====
-- internal/db/store.go: steps that keep a property of the database, whether they succeed or fail.
use simplecontainerregistry.Base.{Result, ok, err, Error, Bool, true, false, if◌then◌else◌}
use simplecontainerregistry.Storage.Disk.{Step, ◌>>=◌, then_do, lift, on_error, catch_step}
use simplecontainerregistry.Db.Tables.{
  Database, transaction, end_transaction, execute, query, query_result,
}

pub data Keeps {A : Type 0} (P : Database → Type 0) (m : Step Database A) : Type 0 where
  keeps : ((d : Database) → P d → P (m d).1) → Keeps P m

pub apply_Keeps :
    {A : Type 0} {P : Database → Type 0} {m : Step Database A}
    → Keeps P m
    → (d : Database) → P d
    → P (m d).1
apply_Keeps (keeps k) = k

pub execute-Keeps :
    (P : Database → Type 0) (f : Database → Database)
    → ((d : Database) → P d → P (f d))
    → Keeps P (execute f)
execute-Keeps P f h = keeps h

module _ (P : Database → Type 0) {A : Type 0} where
  pub lift-Keeps : (r : Result A) → Keeps P (lift r)
  lift-Keeps r = keeps (λ d h. h)

  pub query-Keeps : (f : Database → A) → Keeps P (query f)
  query-Keeps f = keeps (λ d h. h)

  pub query_result-Keeps : (f : Database → Result A) → Keeps P (query_result f)
  query_result-Keeps f = keeps (λ d h. h)

  end_transaction-Keeps :
      (before : Database) (after : Result A × Database)
      → P before
      → P after.1
      → P (end_transaction before after).1
  end_transaction-Keeps before (ok a, after) h k = k
  end_transaction-Keeps before (err e, after) h k = h

  pub transaction-Keeps : (m : Step Database A) → Keeps P m → Keeps P (transaction m)
  transaction-Keeps m (keeps k) = keeps (λ d h. end_transaction-Keeps d (m d) h (k d h))

  choose-Keeps : (b : Bool) (x y : Result A × Database) → P x.1 → P y.1 → P (if b then x else y).1
  choose-Keeps true x y h k = h
  choose-Keeps false x y h k = k

  catch_step-Keeps :
      (test : Error → Bool) (k : Step Database A) (after : Result A × Database)
      → Keeps P k
      → P after.1
      → P (catch_step test k after).1
  catch_step-Keeps test k (ok a, after) kept h = h
  catch_step-Keeps test k (err e, after) kept h =
      choose-Keeps (test e) (k after) (err e, after) (apply_Keeps kept after h) h

  pub on_error-Keeps :
      (test : Error → Bool) (k m : Step Database A)
      → Keeps P k
      → Keeps P m
      → Keeps P (on_error test k m)
  on_error-Keeps test k m kept_k (keeps kept_m) =
      keeps (λ d h. catch_step-Keeps test k (m d) kept_k (kept_m d h))

module _ (P : Database → Type 0) {A B : Type 0} where
  then_do-Keeps :
      (r : Result A × Database) (f : A → Step Database B)
      → P r.1
      → ((a : A) → Keeps P (f a))
      → P (then_do r f).1
  then_do-Keeps (ok a, d) f h kept = apply_Keeps (kept a) d h
  then_do-Keeps (err e, d) f h kept = h

  pub bind-Keeps :
      (m : Step Database A) (f : A → Step Database B)
      → Keeps P m
      → ((a : A) → Keeps P (f a))
      → Keeps P (m >>= f)
  bind-Keeps m f (keeps k) rest = keeps (λ d h. then_do-Keeps (m d) f (k d h) rest)

pub ruleset keeping = (bind-Keeps, lift-Keeps, query-Keeps, query_result-Keeps, transaction-Keeps)
