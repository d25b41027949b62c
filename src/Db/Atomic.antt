-- ===== src/Db/Atomic.antt =====
-- internal/db/store.go: steps that change nothing when they fail, and steps that only read.
use simplecontainerregistry.Base.{
  Result, ok, err, List, [], ◌∷◌, ◌∙◌, Error, Bool, true, false, ◌≡◌, refl, ap, any, keep, arith,
  Bool-cases, inl, inr,
}
use simplecontainerregistry.Storage.Disk.{Step, ◌>>=◌, then_do, lift, return, on_error, catch_step}
use simplecontainerregistry.Db.Tables.{
  Database, transaction, end_transaction, query, query_result, execute, update_where, delete_where,
  require_affected,
}

pub data Reads {A : Type 0} (m : Step Database A) : Type 0 where
  reads : ((d : Database) → (m d).1 ≡ d) → Reads m

pub data Atomic {A : Type 0} (m : Step Database A) : Type 0 where
  atomic : ((d : Database) (e : Error) → (m d).0 ≡ err e → (m d).1 ≡ d) → Atomic m

pub apply_Atomic :
    {A : Type 0} {m : Step Database A}
    → Atomic m
    → (d : Database) (e : Error) → (m d).0 ≡ err e
    → (m d).1 ≡ d
apply_Atomic (atomic k) = k

pub apply_Reads : {A : Type 0} {m : Step Database A} → Reads m → (d : Database) → (m d).1 ≡ d
apply_Reads (reads k) = k

-- A step that was followed by success: it succeeded, and so did what followed.
pub then_do-eq-ok :
    {A B : Type 0} (r : Result A × Database) (f : A → Step Database B) (b : B)
    → (then_do r f).0 ≡ ok b
    → (a : A) × (r.0 ≡ ok a) × ((f a r.1).0 ≡ ok b)
then_do-eq-ok (ok a, d) f b h = (a, refl, h)
then_do-eq-ok (err e, d) f b h = cc h

pub then_do-ok :
    {A B : Type 0} (r : Result A × Database) (f : A → Step Database B) (a : A) (d : Database)
    → r.0 ≡ ok a
    → r.1 ≡ d
    → then_do r f ≡ f a d
then_do-ok (ok x, d') f a d h same = rw same (ap (λ (y : _). f y d) (cc h))
then_do-ok (err e, d') f a d h same = cc h

module _ {A : Type 0} where
  pub lift-Reads : (r : Result A) → Reads (lift r)
  lift-Reads r = reads (λ d. refl)

  pub query-Reads : (f : Database → A) → Reads (query f)
  query-Reads f = reads (λ d. refl)

  pub query_result-Reads : (f : Database → Result A) → Reads (query_result f)
  query_result-Reads f = reads (λ d. refl)

  end_transaction-Atomic :
      (before : Database) (after : Result A × Database) (e : Error)
      → (end_transaction before after).0 ≡ err e
      → (end_transaction before after).1 ≡ before
  end_transaction-Atomic before (ok a, after) e h = cc h
  end_transaction-Atomic before (err x, after) e h = refl

  pub transaction-Atomic : (m : Step Database A) → Atomic (transaction m)
  transaction-Atomic m = atomic (λ d. end_transaction-Atomic d (m d))

  pub Reads-Atomic : {m : Step Database A} → Reads m → Atomic m
  Reads-Atomic (reads k) = atomic (λ d e _. k d)

  catch_step-Atomic :
      (test : Error → Bool) (k : Step Database A) (d : Database) (after : Result A × Database)
      → Atomic k
      → after.1 ≡ d
      → (e : Error) → (catch_step test k after).0 ≡ err e
      → (catch_step test k after).1 ≡ d
  catch_step-Atomic test k d (ok a, after) kept same e h = same
  catch_step-Atomic test k d (err x, after) (atomic kept) same e h = elim (Bool-cases (test x)) [
    | inl t ↦ rw (t, same) (kept d e (rw (t, same) at h))
    | inr t ↦ rw t same
  ]

  pub on_error-Atomic :
      (test : Error → Bool) (k m : Step Database A)
      → Atomic k
      → Reads m
      → Atomic (on_error test k m)
  on_error-Atomic test k m kept (reads same) =
      atomic (λ d. catch_step-Atomic test k d (m d) kept (same d))

pub execute-Atomic : (f : Database → Database) → Atomic (execute f)
execute-Atomic f = atomic (λ d e h. cc h)

module _ {A B : Type 0} where
  then_do-Atomic :
      (d : Database) (r : Result A × Database) (f : A → Step Database B)
      → r.1 ≡ d
      → ((a : A) → Atomic (f a))
      → (e : Error) → (then_do r f).0 ≡ err e
      → (then_do r f).1 ≡ d
  then_do-Atomic d (ok a, d') f same rest e h = apply_Atomic (rest a) d' e h ∙ same
  then_do-Atomic d (err x, d') f same rest e h = same

  -- What reads first and then fails or not.
  pub bind-Atomic :
      (m : Step Database A) (f : A → Step Database B)
      → Reads m
      → ((a : A) → Atomic (f a))
      → Atomic (m >>= f)
  bind-Atomic m f (reads k) rest = atomic (λ d. then_do-Atomic d (m d) f (k d) rest)

  then_do-Reads :
      (d : Database) (r : Result A × Database) (f : A → Step Database B)
      → r.1 ≡ d
      → ((a : A) → Reads (f a))
      → (then_do r f).1 ≡ d
  then_do-Reads d (ok a, d') f same rest = elim (rest a) [ reads k ↦ k d' ∙ same ]
  then_do-Reads d (err x, d') f same rest = same

  pub bind-Reads :
      (m : Step Database A) (f : A → Step Database B)
      → Reads m
      → ((a : A) → Reads (f a))
      → Reads (m >>= f)
  bind-Reads m f (reads k) rest = reads (λ d. then_do-Reads d (m d) f (k d) rest)

  then_return-Atomic :
      (d : Database) (r : Result A × Database) (f : A → B)
      → ((x : Error) → r.0 ≡ err x → r.1 ≡ d)
      → (e : Error) → (then_do r (λ a. return (f a))).0 ≡ err e
      → (then_do r (λ a. return (f a))).1 ≡ d
  then_return-Atomic d (ok a, d') f same e h = cc h
  then_return-Atomic d (err x, d') f same e h = same x refl

  -- What comes last and cannot fail.
  pub return-Atomic :
      (m : Step Database A) (f : A → B) → Atomic m → Atomic (m >>= λ a. return (f a))
  return-Atomic m f (atomic k) = atomic (λ d. then_return-Atomic d (m d) f (k d))

module _ {A : Type 0} where
  pub update_where_none :
      (p : A → Bool) (f : A → A) (xs : List A) → any p xs ≡ false → update_where p f xs ≡ xs
  unfolding any update_where
  update_where_none p f [] h = refl
  update_where_none p f (x ∷ xs) h = ground (arith, update_where_none p f xs)

  pub delete_where_none : (p : A → Bool) (xs : List A) → any p xs ≡ false → delete_where p xs ≡ xs
  unfolding any delete_where keep
  delete_where_none p [] h = refl
  delete_where_none p (x ∷ xs) h = ground (arith, delete_where_none p xs)

pub require_affected-err : (b : Bool) (e : Error) → require_affected b ≡ err e → b ≡ false
unfolding require_affected
require_affected-err true e h = cc h
require_affected-err false e h = refl

pub ruleset atomic_steps = (
  bind-Atomic, transaction-Atomic, execute-Atomic, lift-Reads, query-Reads, query_result-Reads,
  bind-Reads, Reads-Atomic,
)
