-- ===== src/Base/Sets.antt =====
-- Laws of the tests on lists: membership of a string, and the elements that pass a test.
use simplecontainerregistry.Base.Tests.{Bool-cases}
use simplecontainerregistry.Base.Lists.{Bytes, In, any, all, keep, elem}
use mathlib.Core.Path.{◌≡◌, refl}
use mathlib.Core.Logic.{inl, inr}
use mathlib.Core.Bool.{Bool, true, false, ◌||◌}
use mathlib.Core.List.{List, [], ◌∷◌, ◌++◌}
use native.Mathlib.Omega.{arith}

pub elem-append : (a : Bytes) (xs ys : List Bytes) → elem a (xs ++ ys) ≡ (elem a xs || elem a ys)
unfolding elem
elem-append a [] ys = refl
elem-append a (x ∷ xs) ys = ground (arith, elem-append a xs ys)

-- No string occurs twice.
abbrev pub NoRepeat : List Bytes → Type 0
NoRepeat [] = Unit
NoRepeat (x ∷ xs) = (elem x xs ≡ false) × NoRepeat xs

module _ {A : Type 0} where
  any_tail :
      (p : A → Bool) (x : A) (xs : List A) → p x ≡ false → any p (x ∷ xs) ≡ true → any p xs ≡ true
  unfolding any
  any_tail p x xs e h = ground arith

  -- A test that some element passes has one that passes it.
  pub any-In : (p : A → Bool) (xs : List A) → any p xs ≡ true → (x : A) × In x xs × (p x ≡ true)
  any-In p [] h = unfold any in cc h
  any-In p (x ∷ xs) h = elim (Bool-cases (p x)) [
    | inl e ↦ (x, inl refl, e)
    | inr e ↦ let (y, m, q) = any-In p xs (any_tail p x xs e h) in (y, inr m, q)
  ]

  pub In-any : (p : A → Bool) (xs : List A) (x : A) → In x xs → p x ≡ true → any p xs ≡ true
  unfolding any
  In-any p [] x m h = elim m [ ]
  In-any p (y ∷ xs) x (inl e) h = rw e (rw h)
  In-any p (y ∷ xs) x (inr m) h = ground (arith, In-any p xs x m h)

  pub all-In : (p : A → Bool) (xs : List A) (x : A) → all p xs ≡ true → In x xs → p x ≡ true
  unfolding all
  all-In p [] x h m = elim m [ ]
  all-In p (y ∷ xs) x h (inl e) = rw (← e) (ground arith)
  all-In p (y ∷ xs) x h (inr m) = ground (arith, all-In p xs x (ground arith) m)

  pub In-keep : (p : A → Bool) (xs : List A) (x : A) → In x xs → p x ≡ true → In x (keep p xs)
  unfolding keep
  In-keep p [] x m h = elim m [ ]
  In-keep p (y ∷ xs) x (inl e) h = rw (e, h) (inl refl)
  In-keep p (y ∷ xs) x (inr m) h = elim (Bool-cases (p y)) [
    | inl e ↦ rw e (inr (In-keep p xs x m h))
    | inr e ↦ rw e (In-keep p xs x m h)
  ]

  -- What is kept passes the test and was there.
  pub keep-In : (p : A → Bool) (xs : List A) (x : A) → In x (keep p xs) → In x xs × (p x ≡ true)
  unfolding keep
  keep-In p [] x m = elim m [ ]
  keep-In p (y ∷ xs) x m = elim (Bool-cases (p y)) [
    | inl e ↦ elim (rw e at m) as (λ _. In x (y ∷ xs) × (p x ≡ true)) [
      | inl q ↦ (inl q, rw (← q) e)
      | inr n ↦ let (a, b) = keep-In p xs x n in (inr a, b)
    ]
    | inr e ↦ let (a, b) = keep-In p xs x (rw e at m) in (inr a, b)
  ]
