-- ===== src/Db/Rows.antt =====
-- internal/db/store.go: laws of the statements on rows.
use simplecontainerregistry.Base.{
  Bool, true, false, ◌&&◌, List, [], ◌∷◌, ◌++◌, ◌≡◌, refl, ◌∙◌, inl, inr, keep, any, All,
  All-append, Bool-cases, arith,
}
use simplecontainerregistry.Db.Tables.{update_where, delete_where, upsert_row}

module _ {A : Type 0} where
  pub any-append : (q : A → Bool) (xs ys : List A) → any q xs ≡ true → any q (xs ++ ys) ≡ true
  unfolding any
  any-append q [] ys h = cc h
  any-append q (x ∷ xs) ys h = ground (arith, any-append q xs ys)

  pub any_last : (q : A → Bool) (xs : List A) (y : A) → q y ≡ true → any q (xs ++ y ∷ []) ≡ true
  unfolding any
  any_last q [] y h = ground arith
  any_last q (x ∷ xs) y h = ground (arith, any_last q xs y h)

  -- A change that keeps a test keeps whether some row passes it.
  pub any-update_where :
      (q p : A → Bool) (f : A → A) (xs : List A)
      → ((x : A) → q (f x) ≡ q x)
      → any q (update_where p f xs) ≡ any q xs
  unfolding any update_where
  any-update_where q p f [] h = refl
  any-update_where q p f (x ∷ xs) h = ground (arith, h x, any-update_where q p f xs h)

  pub any-upsert_row :
      (q p : A → Bool) (row : A) (f : A → A) (xs : List A)
      → ((x : A) → q (f x) ≡ q x)
      → any q xs ≡ true
      → any q (upsert_row p row f xs) ≡ true
  unfolding upsert_row
  any-upsert_row q p row f xs h held = elim (Bool-cases (any p xs)) [
    | inl e ↦ rw e (any-update_where q p f xs h ∙ held)
    | inr e ↦ rw e (any-append q xs (row ∷ []) held)
  ]

  -- After an upsert there is a row with the key.
  pub any-upsert_row_self :
      (p : A → Bool) (row : A) (f : A → A) (xs : List A)
      → ((x : A) → p (f x) ≡ p x)
      → p row ≡ true
      → any p (upsert_row p row f xs) ≡ true
  unfolding upsert_row
  any-upsert_row_self p row f xs h held = elim (Bool-cases (any p xs)) [
    | inl e ↦ rw e (any-update_where p p f xs h ∙ e)
    | inr e ↦ rw e (any_last p xs row held)
  ]

  pub All-update_where :
      (P Q : A → Type 0) (p : A → Bool) (f : A → A) (xs : List A)
      → ((x : A) → P x → p x ≡ true → Q (f x))
      → ((x : A) → P x → p x ≡ false → Q x)
      → All P xs
      → All Q (update_where p f xs)
  unfolding update_where
  All-update_where P Q p f [] change same h = tt
  All-update_where P Q p f (x ∷ xs) change same (hx, h) = elim (Bool-cases (p x)) [
    | inl e ↦ rw e (change x hx e, All-update_where P Q p f xs change same h)
    | inr e ↦ rw e (same x hx e, All-update_where P Q p f xs change same h)
  ]

  pub All-map : (P Q : A → Type 0) (xs : List A) → ((x : A) → P x → Q x) → All P xs → All Q xs
  All-map P Q [] f h = tt
  All-map P Q (x ∷ xs) f (hx, h) = (f x hx, All-map P Q xs f h)

  pub All-upsert_row :
      (P Q : A → Type 0) (p : A → Bool) (row : A) (f : A → A) (xs : List A)
      → ((x : A) → P x → p x ≡ true → Q (f x))
      → ((x : A) → P x → Q x)
      → (any p xs ≡ false → Q row)
      → All P xs
      → All Q (upsert_row p row f xs)
  unfolding upsert_row
  All-upsert_row P Q p row f xs change same new h = elim (Bool-cases (any p xs)) [
    | inl e ↦ rw e (All-update_where P Q p f xs change (λ x hx _. same x hx) h)
    | inr e ↦ rw e (All-append Q xs (row ∷ []) (All-map P Q xs same h) (new e, tt))
  ]

  -- Of the rows that are left, what held of all and was not deleted.
  pub All-delete_where :
      (P Q : A → Type 0) (p : A → Bool) (xs : List A)
      → ((x : A) → P x → p x ≡ false → Q x)
      → All P xs
      → All Q (delete_where p xs)
  unfolding delete_where keep
  All-delete_where P Q p [] same h = tt
  All-delete_where P Q p (x ∷ xs) same (hx, h) = elim (Bool-cases (p x)) [
    | inl e ↦ rw e (All-delete_where P Q p xs same h)
    | inr e ↦ rw e (same x hx e, All-delete_where P Q p xs same h)
  ]

  -- A row that passes `q` and is not deleted is still there.
  pub any-delete_where :
      (q p : A → Bool) (xs : List A)
      → any q xs ≡ true
      → any (λ x. p x && q x) xs ≡ false
      → any q (delete_where p xs) ≡ true
  unfolding any delete_where keep
  any-delete_where q p [] h none_deleted = cc h
  any-delete_where q p (x ∷ xs) h none_deleted = ground (arith, any-delete_where q p xs)

  -- Rows outside a selection do not see a change inside it.
  pub keep-update_where :
      (q p : A → Bool) (f : A → A) (xs : List A)
      → ((x : A) → p x ≡ true → q x ≡ false)
      → ((x : A) → p x ≡ true → q (f x) ≡ false)
      → keep q (update_where p f xs) ≡ keep q xs
  unfolding keep update_where
  keep-update_where q p f [] old new = refl
  keep-update_where q p f (x ∷ xs) old new =
      ground (arith, old x, new x, keep-update_where q p f xs old new)

  pub keep-delete_where :
      (q p : A → Bool) (xs : List A)
      → ((x : A) → q x ≡ true → p x ≡ false)
      → keep q (delete_where p xs) ≡ keep q xs
  unfolding keep delete_where
  keep-delete_where q p [] h = refl
  keep-delete_where q p (x ∷ xs) h = ground (arith, h x, keep-delete_where q p xs h)

  keep_last :
      (q : A → Bool) (row : A) (xs : List A) → q row ≡ false → keep q (xs ++ row ∷ []) ≡ keep q xs
  unfolding keep
  keep_last q row [] held = rw held
  keep_last q row (x ∷ xs) held = ground (arith, keep_last q row xs held)

  pub keep-upsert_row :
      (q p : A → Bool) (row : A) (f : A → A) (xs : List A)
      → ((x : A) → p x ≡ true → q x ≡ false)
      → ((x : A) → p x ≡ true → q (f x) ≡ false)
      → q row ≡ false
      → keep q (upsert_row p row f xs) ≡ keep q xs
  unfolding upsert_row
  keep-upsert_row q p row f xs old new held = elim (Bool-cases (any p xs)) [
    | inl e ↦ rw e (keep-update_where q p f xs old new)
    | inr e ↦ rw e (keep_last q row xs held)
  ]

  pub any-false : (q : A → Bool) (xs : List A) → ((x : A) → q x ≡ false) → any q xs ≡ false
  unfolding any
  any-false q [] h = refl
  any-false q (x ∷ xs) h = ground (arith, h x, any-false q xs h)

  pub keep-delete_where_nil :
      (q p : A → Bool) (xs : List A) → keep q xs ≡ [] → keep q (delete_where p xs) ≡ []
  unfolding keep delete_where
  keep-delete_where_nil q p [] h = refl
  keep-delete_where_nil q p (x ∷ xs) h = ground (arith, keep-delete_where_nil q p xs)
