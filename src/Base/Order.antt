-- ===== src/Base/Order.antt =====
-- Go's order of strings, which is that of their bytes, and lists that are sorted by it.
use simplecontainerregistry.Base.{
  Bytes, Bool, true, false, ◌&&◌, ◌||◌, List, [], ◌∷◌, ltb, ◌==◌, ◌≡◌, refl, inl, inr, All, keep,
  arith, Bool-cases, if◌then◌else◌,
}

-- `s <= t`.
unfoldable pub lex_leb : Bytes → Bytes → Bool
lex_leb [] t = true
lex_leb (a ∷ s) [] = false
lex_leb (a ∷ s) (b ∷ t) = ltb a b || (a == b && lex_leb s t)

pub lex_leb_refl : (s : Bytes) → lex_leb s s ≡ true
unfolding lex_leb
lex_leb_refl [] = refl
lex_leb_refl (a ∷ s) = ground (arith, lex_leb_refl s)

pub lex_leb_trans : (r s t : Bytes) → lex_leb r s ≡ true → lex_leb s t ≡ true → lex_leb r t ≡ true
unfolding lex_leb
lex_leb_trans [] s t h k = refl
lex_leb_trans (a ∷ r) [] t h k = cc h
lex_leb_trans (a ∷ r) (b ∷ s) [] h k = cc k
lex_leb_trans (a ∷ r) (b ∷ s) (c ∷ t) h k = ground (arith, lex_leb_trans r s t)

pub lex_leb_total : (s t : Bytes) → lex_leb t s ≡ false → lex_leb s t ≡ true
unfolding lex_leb
lex_leb_total [] t h = refl
lex_leb_total (a ∷ s) [] h = cc h
lex_leb_total (a ∷ s) (b ∷ t) h = ground (arith, lex_leb_total s t)

-- `s < t`.
abbrev pub IsBefore : Bytes → Bytes → Type 0
IsBefore s t = lex_leb t s ≡ false

-- Sorted, without repeats.
abbrev pub IsSorted : List Bytes → Type 0
IsSorted [] = Unit
IsSorted (x ∷ xs) = All (IsBefore x) xs × IsSorted xs

pub All-keep :
    (P : Bytes → Type 0) (p : Bytes → Bool) (xs : List Bytes) → All P xs → All P (keep p xs)
unfolding keep
All-keep P p [] h = h
All-keep P p (x ∷ xs) (hx, h) = elim (Bool-cases (p x)) [
  | inl e ↦ rw e (hx, All-keep P p xs h)
  | inr e ↦ rw e (All-keep P p xs h)
]

pub IsSorted-keep : (p : Bytes → Bool) (xs : List Bytes) → IsSorted xs → IsSorted (keep p xs)
unfolding keep
IsSorted-keep p [] h = h
IsSorted-keep p (x ∷ xs) (hx, h) = elim (Bool-cases (p x)) [
  | inl e ↦ rw e (All-keep (IsBefore x) p xs hx, IsSorted-keep p xs h)
  | inr e ↦ rw e (IsSorted-keep p xs h)
]

-- insertion into a sorted list: sort.Strings, for lists without repeats.
unfoldable pub insert : Bytes → List Bytes → List Bytes
insert x [] = x ∷ []
insert x (y ∷ ys) = let rest = insert x ys in if lex_leb x y then x ∷ y ∷ ys else y ∷ rest

unfoldable pub sort_strings : List Bytes → List Bytes
unfolding insert
sort_strings [] = []
sort_strings (x ∷ xs) = insert x (sort_strings xs)
