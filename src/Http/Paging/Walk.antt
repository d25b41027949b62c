-- ===== src/Http/Paging/Walk.antt =====
-- internal/httpserver/server.go: a client that follows the Link headers of a list.
use simplecontainerregistry.Base.{
  ℕ, zero, suc, ◌-◌, ◌≤◌, ◌<◌, Bytes, Bool, true, false, List, [], ◌∷◌, ◌++◌, none, some, ltb,
  is_nil, append_nil, keep, take, drop, length, ◌≡◌, refl, sym, ap, ◌∙◌, inl, inr, All, arith,
  Bool-cases, if◌then◌else◌,
}
use simplecontainerregistry.Base.Order.{
  lex_leb, lex_leb_refl, lex_leb_trans, lex_leb_total, IsBefore, IsSorted, IsSorted-keep, All-keep,
}
use simplecontainerregistry.Http.Paging.{Page, cut_page, page_strings, is_past, at_index}

take-take : (n : ℕ) (xs : List Bytes) → take n (take (suc n) xs) ≡ take n xs
take-take zero xs = refl
take-take (suc n) [] = refl
take-take (suc n) (x ∷ xs) = ap (λ (t : List Bytes). x ∷ t) (take-take n xs)

length-take : (n : ℕ) (xs : List Bytes) → n < length xs → length (take (suc n) xs) ≡ suc n
length-take zero [] h = omega (arith, h)
length-take zero (x ∷ xs) h = refl
length-take (suc n) [] h = omega (arith, h)
length-take (suc n) (x ∷ xs) h = ap (λ k. suc k) (length-take n xs (omega (arith, h)))

at_index-take : (n : ℕ) (xs : List Bytes) → at_index n (take (suc (suc n)) xs) ≡ at_index n xs
at_index-take zero [] = refl
at_index-take zero (x ∷ xs) = refl
at_index-take (suc n) [] = refl
at_index-take (suc n) (x ∷ xs) = at_index-take n xs

positive : (n : ℕ) → ltb 0 (suc n) ≡ true
positive n = ground arith

cut_page-page_strings :
    (limit : ℕ) (values : List Bytes) (last : Bytes)
    → cut_page limit (page_strings values last limit) ≡ cut_page limit (keep (is_past last) values)
unfolding cut_page page_strings
cut_page-page_strings zero values last = refl
cut_page-page_strings (suc n) values last =
    let names = keep (is_past last) values in
    elim (Bool-cases (ltb (suc n) (length names))) [
      | inr e ↦ rw (positive n, e, e) refl
      | inl e ↦
          let len = length-take (suc n) names (ground (arith, e)) in
          let more : ltb (suc n) (suc (suc n)) ≡ true = ground arith in
          let pred : suc n - 1 ≡ n = omega arith in
          rw (positive n, e, len, more, take-take (suc n) names, pred, at_index-take n names) refl
    ]

abbrev pub after_page : (Bytes → List Bytes) → Page → List Bytes
after_page next p = p.names ++ (elim p.next_last [ none ↦ [] | some after ↦ next after ])

-- The client: every page, then the page behind its Link; `fuel` bounds the requests.
unfoldable pub walk : ℕ → ℕ → List Bytes → Bytes → List Bytes
walk zero limit values last = []
walk (suc fuel) limit values last =
    let next = walk fuel limit values in
    let p = cut_page limit (page_strings values last limit) in after_page next p

walk-suc :
    (fuel limit : ℕ) (values : List Bytes) (last : Bytes)
    → walk (suc fuel) limit values last
      ≡ after_page (walk fuel limit values) (cut_page limit (keep (is_past last) values))
unfolding walk
walk-suc fuel limit values last =
    ap (λ p. after_page (walk fuel limit values) p) (cut_page-page_strings limit values last)

-- The values behind an element of a sorted list are those past it.
keep-eq : (p : Bytes → Bool) (xs : List Bytes) → All (λ x. p x ≡ true) xs → keep p xs ≡ xs
unfolding keep
keep-eq p [] h = refl
keep-eq p (x ∷ xs) (hx, h) = rw hx (ap (λ (t : List Bytes). x ∷ t) (keep-eq p xs h))

module _ {P Q : Bytes → Type 0} where
  All-map : ((x : Bytes) → P x → Q x) → (xs : List Bytes) → All P xs → All Q xs
  All-map f [] h = h
  All-map f (x ∷ xs) (hx, h) = (f x hx, All-map f xs h)

module _ (P : Bytes → Type 0) where
  All-at_index : (n : ℕ) (xs : List Bytes) → n < length xs → All P xs → P (at_index n xs)
  All-at_index n [] h p = absurd (omega (arith, h))
  All-at_index zero (x ∷ xs) h p = p.0
  All-at_index (suc n) (x ∷ xs) h p = All-at_index n xs (omega (arith, h)) p.1

keep-is_past :
    (n : ℕ) (xs : List Bytes)
    → n < length xs
    → IsSorted xs
    → All (λ x. is_nil x ≡ false) xs
    → keep (is_past (at_index n xs)) xs ≡ drop (suc n) xs
unfolding keep is_past
keep-is_past n [] h s f = absurd (omega (arith, h))
keep-is_past zero (x ∷ xs) h (hx, s) (fx, f) =
    rw (fx, lex_leb_refl x) (keep-eq (is_past x) xs (All-map (λ y b. rw (fx, b) refl) xs hx))
keep-is_past (suc n) (x ∷ xs) h (hx, s) (fx, f) =
    let k : n < length xs = omega (arith, h) in
    let y = at_index n xs in
    rw
      (
        All-at_index (λ x. is_nil x ≡ false) n xs k f,
        lex_leb_total x y (All-at_index (IsBefore x) n xs k hx),
      )
      (keep-is_past n xs k s f)

keep-keep :
    (p q : Bytes → Bool) (xs : List Bytes)
    → ((x : Bytes) → p x ≡ true → q x ≡ true)
    → keep p (keep q xs) ≡ keep p xs
unfolding keep
keep-keep p q [] h = refl
keep-keep p q (x ∷ xs) h = elim (Bool-cases (q x)) [
  | inl e ↦ rw e (ap (λ (t : List Bytes). if p x then x ∷ t else t) (keep-keep p q xs h))
  | inr e ↦ elim (Bool-cases (p x)) [
    | inl pe ↦ cc (e, h x pe)
    | inr pe ↦ rw (e, pe) (keep-keep p q xs h)
  ]
]

keep-All : (p : Bytes → Bool) (xs : List Bytes) → All (λ x. p x ≡ true) (keep p xs)
unfolding keep
keep-All p [] = tt
keep-All p (x ∷ xs) = elim (Bool-cases (p x)) [
  | inl e ↦ rw (e, e) (refl, keep-All p xs)
  | inr e ↦ rw e (keep-All p xs)
]

-- A later `last` asks for less.
is_past_mono :
    (last after x : Bytes)
    → is_nil after ≡ false
    → is_past last after ≡ true
    → is_past after x ≡ true
    → is_past last x ≡ true
unfolding is_past
is_past_mono last after x n h k = elim (Bool-cases (is_nil last)) [
  | inl e ↦ rw e refl
  | inr e ↦ elim (Bool-cases (lex_leb x last)) [
    | inr f ↦ rw (e, f) refl
    | inl f ↦ elim (Bool-cases (lex_leb after last)) [
      | inl g ↦ cc (rw (e, g) at h)
      | inr g ↦
          let t = lex_leb_trans x last after f (lex_leb_total last after g) in cc (rw (n, t) at k)
    ]
  ]
]

take-drop : (n : ℕ) (xs : List Bytes) → take n xs ++ drop n xs ≡ xs
take-drop zero xs = refl
take-drop (suc n) [] = refl
take-drop (suc n) (x ∷ xs) = ap (λ (t : List Bytes). x ∷ t) (take-drop n xs)

length-drop : (n : ℕ) (xs : List Bytes) → length (drop n xs) ≡ length xs - n
length-drop zero xs = omega arith
length-drop (suc n) [] = omega arith
length-drop (suc n) (x ∷ xs) = omega (arith, length-drop n xs)

-- What is past the last value of a page, is what the page left out.
keep-after :
    (n : ℕ) (values : List Bytes) (last : Bytes)
    → n < length (keep (is_past last) values)
    → IsSorted values
    → All (λ x. is_nil x ≡ false) values
    → keep (is_past (at_index n (keep (is_past last) values))) values
      ≡ drop (suc n) (keep (is_past last) values)
keep-after n values last k s f =
    let names = keep (is_past last) values in
    let after = at_index n names in
    let given = All-keep (λ x. is_nil x ≡ false) (is_past last) values f in
    let filled = All-at_index (λ x. is_nil x ≡ false) n names k given in
    let past =
      All-at_index (λ x. is_past last x ≡ true) n names k (keep-All (is_past last) values) in
    sym (
      keep-keep (is_past after) (is_past last) values
        (λ x p. is_past_mono last after x filled past p))
    ∙ keep-is_past n names k (IsSorted-keep (is_past last) values s) given

-- A client that asks for pages of `limit` values, at least one, of a sorted list without empty values,
-- and follows the Links gets every value behind its starting point exactly once and in order, in at
-- most one request more than there are such values.
pub walk-eq :
    (fuel limit : ℕ) (values : List Bytes) (last : Bytes)
    → 0 < limit
    → IsSorted values
    → All (λ x. is_nil x ≡ false) values
    → length (keep (is_past last) values) ≤ fuel
    → walk (suc fuel) limit values last ≡ keep (is_past last) values
unfolding cut_page
walk-eq fuel zero values last h s f bound = absurd (omega (arith, h))
walk-eq zero (suc n) values last h s f bound =
    let names = keep (is_past last) values in
    let e : ltb (suc n) (length names) ≡ false = ground (arith, bound) in
    rw (walk-suc zero (suc n) values last, positive n, e) (append_nil names)
walk-eq (suc fuel) (suc n) values last h s f bound =
    let names = keep (is_past last) values in
    let pred : suc n - 1 ≡ n = omega arith in
    elim (Bool-cases (ltb (suc n) (length names))) [
      | inr e ↦ rw (walk-suc (suc fuel) (suc n) values last, positive n, e) (append_nil names)
      | inl e ↦
          let k : n < length names = ground (arith, e) in
          let rest = keep-after n values last k s f in
          let len : length (drop (suc n) names) ≤ fuel =
            omega (arith, bound, length-drop (suc n) names) in
          rw (walk-suc (suc fuel) (suc n) values last, positive n, e, pred)
            (ap (λ (t : List Bytes). take (suc n) names ++ t)
                (walk-eq fuel (suc n) values (at_index n names) h s f (rw rest len) ∙ rest)
              ∙ take-drop (suc n) names)
    ]
