-- ===== src/Base/Laws.antt =====
-- The laws of the text functions, in the form the components use.
use simplecontainerregistry.Base.Tests.{◌==◌, Bool-cases, Option-cases, is_some, if◌then◌else◌}
use simplecontainerregistry.Base.Lists.{Bytes, All, In, beq, beq_iff, elem}
use simplecontainerregistry.Base.Text.{strip_prefix, cut, widen, contains, split, push, join}
use Prim.Native.Nat.{ℕ}
use mathlib.Core.Path.{◌≡◌, refl, sym, ap, ◌∙◌}
use mathlib.Core.Logic.{◌≢◌, inl, inr}
use mathlib.Core.Bool.{true, false}
use mathlib.Core.Option.{Option, none, some}
use mathlib.Core.List.{List, [], ◌∷◌, ◌++◌}
use native.Mathlib.Omega.{arith}

-- What is stripped is a prefix.
pub strip_prefix-eq : (p s r : Bytes) → strip_prefix p s ≡ some r → s ≡ p ++ r
unfolding strip_prefix
strip_prefix-eq [] s r h = ground arith
strip_prefix-eq (p ∷ ps) [] r h = cc
strip_prefix-eq (p ∷ ps) (c ∷ s) r h = ground (arith, strip_prefix-eq ps s r)

pub strip_prefix-append : (p r : Bytes) → strip_prefix p (p ++ r) ≡ some r
unfolding strip_prefix
strip_prefix-append [] r = refl
strip_prefix-append (p ∷ ps) r = ground (arith, strip_prefix-append ps r)

widen-eq-some :
    (c : ℕ) (o : Option (Bytes × Bytes)) (a b : Bytes)
    → widen c o ≡ some (a, b)
    → (a' : Bytes) × (a ≡ c ∷ a') × (o ≡ some (a', b))
widen-eq-some c none a b h = cc
widen-eq-some c (some (a', b')) a b h = (a', ground arith, ground arith)

pub cut_at : (s sep r : Bytes) → strip_prefix sep s ≡ some r → cut s sep ≡ some ([], r)
unfolding cut
cut_at [] sep r h = ground arith
cut_at (c ∷ s) sep r h = ground arith

cut_past :
    (c : ℕ) (s sep : Bytes)
    → strip_prefix sep (c ∷ s) ≡ none
    → cut (c ∷ s) sep ≡ widen c (cut s sep)
unfolding cut
cut_past c s sep h = rw (h, cut)

-- `Cut` takes the text apart and loses nothing.
pub cut-eq : (s sep a b : Bytes) → cut s sep ≡ some (a, b) → s ≡ a ++ (sep ++ b)
cut-eq [] sep a b h = unfold cut in ground (arith, strip_prefix-eq sep [] b)
cut-eq (c ∷ s) sep a b h = elim (Option-cases (strip_prefix sep (c ∷ s))) [
  | inl e ↦
      let (a', ea, eo) = widen-eq-some c (cut s sep) a b (rw (cut_past c s sep e) at h) in
      ap (λ (t : Bytes). c ∷ t) (cut-eq s sep a' b eo)
      ∙ ap (λ (t : Bytes). t ++ (sep ++ b)) (sym ea)
  | inr (r, e) ↦ ground (arith, strip_prefix-eq sep (c ∷ s) r, cut_at (c ∷ s) sep r e)
]

-- A text that `Cut` refuses does not hold the separator.
pub cut-append : (a sep b : Bytes) → cut (a ++ (sep ++ b)) sep ≢ none
cut-append [] sep b h = cc (h, cut_at (sep ++ b) sep b (strip_prefix-append sep b))
cut-append (c ∷ a) sep b h = elim (Option-cases (strip_prefix sep (c ∷ (a ++ (sep ++ b))))) [
  | inl e ↦ ground (arith, cut-append a sep b, cut_past c (a ++ (sep ++ b)) sep e)
  | inr (r, e) ↦ cc (h, cut_at _ sep r e)
]

elem_tail :
    (a x : Bytes) (xs : List Bytes) → beq x a ≡ false → elem a (x ∷ xs) ≡ true → elem a xs ≡ true
unfolding elem
elem_tail a x xs e h = ground arith

-- The byte that `c` separates by does not occur.
abbrev pub Lacks : ℕ → Bytes → Type 0
Lacks b = All (λ c. c ≢ b)

cut_byte :
    (b c : ℕ) (s : Bytes)
    → cut (c ∷ s) (b ∷ []) ≡ (if b == c then some ([], s) else widen c (cut s (b ∷ [])))
unfolding cut strip_prefix
cut_byte b c s = ground arith

-- `Cut` by one byte finds the first one.
pub cut-Lacks : (b : ℕ) (s x y : Bytes) → cut s (b ∷ []) ≡ some (x, y) → Lacks b x
cut-Lacks b [] x y h = unfold cut strip_prefix in cc h
cut-Lacks b (c ∷ s) x y h = elim (Bool-cases (b == c)) [
  | inl e ↦ ground (arith, cut_byte b c s)
  | inr e ↦
      let eq : widen c (cut s (b ∷ [])) ≡ some (x, y) = ground (arith, cut_byte b c s) in
      let (x', ex, ec) = widen-eq-some c (cut s (b ∷ [])) x y eq in
      rw ex (ground arith, cut-Lacks b s x' y ec)
]

pub cut_byte-Lacks : (b : ℕ) (s : Bytes) → cut s (b ∷ []) ≡ none → Lacks b s
cut_byte-Lacks b [] h = tt
cut_byte-Lacks b (c ∷ s) h = ground (arith, cut_byte b c s, cut_byte-Lacks b s)

-- `Cut` by one byte splits behind a text that lacks it.
pub cut-append_Lacks : (b : ℕ) (x y : Bytes) → Lacks b x → cut (x ++ b ∷ y) (b ∷ []) ≡ some (x, y)
cut-append_Lacks b [] y h = ground (arith, cut_byte b b y)
cut-append_Lacks b (c ∷ x) y (hc, hx) =
    ground (arith, cut_byte b c (x ++ b ∷ y), cut-append_Lacks b x y hx)

pub Lacks-cut : (b : ℕ) (s : Bytes) → Lacks b s → cut s (b ∷ []) ≡ none
Lacks-cut b [] h = unfold cut strip_prefix in refl
Lacks-cut b (c ∷ s) (hc, hs) = ground (arith, cut_byte b c s, Lacks-cut b s hs)

pub contains-Lacks : (s : Bytes) (b : ℕ) → contains s (b ∷ []) ≡ false → Lacks b s
unfolding contains
contains-Lacks s b h = cut_byte-Lacks b s (ground arith)

pub Lacks-contains : (s : Bytes) (b : ℕ) → Lacks b s → contains s (b ∷ []) ≡ false
unfolding contains
Lacks-contains s b h = ground (arith, Lacks-cut b s h)

-- `Contains` finds every occurrence.
pub contains-append : (a sub b : Bytes) → contains (a ++ (sub ++ b)) sub ≡ true
unfolding contains
contains-append a sub b = ground (arith, cut-append a sub b)

pub contains-eq :
    (s sub : Bytes) → contains s sub ≡ true → (a : Bytes) × (b : Bytes) × (s ≡ a ++ (sub ++ b))
unfolding contains
contains-eq s sub h = elim (Option-cases (cut s sub)) [
  | inl e ↦ cc (h, ap (λ (o : Option (Bytes × Bytes)). is_some o) e)
  | inr (p, e) ↦ (p.0, p.1, cut-eq s sub p.0 p.1 e)
]

push-Lacks : (b c : ℕ) (ps : List Bytes) → c ≢ b → All (Lacks b) ps → All (Lacks b) (push c ps)
push-Lacks b c [] h hs = ((h, tt), tt)
push-Lacks b c (p ∷ ps) h hs = ((h, hs.0), hs.1)

split_step :
    (c : ℕ) (s : Bytes) (b : ℕ)
    → split (c ∷ s) b ≡ (if c == b then [] ∷ split s b else push c (split s b))
unfolding split
split_step c s b = refl

-- No part of a split holds the separator.
pub split-Lacks : (b : ℕ) (s : Bytes) → All (Lacks b) (split s b)
split-Lacks b [] = unfold split in (tt, tt)
split-Lacks b (c ∷ s) = elim (Bool-cases (c == b)) [
  | inl e ↦ rw (split_step, e) (tt, split-Lacks b s)
  | inr e ↦ rw (split_step, e) (push-Lacks b c (split s b) (ground arith) (split-Lacks b s))
]

split-ne-nil : (s : Bytes) (b : ℕ) → split s b ≢ []
split-ne-nil [] b h = unfold split in cc h
split-ne-nil (c ∷ s) b h = ground (arith, split_step c s b, split-ne-nil s b)

join-push : (c b : ℕ) (ps : List Bytes) → join (push c ps) b ≡ c ∷ join ps b
unfolding join
join-push c b [] = refl
join-push c b (p ∷ []) = refl
join-push c b (p ∷ q ∷ ps) = refl

join-nil : (ps : List Bytes) (b : ℕ) → ps ≢ [] → join ([] ∷ ps) b ≡ b ∷ join ps b
unfolding join
join-nil [] b h = absurd (h refl)
join-nil (q ∷ ps) b h = refl

-- Joining the parts of a split gives the text back.
pub join-split : (s : Bytes) (b : ℕ) → join (split s b) b ≡ s
join-split [] b = unfold split join in refl
join-split (c ∷ s) b = ground (
  arith,
  split_step c s b,
  join-push c b (split s b),
  join-split s b,
  split-ne-nil s b,
  join-nil (split s b) b,
)

-- A text without the separator is its own only part.
pub Lacks-split : (b : ℕ) (s : Bytes) → Lacks b s → split s b ≡ s ∷ []
Lacks-split b [] h = unfold split in refl
Lacks-split b (c ∷ s) (hc, hs) = ground (arith, split_step c s b, Lacks-split b s hs)

pub split-append : (b : ℕ) (s t : Bytes) → Lacks b s → split (s ++ b ∷ t) b ≡ s ∷ split t b
split-append b [] t h = ground (arith, split_step b t b)
split-append b (c ∷ s) t (hc, hs) =
    ground (arith, split_step c (s ++ b ∷ t) b, split-append b s t hs)

pub In-elem : (a : Bytes) (xs : List Bytes) → In a xs → elem a xs ≡ true
unfolding elem
In-elem a [] m = elim m [ ]
In-elem a (x ∷ xs) (inl e) = ground (arith, beq_iff x a, e)
In-elem a (x ∷ xs) (inr m) = ground (arith, In-elem a xs m)

pub elem-In : (a : Bytes) (xs : List Bytes) → elem a xs ≡ true → In a xs
elem-In a [] h = unfold elem in cc h
elem-In a (x ∷ xs) h = elim (Bool-cases (beq x a)) [
  | inl e ↦ inl ((beq_iff x a).0 e)
  | inr e ↦ inr (elem-In a xs (elem_tail a x xs e h))
]
