-- ===== src/Auth/Scope/Prefix.antt =====
-- internal/auth/scope.go, repositoryMatches: a prefix covers one repository and what is under it.
use mathlib.Core.List.{append-nil, reverse-append, reverse-reverse}
use simplecontainerregistry.Base.{
  ℕ, Bytes, codes, beq, beq_iff, Bool, true, false, [], ◌∷◌, ◌++◌, ◌≡◌, refl, ◌⊎◌, ◌↔◌, inl, inr,
  is_nil, arith, Bool-cases, if◌then◌else◌, reverse, trim_prefix, trim_suffix, has_prefix,
  has_suffix, strip_prefix, Option, Option-cases, is_some, ap, ◌∙◌, ◌||◌,
}
use simplecontainerregistry.Base.Laws.{strip_prefix-eq, strip_prefix-append}
use simplecontainerregistry.Auth.Scope.{repository_matches}

abbrev slash : Bytes
slash = b'/' ∷ []

-- A prefix as an administrator may write it: with a slash in front, behind, or not.
abbrev pub written : Bool → Bool → Bytes → Bytes
written lead trail base =
    (if lead then b'/' ∷ [] else []) ++ (base ++ (if trail then b'/' ∷ [] else []))

-- The repository `base` itself, or one below it.
abbrev pub IsUnder : Bytes → Bytes → Type 0
IsUnder base repository =
    (repository ≡ base) ⊎ ((rest : Bytes) × (repository ≡ base ++ b'/' ∷ rest))

-- A prefix without slashes at its ends that is not empty and not the wildcard.
pub record IsPlain (base : Bytes) : Type 0 where
  pub not_nil : is_nil base ≡ false
  pub not_wildcard : beq base (codes "*") ≡ false
  pub no_lead : has_prefix base (b'/' ∷ []) ≡ false
  pub no_trail : has_suffix base (b'/' ∷ []) ≡ false

trim_lead : (base : Bytes) → trim_prefix (b'/' ∷ base) slash ≡ base
unfolding trim_prefix strip_prefix
trim_lead base = refl

trim_no_lead : (base : Bytes) → has_prefix base slash ≡ false → trim_prefix base slash ≡ base
unfolding trim_prefix has_prefix
trim_no_lead base h = ground arith

trim_suffix_at : (s r : Bytes) → reverse s ≡ b'/' ∷ r → trim_suffix s slash ≡ reverse r
unfolding trim_suffix strip_prefix
trim_suffix_at s r e = ground (arith, e)

trim_trail : (base : Bytes) → trim_suffix (base ++ slash) slash ≡ base
trim_trail base =
    trim_suffix_at (base ++ slash) (reverse base) (rw reverse-append) ∙ reverse-reverse base

trim_no_trail : (base : Bytes) → has_suffix base slash ≡ false → trim_suffix base slash ≡ base
unfolding trim_suffix has_suffix
trim_no_trail base h = ground arith

append_slash-append : (base rest : Bytes) → (base ++ slash) ++ rest ≡ base ++ b'/' ∷ rest
append_slash-append [] rest = refl
append_slash-append (c ∷ base) rest = ap (λ (t : Bytes). c ∷ t) (append_slash-append base rest)

has_prefix-under :
    (base repository : Bytes)
    → has_prefix repository (base ++ slash) ≡ true
    → (rest : Bytes) × (repository ≡ base ++ b'/' ∷ rest)
unfolding has_prefix
has_prefix-under base repository h = elim (Option-cases (strip_prefix (base ++ slash) repository)) [
  | inl e ↦ cc (h, ap (λ (o : Option Bytes). is_some o) e)
  | inr (r, e) ↦ (r, strip_prefix-eq (base ++ slash) repository r e ∙ append_slash-append base r)
]

has_prefix-append : (base rest : Bytes) → has_prefix (base ++ b'/' ∷ rest) (base ++ slash) ≡ true
unfolding has_prefix
has_prefix-append base rest =
    rw (← append_slash-append base rest) (ground (arith, strip_prefix-append (base ++ slash) rest))

matches_base :
    (base repository : Bytes)
    → ((beq repository base || has_prefix repository (base ++ slash)) ≡ true)
      ↔ IsUnder base repository
matches_base base repository = (
  λ h. elim (Bool-cases (beq repository base)) [
    | inl e ↦ inl ((beq_iff repository base).0 e)
    | inr e ↦ inr (has_prefix-under base repository (ground arith))
  ],
  λ u. elim u [
    | inl e ↦ ground (arith, beq_iff repository base)
    | inr (rest, e) ↦ ground (arith, has_prefix-append base rest, e)
  ],
)

-- What TrimPrefix leaves of a written prefix.
abbrev tail_of : Bool → Bytes → Bytes
tail_of trail base = base ++ (if trail then slash else [])

append_slash-ne-nil : (s : Bytes) → beq (s ++ slash) [] ≡ false
unfolding beq
append_slash-ne-nil [] = refl
append_slash-ne-nil (c ∷ s) = refl

long_not_wildcard : (c : ℕ) (base : Bytes) → beq (c ∷ (base ++ slash)) (codes "*") ≡ false
long_not_wildcard c base = long (append_slash-ne-nil base)
  where
    long : beq (base ++ slash) [] ≡ false → beq (c ∷ (base ++ slash)) (codes "*") ≡ false
    long e = unfold beq in ground arith

has_prefix_head : (c : ℕ) (s t : Bytes) → has_prefix (c ∷ s) slash ≡ has_prefix (c ∷ t) slash
unfolding has_prefix strip_prefix
has_prefix_head c s t = ground arith

tail_facts :
    (base : Bytes) (trail : Bool)
    → IsPlain base
    → (beq (tail_of trail base) (codes "*") ≡ false)
      × (is_nil (tail_of trail base) ≡ false)
      × (trim_suffix (tail_of trail base) slash ≡ base)
tail_facts [] trail plain = cc plain.not_nil
tail_facts (c ∷ base) false plain =
    rw append-nil (plain.not_wildcard, refl, trim_no_trail (c ∷ base) plain.no_trail)
tail_facts (c ∷ base) true plain = (long_not_wildcard c base, refl, trim_trail (c ∷ base))

trim_written :
    (base : Bytes) (lead trail : Bool)
    → IsPlain base
    → trim_prefix (written lead trail base) slash ≡ tail_of trail base
trim_written base true trail plain = trim_lead (tail_of trail base)
trim_written [] false trail plain = cc plain.not_nil
trim_written (c ∷ base) false trail plain =
    trim_no_lead (c ∷ (base ++ (if trail then slash else [])))
      (has_prefix_head c (base ++ (if trail then slash else [])) base ∙ plain.no_lead)

matches-eq :
    (base repository : Bytes) (lead trail : Bool)
    → IsPlain base
    → repository_matches repository (written lead trail base)
      ≡ (beq repository base || has_prefix repository (base ++ slash))
unfolding repository_matches
matches-eq base repository lead trail plain =
    let (nw, nn, tb) = tail_facts base trail plain in
    rw (trim_written base lead trail plain, nw, nn, tb) refl

-- A prefix without slashes at its ends, not empty and not "*", covers the repository of that name and
-- those that go on behind a slash, and no other. One slash more in front or behind changes nothing.
pub repository_matches-IsUnder :
    (base repository : Bytes) (lead trail : Bool)
    → IsPlain base
    → (repository_matches repository (written lead trail base) ≡ true) ↔ IsUnder base repository
repository_matches-IsUnder base repository lead trail plain =
    rw (matches-eq base repository lead trail plain) (matches_base base repository)
