-- ===== src/Auth/Scope/Allowed.antt =====
-- internal/auth/scope.go, allowedActions: an action is allowed when it is requested and granted.
use simplecontainerregistry.Base.{
  Bytes, beq, beq_iff, elem, true, false, ◌&&◌, ◌||◌, not, List, [], ◌∷◌, ◌≡◌, refl, ◌⊎◌, inl, inr,
  In, arith, Bool-cases, and_parts,
}
use simplecontainerregistry.Base.Sets.{elem-append, NoRepeat}
use simplecontainerregistry.Base.Laws.{In-elem, elem-In}
use simplecontainerregistry.Domain.{Role, Action, Grant, role_admin}
use simplecontainerregistry.Auth.Scope.{
  RequestedScope, user_subject, repository_matches, unique_loop, unique_actions, grant_applies,
  granted_actions, intersect_loop, allowed_actions,
}

pub elem-unique_loop :
    (a : Action) (seen xs : List Action)
    → elem a (unique_loop seen xs) ≡ (elem a xs && not (elem a seen))
unfolding elem unique_loop
elem-unique_loop a seen [] = ground arith
elem-unique_loop a seen (x ∷ xs) =
    ground (arith, elem-unique_loop a seen xs, elem-unique_loop a (x ∷ seen) xs, beq_iff x a)

pub elem-intersect_loop :
    (a : Action) (allowed seen xs : List Action)
    → elem a (intersect_loop allowed seen xs) ≡ (elem a xs && (elem a allowed && not (elem a seen)))
unfolding elem intersect_loop
elem-intersect_loop a allowed seen [] = ground arith
elem-intersect_loop a allowed seen (x ∷ xs) = ground (
  arith,
  elem-intersect_loop a allowed seen xs,
  elem-intersect_loop a allowed (x ∷ seen) xs,
  beq_iff x a,
)

elem-nil : (a : Action) → elem a [] ≡ false
unfolding elem
elem-nil a = refl

first_seen : (x : Action) (seen : List Action) → elem x (x ∷ seen) ≡ true
first_seen x seen = In-elem x (x ∷ seen) (inl refl)

pub NoRepeat-unique_loop : (seen xs : List Action) → NoRepeat (unique_loop seen xs)
unfolding unique_loop
NoRepeat-unique_loop seen [] = tt
NoRepeat-unique_loop seen (x ∷ xs) = elim (Bool-cases (elem x seen)) [
  | inl e ↦ rw e (NoRepeat-unique_loop seen xs)
  | inr e ↦ rw e (unseen x (x ∷ seen) xs (first_seen x seen), NoRepeat-unique_loop (x ∷ seen) xs)
]
  where
    unseen :
        (x : Action) (seen xs : List Action)
        → elem x seen ≡ true
        → elem x (unique_loop seen xs) ≡ false
    unseen x seen xs h = ground (arith, elem-unique_loop x seen xs)

pub NoRepeat-intersect_loop :
    (allowed seen xs : List Action) → NoRepeat (intersect_loop allowed seen xs)
unfolding intersect_loop
NoRepeat-intersect_loop allowed seen [] = tt
NoRepeat-intersect_loop allowed seen (x ∷ xs) =
    elim (Bool-cases (elem x allowed && not (elem x seen))) [
      | inl e ↦ rw e (
        unseen x (x ∷ seen) xs (first_seen x seen),
        NoRepeat-intersect_loop allowed (x ∷ seen) xs,
      )
      | inr e ↦ rw e (NoRepeat-intersect_loop allowed seen xs)
    ]
  where
    unseen :
        (x : Action) (seen xs : List Action)
        → elem x seen ≡ true
        → elem x (intersect_loop allowed seen xs) ≡ false
    unseen x seen xs h = ground (arith, elem-intersect_loop x allowed seen xs)

-- A grant of the list gives the action on the repository.
abbrev pub Grants : List Grant → Bytes → Action → Type 0
Grants grants name a =
    (g : Grant) × In g grants
    × (g.subject_type ≡ user_subject)
    × (repository_matches name g.repository_prefix ≡ true)
    × In a g.actions

-- The user may do the action: an administrator anything, another user what a grant gives.
abbrev pub May : Role → List Grant → Bytes → Action → Type 0
May role grants name a = (role ≡ role_admin) ⊎ Grants grants name a

granted_step :
    (name : Bytes) (g : Grant) (gs : List Grant) (a : Action)
    → elem a (granted_actions name (g ∷ gs))
      ≡ (grant_applies name g && elem a g.actions || elem a (granted_actions name gs))
unfolding granted_actions
granted_step name g gs a = ground (arith, elem-append a g.actions (granted_actions name gs))

applies_parts :
    (name : Bytes) (g : Grant)
    → grant_applies name g ≡ true
    → (g.subject_type ≡ user_subject) × (repository_matches name g.repository_prefix ≡ true)
unfolding grant_applies
applies_parts name g h = ground (arith, beq_iff g.subject_type user_subject)

granted_sound :
    (name : Bytes) (gs : List Grant) (a : Action)
    → elem a (granted_actions name gs) ≡ true
    → Grants gs name a
granted_sound name [] a h = unfold granted_actions elem in cc h
granted_sound name (g ∷ gs) a h = elim (Bool-cases (grant_applies name g && elem a g.actions)) [
  | inl e ↦
      let (ha, hm) = and_parts (grant_applies name g) (elem a g.actions) e in
      let (hs, hp) = applies_parts name g ha in (g, inl refl, hs, hp, elem-In a g.actions hm)
  | inr e ↦
      let (g', m, hs, hp, hm) =
        granted_sound name gs a (ground (arith, granted_step name g gs a)) in
      (g', inr m, hs, hp, hm)
]

granted_complete :
    (name : Bytes) (gs : List Grant) (a : Action)
    → Grants gs name a
    → elem a (granted_actions name gs) ≡ true
granted_complete name [] a (g', m, hs, hp, hm) = elim m [ ]
granted_complete name (g ∷ gs) a (g', inl e, hs, hp, hm) =
    let hm' : elem a g.actions ≡ true = rw e (In-elem a g'.actions hm) in
    let ha : grant_applies name g ≡ true = rw e (applies name g' hs hp) in
    ground (arith, granted_step name g gs a)
  where
    applies :
        (name : Bytes) (g : Grant)
        → g.subject_type ≡ user_subject
        → repository_matches name g.repository_prefix ≡ true
        → grant_applies name g ≡ true
    applies name g hs hp =
        unfold grant_applies in ground (arith, beq_iff g.subject_type user_subject)
granted_complete name (g ∷ gs) a (g', inr m, hs, hp, hm) =
    ground (arith, granted_step name g gs a, granted_complete name gs a (g', m, hs, hp, hm))

pub allowed_sound :
    (role : Role) (grants : List Grant) (scope : RequestedScope) (a : Action)
    → elem a (allowed_actions role grants scope) ≡ true
    → In a scope.actions × May role grants scope.name a
allowed_sound role grants scope a h = elim (Bool-cases (beq role role_admin)) [
  | inl e ↦
      let m : elem a scope.actions ≡ true =
        unfold allowed_actions unique_actions in
        ground (arith, elem-unique_loop a [] scope.actions, e) in
      (elem-In a scope.actions m, inl ((beq_iff role role_admin).0 e))
  | inr e ↦
      let both : (elem a scope.actions && elem a (granted_actions scope.name grants)) ≡ true =
        unfold allowed_actions in
        ground
          (arith, elem-intersect_loop a (granted_actions scope.name grants) [] scope.actions, e) in
      let (m, g) = and_parts _ _ both in
      (elem-In a scope.actions m, inr (granted_sound scope.name grants a g))
]

pub allowed_complete :
    (role : Role) (grants : List Grant) (scope : RequestedScope) (a : Action)
    → In a scope.actions
    → May role grants scope.name a
    → elem a (allowed_actions role grants scope) ≡ true
unfolding allowed_actions unique_actions
allowed_complete role grants scope a m (inl e) = ground (
  arith,
  elem-unique_loop a [] scope.actions,
  In-elem a scope.actions m,
  beq_iff role role_admin,
  elem-nil a,
)
allowed_complete role grants scope a m (inr g) = ground (
  arith,
  elem-unique_loop a [] scope.actions,
  In-elem a scope.actions m,
  elem-nil a,
  elem-intersect_loop a (granted_actions scope.name grants) [] scope.actions,
  granted_complete scope.name grants a g,
)

-- No action is allowed twice.
pub NoRepeat-allowed_actions :
    (role : Role) (grants : List Grant) (scope : RequestedScope)
    → NoRepeat (allowed_actions role grants scope)
unfolding allowed_actions unique_actions
NoRepeat-allowed_actions role grants scope = elim (Bool-cases (beq role role_admin)) [
  | inl e ↦ rw e (NoRepeat-unique_loop [] scope.actions)
  | inr e ↦ rw e (NoRepeat-intersect_loop (granted_actions scope.name grants) [] scope.actions)
]
