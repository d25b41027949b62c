-- ===== src/Auth/Scope/Access.antt =====
-- internal/auth/scope.go: the access in a token is what was requested and granted.
use simplecontainerregistry.Base.{
  Bytes, beq, beq_iff, elem, any, true, false, ◌&&◌, ◌||◌, List, [], ◌∷◌, ◌≡◌, ◌≢◌, refl, ◌⊎◌, ◌↔◌,
  inl, inr, In, is_nil, arith, Bool-cases, and_parts,
}
use simplecontainerregistry.Base.Sets.{NoRepeat}
use simplecontainerregistry.Base.Laws.{In-elem}
use simplecontainerregistry.Domain.{Role, Action, Grant, action_admin}
use simplecontainerregistry.Auth.Scope.{
  RequestedScope, AccessClaim, repository_type, allowed_actions, intersect_access, claim_allows,
  has_access,
}
use simplecontainerregistry.Auth.Scope.Allowed.{
  May, allowed_sound, allowed_complete, NoRepeat-allowed_actions,
}

any-elem :
    (a b : Action) (xs : List Action) → any (λ x. beq x a || beq x b) xs ≡ (elem a xs || elem b xs)
unfolding any elem
any-elem a b [] = refl
any-elem a b (x ∷ xs) = ground (arith, any-elem a b xs)

-- The claim that a requested scope leads to.
abbrev claim_of : Role → List Grant → RequestedScope → AccessClaim
claim_of role grants scope = record {
  type = scope.type;
  name = scope.name;
  actions = allowed_actions role grants scope;
}

claim_allows-eq :
    (repository : Bytes) (a : Action) (c : AccessClaim)
    → claim_allows repository a c ≡ (
        beq c.type repository_type
        && beq c.name repository
        && (elem a c.actions || elem action_admin c.actions))
unfolding claim_allows
claim_allows-eq repository a c = ground (arith, any-elem a action_admin c.actions)

no_claim :
    (repository : Bytes) (a : Action) (c : AccessClaim)
    → is_nil c.actions ≡ true
    → claim_allows repository a c ≡ false
unfolding claim_allows any
no_claim repository a c h = ground arith

access_step :
    (role : Role) (grants : List Grant) (s : RequestedScope) (rs : List RequestedScope)
    (repository : Bytes) (a : Action)
    → has_access (intersect_access role grants (s ∷ rs)) repository a ≡ (
        claim_allows repository a (claim_of role grants s)
        || has_access (intersect_access role grants rs) repository a)
unfolding intersect_access has_access any
access_step role grants s rs repository a =
    ground (arith, no_claim repository a (claim_of role grants s))

-- A scope that names the repository and the action, or the action "admin", with the right to what
-- it names.
abbrev pub Admits : Role → List Grant → RequestedScope → Bytes → Action → Type 0
Admits role grants s repository a =
    (s.type ≡ repository_type)
    × (s.name ≡ repository)
    × ((In a s.actions × May role grants s.name a)
        ⊎ (In action_admin s.actions × May role grants s.name action_admin))

abbrev pub Entitled : Role → List Grant → List RequestedScope → Bytes → Action → Type 0
Entitled role grants requested repository a =
    (s : RequestedScope) × In s requested × (Admits role grants s repository a)

module _ (role : Role) (grants : List Grant) (repository : Bytes) (a : Action) where
  claim_sound :
      (s : RequestedScope)
      → claim_allows repository a (claim_of role grants s) ≡ true
      → Admits role grants s repository a
  claim_sound s h =
      let c = claim_of role grants s in
      let (both, acts) =
        and_parts (beq s.type repository_type && beq s.name repository)
          (elem a c.actions || elem action_admin c.actions)
          (ground (arith, claim_allows-eq repository a c)) in
      let (ht, hn) = and_parts (beq s.type repository_type) (beq s.name repository) both in
      (
        (beq_iff s.type repository_type).0 ht,
        (beq_iff s.name repository).0 hn,
        elim (Bool-cases (elem a c.actions)) [
          | inl e ↦ inl (allowed_sound role grants s a e)
          | inr e ↦ inr (allowed_sound role grants s action_admin (ground arith))
        ],
      )

  claim_complete :
      (s : RequestedScope)
      → Admits role grants s repository a
      → claim_allows repository a (claim_of role grants s) ≡ true
  claim_complete s (ht, hn, inl (m, y)) = ground (
    arith,
    claim_allows-eq repository a (claim_of role grants s),
    beq_iff s.type repository_type,
    beq_iff s.name repository,
    allowed_complete role grants s a m y,
  )
  claim_complete s (ht, hn, inr (m, y)) = ground (
    arith,
    claim_allows-eq repository a (claim_of role grants s),
    beq_iff s.type repository_type,
    beq_iff s.name repository,
    allowed_complete role grants s action_admin m y,
  )

  access_sound :
      (requested : List RequestedScope)
      → has_access (intersect_access role grants requested) repository a ≡ true
      → Entitled role grants requested repository a
  access_sound [] h = unfold intersect_access has_access any in cc h
  access_sound (s ∷ rs) h = elim (Bool-cases (claim_allows repository a (claim_of role grants s))) [
    | inl e ↦ (s, inl refl, claim_sound s e)
    | inr e ↦
        let (s', m, y) =
          access_sound rs (ground (arith, access_step role grants s rs repository a)) in
        (s', inr m, y)
  ]

  access_complete :
      (requested : List RequestedScope)
      → Entitled role grants requested repository a
      → has_access (intersect_access role grants requested) repository a ≡ true
  access_complete [] (s, m, y) = elim m [ ]
  access_complete (s ∷ rs) (s', inl e, y) =
      let y' : Admits role grants s repository a = rw e y in
      ground (arith, access_step role grants s rs repository a, claim_complete s y')
  access_complete (s ∷ rs) (s', inr m, y) =
      ground (arith, access_step role grants s rs repository a, access_complete rs (s', m, y))

-- A token made from the requested scopes passes the access check for an action on a repository
-- exactly when some requested scope of type "repository" has that name and lists the action, or
-- lists the action "admin", and the user may do what is listed: the user is an administrator, or one
-- of the user grants matches the repository and lists it.
pub has_access-intersect_access :
    (role : Role) (grants : List Grant) (requested : List RequestedScope) (repository : Bytes)
    (a : Action)
    → (has_access (intersect_access role grants requested) repository a ≡ true)
      ↔ Entitled role grants requested repository a
has_access-intersect_access role grants requested repository a = (
  access_sound role grants repository a requested,
  access_complete role grants repository a requested,
)

-- What a claim of an issued token looks like.
abbrev pub IsMinimal : Role → List Grant → List RequestedScope → AccessClaim → Type 0
IsMinimal role grants requested c =
    (c.actions ≢ [])
    × NoRepeat c.actions
    × ((s : RequestedScope) × In s requested
        × (c.type ≡ s.type)
        × (c.name ≡ s.name)
        × ((a : Action) → In a c.actions → In a s.actions × May role grants s.name a))

module _ (role : Role) (grants : List Grant) (s : RequestedScope) (rs : List RequestedScope) where
  intersect_skip :
      is_nil (allowed_actions role grants s) ≡ true
      → intersect_access role grants (s ∷ rs) ≡ intersect_access role grants rs
  unfolding intersect_access
  intersect_skip e = rw e

  intersect_take :
      is_nil (allowed_actions role grants s) ≡ false
      → intersect_access role grants (s ∷ rs)
        ≡ claim_of role grants s ∷ intersect_access role grants rs
  unfolding intersect_access
  intersect_take e = rw e

  claim_of-IsMinimal :
      is_nil (allowed_actions role grants s) ≡ false
      → IsMinimal role grants (s ∷ rs) (claim_of role grants s)
  claim_of-IsMinimal e = (
    λ q. ground (arith, e, q),
    NoRepeat-allowed_actions role grants s,
    (s, inl refl, refl, refl, λ a m. allowed_sound role grants s a (In-elem a _ m)),
  )

  IsMinimal-there :
      (c : AccessClaim) → IsMinimal role grants rs c → IsMinimal role grants (s ∷ rs) c
  IsMinimal-there c (ne, nr, (s', m, t, n, f)) = (ne, nr, (s', inr m, t, n, f))

-- Every claim of an issued token lists at least one action and none twice, and belongs to a requested
-- scope of the same type and name: each of its actions was requested there, and the user may do it.
pub intersect_access-IsMinimal :
    (role : Role) (grants : List Grant) (requested : List RequestedScope) (c : AccessClaim)
    → In c (intersect_access role grants requested)
    → IsMinimal role grants requested c
intersect_access-IsMinimal role grants [] c m = unfold intersect_access in elim m [ ]
intersect_access-IsMinimal role grants (s ∷ rs) c m =
    elim (Bool-cases (is_nil (allowed_actions role grants s))) [
      | inl e ↦ IsMinimal-there role grants s rs c (
          intersect_access-IsMinimal role grants rs c (rw (intersect_skip role grants s rs e) at m))
      | inr e ↦
          elim (rw (intersect_take role grants s rs e) at m)
            as (λ _. IsMinimal role grants (s ∷ rs) c) [
              | inl q ↦ rw (← q) (claim_of-IsMinimal role grants s rs e)
              | inr n ↦
                  IsMinimal-there role grants s rs c (intersect_access-IsMinimal role grants rs c n)
            ]
    ]
