-- ===== src/Auth/Scope/Parse.antt =====
-- internal/auth/scope.go, ParseScope: which texts are scopes.
use simplecontainerregistry.Base.{
  Bytes, beq_iff, beq_refl, true, false, List, [], ◌∷◌, ◌++◌, ◌≡◌, refl, ◌↔◌, is_nil, arith, not,
  All, split, join, keep, ok, sym, ap, ◌∙◌,
}
use simplecontainerregistry.Base.Laws.{Lacks, split-Lacks, join-split, split-append, Lacks-split}
use simplecontainerregistry.Domain.{Action, valid_actions}
use simplecontainerregistry.Auth.Scope.{RequestedScope, repository_type, parse_parts, parse_scope}

-- The actions that a comma-separated list names; empty ones are skipped.
abbrev pub listed : Bytes → List Action
listed raw_actions = keep (λ a. not (is_nil a)) (split raw_actions b',')

-- The text is "repository:NAME:ACTIONS" with no further colon.
pub record IsScope (raw : Bytes) (s : RequestedScope) : Type 0 where
  pub raw_actions : Bytes
  pub text : raw ≡ repository_type ++ b':' ∷ (s.name ++ b':' ∷ raw_actions)
  pub name_Lacks : Lacks b':' s.name
  pub actions_Lacks : Lacks b':' raw_actions
  pub type : s.type ≡ repository_type
  pub name : is_nil s.name ≡ false
  pub actions : s.actions ≡ listed raw_actions
  pub valid : valid_actions s.actions ≡ true

pub record IsParts (ps : List Bytes) (s : RequestedScope) : Type 0 where
  pub raw_actions : Bytes
  pub parts : ps ≡ repository_type ∷ s.name ∷ raw_actions ∷ []
  pub type : s.type ≡ repository_type
  pub name : is_nil s.name ≡ false
  pub actions : s.actions ≡ listed raw_actions
  pub valid : valid_actions s.actions ≡ true

IsParts-sound : (ps : List Bytes) (s : RequestedScope) → parse_parts ps ≡ ok s → IsParts ps s
unfolding parse_parts
IsParts-sound [] s h = cc
IsParts-sound (t ∷ []) s h = cc
IsParts-sound (t ∷ n ∷ []) s h = cc
IsParts-sound (t ∷ n ∷ r ∷ []) s h = record {
  raw_actions = r;
  parts = ground (arith, beq_iff t repository_type);
  type = ground (arith, beq_iff t repository_type);
  name = ground arith;
  actions = ground arith;
  valid = ground arith;
}
IsParts-sound (t ∷ n ∷ r ∷ x ∷ ps) s h = cc

scope_eta :
    (s : RequestedScope) (r : Bytes)
    → s.type ≡ repository_type
    → s.actions ≡ listed r
    → ◌≡◌ {A = RequestedScope}
        (record { type = repository_type; name = s.name; actions = listed r })
        s
scope_eta s r ht ha = λ i. record { type = sym ht i; name = s.name; actions = sym ha i }

parts_complete : (ps : List Bytes) (s : RequestedScope) → IsParts ps s → parse_parts ps ≡ ok s
unfolding parse_parts
parts_complete ps s p = rw p.parts (
    ground (
      arith,
      p.type,
      p.name,
      p.actions,
      p.valid,
      beq_refl repository_type,
      scope_eta s p.raw_actions p.type p.actions,
    ))

text_split :
    (name rest : Bytes)
    → Lacks b':' name
    → Lacks b':' rest
    → split (repository_type ++ b':' ∷ (name ++ b':' ∷ rest)) b':'
      ≡ repository_type ∷ name ∷ rest ∷ []
text_split name rest hn hr = rw (
  split-append b':' repository_type (name ++ b':' ∷ rest) (omega arith),
  split-append b':' name rest hn,
  Lacks-split b':' rest hr,
)

join_three : (a b c : Bytes) → join (a ∷ b ∷ c ∷ []) b':' ≡ a ++ b':' ∷ (b ++ b':' ∷ c)
unfolding join
join_three a b c = refl

IsScope-sound : (raw : Bytes) (s : RequestedScope) → parse_scope raw ≡ ok s → IsScope raw s
unfolding parse_scope
IsScope-sound raw s h =
    let p = IsParts-sound (split raw b':') s h in
    let lacks : All (Lacks b':') (repository_type ∷ s.name ∷ p.raw_actions ∷ []) =
      rw p.parts at (split-Lacks b':' raw) in
    record {
      raw_actions = p.raw_actions;
      text =
          sym (join-split raw b':')
          ∙ ap (λ (ps : List Bytes). join ps b':') p.parts
          ∙ join_three repository_type s.name p.raw_actions;
      name_Lacks = lacks.1.0;
      actions_Lacks = lacks.1.1.0;
      type = p.type;
      name = p.name;
      actions = p.actions;
      valid = p.valid;
    }

scope_complete : (raw : Bytes) (s : RequestedScope) → IsScope raw s → parse_scope raw ≡ ok s
unfolding parse_scope
scope_complete raw s p = parts_complete (split raw b':') s (record {
  raw_actions = p.raw_actions;
  parts =
      ap (λ (t : Bytes). split t b':') p.text
      ∙ text_split s.name p.raw_actions p.name_Lacks p.actions_Lacks;
  type = p.type;
  name = p.name;
  actions = p.actions;
  valid = p.valid;
})

-- A text is parsed to a scope exactly when it is "repository:NAME:ACTIONS" with three parts, a name
-- that is not empty, and a comma-separated list of actions that, empty entries skipped, names at
-- least one action and only the four known ones; the scope then has that name and those actions.
pub parse_scope-IsScope :
    (raw : Bytes) (s : RequestedScope) → (parse_scope raw ≡ ok s) ↔ IsScope raw s
parse_scope-IsScope raw s = (IsScope-sound raw s, scope_complete raw s)
