-- ===== src/Db/History/Accounts.antt =====
-- internal/db/store.go: the operations on users and grants leave no grant without its user.
use simplecontainerregistry.Base.{
  ℕ, Bytes, beq, beq_iff, beq→eq, Bool, true, false, ◌&&◌, ◌||◌, List, [], ◌∷◌, ◌++◌, ◌≡◌, refl,
  ◌∙◌, inl, inr, Option, any, All-append, Bool-cases, arith,
}
use simplecontainerregistry.Domain.{User, UserStatus, Grant}
use simplecontainerregistry.Auth.Scope.{user_subject}
use simplecontainerregistry.Storage.Disk.{Step}
use simplecontainerregistry.Db.Tables.{Database, delete_where, update_where, execute}
use simplecontainerregistry.Db.Rows.{
  any-append, any-update_where, any-delete_where, any-false, All-map, All-delete_where,
}
use simplecontainerregistry.Db.Users.{
  CreateUserParams, has_id, has_username, insert_user, create_user, update_user, set_user_status,
  check_status, delete_user, update_user_validity, update_user_last_used,
}
use simplecontainerregistry.Db.Grants.{
  CreateGrantParams, has_grant_id, insert_grant, check_grant, create_grant, replace_user_grant,
  delete_grant,
}
use simplecontainerregistry.Db.Keeping.{
  execute-Keeps, keeping, keeps, Keeps, lift-Keeps, bind-Keeps, query_result-Keeps,
}
use simplecontainerregistry.Db.History.{Granted, IsConsistent}

abbrev KeepsConsistent : {A : Type 0} → Step Database A → Type 0
KeepsConsistent = Keeps IsConsistent

insert_user-Keeps : (user : User) → KeepsConsistent (insert_user user)
unfolding insert_user
insert_user-Keeps user = keeps λ d h.
    elim (Bool-cases (any (has_id user.id) d.users || any (has_username user.username) d.users)) [
      | inl e ↦ rw e h
      | inr e ↦ rw e (record {
        fitting = h.fitting;
        granted =
            All-map (Granted d.users) (Granted (d.users ++ user ∷ [])) d.grants
              (λ g held. any-append (has_id g.subject_id) d.users (user ∷ []) held) h.granted;
      })
    ]

pub create_user-Keeps :
    (random : Bytes) (params : CreateUserParams) (now : ℕ)
    → KeepsConsistent (create_user random params now)
unfolding create_user
create_user-Keeps random params now = search (keeping, insert_user-Keeps)

-- A change of users that leaves their ids.
pub update_user-Keeps :
    (id : Bytes) (change : User → User)
    → ((user : User) → (change user).id ≡ user.id)
    → KeepsConsistent (update_user id change)
unfolding update_user
update_user-Keeps id change same = keeps λ d h. record {
  fitting = h.fitting;
  granted =
      All-map (Granted d.users) (Granted (update_where (has_id id) change d.users)) d.grants
        (λ g held.
          any-update_where (has_id g.subject_id) (has_id id) change d.users (λ user. cc (same user))
          ∙ held)
        h.granted;
}

pub set_user_status-Keeps :
    (id : Bytes) (status : UserStatus) (now : ℕ) → KeepsConsistent (set_user_status id status now)
unfolding set_user_status check_status
set_user_status-Keeps id status now =
    bind-Keeps _ _ _ (query_result-Keeps _ _) (λ _. update_user-Keeps id _ (λ user. refl))

pub update_user_last_used-Keeps :
    (id : Bytes) (now : ℕ) → KeepsConsistent (update_user_last_used id now)
unfolding update_user_last_used
update_user_last_used-Keeps id now = update_user-Keeps id _ (λ user. refl)

pub update_user_validity-Keeps :
    (id : Bytes) (not_before expires_at : Option ℕ) (now : ℕ)
    → KeepsConsistent (update_user_validity id not_before expires_at now)
unfolding update_user_validity
update_user_validity-Keeps id not_before expires_at now =
    bind-Keeps IsConsistent _ _ (lift-Keeps IsConsistent _)
      (λ _. update_user-Keeps id _ (λ user. refl))

-- A user of another id is not deleted.
kept :
    (id : Bytes) (users : List User) (subject : Bytes)
    → any (has_id subject) users ≡ true
    → beq subject id ≡ false
    → any (has_id subject) (delete_where (has_id id) users) ≡ true
kept id users subject held other = any-delete_where (has_id subject) (has_id id) users held (
    any-false (λ (user : User). has_id id user && has_id subject user) users
      (λ user. ground (arith, beq_iff user.id id, beq_iff user.id subject, beq_iff subject id)))

beq_other :
    (id : Bytes) (users : List User) (subject : Bytes)
    → any (has_id id) users ≡ false
    → any (has_id subject) users ≡ true
    → beq subject id ≡ false
beq_other id users subject absent held = elim (Bool-cases (beq subject id)) [
  | inl e ↦ absurd (cc (absent, held, beq→eq subject id e))
  | inr e ↦ e
]

pub delete_user-Keeps : (id : Bytes) → KeepsConsistent (delete_user id)
unfolding delete_user
delete_user-Keeps id = keeps λ d h. elim (Bool-cases (any (has_id id) d.users)) [
  | inr e ↦ rw e (record {
    fitting = h.fitting;
    granted =
        All-map (Granted d.users) (Granted (delete_where (has_id id) d.users)) d.grants
          (λ g held. kept id d.users g.subject_id held (beq_other id d.users g.subject_id e held))
          h.granted;
  })
  | inl e ↦ rw e (record {
    fitting = h.fitting;
    granted =
        All-delete_where (Granted d.users) (Granted (delete_where (has_id id) d.users))
          (λ g. beq g.subject_id id) d.grants
          (λ g held other. kept id d.users g.subject_id held other) h.granted;
  })
]

insert_grant-Keeps : (grant : Grant) → KeepsConsistent (insert_grant grant)
unfolding insert_grant
insert_grant-Keeps grant = keeps λ d h. elim (Bool-cases (any (has_grant_id grant.id) d.grants)) [
  | inl e ↦ rw e h
  | inr e ↦ elim (Bool-cases (beq grant.subject_type user_subject)) [
    | inr f ↦ rw (e, f) h
    | inl f ↦ elim (Bool-cases (any (has_id grant.subject_id) d.users)) [
      | inr g ↦ rw (e, f, g) h
      | inl g ↦
          rw (e, f, g)
            (record {
              fitting = h.fitting;
              granted = All-append (Granted d.users) d.grants (grant ∷ []) h.granted (g, tt);
            })
    ]
  ]
]

check_grant-Keeps : (params : CreateGrantParams) → KeepsConsistent (check_grant params)
unfolding check_grant
check_grant-Keeps params = search keeping

pub create_grant-Keeps :
    (random : Bytes) (params : CreateGrantParams) (now : ℕ)
    → KeepsConsistent (create_grant random params now)
unfolding create_grant
create_grant-Keeps random params now = search (keeping, check_grant-Keeps, insert_grant-Keeps)

-- Fewer grants.
pub drop_grants-Keeps :
    (p : Grant → Bool) (d : Database)
    → IsConsistent d
    → IsConsistent (record d { grants = delete_where p d.grants })
drop_grants-Keeps p d h = record {
  fitting = h.fitting;
  granted =
      All-delete_where (Granted d.users) (Granted d.users) p d.grants (λ g held _. held) h.granted;
}

drop_step-Keeps :
    (p : Grant → Bool)
    → KeepsConsistent (execute (λ d. record d { grants = delete_where p d.grants }))
drop_step-Keeps p = execute-Keeps IsConsistent _ (drop_grants-Keeps p)

pub replace_user_grant-Keeps :
    (random : Bytes) (given : CreateGrantParams) (now : ℕ)
    → KeepsConsistent (replace_user_grant random given now)
unfolding replace_user_grant
replace_user_grant-Keeps random given now =
    search (keeping, check_grant-Keeps, drop_step-Keeps, insert_grant-Keeps)

pub delete_grant-Keeps : (id : Bytes) → KeepsConsistent (delete_grant id)
unfolding delete_grant
delete_grant-Keeps id = keeps λ d h. drop_grants-Keeps (has_grant_id id) d h
