-- ===== src/Db/History/Pushes.antt =====
-- internal/db/store.go: the operations on repositories and tags leave users and grants alone.
use simplecontainerregistry.Base.{
  ℕ, Bytes, Bool, List, [], ◌∷◌, All, inl, inr, any, Result-cases, Bool-cases, is_nil,
}
use simplecontainerregistry.Domain.{Repository}
use simplecontainerregistry.Storage.Disk.{Step}
use simplecontainerregistry.Db.Tables.{Database, checked_sum, execute, require_affected}
use simplecontainerregistry.Db.Repositories.{
  tags_of, size_of, recount, touch_pull, mark_tags, mark_reference, mark_repository_pulled,
  drop_repositories, has_name, delete_repository,
}
use simplecontainerregistry.Db.Tags.{
  UpsertRepositoryTagParams, touch_push, push_rows, upsert_checked, upsert_repository_tags,
  drop_references, drop_orphaned_policy, delete_repository_manifest_reference,
}
use simplecontainerregistry.Db.Consistent.{
  Fits, upsert_repository_tags-Fits, mark_repository_pulled-Fits,
}
use simplecontainerregistry.Db.Consistent.Deleted.{
  delete_repository_manifest_reference-Fits, delete_repository-Fits,
}
use simplecontainerregistry.Db.Keeping.{Keeps, keeps, apply_Keeps, keeping, execute-Keeps}
use simplecontainerregistry.Db.History.{Granted, IsConsistent}

abbrev AllGranted : Database → Type 0
AllGranted d = All (Granted d.users) d.grants

recount-Keeps : (name : Bytes) → Keeps AllGranted (recount name)
unfolding recount
recount-Keeps name = keeps λ d h.
    elim (Result-cases (checked_sum (size_of (tags_of name d.repository_tags)))) [
      | inl (total, e) ↦ rw e h
      | inr (x, e) ↦ rw e h
    ]

push_rows-Keeps :
    (name : Bytes) (params : List UpsertRepositoryTagParams) (now : ℕ)
    → Keeps AllGranted (execute (push_rows name params now))
unfolding push_rows touch_push
push_rows-Keeps name params now = execute-Keeps AllGranted _ (λ d h. h)

upsert_checked-Keeps :
    (name : Bytes) (params : List UpsertRepositoryTagParams) (now : ℕ)
    → Keeps AllGranted (upsert_checked name params now)
unfolding upsert_checked
upsert_checked-Keeps name params now = search (keeping, recount-Keeps, push_rows-Keeps)

upsert_repository_tags-Keeps :
    (params : List UpsertRepositoryTagParams) (now : ℕ)
    → Keeps AllGranted (upsert_repository_tags params now)
unfolding upsert_repository_tags
upsert_repository_tags-Keeps [] now = keeps (λ d h. h)
upsert_repository_tags-Keeps (param ∷ params) now = search (keeping, upsert_checked-Keeps)

drop_references-Keeps :
    (name reference digest : Bytes)
    → Keeps AllGranted (execute (drop_references name reference digest))
unfolding drop_references
drop_references-Keeps name reference digest = execute-Keeps AllGranted _ (λ d h. h)

drop_repositories-Keeps : (p : Repository → Bool) → Keeps AllGranted (execute (drop_repositories p))
unfolding drop_repositories
drop_repositories-Keeps p = execute-Keeps AllGranted _ (λ d h. h)

drop_orphaned_policy-Keeps : (name : Bytes) → Keeps AllGranted (execute (drop_orphaned_policy name))
unfolding drop_orphaned_policy
drop_orphaned_policy-Keeps name = execute-Keeps AllGranted _ (λ d h. h)

delete_repository_manifest_reference-Keeps :
    (name reference digest : Bytes)
    → Keeps AllGranted (delete_repository_manifest_reference name reference digest)
unfolding delete_repository_manifest_reference
delete_repository_manifest_reference-Keeps name reference digest =
    search
      (
        keeping, drop_references-Keeps, recount-Keeps, drop_repositories-Keeps,
        drop_orphaned_policy-Keeps,
      )
      depth 9

delete_repository-Keeps : (name : Bytes) → Keeps AllGranted (delete_repository name)
unfolding delete_repository require_affected drop_repositories
delete_repository-Keeps name = keeps λ d h. elim (Bool-cases (any (has_name name) d.repositories)) [
  | inl e ↦ rw e h
  | inr e ↦ rw e h
]

touch_pull-Keeps : (name : Bytes) (now : ℕ) → Keeps AllGranted (execute (touch_pull name now))
unfolding touch_pull
touch_pull-Keeps name now = execute-Keeps AllGranted _ (λ d h. h)

mark_reference-Keeps :
    (name reference : Bytes) (now : ℕ)
    → Keeps AllGranted (execute (mark_reference name reference now))
unfolding mark_reference mark_tags
mark_reference-Keeps name reference now =
    execute-Keeps AllGranted _
      λ d h. elim (Bool-cases (is_nil reference)) [ inl e ↦ rw e h | inr e ↦ rw e h ]

mark_repository_pulled-Keeps :
    (name reference : Bytes) (now : ℕ)
    → Keeps AllGranted (mark_repository_pulled name reference now)
unfolding mark_repository_pulled
mark_repository_pulled-Keeps name reference now =
    search (keeping, touch_pull-Keeps, mark_reference-Keeps)

-- An operation that keeps both parts.
both :
    {A : Type 0} {m : Step Database A}
    → ((d : Database) → Fits d → Fits (m d).1)
    → Keeps AllGranted m
    → Keeps IsConsistent m
both fits granted =
    keeps λ d h. record { fitting = fits d h.fitting; granted = apply_Keeps granted d h.granted }

pub pushes-Keep :
    (params : List UpsertRepositoryTagParams) (now : ℕ)
    → Keeps IsConsistent (upsert_repository_tags params now)
pushes-Keep params now =
    both (upsert_repository_tags-Fits params now) (upsert_repository_tags-Keeps params now)

pub references-Keep :
    (name reference digest : Bytes)
    → Keeps IsConsistent (delete_repository_manifest_reference name reference digest)
references-Keep name reference digest =
    both (delete_repository_manifest_reference-Fits name reference digest)
      (delete_repository_manifest_reference-Keeps name reference digest)

pub deletions-Keep : (name : Bytes) → Keeps IsConsistent (delete_repository name)
deletions-Keep name = both (delete_repository-Fits name) (delete_repository-Keeps name)

pub pulls-Keep :
    (name reference : Bytes) (now : ℕ)
    → Keeps IsConsistent (mark_repository_pulled name reference now)
pulls-Keep name reference now =
    both (mark_repository_pulled-Fits name reference now)
      (mark_repository_pulled-Keeps name reference now)
