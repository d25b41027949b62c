-- ===== src/Db/Tags/Refined.antt =====
-- internal/db/store.go: pushing and deleting tags are changes of the abstract map of tags.
use simplecontainerregistry.Base.{
  ℕ, ◌<◌, ◌^◌, Bytes, beq, beq_iff, beq_refl, Bool, true, false, ◌&&◌, ◌||◌, not, ◌≢◌, List, [],
  ◌∷◌, ◌≡◌, refl, ap, ◌∙◌, inl, inr, Option, none, some, keep, any, Bool-cases, if◌then◌else◌,
  arith, is_nil, contains, Result, ok, err, Result-cases,
}
use simplecontainerregistry.Domain.{RepositoryTag, Repository}
use simplecontainerregistry.Storage.Digest.{colon}
use simplecontainerregistry.Storage.Disk.{then_do, ◌>>=◌}
use simplecontainerregistry.Db.Tables.{
  Database, delete_where, first_row, checked_sum, end_transaction, execute,
}
use simplecontainerregistry.Db.Repositories.{tags_of, size_of, recount, drop_repositories}
use simplecontainerregistry.Db.Tags.{
  UpsertRepositoryTagParams, has_tag, check_params, touch_push, push_rows, upsert_tags,
  upsert_checked, upsert_repository_tags, names_row, drop_references, drop_orphaned_policy,
  is_empty_repository, delete_repository_manifest_reference,
}
use simplecontainerregistry.Db.Tags.View.{
  TagMap, digest_at, view, assign_all, digest_at-upsert_tags,
}
use simplecontainerregistry.Db.Keyed.{Keyed}
use simplecontainerregistry.Db.Fitting.{goes}
use simplecontainerregistry.Db.Consistent.{Fits, recount-Fits}
use simplecontainerregistry.Db.Consistent.Deleted.{drop_references-FitsBut, empty-goes}

checked : (n : ℕ) → n < 2 ^ 63 → checked_sum n ≡ ok n
unfolding checked_sum
checked n small = ground arith

-- A push of valid tags to a repository whose tags then take less than 2^63 bytes succeeds, and after it
-- each of the tags names the digest of the last parameter that sets it, and every other tag of every
-- repository what it named before.
pub upsert_repository_tags-view :
    (param : UpsertRepositoryTagParams) (params : List UpsertRepositoryTagParams) (now : ℕ)
    (d : Database)
    → is_nil param.repository_name ≡ false
    → check_params param.repository_name (param ∷ params) ≡ ok tt
    → size_of (tags_of param.repository_name (upsert_tags (param ∷ params) now d.repository_tags))
      < 2 ^ 63
    → ((upsert_repository_tags (param ∷ params) now d).0 ≡ ok tt)
      × ((name tag : Bytes)
          → view (upsert_repository_tags (param ∷ params) now d).1 name tag
            ≡ assign_all (param ∷ params) (view d) name tag)
unfolding upsert_repository_tags upsert_checked recount push_rows touch_push
upsert_repository_tags-view param params now d named valid small =
    rw (named, valid, checked _ small)
      (refl, λ name tag. digest_at-upsert_tags (param ∷ params) now name tag d.repository_tags)

-- What a deletion takes out of the map: all the tags of the repository that name the digest, for a
-- reference with a colon; the one tag, for another.
abbrev pub taken : Bytes → Bytes → Bytes → Bytes → Option Bytes → Bool
taken reference digest tag name none = false
taken reference digest tag name (some named) =
    if contains reference colon then beq named digest else beq tag reference

abbrev pub forget : Bytes → Bytes → Bytes → TagMap → TagMap
forget repository reference digest m name tag =
    if beq name repository && taken reference digest tag name (m name tag) then none else m name tag

-- With a unique key, a row that is taken out leaves no other.
no_row :
    (name tag : Bytes) (p : RepositoryTag → Bool) (rows : List RepositoryTag)
    → any (has_tag name tag) rows ≡ false
    → digest_at name tag (delete_where p rows) ≡ none
unfolding any first_row delete_where keep
no_row name tag p [] h = refl
no_row name tag p (row ∷ rows) h = ground (arith, no_row name tag p rows)

digest_at-drop :
    (repository reference digest name tag : Bytes) (rows : List RepositoryTag)
    → Keyed rows
    → digest_at name tag (delete_where (names_row repository reference digest) rows)
      ≡ forget repository reference digest (λ n t. digest_at n t rows) name tag
unfolding first_row delete_where keep
digest_at-drop repository reference digest name tag [] h = ground arith
digest_at-drop repository reference digest name tag (row ∷ rows) (fresh, h) = ground (
  arith,
  beq_iff row.repository_name name,
  beq_iff row.tag tag,
  beq_iff row.repository_name repository,
  beq_iff name repository,
  no_row row.repository_name row.tag (names_row repository reference digest) rows fresh,
  digest_at-drop repository reference digest name tag rows h,
)

no_tail :
    (m : Bytes) (row : RepositoryTag) (rows : List RepositoryTag)
    → tags_of m (row ∷ rows) ≡ []
    → tags_of m rows ≡ []
unfolding tags_of keep
no_tail m row rows h = ground arith

no_head :
    (row : RepositoryTag) (rows : List RepositoryTag)
    → tags_of row.repository_name (row ∷ rows) ≢ []
unfolding tags_of keep
no_head row rows h = ground (arith, beq_refl row.repository_name)

-- The rows of repositories that have none.
delete_where-goes :
    (p : Repository → Bool) (repositories : List Repository) (rows : List RepositoryTag)
    → ((m : Bytes) → goes p repositories m ≡ true → tags_of m rows ≡ [])
    → delete_where (λ row. goes p repositories row.repository_name) rows ≡ rows
unfolding delete_where keep
delete_where-goes p repositories [] h = refl
delete_where-goes p repositories (row ∷ rows) h =
    elim (Bool-cases (goes p repositories row.repository_name)) [
      | inl e ↦ absurd (no_head row rows (h row.repository_name e))
      | inr e ↦ rw e (
          ap (λ (t : List RepositoryTag). row ∷ t)
            (delete_where-goes p repositories rows (λ m k. no_tail m row rows (h m k))))
    ]

-- Deleting the repository that has no tags left deletes no tag.
drop_empty-tags :
    (name : Bytes) (d : Database)
    → Fits d
    → (drop_repositories (is_empty_repository name) d).repository_tags ≡ d.repository_tags
unfolding drop_repositories
drop_empty-tags name d fits =
    delete_where-goes (is_empty_repository name) d.repositories d.repository_tags
      (λ m e. empty-goes name m d.repositories d.repository_tags fits.counted e)

recount-tags :
    (name : Bytes) (d : Database) → (recount name d).1.repository_tags ≡ d.repository_tags
unfolding recount
recount-tags name d = elim (Result-cases (checked_sum (size_of (tags_of name d.repository_tags)))) [
  | inl (total, e) ↦ rw e refl
  | inr (x, e) ↦ rw e refl
]

dropped_rows :
    (repository reference digest : Bytes) (d : Database)
    → (drop_references repository reference digest d).repository_tags
      ≡ delete_where (names_row repository reference digest) d.repository_tags
unfolding drop_references
dropped_rows repository reference digest d = refl

-- The end of the transaction leaves the rows of tags.
finished :
    (name : Bytes) (before : Database) (counted : Result (Unit {0}) × Database)
    → (counted.0 ≡ ok tt → Fits counted.1)
    → (end_transaction before (
        then_do counted (λ _. execute (drop_repositories (is_empty_repository name)) >>= λ _.
        execute (drop_orphaned_policy name)))).0
      ≡ ok tt
    → (end_transaction before (
        then_do counted (λ _. execute (drop_repositories (is_empty_repository name)) >>= λ _.
        execute (drop_orphaned_policy name)))).1.repository_tags
      ≡ counted.1.repository_tags
unfolding drop_orphaned_policy
finished name before (ok done, d) fits h = drop_empty-tags name d (fits refl)
finished name before (err e, d) fits h = cc h

-- In a consistent database, a deletion of a manifest's reference that succeeds forgets exactly the tags
-- that it takes out: by a tag, that one tag of the repository; by a digest, every tag of the repository
-- that names the digest. All other tags, of this and of other repositories, name what they named.
pub delete_repository_manifest_reference-view :
    (repository reference digest : Bytes) (d : Database)
    → Fits d
    → (delete_repository_manifest_reference repository reference digest d).0 ≡ ok tt
    → (name tag : Bytes)
    → view (delete_repository_manifest_reference repository reference digest d).1 name tag
      ≡ forget repository reference digest (view d) name tag
unfolding delete_repository_manifest_reference
delete_repository_manifest_reference-view repository reference digest d fits h name tag =
    elim (Bool-cases (not (is_nil repository || (is_nil reference || is_nil digest)))) [
      | inr e ↦ absurd (cc (rw e at h))
      | inl e ↦
          let dropped : Database = drop_references repository reference digest d in
          let counted_fits : (recount repository dropped).0 ≡ ok tt
              → Fits (recount repository dropped).1 =
            λ done.
              recount-Fits repository dropped done
                (drop_references-FitsBut repository reference digest d fits) in
          rw e (
            ap (λ (rows : List RepositoryTag). digest_at name tag rows)
              (finished repository d (recount repository dropped) counted_fits (rw e at h)
                ∙ recount-tags repository dropped
                ∙ dropped_rows repository reference digest d)
            ∙ digest_at-drop repository reference digest name tag d.repository_tags fits.keyed)
    ]
