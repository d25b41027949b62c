-- ===== src/Db/Consistent/Deleted.antt =====
-- internal/db/store.go: deletions keep the counters of repositories.
use simplecontainerregistry.Base.{
  Bytes, beq, beq_iff, beq→eq, true, ◌&&◌, ◌||◌, List, [], ◌∷◌, ◌≡◌, refl, ap, ◌∙◌, sym, inl, inr,
  any, All, Bool-cases, arith, length, not, ==_iff, is_nil, Result, ok, err, and_parts,
}
use simplecontainerregistry.Domain.{Repository, RepositoryTag}
use simplecontainerregistry.Storage.Disk.{◌>>=◌, then_do}
use simplecontainerregistry.Db.Tables.{
  execute, Database, delete_where, end_transaction, require_affected,
}
use simplecontainerregistry.Db.Rows.{any-false, All-map, All-delete_where}
use simplecontainerregistry.Db.Repositories.{
  has_name, tags_of, recount, drop_repositories, delete_repository,
}
use simplecontainerregistry.Db.Tags.{
  drop_references, names_row, is_empty_repository, drop_orphaned_policy,
  delete_repository_manifest_reference,
}
use simplecontainerregistry.Db.Keyed.{Keyed-delete_where}
use simplecontainerregistry.Db.Counted.{Counted, CountedBut, Owned, CountedBut-same}
use simplecontainerregistry.Db.Fitting.{tags_of-names_row, drop-IsFitting, goes}
use simplecontainerregistry.Db.Consistent.{Fits, FitsBut, recount-Fits}

no_length : (xs : List RepositoryTag) → length xs ≡ 0 → xs ≡ []
no_length [] h = refl
no_length (x ∷ xs) h = absurd (omega arith)

-- The repositories that are deleted for want of tags have none.
pub empty-goes :
    (name m : Bytes) (repositories : List Repository) (tags : List RepositoryTag)
    → All (Counted tags) repositories
    → goes (is_empty_repository name) repositories m ≡ true
    → tags_of m tags ≡ []
unfolding any
empty-goes name m [] tags h e = cc e
empty-goes name m (r ∷ repositories) tags (hr, h) e =
    elim (Bool-cases (is_empty_repository name r && beq r.name m)) [
      | inr no_more ↦ empty-goes name m repositories tags h (rw no_more at e)
      | inl found ↦
          let (empty, named) = and_parts (is_empty_repository name r) (beq r.name m) found in
          no_length (tags_of m tags) (
            ap (λ (n : Bytes). length (tags_of n tags)) (sym (beq→eq r.name m named))
            ∙ sym hr.tag_count
            ∙ (==_iff r.tag_count 0).0 (ground arith))
    ]

pub drop_references-FitsBut :
    (name reference digest : Bytes) (d : Database)
    → Fits d
    → FitsBut name (drop_references name reference digest d)
unfolding drop_references
drop_references-FitsBut name reference digest d fits = record {
  counted =
      CountedBut-same name d.repository_tags _ d.repositories
        (λ m other. tags_of-names_row name reference digest d.repository_tags m other)
        (All-map (Counted d.repository_tags) (CountedBut name d.repository_tags) d.repositories
          (λ r h other. h) fits.counted);
  owned =
      All-delete_where (Owned d.repositories) (Owned d.repositories)
        (names_row name reference digest) d.repository_tags (λ t h kept. h) fits.owned;
  keyed = Keyed-delete_where (names_row name reference digest) d.repository_tags fits.keyed;
}

drop_empty-Fits :
    (name : Bytes) (d : Database) → Fits d → Fits (drop_repositories (is_empty_repository name) d)
unfolding drop_repositories
drop_empty-Fits name d fits =
    drop-IsFitting (is_empty_repository name) d.repositories d.repository_tags
      (λ r kept. elim (Bool-cases (goes (is_empty_repository name) d.repositories r.name)) [
        | inl e ↦ inr (empty-goes name r.name d.repositories d.repository_tags fits.counted e)
        | inr e ↦ inl e
      ])
      fits

drop_named-Fits :
    (name : Bytes) (d : Database) → Fits d → Fits (drop_repositories (has_name name) d)
unfolding drop_repositories
drop_named-Fits name d fits =
    drop-IsFitting (has_name name) d.repositories d.repository_tags
      (λ r kept. inl (
        any-false (λ (x : Repository). has_name name x && beq x.name r.name) d.repositories
          (λ x. ground (arith, beq_iff x.name name, beq_iff x.name r.name, beq_iff r.name name))))
      fits

-- The end of that transaction.
drop_after-Fits :
    (name : Bytes) (before : Database) (counted : Result (Unit {0}) × Database)
    → Fits before
    → (counted.0 ≡ ok tt → Fits counted.1)
    → Fits
        (end_transaction before (
          then_do counted (λ _. execute (drop_repositories (is_empty_repository name)) >>= λ _.
          execute (drop_orphaned_policy name)))).1
unfolding drop_orphaned_policy
drop_after-Fits name before (ok done, d) fits h = drop_empty-Fits name d (h refl)
drop_after-Fits name before (err e, d) fits h = fits

pub delete_repository_manifest_reference-Fits :
    (name reference digest : Bytes) (d : Database)
    → Fits d
    → Fits (delete_repository_manifest_reference name reference digest d).1
unfolding delete_repository_manifest_reference
delete_repository_manifest_reference-Fits name reference digest d fits =
    elim (Bool-cases (not (is_nil name || (is_nil reference || is_nil digest)))) [
      | inr e ↦ rw e fits
      | inl e ↦ rw e (
          drop_after-Fits name d (recount name (drop_references name reference digest d)) fits
            (λ counted.
              recount-Fits name (drop_references name reference digest d) counted
                (drop_references-FitsBut name reference digest d fits)))
    ]

pub delete_repository-Fits :
    (name : Bytes) (d : Database) → Fits d → Fits (delete_repository name d).1
unfolding delete_repository require_affected delete_where
delete_repository-Fits name d fits = elim (Bool-cases (any (has_name name) d.repositories)) [
  | inl e ↦ rw e (drop_named-Fits name d fits)
  | inr e ↦ rw e fits
]
