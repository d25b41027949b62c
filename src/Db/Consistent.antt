-- ===== src/Db/Consistent.antt =====
-- internal/db/store.go: pushes and pulls keep the counters of repositories.
pub mod Deleted
use simplecontainerregistry.Base.{
  ℕ, ◌<◌, ◌^◌, Bytes, beq, beq_iff, beq_refl, beq→eq, true, ◌&&◌, ◌||◌, List, [], ◌∷◌, ◌≡◌, refl,
  ap, ◌∙◌, sym, inl, inr, any, All, Bool-cases, arith, length, not, ==_iff, is_nil, Result, ok, err,
  Result-cases, ltb, and_parts,
}
use simplecontainerregistry.Domain.{Repository, RepositoryTag}
use simplecontainerregistry.Storage.Disk.{Step, ◌>>=◌, then_do}
use simplecontainerregistry.Db.Tables.{
  execute, Database, delete_where, transaction, end_transaction, checked_sum, require_affected,
}
use simplecontainerregistry.Db.Rows.{
  any-upsert_row, any-upsert_row_self, any-false, All-update_where, All-upsert_row, All-map,
  All-delete_where,
}
use simplecontainerregistry.Db.Repositories.{
  has_name, tags_of, size_of, recount, touch_pull, mark_tags, mark_reference,
  mark_repository_pulled, drop_repositories, delete_repository,
}
use simplecontainerregistry.Db.Tags.{
  UpsertRepositoryTagParams, check_params, push_rows, upsert_checked, drop_references,
  upsert_repository_tags, names_row, is_empty_repository, drop_orphaned_policy,
  delete_repository_manifest_reference,
}
use simplecontainerregistry.Db.Keyed.{Keyed-update_where, Keyed-delete_where, Keyed-upsert_tags}
use simplecontainerregistry.Db.Counted.{
  Counted, CountedBut, Owned, CountedBut-same, CountedBut-upsert_row, Counted-pull, Counted-new,
  tags_of-nil,
}
use simplecontainerregistry.Db.Fitting.{
  IsFitting, IsFittingBut, recount-IsFitting, AllFor, tags_of-upsert_tags, Owned-upsert_tags,
  tags_of-names_row, drop-IsFitting, goes,
}

abbrev pub Fits : Database → Type 0
Fits d = IsFitting d.repositories d.repository_tags

abbrev pub FitsBut : Bytes → Database → Type 0
FitsBut name d = IsFittingBut name d.repositories d.repository_tags

checked_sum-small : (n m : ℕ) → checked_sum n ≡ ok m → (m ≡ n) × (n < 2 ^ 63)
unfolding checked_sum
checked_sum-small n m h = elim (Bool-cases (ltb n (2 ^ 63))) [
  | inl e ↦ (cc (rw e at h), ground arith)
  | inr e ↦ absurd (cc (rw e at h))
]

-- A count that succeeds leaves no repository to be counted.
pub recount-Fits :
    (name : Bytes) (d : Database)
    → (recount name d).0 ≡ ok tt
    → FitsBut name d
    → Fits (recount name d).1
unfolding recount
recount-Fits name d h fits =
    elim (Result-cases (checked_sum (size_of (tags_of name d.repository_tags)))) [
      | inr (x, e) ↦ absurd (cc (rw e at h))
      | inl (total, e) ↦
          let (same, small) = checked_sum-small _ total e in
          rw (e, same) (recount-IsFitting name d.repositories d.repository_tags small fits)
    ]

check_params-AllFor :
    (name : Bytes) (params : List UpsertRepositoryTagParams)
    → check_params name params ≡ ok tt
    → AllFor name params
unfolding check_params
check_params-AllFor name [] h = tt
check_params-AllFor name (param ∷ params) h = (
  ground (arith, beq_iff param.repository_name name),
  check_params-AllFor name params (ground arith),
)

push-FitsBut :
    (name : Bytes) (params : List UpsertRepositoryTagParams) (now : ℕ) (d : Database)
    → AllFor name params
    → Fits d
    → FitsBut name (push_rows name params now d)
unfolding push_rows
push-FitsBut name params now d named fits = record {
  counted =
      CountedBut-same name d.repository_tags _ _
        (λ m other. tags_of-upsert_tags name params now d.repository_tags m named other)
        (CountedBut-upsert_row name d.repository_tags _ _ d.repositories refl (λ r. refl)
          fits.counted);
  owned =
      Owned-upsert_tags name params now _ d.repository_tags named
        (any-upsert_row_self (has_name name) _ _ d.repositories (λ r. refl) (beq_refl name))
        (All-map (Owned d.repositories) (Owned _) d.repository_tags
          (λ t held.
            any-upsert_row (has_name t.repository_name) (has_name name) _ _ d.repositories
              (λ r. refl) held)
          fits.owned);
  keyed = Keyed-upsert_tags params now d.repository_tags fits.keyed;
}

-- What a transaction that ends well leaves.
end_transaction-Fits :
    (before : Database) (after : Result (Unit {0}) × Database)
    → Fits before
    → (after.0 ≡ ok tt → Fits after.1)
    → Fits (end_transaction before after).1
end_transaction-Fits before (ok done, after) h k = k refl
end_transaction-Fits before (err e, after) h k = h

transaction-Fits :
    (body : Step Database (Unit {0})) (d : Database)
    → Fits d
    → ((body d).0 ≡ ok tt → Fits (body d).1)
    → Fits (transaction body d).1
transaction-Fits body d = end_transaction-Fits d (body d)

upsert_checked-Fits :
    (name : Bytes) (params : List UpsertRepositoryTagParams) (now : ℕ) (d : Database)
    → AllFor name params
    → Fits d
    → Fits (upsert_checked name params now d).1
unfolding upsert_checked
upsert_checked-Fits name params now d named fits =
    transaction-Fits (execute (push_rows name params now) >>= λ _. recount name) d fits (λ done.
      recount-Fits name (push_rows name params now d) done
        (push-FitsBut name params now d named fits))

pub upsert_repository_tags-Fits :
    (params : List UpsertRepositoryTagParams) (now : ℕ) (d : Database)
    → Fits d
    → Fits (upsert_repository_tags params now d).1
unfolding upsert_repository_tags
upsert_repository_tags-Fits [] now d fits = fits
upsert_repository_tags-Fits (param ∷ params) now d fits =
    let name : Bytes = param.repository_name in
    elim (Bool-cases (is_nil name)) [
      | inl e ↦ rw e fits
      | inr e ↦ elim (Result-cases (check_params name (param ∷ params))) [
        | inr (x, refused) ↦ rw (e, refused) fits
        | inl (done, checked) ↦
            rw (e, checked)
              (upsert_checked-Fits name (param ∷ params) now d
                (check_params-AllFor name (param ∷ params) checked) fits)
      ]
    ]

touch_pull-Fits : (name : Bytes) (now : ℕ) (d : Database) → Fits d → Fits (touch_pull name now d)
unfolding touch_pull
touch_pull-Fits name now d fits = record {
  counted =
      All-upsert_row (Counted d.repository_tags) (Counted d.repository_tags) (has_name name) _ _
        d.repositories
        (λ r h at. record {
          tag_count = h.tag_count;
          manifest_count = h.manifest_count;
          size_bytes = h.size_bytes;
          in_range = h.in_range;
        })
        (λ r h. h)
        (λ fresh.
          Counted-new name d.repository_tags
            (tags_of-nil name d.repositories d.repository_tags fresh fits.owned))
        fits.counted;
  owned =
      All-map (Owned d.repositories) (Owned _) d.repository_tags
        (λ t held.
          any-upsert_row (has_name t.repository_name) (has_name name) _ _ d.repositories (λ r. refl)
            held)
        fits.owned;
  keyed = fits.keyed;
}

mark_tags-Fits :
    (name reference : Bytes) (now : ℕ) (d : Database)
    → Fits d
    → Fits (mark_tags name reference now d)
unfolding mark_tags
mark_tags-Fits name reference now d fits = record {
  counted =
      All-map (Counted d.repository_tags) (Counted _) d.repositories
        (λ r h. Counted-pull _ now d.repository_tags r h) fits.counted;
  owned =
      All-update_where (Owned d.repositories) (Owned d.repositories) _ _ d.repository_tags
        (λ t h at. h) (λ t h at. h) fits.owned;
  keyed = Keyed-update_where _ _ d.repository_tags (λ row. refl) (λ row. refl) fits.keyed;
}

pub mark_repository_pulled-Fits :
    (name reference : Bytes) (now : ℕ) (d : Database)
    → Fits d
    → Fits (mark_repository_pulled name reference now d).1
unfolding mark_repository_pulled mark_reference
mark_repository_pulled-Fits name reference now d fits = elim (Bool-cases (is_nil name)) [
  | inl e ↦ rw e fits
  | inr e ↦ elim (Bool-cases (is_nil reference)) [
    | inl no_reference ↦ rw (e, no_reference) (touch_pull-Fits name now d fits)
    | inr marked ↦
        rw (e, marked)
          (mark_tags-Fits name reference now (touch_pull name now d)
            (touch_pull-Fits name now d fits))
  ]
]
