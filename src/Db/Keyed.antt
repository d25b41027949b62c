-- ===== src/Db/Keyed.antt =====
-- internal/db/schema.go: the primary key of repository_tags, a repository and a tag, is unique.
use simplecontainerregistry.Base.{
  ℕ, beq_iff, Bool, false, List, [], ◌∷◌, ◌++◌, ◌≡◌, refl, ◌∙◌, inl, inr, keep, any, Bool-cases,
  arith,
}
use simplecontainerregistry.Domain.{RepositoryTag}
use simplecontainerregistry.Db.Tables.{update_where, delete_where, upsert_row}
use simplecontainerregistry.Db.Rows.{any-update_where}
use simplecontainerregistry.Db.Tags.{
  UpsertRepositoryTagParams, has_tag, new_tag, moved_tag, upsert_tag, upsert_tags,
}

abbrev pub Keyed : List RepositoryTag → Type 0
Keyed [] = Unit
Keyed (row ∷ rows) = (any (has_tag row.repository_name row.tag) rows ≡ false) × Keyed rows

pub Keyed-update_where :
    (p : RepositoryTag → Bool) (f : RepositoryTag → RepositoryTag) (rows : List RepositoryTag)
    → ((row : RepositoryTag) → (f row).repository_name ≡ row.repository_name)
    → ((row : RepositoryTag) → (f row).tag ≡ row.tag)
    → Keyed rows
    → Keyed (update_where p f rows)
unfolding update_where
Keyed-update_where p f [] name tag h = tt
Keyed-update_where p f (row ∷ rows) name tag (fresh, h) = (
  elim (Bool-cases (p row)) [
    | inl e ↦
        rw (e, name row, tag row)
          (any-update_where (has_tag row.repository_name row.tag) p f rows
              (λ x. rw (name x, tag x) refl)
            ∙ fresh)
    | inr e ↦ rw e (
        any-update_where (has_tag row.repository_name row.tag) p f rows
          (λ x. rw (name x, tag x) refl)
        ∙ fresh)
  ],
  Keyed-update_where p f rows name tag h,
)

any-delete_where_none :
    (q p : RepositoryTag → Bool) (rows : List RepositoryTag)
    → any q rows ≡ false
    → any q (delete_where p rows) ≡ false
unfolding any delete_where keep
any-delete_where_none q p [] h = refl
any-delete_where_none q p (row ∷ rows) h = ground (arith, any-delete_where_none q p rows)

pub Keyed-delete_where :
    (p : RepositoryTag → Bool) (rows : List RepositoryTag)
    → Keyed rows
    → Keyed (delete_where p rows)
unfolding delete_where keep
Keyed-delete_where p [] h = tt
Keyed-delete_where p (row ∷ rows) (fresh, h) = elim (Bool-cases (p row)) [
  | inl e ↦ rw e (Keyed-delete_where p rows h)
  | inr e ↦ rw e (
    any-delete_where_none (has_tag row.repository_name row.tag) p rows fresh,
    Keyed-delete_where p rows h,
  )
]

any_last_none :
    (row new : RepositoryTag) (rows : List RepositoryTag)
    → any (has_tag row.repository_name row.tag) rows ≡ false
    → has_tag new.repository_name new.tag row ≡ false
    → any (has_tag row.repository_name row.tag) (rows ++ new ∷ []) ≡ false
unfolding any
any_last_none row new [] h other = ground (
  arith,
  beq_iff row.repository_name new.repository_name,
  beq_iff row.tag new.tag,
  beq_iff new.repository_name row.repository_name,
  beq_iff new.tag row.tag,
)
any_last_none row new (x ∷ rows) h other = ground (arith, any_last_none row new rows)

Keyed-last :
    (new : RepositoryTag) (rows : List RepositoryTag)
    → any (has_tag new.repository_name new.tag) rows ≡ false
    → Keyed rows
    → Keyed (rows ++ new ∷ [])
unfolding any
Keyed-last new [] fresh h = (refl, tt)
Keyed-last new (row ∷ rows) fresh (here, h) =
    (any_last_none row new rows here (ground arith), Keyed-last new rows (ground arith) h)

pub Keyed-upsert_tags :
    (params : List UpsertRepositoryTagParams) (now : ℕ) (rows : List RepositoryTag)
    → Keyed rows
    → Keyed (upsert_tags params now rows)
unfolding upsert_tags upsert_tag upsert_row
Keyed-upsert_tags [] now rows h = h
Keyed-upsert_tags (param ∷ params) now rows h =
    Keyed-upsert_tags params now _
      (elim (Bool-cases (any (has_tag param.repository_name param.tag) rows)) [
        | inl e ↦ rw e (
            Keyed-update_where (has_tag param.repository_name param.tag) (moved_tag param now) rows
              (λ row. refl) (λ row. refl) h)
        | inr e ↦ rw e (Keyed-last (new_tag param now) rows e h)
      ])
