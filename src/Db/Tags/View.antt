-- ===== src/Db/Tags/View.antt =====
-- internal/db/store.go: the tags as an abstract map from a repository and a tag to a digest, and the
-- operations of the store as changes of that map.
use mathlib.Core.Path.{fun_ext}
use simplecontainerregistry.Base.{
  ℕ, Bytes, beq, beq_iff, Bool, true, false, ◌&&◌, List, [], ◌∷◌, ◌++◌, ◌≡◌, refl, ap, ◌∙◌, inl,
  inr, Option, none, some, any, Bool-cases, if◌then◌else◌, arith,
}
use simplecontainerregistry.Domain.{RepositoryTag}
use simplecontainerregistry.Db.Tables.{Database, update_where, first_row, upsert_row}
use simplecontainerregistry.Db.Repositories.{}
use simplecontainerregistry.Db.Tags.{
  UpsertRepositoryTagParams, has_tag, new_tag, moved_tag, upsert_tag, upsert_tags,
}

-- What the tags of the repositories name.
abbrev pub TagMap : Type 0
TagMap = Bytes → Bytes → Option Bytes

abbrev pub digest_of : Option RepositoryTag → Option Bytes
digest_of none = none
digest_of (some row) = some row.digest

abbrev pub digest_at : Bytes → Bytes → List RepositoryTag → Option Bytes
digest_at name tag rows = digest_of (first_row (has_tag name tag) rows)

abbrev pub view : Database → TagMap
view d name tag = digest_at name tag d.repository_tags

abbrev pub assign : UpsertRepositoryTagParams → TagMap → TagMap
assign param m name tag =
    if beq param.repository_name name && beq param.tag tag then some param.digest else m name tag

abbrev pub assign_all : List UpsertRepositoryTagParams → TagMap → TagMap
assign_all [] m = m
assign_all (param ∷ params) m = assign_all params (assign param m)

-- A row of another key is not met.
has_tag-row :
    (a b name tag : Bytes) (row : RepositoryTag)
    → has_tag a b row ≡ true
    → has_tag name tag row ≡ (beq a name && beq b tag)
has_tag-row a b name tag row h = ground (
  arith,
  beq_iff row.repository_name a,
  beq_iff row.tag b,
  beq_iff row.repository_name name,
  beq_iff row.tag tag,
  beq_iff a name,
  beq_iff b tag,
)

abbrev hit : Bool → Bytes → Option Bytes
hit b digest = if b then some digest else none

digest_at-moved :
    (param : UpsertRepositoryTagParams) (now : ℕ) (name tag : Bytes) (rows : List RepositoryTag)
    → digest_at name tag
        (update_where (has_tag param.repository_name param.tag) (moved_tag param now) rows)
      ≡ (if beq param.repository_name name && beq param.tag tag
          then hit (any (has_tag param.repository_name param.tag) rows) param.digest
          else digest_at name tag rows)
unfolding update_where first_row any
digest_at-moved param now name tag [] = ground arith
digest_at-moved param now name tag (row ∷ rows) =
    elim (Bool-cases (has_tag param.repository_name param.tag row)) [
      | inl e ↦ rw e (
          ground (
            arith,
            has_tag-row param.repository_name param.tag name tag row e,
            digest_at-moved param now name tag rows,
          ))
      | inr e ↦ rw e (
          ground (
            arith,
            beq_iff param.repository_name name,
            beq_iff param.tag tag,
            digest_at-moved param now name tag rows,
          ))
    ]

digest_at-last :
    (param : UpsertRepositoryTagParams) (now : ℕ) (name tag : Bytes) (rows : List RepositoryTag)
    → any (has_tag param.repository_name param.tag) rows ≡ false
    → digest_at name tag (rows ++ new_tag param now ∷ []) ≡ (
        if beq param.repository_name name && beq param.tag tag
        then some param.digest
        else digest_at name tag rows)
unfolding first_row any
digest_at-last param now name tag [] absent = ground arith
digest_at-last param now name tag (row ∷ rows) absent = ground (
  arith,
  beq_iff param.repository_name name,
  beq_iff param.tag tag,
  digest_at-last param now name tag rows,
)

digest_at-upsert_tag :
    (param : UpsertRepositoryTagParams) (now : ℕ) (name tag : Bytes) (rows : List RepositoryTag)
    → digest_at name tag (upsert_tag param now rows)
      ≡ assign param (λ n t. digest_at n t rows) name tag
unfolding upsert_tag upsert_row
digest_at-upsert_tag param now name tag rows =
    elim (Bool-cases (any (has_tag param.repository_name param.tag) rows)) [
      | inl e ↦ rw e (
          digest_at-moved param now name tag rows
          ∙ ap
              (λ (b : Bool).
                if beq param.repository_name name && beq param.tag tag
                then hit b param.digest
                else digest_at name tag rows)
              e)
      | inr e ↦ rw e (digest_at-last param now name tag rows e)
    ]

pub digest_at-upsert_tags :
    (params : List UpsertRepositoryTagParams) (now : ℕ) (name tag : Bytes)
    (rows : List RepositoryTag)
    → digest_at name tag (upsert_tags params now rows)
      ≡ assign_all params (λ n t. digest_at n t rows) name tag
unfolding upsert_tags
digest_at-upsert_tags [] now name tag rows = refl
digest_at-upsert_tags (param ∷ params) now name tag rows =
    digest_at-upsert_tags params now name tag (upsert_tag param now rows)
    ∙ ap (λ (m : TagMap). assign_all params m name tag)
        (fun_ext (λ n. fun_ext (λ t. digest_at-upsert_tag param now n t rows)))
