-- ===== src/Db/Fitting.antt =====
-- internal/db/store.go: what each statement on repositories and tags keeps of the counters.
use simplecontainerregistry.Base.{
  ℕ, ◌<◌, ◌^◌, Bytes, beq, beq_iff, beq→eq, Bool, true, false, ◌&&◌, List, [], ◌∷◌, ◌≡◌, refl, ap,
  ◌∙◌, sym, inl, inr, any, All, arith, ◌⊎◌,
}
use simplecontainerregistry.Domain.{Repository, RepositoryTag}
use simplecontainerregistry.Db.Tables.{update_where, delete_where}
use simplecontainerregistry.Db.Rows.{
  any-update_where, any-delete_where, All-upsert_row, All-map, All-delete_where, keep-delete_where,
  keep-upsert_row, keep-delete_where_nil,
}
use simplecontainerregistry.Db.Repositories.{has_name, is_tag_of, tags_of, size_of, recount_row}
use simplecontainerregistry.Db.Tags.{
  UpsertRepositoryTagParams, has_tag, new_tag, moved_tag, upsert_tag, upsert_tags, names_row,
}
use simplecontainerregistry.Db.Keyed.{Keyed, Keyed-delete_where}
use simplecontainerregistry.Db.Counted.{Counted, CountedBut, Owned, Counted-same, Counted-recount}

pub record IsFitting (repositories : List Repository) (tags : List RepositoryTag) : Type 0 where
  pub counted : All (Counted tags) repositories
  pub owned : All (Owned repositories) tags
  pub keyed : Keyed tags

-- One repository has still to be counted.
pub record IsFittingBut (name : Bytes) (repositories : List Repository) (tags : List RepositoryTag)
    : Type 0 where
  pub counted : All (CountedBut name tags) repositories
  pub owned : All (Owned repositories) tags
  pub keyed : Keyed tags

pub recount-IsFitting :
    (name : Bytes) (repositories : List Repository) (tags : List RepositoryTag)
    → size_of (tags_of name tags) < 2 ^ 63
    → IsFittingBut name repositories tags
    → IsFitting
        (update_where
          (has_name name)
          (recount_row (tags_of name tags) (size_of (tags_of name tags)))
          repositories)
        tags
recount-IsFitting name repositories tags small h = record {
  counted = Counted-recount name tags repositories small h.counted;
  owned =
      All-map (Owned repositories) (Owned _) tags
        (λ t held.
          any-update_where (has_name t.repository_name) (has_name name) _ repositories (λ r. refl)
          ∙ held)
        h.owned;
  keyed = h.keyed;
}

-- Tags of one repository are inserted or moved.
abbrev pub AllFor : Bytes → List UpsertRepositoryTagParams → Type 0
AllFor name = All (λ (param : UpsertRepositoryTagParams). param.repository_name ≡ name)

other_name : (a b m : Bytes) → beq m a ≡ false → beq b a ≡ true → beq b m ≡ false
other_name a b m h e = ground (arith, beq_iff b a, beq_iff b m, beq_iff m a)

pub tags_of-upsert_tags :
    (name : Bytes) (params : List UpsertRepositoryTagParams) (now : ℕ) (tags : List RepositoryTag)
    (m : Bytes)
    → AllFor name params
    → beq m name ≡ false
    → tags_of m (upsert_tags params now tags) ≡ tags_of m tags
unfolding upsert_tags
tags_of-upsert_tags name [] now tags m named other = refl
tags_of-upsert_tags name (param ∷ params) now tags m (here, named) other =
    tags_of-upsert_tags name params now (upsert_tag param now tags) m named other
    ∙ unfold tags_of upsert_tag in
      keep-upsert_row (is_tag_of m) (has_tag param.repository_name param.tag) (new_tag param now)
        (moved_tag param now) tags
        (λ t at. ground (
          arith,
          beq_iff t.repository_name param.repository_name,
          beq_iff m name,
          beq_iff t.repository_name m,
        ))
        (λ t at. ground (
          arith,
          beq_iff t.repository_name param.repository_name,
          beq_iff m name,
          beq_iff t.repository_name m,
        ))
        (ground (arith, beq_iff param.repository_name m, beq_iff m name))

pub Owned-upsert_tags :
    (name : Bytes) (params : List UpsertRepositoryTagParams) (now : ℕ)
    (repositories : List Repository) (tags : List RepositoryTag)
    → AllFor name params
    → any (has_name name) repositories ≡ true
    → All (Owned repositories) tags
    → All (Owned repositories) (upsert_tags params now tags)
unfolding upsert_tags upsert_tag
Owned-upsert_tags name [] now repositories tags named held owned = owned
Owned-upsert_tags name (param ∷ params) now repositories tags (here, named) held owned =
    Owned-upsert_tags name params now repositories _ named held (
      All-upsert_row (Owned repositories) (Owned repositories) _ (new_tag param now)
        (moved_tag param now) tags (λ t h at. h) (λ t h. h) (λ fresh. rw here held) owned)

-- A reference to a manifest is taken away.
pub tags_of-names_row :
    (name reference digest : Bytes) (tags : List RepositoryTag) (m : Bytes)
    → beq m name ≡ false
    → tags_of m (delete_where (names_row name reference digest) tags) ≡ tags_of m tags
unfolding tags_of
tags_of-names_row name reference digest tags m other =
    keep-delete_where (is_tag_of m) (names_row name reference digest) tags (λ t at.
      ground (arith, beq_iff t.repository_name m, beq_iff m name, beq_iff t.repository_name name))

-- Repositories are deleted with their tags. The ones that stay keep theirs, if none of their name goes,
-- or there are none.
module _ (p : Repository → Bool) (repositories : List Repository) where
  abbrev pub goes : Bytes → Bool
  goes m = any (λ (r : Repository). p r && beq r.name m) repositories

  abbrev pub left : List RepositoryTag → List RepositoryTag
  left tags = delete_where (λ tag. goes tag.repository_name) tags

  tags_of-left :
      (tags : List RepositoryTag) (m : Bytes)
      → (goes m ≡ false) ⊎ (tags_of m tags ≡ [])
      → tags_of m (left tags) ≡ tags_of m tags
  unfolding tags_of
  tags_of-left tags m (inl stays) =
      keep-delete_where (is_tag_of m) (λ tag. goes tag.repository_name) tags
        (λ t at. ap goes (beq→eq t.repository_name m at) ∙ stays)
  tags_of-left tags m (inr nothing) =
      keep-delete_where_nil (is_tag_of m) (λ tag. goes tag.repository_name) tags nothing
      ∙ sym nothing

  pub drop-IsFitting :
      (tags : List RepositoryTag)
      → ((r : Repository) → p r ≡ false → (goes r.name ≡ false) ⊎ (tags_of r.name tags ≡ []))
      → IsFitting repositories tags
      → IsFitting (delete_where p repositories) (left tags)
  drop-IsFitting tags stays h = record {
    counted =
        All-delete_where (Counted tags) (Counted (left tags)) p repositories
          (λ r hr kept.
            Counted-same tags (left tags) r (tags_of-left tags r.name (stays r kept)) hr)
          h.counted;
    owned =
        All-delete_where (Owned repositories) (Owned (delete_where p repositories))
          (λ tag. goes tag.repository_name) tags
          (λ t held kept. any-delete_where (has_name t.repository_name) p repositories held kept)
          h.owned;
    keyed = Keyed-delete_where (λ tag. goes tag.repository_name) tags h.keyed;
  }
