-- ===== src/Db/Counted.antt =====
-- internal/db/store.go: the counters of a repository against its rows in repository_tags.
use simplecontainerregistry.Base.{
  ℕ, ◌<◌, ◌^◌, Bytes, beq, beq_refl, beq→eq, Bool, true, false, List, [], ◌∷◌, ◌≡◌, refl, ap, ◌∙◌,
  sym, inl, inr, keep, any, All, Bool-cases, arith, length, Option, some,
}
use mathlib.Core.Path.{fun_ext}
use simplecontainerregistry.Domain.{Repository, RepositoryTag}
use simplecontainerregistry.Db.Tables.{update_where, upsert_row, sum_of}
use simplecontainerregistry.Db.Rows.{All-update_where, All-upsert_row, All-map}
use simplecontainerregistry.Db.Repositories.{
  has_name, is_tag_of, tags_of, digests_of, size_of_digest, size_of, recount_row, new_repository,
}

-- The counters are those of the repository's tags: how many there are, how many digests they name,
-- and what these take, each digest once, which is in the range of int64.
pub record Counted (tags : List RepositoryTag) (r : Repository) : Type 0 where
  pub tag_count : r.tag_count ≡ length (tags_of r.name tags)
  pub manifest_count : r.manifest_count ≡ length (digests_of (tags_of r.name tags))
  pub size_bytes : r.size_bytes ≡ size_of (tags_of r.name tags)
  pub in_range : r.size_bytes < 2 ^ 63

-- The same, for the repositories but one.
abbrev pub CountedBut : Bytes → List RepositoryTag → Repository → Type 0
CountedBut name tags r = beq r.name name ≡ false → Counted tags r

-- Every tag belongs to a repository.
abbrev pub Owned : List Repository → RepositoryTag → Type 0
Owned repositories tag = any (has_name tag.repository_name) repositories ≡ true

pub Counted-same :
    (tags tags' : List RepositoryTag) (r : Repository)
    → tags_of r.name tags' ≡ tags_of r.name tags
    → Counted tags r
    → Counted tags' r
Counted-same tags tags' r same h = record {
  tag_count = h.tag_count ∙ sym (ap (λ (t : List RepositoryTag). length t) same);
  manifest_count =
      h.manifest_count ∙ sym (ap (λ (t : List RepositoryTag). length (digests_of t)) same);
  size_bytes = h.size_bytes ∙ sym (ap (λ (t : List RepositoryTag). size_of t) same);
  in_range = h.in_range;
}

-- Another list of tags, in which only those of one repository differ.
pub CountedBut-same :
    (name : Bytes) (tags tags' : List RepositoryTag) (repositories : List Repository)
    → ((m : Bytes) → beq m name ≡ false → tags_of m tags' ≡ tags_of m tags)
    → All (CountedBut name tags) repositories
    → All (CountedBut name tags') repositories
CountedBut-same name tags tags' repositories same =
    All-map (CountedBut name tags) (CountedBut name tags') repositories
      (λ r h other. Counted-same tags tags' r (same r.name other) (h other))

-- A row that is inserted or changed under its name leaves the others.
pub CountedBut-upsert_row :
    (name : Bytes) (tags : List RepositoryTag) (row : Repository) (f : Repository → Repository)
    (repositories : List Repository)
    → row.name ≡ name
    → ((r : Repository) → (f r).name ≡ r.name)
    → All (Counted tags) repositories
    → All (CountedBut name tags) (upsert_row (has_name name) row f repositories)
CountedBut-upsert_row name tags row f repositories named kept =
    All-upsert_row (Counted tags) (CountedBut name tags) (has_name name) row f repositories
      (λ r h at other. absurd (cc (at, other, kept r))) (λ r h other. h)
      (λ fresh other. absurd (cc (other, named, beq_refl name)))

-- Counting again makes the counters right.
pub Counted-recount :
    (name : Bytes) (tags : List RepositoryTag) (repositories : List Repository)
    → size_of (tags_of name tags) < 2 ^ 63
    → All (CountedBut name tags) repositories
    → All (Counted tags) (
        update_where
          (has_name name)
          (recount_row (tags_of name tags) (size_of (tags_of name tags)))
          repositories)
Counted-recount name tags repositories small =
    All-update_where (CountedBut name tags) (Counted tags) (has_name name)
      (recount_row (tags_of name tags) (size_of (tags_of name tags))) repositories
      (λ r h at.
        let same : tags_of r.name tags ≡ tags_of name tags =
          ap (λ (n : Bytes). tags_of n tags) (beq→eq r.name name at) in
        record {
          tag_count = sym (ap (λ (t : List RepositoryTag). length t) same);
          manifest_count = sym (ap (λ (t : List RepositoryTag). length (digests_of t)) same);
          size_bytes = sym (ap (λ (t : List RepositoryTag). size_of t) same);
          in_range = small;
        })
      (λ r h other. h other)

-- A name that no repository has owns no tags.
pub tags_of-nil :
    (name : Bytes) (repositories : List Repository) (tags : List RepositoryTag)
    → any (has_name name) repositories ≡ false
    → All (Owned repositories) tags
    → tags_of name tags ≡ []
unfolding tags_of keep
tags_of-nil name repositories [] absent owned = refl
tags_of-nil name repositories (t ∷ tags) absent (ht, owned) = elim (Bool-cases (is_tag_of name t)) [
  | inl e ↦ absurd (cc (ht, absent, beq→eq t.repository_name name e))
  | inr e ↦ rw e (tags_of-nil name repositories tags absent owned)
]

pub Counted-new :
    (name : Bytes) (tags : List RepositoryTag) {last_push_at last_pull_at : Option ℕ}
    → tags_of name tags ≡ []
    → Counted tags (new_repository name last_push_at last_pull_at)
unfolding digests_of size_of sum_of
Counted-new name tags empty = record {
  tag_count = rw empty;
  manifest_count = rw empty;
  size_bytes = rw empty;
  in_range = omega arith;
}

-- The time of a pull is not counted.
module _ (p : RepositoryTag → Bool) (now : ℕ) where
  abbrev pull : RepositoryTag → RepositoryTag
  pull tag = record tag { pulled_at = some now }

  length-pull :
      (name : Bytes) (tags : List RepositoryTag)
      → length (tags_of name (update_where p pull tags)) ≡ length (tags_of name tags)
  unfolding tags_of keep update_where
  length-pull name [] = refl
  length-pull name (t ∷ tags) = ground (arith, length-pull name tags)

  digests_of-pull :
      (name : Bytes) (tags : List RepositoryTag)
      → digests_of (tags_of name (update_where p pull tags)) ≡ digests_of (tags_of name tags)
  unfolding tags_of keep update_where digests_of
  digests_of-pull name [] = refl
  digests_of-pull name (t ∷ tags) = ground (arith, digests_of-pull name tags)

  size_of_digest-pull :
      (name : Bytes) (tags : List RepositoryTag) (digest : Bytes)
      → size_of_digest (tags_of name (update_where p pull tags)) digest
        ≡ size_of_digest (tags_of name tags) digest
  unfolding tags_of keep update_where size_of_digest
  size_of_digest-pull name [] digest = refl
  size_of_digest-pull name (t ∷ tags) digest = ground (arith, size_of_digest-pull name tags digest)

  size_of-pull :
      (name : Bytes) (tags : List RepositoryTag)
      → size_of (tags_of name (update_where p pull tags)) ≡ size_of (tags_of name tags)
  unfolding size_of
  size_of-pull name tags = rw (fun_ext (size_of_digest-pull name tags), digests_of-pull name tags)

  pub Counted-pull :
      (tags : List RepositoryTag) (r : Repository)
      → Counted tags r
      → Counted (update_where p pull tags) r
  Counted-pull tags r h = record {
    tag_count = h.tag_count ∙ sym (length-pull r.name tags);
    manifest_count =
        h.manifest_count ∙ sym (ap (λ (t : List Bytes). length t) (digests_of-pull r.name tags));
    size_bytes = h.size_bytes ∙ sym (size_of-pull r.name tags);
    in_range = h.in_range;
  }
