-- ===== src/Db/Repositories.antt =====
-- internal/db/store.go: repositories, with the counters that are kept of their tags.
use simplecontainerregistry.Base.{
  ℕ, Bytes, codes, beq, Bool, ◌&&◌, not, List, ◌∷◌, [], Option, none, some, keep, any, elem, leb,
  contains, length, if◌then◌else◌, is_nil, Result, ok, err,
}
use simplecontainerregistry.Base.Order.{lex_leb}
use simplecontainerregistry.Domain.{Repository, RepositoryTag}
use simplecontainerregistry.Storage.Digest.{colon}
use simplecontainerregistry.Storage.Disk.{Step, ◌>>=◌, lift}
use simplecontainerregistry.Db.Tables.{
  Database, update_where, delete_where, first_row, upsert_row, order_by, sum_of, checked_sum,
  scan_row, require, require_affected, transaction, execute, query, query_result,
}

abbrev pub has_name : Bytes → Repository → Bool
has_name name repository = beq repository.name name

-- WHERE repository_name = ?
abbrev pub is_tag_of : Bytes → RepositoryTag → Bool
is_tag_of name tag = beq tag.repository_name name

unfoldable pub tags_of : Bytes → List RepositoryTag → List RepositoryTag
tags_of name tags = keep (is_tag_of name) tags

-- SELECT DISTINCT digest.
unfoldable pub digests_of : List RepositoryTag → List Bytes
digests_of [] = []
digests_of (t ∷ ts) =
    let rest = digests_of ts in if elem t.digest rest then rest else t.digest ∷ rest

abbrev pub max : ℕ → ℕ → ℕ
max a b = if leb a b then b else a

-- MAX(size_bytes) ... GROUP BY digest, for one digest.
unfoldable pub size_of_digest : List RepositoryTag → Bytes → ℕ
size_of_digest [] digest = 0
size_of_digest (t ∷ ts) digest =
    let rest = size_of_digest ts digest in
    if beq t.digest digest then max t.size_bytes rest else rest

-- What the digests of some tags take, each one once.
unfoldable pub size_of : List RepositoryTag → ℕ
unfolding digests_of size_of_digest sum_of
size_of tags = sum_of (size_of_digest tags) (digests_of tags)

abbrev pub recount_row : List RepositoryTag → ℕ → Repository → Repository
recount_row tags total repository = record repository {
  tag_count = length tags;
  manifest_count = length (digests_of tags);
  size_bytes = total;
}

-- UPDATE repositories SET tag_count, manifest_count, size_bytes WHERE name = ?
abbrev pub recount_with : Bytes → Database → Result ℕ → Result (Unit {0}) × Database
recount_with name d (err e) = (err e, d)
recount_with name d (ok total) = (
  ok tt,
  record d {
    repositories =
        update_where (has_name name) (recount_row (tags_of name d.repository_tags) total)
          d.repositories;
  },
)

unfoldable pub recount : Bytes → Step Database (Unit {0})
unfolding tags_of size_of
recount name d = recount_with name d (checked_sum (size_of (tags_of name d.repository_tags)))

abbrev pub new_repository : Bytes → Option ℕ → Option ℕ → Repository
new_repository name last_push_at last_pull_at = record {
  name = name;
  tag_count = 0;
  manifest_count = 0;
  size_bytes = 0;
  last_push_at = last_push_at;
  last_pull_at = last_pull_at;
}

-- INSERT INTO repositories (name, last_pull_at) ... ON CONFLICT.
unfoldable pub touch_pull : Bytes → ℕ → Database → Database
touch_pull name now d = record d {
  repositories =
      upsert_row (has_name name) (new_repository name none (some now))
        (λ repository. record repository { last_pull_at = some now }) d.repositories;
}

-- A reference with a colon is a digest.
abbrev pub refers_to : Bytes → RepositoryTag → Bool
refers_to reference tag =
    if contains reference colon then beq tag.digest reference else beq tag.tag reference

unfoldable pub mark_tags : Bytes → Bytes → ℕ → Database → Database
mark_tags name reference now d = record d {
  repository_tags =
      update_where (λ tag. is_tag_of name tag && refers_to reference tag)
        (λ tag. record tag { pulled_at = some now }) d.repository_tags;
}

-- Nothing is marked without a reference.
unfoldable pub mark_reference : Bytes → Bytes → ℕ → Database → Database
unfolding mark_tags
mark_reference name reference now d = if is_nil reference then d else mark_tags name reference now d

unfoldable pub mark_repository_pulled : Bytes → Bytes → ℕ → Step Database (Unit {0})
unfolding touch_pull mark_reference
mark_repository_pulled name reference now = do
  _ ← lift (require (not (is_nil name)) (codes "repository name is required"))
  transaction (execute (touch_pull name now) >>= λ _. execute (mark_reference name reference now))

unfoldable pub list_repositories : Step Database (List Repository)
list_repositories = query λ d. order_by (λ x y. lex_leb x.name y.name) d.repositories

unfoldable pub get_repository : Bytes → Step Database Repository
get_repository name = query_result λ d. scan_row (first_row (has_name name) d.repositories)

-- The tags go with the row that they refer to.
unfoldable pub drop_repositories : (Repository → Bool) → Database → Database
drop_repositories p d = record d {
  repositories = delete_where p d.repositories;
  repository_tags =
      delete_where (λ tag. any (λ r. p r && beq r.name tag.repository_name) d.repositories)
        d.repository_tags;
}

unfoldable pub delete_repository : Bytes → Step Database (Unit {0})
unfolding drop_repositories
delete_repository name = transaction (
    execute (λ d. record d {
      repository_tag_policies =
          delete_where (λ policy. beq policy.repository_name name) d.repository_tag_policies;
    })
    >>= λ _. (λ d.
      (require_affected (any (has_name name) d.repositories), drop_repositories (has_name name) d)))
