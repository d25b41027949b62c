-- ===== src/Db/Tags.antt =====
-- internal/db/store.go: the tags of repositories.
pub mod View
pub mod Refined
use simplecontainerregistry.Base.{
  ℕ, Bytes, codes, beq, Bool, true, false, ◌&&◌, ◌||◌, not, List, ◌∷◌, [], ◌++◌, Option, none, some,
  any, ltb, ◌==◌, contains, if◌then◌else◌, is_nil, Result, ok, err, failure,
}
use simplecontainerregistry.Base.Int.{ℤ, pos, negsuc, pos_part}
use simplecontainerregistry.Base.Order.{lex_leb}
use simplecontainerregistry.Domain.{Repository, RepositoryTag}
use simplecontainerregistry.Storage.Digest.{colon}
use simplecontainerregistry.Storage.Disk.{Step, ◌>>=◌, lift, return}
use simplecontainerregistry.Db.Tables.{
  Database, update_where, delete_where, first_row, upsert_row, order_by, scan_row, require,
  transaction, execute, query, query_result,
}
use simplecontainerregistry.Db.Repositories.{
  has_name, is_tag_of, tags_of, new_repository, recount, refers_to, drop_repositories,
}

pub record UpsertRepositoryTagParams : Type 0 where
  pub repository_name : Bytes
  pub tag : Bytes
  pub digest : Bytes
  pub media_type : Bytes
  pub size_bytes : ℤ

abbrev pub is_negative : ℤ → Bool
is_negative (pos n) = false
is_negative (negsuc n) = true

-- The loop that checks the parameters.
unfoldable pub check_params : Bytes → List UpsertRepositoryTagParams → Result (Unit {0})
check_params name [] = ok tt
check_params name (param ∷ params) =
    let rest = check_params name params in
    if not (beq param.repository_name name) || (is_nil param.tag || is_nil param.digest)
    then err (failure (codes "repository name, tag, and digest are required"))
    else if is_negative param.size_bytes
    then err (failure (codes "size bytes cannot be negative"))
    else rest

-- INSERT INTO repositories (name, last_push_at) ... ON CONFLICT.
unfoldable pub touch_push : Bytes → ℕ → Database → Database
touch_push name now d = record d {
  repositories =
      upsert_row (has_name name) (new_repository name (some now) none)
        (λ repository. record repository { last_push_at = some now }) d.repositories;
}

abbrev pub has_tag : Bytes → Bytes → RepositoryTag → Bool
has_tag name tag row = is_tag_of name row && beq row.tag tag

abbrev pub new_tag : UpsertRepositoryTagParams → ℕ → RepositoryTag
new_tag param now = record {
  repository_name = param.repository_name;
  tag = param.tag;
  digest = param.digest;
  media_type = param.media_type;
  size_bytes = pos_part param.size_bytes;
  pushed_at = now;
  pulled_at = none;
}

-- The time of the last pull stays when the tag names the same digest again.
abbrev pub moved_tag : UpsertRepositoryTagParams → ℕ → RepositoryTag → RepositoryTag
moved_tag param now row = record row {
  digest = param.digest;
  media_type = param.media_type;
  size_bytes = pos_part param.size_bytes;
  pushed_at = now;
  pulled_at = if beq row.digest param.digest then row.pulled_at else none;
}

unfoldable pub upsert_tag : UpsertRepositoryTagParams → ℕ → List RepositoryTag → List RepositoryTag
upsert_tag param now rows =
    upsert_row (has_tag param.repository_name param.tag) (new_tag param now) (moved_tag param now)
      rows

-- The loop that inserts the tags.
unfoldable pub upsert_tags :
    List UpsertRepositoryTagParams → ℕ → List RepositoryTag → List RepositoryTag
unfolding upsert_tag
upsert_tags [] now rows = rows
upsert_tags (param ∷ params) now rows = upsert_tags params now (upsert_tag param now rows)

-- The repository and the tags, as they are inserted or moved.
unfoldable pub push_rows : Bytes → List UpsertRepositoryTagParams → ℕ → Database → Database
unfolding touch_push upsert_tags
push_rows name params now d =
    let touched = touch_push name now d in
    record touched { repository_tags = upsert_tags params now touched.repository_tags }

-- The transaction. The last statement sets last_push_at again, to the same time.
unfoldable pub upsert_checked :
    Bytes → List UpsertRepositoryTagParams → ℕ → Step Database (Unit {0})
unfolding push_rows recount
upsert_checked name params now =
    transaction (execute (push_rows name params now) >>= λ _. recount name)

unfoldable pub upsert_repository_tags :
    List UpsertRepositoryTagParams → ℕ → Step Database (Unit {0})
unfolding check_params upsert_checked
upsert_repository_tags [] now = return tt
upsert_repository_tags (param ∷ params) now = do
  let name = param.repository_name
  _ ← lift (require (not (is_nil name)) (codes "repository name is required"))
  _ ← lift (check_params name (param ∷ params))
  upsert_checked name (param ∷ params) now

unfoldable pub upsert_repository_tag : UpsertRepositoryTagParams → ℕ → Step Database (Unit {0})
upsert_repository_tag param now = upsert_repository_tags (param ∷ []) now

unfoldable pub get_repository_tag : Bytes → Bytes → Step Database RepositoryTag
get_repository_tag name tag =
    query_result λ d. scan_row (first_row (has_tag name tag) d.repository_tags)

abbrev pub is_empty_repository : Bytes → Repository → Bool
is_empty_repository name r = has_name name r && (r.tag_count == 0 && r.manifest_count == 0)

-- DELETE FROM repository_tag_policies ... WHERE NOT EXISTS (SELECT ... FROM repositories).
unfoldable pub drop_orphaned_policy : Bytes → Database → Database
drop_orphaned_policy name d = record d {
  repository_tag_policies =
      delete_where
        (λ policy. beq policy.repository_name name && not (any (has_name name) d.repositories))
        d.repository_tag_policies;
}

-- A reference with a colon names all the tags of the digest.
abbrev pub names_row : Bytes → Bytes → Bytes → RepositoryTag → Bool
names_row name reference digest row =
    is_tag_of name row
    && (if contains reference colon then beq row.digest digest else beq row.tag reference)

-- DELETE FROM repository_tags WHERE repository_name = ? AND digest = ?, or AND tag = ?
unfoldable pub drop_references : Bytes → Bytes → Bytes → Database → Database
drop_references name reference digest d = record d {
  repository_tags = delete_where (names_row name reference digest) d.repository_tags;
}

unfoldable pub delete_repository_manifest_reference :
    Bytes → Bytes → Bytes → Step Database (Unit {0})
unfolding drop_references recount drop_repositories drop_orphaned_policy
delete_repository_manifest_reference name reference digest = do
  _ ← lift (
      require (not (is_nil name || (is_nil reference || is_nil digest)))
        (codes "repository name, reference, and digest are required"))
  transaction (
      execute (drop_references name reference digest) >>= λ _. recount name >>= λ _.
      execute (drop_repositories (is_empty_repository name)) >>= λ _.
      execute (drop_orphaned_policy name))

-- ORDER BY pushed_at DESC, tag.
abbrev pub latest_first : RepositoryTag → RepositoryTag → Bool
latest_first x y =
    ltb y.pushed_at x.pushed_at || (y.pushed_at == x.pushed_at && lex_leb x.tag y.tag)

unfoldable pub list_repository_tags : Bytes → Step Database (List RepositoryTag)
unfolding tags_of
list_repository_tags name = query λ d. order_by latest_first (tags_of name d.repository_tags)
