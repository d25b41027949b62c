-- ===== src/Storage/Path.antt =====
-- internal/storage/filesystem.go: where on disk a repository, a reference and a digest live.
-- A path is the list of its segments from "/"; `root` stands for the storage root directory.
pub mod Clean
pub mod Layout
use simplecontainerregistry.Base.{
  Bytes, codes, beq, Bool, true, false, ◌&&◌, ◌||◌, not, List, [], ◌∷◌, ◌++◌, contains, split, trim,
  is_slash, is_nil, all, any, leb, ◌==◌, ℕ, ◌≤◌, take, reverse, if◌then◌else◌, Result, ok, err,
  failure, invalid_reference, ◌>>=◌,
}
use simplecontainerregistry.Storage.Digest.{parse_digest}

abbrev pub FilePath : Type 0
FilePath = List Bytes

abbrev pub dot : Bytes
dot = codes "."

abbrev pub dot_dot : Bytes
dot_dot = codes ".."

abbrev pub slash : Bytes
slash = b'/' ∷ []

-- A segment that filepath.Clean would take away.
unfoldable pub bad_part : Bytes → Bool
bad_part part = is_nil part || (beq part dot || beq part dot_dot)

-- safeRepositoryPath.
unfoldable pub safe_repository_path : Bytes → Result Bytes
unfolding bad_part
safe_repository_path raw =
    let repository = trim is_slash raw in
    if is_nil repository || contains repository dot_dot
    then err (failure (codes "invalid repository name"))
    else if any bad_part (split repository b'/')
    then err (failure (codes "invalid repository name"))
    else ok repository

unfoldable pub validate_repository : Bytes → Result (Unit {0})
validate_repository repository = safe_repository_path repository >>= λ _. ok tt

-- A byte that a tag may hold. Go ranges over runes, and no rune beyond ASCII passes.
unfoldable pub is_reference_byte : ℕ → Bool
is_reference_byte r =
    (leb b'A' r && leb r b'Z')
    || ((leb b'a' r && leb r b'z')
        || ((leb b'0' r && leb r b'9') || (r == b'.' || (r == b'_' || r == b'-'))))

unfoldable pub sanitize_reference : Bytes → Result Bytes
unfolding is_reference_byte
sanitize_reference reference =
    if is_nil reference
      || (contains reference slash
          || (contains reference (codes "\\") || contains reference dot_dot))
    then err invalid_reference
    else if not (all is_reference_byte reference)
    then err invalid_reference
    else ok reference

unfoldable pub validate_tag : Bytes → Result (Unit {0})
validate_tag tag = sanitize_reference tag >>= λ _. ok tt

-- One round of filepath.Clean on an absolute path; the segments so far are in reverse.
unfoldable pub clean_step : FilePath → Bytes → FilePath
clean_step [] segment =
    if is_nil segment || (beq segment dot || beq segment dot_dot) then [] else segment ∷ []
clean_step (top ∷ above) segment =
    if is_nil segment || beq segment dot
    then top ∷ above
    else if beq segment dot_dot
    then above
    else segment ∷ top ∷ above

unfoldable pub clean_loop : FilePath → List Bytes → FilePath
unfolding clean_step
clean_loop done [] = reverse done
clean_loop done (segment ∷ segments) = clean_loop (clean_step done segment) segments

-- The segments of the parts that filepath.Join puts together.
unfoldable pub segments_of : List Bytes → List Bytes
segments_of [] = []
segments_of (part ∷ parts) = split part b'/' ++ segments_of parts

-- safeJoin.
unfoldable pub safe_join : FilePath → List Bytes → FilePath
unfolding clean_loop segments_of
safe_join root parts = clean_loop [] (root ++ segments_of parts)

module _ (root : FilePath) where
  unfoldable pub blob_path : Bytes → Result FilePath
  blob_path digest = do
    parsed ← parse_digest digest
    ok (safe_join root (codes "blobs" ∷ parsed.0 ∷ take 2 parsed.1 ∷ parsed.1 ∷ []))

  unfoldable pub repository_blob_path : Bytes → Bytes → Result FilePath
  repository_blob_path repository digest = do
    repo_path ← safe_repository_path repository
    parsed ← parse_digest digest
    ok (
        safe_join root
          (codes "repositories" ∷ repo_path ∷ codes "blobs" ∷ parsed.0 ∷ parsed.1 ∷ []))

  unfoldable pub manifest_path : Bytes → Bytes → Result FilePath
  manifest_path repository reference = do
    repo_path ← safe_repository_path repository
    reference_path ← sanitize_reference reference
    ok (safe_join root (codes "repositories" ∷ repo_path ∷ codes "manifests" ∷ reference_path ∷ []))

  -- manifestDigestPath; the repository path is already checked.
  unfoldable pub manifest_digest_path : Bytes → Bytes → Result FilePath
  manifest_digest_path repo_path digest = do
    parsed ← parse_digest digest
    ok (
        safe_join root
          (codes "repositories" ∷ repo_path ∷ codes "manifests" ∷ parsed.0 ∷ parsed.1 ∷ []))

  -- The directory of a repository's tags, and the file of one of them.
  unfoldable pub tags_path : Bytes → FilePath
  tags_path repo_path = safe_join root (codes "repositories" ∷ repo_path ∷ codes "tags" ∷ [])

  unfoldable pub tag_path : Bytes → Bytes → FilePath
  tag_path repo_path tag =
      safe_join root (codes "repositories" ∷ repo_path ∷ codes "tags" ∷ tag ∷ [])

  -- UploadPath.
  unfoldable pub upload_path : Bytes → Bytes → Bytes → Result FilePath
  upload_path repository owner_id upload_id =
      if is_nil upload_id || (contains upload_id slash || contains upload_id dot_dot)
      then err (failure (codes "invalid upload id"))
      else if is_nil owner_id || (contains owner_id slash || contains owner_id dot_dot)
      then err (failure (codes "invalid upload owner"))
      else do
        repo_path ← safe_repository_path repository
        ok (safe_join root (codes "uploads" ∷ repo_path ∷ owner_id ∷ upload_id ∷ []))
