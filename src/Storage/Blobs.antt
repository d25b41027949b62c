-- ===== src/Storage/Blobs.antt =====
-- internal/storage/filesystem.go: blobs and uploads on disk. A blob is stored once, under its digest; a
-- repository has it if there is an empty file for it in the repository's directory of blobs.
pub mod Committed
use simplecontainerregistry.Base.{
  ℕ, ◌+◌, Bytes, codes, beq, Bool, true, false, ◌||◌, not, List, [], ◌∷◌, Option, none, some,
  length, cut, if◌then◌else◌, is_nil, Result, ok, err, failure, not_exist, is_some, ltb, codes,
  join, drop,
}
use simplecontainerregistry.Storage.Digest.{Hashes, parse_digest, digest_for_content, digest_hash}
use simplecontainerregistry.Storage.Path.{
  FilePath, safe_join, blob_path, repository_blob_path, upload_path,
}
use simplecontainerregistry.Storage.Manifest.{ManifestJson, manifest_blob_digests}
use simplecontainerregistry.Storage.Disk.{
  Node, folder, file, Action, ◌>>=◌, lift, return, fail, is_not_exist, is_exist, on_error, node_at,
  is_folder, parent, base_name, stat, read_file, write_file, create_new, mkdir_all, remove, rename,
  read_dir, walk_paths,
}
use simplecontainerregistry.Storage.Manifests.{for_each, files_of, content_name}

abbrev pub size_of : Node → ℕ
size_of (folder time) = 0
size_of (file content time) = length content

abbrev pub time_of : Node → ℕ
time_of (folder time) = time
time_of (file content time) = time

abbrev pub require_equal : Bytes → Bytes → Action (Unit {0})
require_equal actual expected =
    if not (beq actual expected) then fail (failure (codes "digest mismatch")) else return tt

abbrev pub require_hash : Option (Bytes → Bytes) → Action (Unit {0})
require_hash none = fail (failure (codes "unsupported digest algorithm"))
require_hash (some h) = return tt

-- The start of CommitBlobFromUpload: the content of the upload, if its digest is the expected one.
unfoldable pub checked_content : Hashes → FilePath → Bytes → Action Bytes
checked_content hashes upload expected_digest = do
  parsed ← lift (parse_digest expected_digest)
  _ ← require_hash (digest_hash hashes parsed.0)
  content ← read_file upload
  _ ← require_equal (digest_for_content hashes parsed.0 content) expected_digest
  return content

-- The end of CommitBlobFromUpload: the upload's file becomes the blob.
unfoldable pub place_blob : FilePath → FilePath → Action (Unit {0})
place_blob upload destination = do
  _ ← mkdir_all (parent destination)
  on_error is_exist (on_error (λ _. true) (return tt) (remove upload)) (rename upload destination)

module _ (root : FilePath) where
  -- HasBlob: the size of the blob, if it is there.
  unfoldable pub has_blob : Bytes → Action (Option ℕ)
  has_blob digest = do
    path ← lift (blob_path root digest)
    on_error is_not_exist (return none) (stat path >>= λ info. return (some (size_of info)))

  -- OpenBlob: what the opened file holds.
  unfoldable pub open_blob : Bytes → Action Bytes
  open_blob digest = do path ← lift (blob_path root digest); read_file path

  unfoldable pub delete_repository_blob : Bytes → Bytes → Action (Unit {0})
  delete_repository_blob repository digest = do
    path ← lift (repository_blob_path root repository digest)
    remove path

  unfoldable pub link_repository_blob : Bytes → Bytes → Action (Unit {0})
  unfolding has_blob
  link_repository_blob repository digest = do
    present ← has_blob digest
    if not (is_some present) then fail not_exist else do
      path ← lift (repository_blob_path root repository digest)
      _ ← mkdir_all (parent path)
      on_error is_exist (return tt) (create_new path)

  unfoldable pub has_repository_blob : Bytes → Bytes → Action Bool
  has_repository_blob repository digest = do
    path ← lift (repository_blob_path root repository digest)
    on_error is_not_exist (return false) (stat path >>= λ _. return true)

  abbrev pub migrated_path : FilePath
  migrated_path = safe_join root (codes ".repository-blob-links-migrated" ∷ [])

  abbrev pub repositories_path : FilePath
  repositories_path = safe_join root (codes "repositories" ∷ [])

  abbrev pub link_present : Bytes → Bytes → Action (Unit {0})
  unfolding has_blob link_repository_blob
  link_present repository digest = do
    present ← has_blob digest
    if is_some present then link_repository_blob repository digest else return tt

  abbrev pub migrate_into : ManifestJson → FilePath → Option (Bytes × Bytes) → Action (Unit {0})
  unfolding for_each manifest_blob_digests has_blob link_repository_blob
  migrate_into json path none = return tt
  migrate_into json path (some (repository, rest)) =
      if is_nil repository
      then return tt
      else read_file path >>= λ content.
          for_each (manifest_blob_digests json content) (link_present repository)

  -- The walk of the migration over a manifest's `content` file; the path is that below `repositories`.
  abbrev pub migrate_step : ManifestJson → FilePath → Action (Unit {0})
  unfolding base_name cut has_blob link_repository_blob for_each manifest_blob_digests
  migrate_step json path d =
      if is_folder (node_at path d) || not (beq (base_name path) content_name)
      then (ok tt, d)
      else migrate_into json path
          (cut (join (drop (length repositories_path) path) b'/') (codes "/manifests/")) d

  unfoldable pub migrate_repository_blob_links : ManifestJson → Action (Unit {0})
  unfolding walk_paths base_name cut has_blob link_repository_blob for_each manifest_blob_digests
  migrate_repository_blob_links json = do
    done ← on_error is_not_exist (return false) (stat migrated_path >>= λ _. return true)
    if done then return tt else do
      _ ← mkdir_all root
      _ ←
          on_error is_not_exist (return tt)
            (λ d. for_each (walk_paths repositories_path d.nodes) (migrate_step json) d)
      write_file migrated_path []

  unfoldable pub count_uploads : Bytes → Bytes → Action ℕ
  unfolding files_of parent
  count_uploads repository owner_id = do
    probe ← lift (upload_path root repository owner_id (codes "probe"))
    names ← on_error is_not_exist (return []) (read_dir (parent probe))
    λ d. (ok (length (files_of (parent probe) d names)), d)

  -- CommitBlobFromUpload; the upload's content is hashed, then its file becomes the blob.
  unfoldable pub commit_blob_from_upload : Hashes → FilePath → Bytes → Action ℕ
  unfolding place_blob checked_content
  commit_blob_from_upload hashes upload expected_digest = do
    content ← checked_content hashes upload expected_digest
    destination ← lift (blob_path root expected_digest)
    _ ← place_blob upload destination
    return (length content)

  abbrev pub uploads_path : FilePath
  uploads_path = safe_join root (codes "uploads" ∷ [])

  -- Whether a file is older than the cutoff, or gone.
  abbrev pub is_stale : ℕ → Result Node → Bool
  is_stale cutoff (ok info) = not (ltb cutoff (time_of info))
  is_stale cutoff (err e) = is_not_exist e

  -- The walk of CleanupStaleUploads, and the number of the uploads that it deleted. A path of the
  -- walk is below the root, so the test for one that escapes is left out.
  unfoldable pub cleanup_loop : ℕ → List FilePath → ℕ → Action ℕ
  unfolding stat remove
  cleanup_loop cutoff [] deleted d = (ok deleted, d)
  cleanup_loop cutoff (path ∷ paths) deleted d =
      let skip = cleanup_loop cutoff paths in
      let found = node_at path d in
      if is_folder found
      then skip deleted d
      else if not (is_stale cutoff (stat path d).0)
      then skip deleted d
      else (on_error is_not_exist (return tt) (remove path) >>= λ _.
            skip (if is_some found then deleted + 1 else deleted))
          d

  unfoldable pub cleanup_stale_uploads : ℕ → Action ℕ
  unfolding cleanup_loop walk_paths
  cleanup_stale_uploads cutoff = do
    present ← on_error is_not_exist (return false) (stat uploads_path >>= λ _. return true)
    if not present then return 0 else λ d. cleanup_loop cutoff (walk_paths uploads_path d.nodes) 0 d
