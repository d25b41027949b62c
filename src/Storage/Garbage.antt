-- ===== src/Storage/Garbage.antt =====
-- internal/storage/filesystem.go: CollectGarbage, which deletes the manifests that no tag names and
-- that are old enough. The repository's lock is a file; holding it makes the callback one step.
pub mod Kept
use simplecontainerregistry.Base.{
  ℕ, ◌+◌, Bytes, codes, beq, elem, Bool, true, false, ◌||◌, not, List, [], ◌∷◌, ◌++◌, Option, none,
  some, length, join, drop, if◌then◌else◌, is_nil, failure, ltb, trim_space,
}
use simplecontainerregistry.Storage.Path.{FilePath, dot, safe_repository_path, safe_join, tags_path}
use simplecontainerregistry.Storage.Disk.{
  Node, folder, file, Action, ◌>>=◌, lift, return, fail, is_not_exist, on_error, node_at, is_folder,
  parent, base_name, is_within, stat, read_file, write_over, put_node, touch, mkdir_all, remove_all,
  read_dir, walk_paths,
}
use simplecontainerregistry.Storage.Blobs.{time_of}

-- os.OpenFile with O_CREATE|O_RDWR: the file is made if it is missing.
abbrev pub open_lock : FilePath → Option Node → Action (Unit {0})
unfolding touch put_node
open_lock p (some (folder time)) = fail (failure (codes "is a directory"))
open_lock p (some (file content time)) = return tt
open_lock p none = write_over p [] none

module _ (root : FilePath) where
  unfoldable pub with_repository_lock {ℓ} : {A : Type ℓ} → Bytes → Action A → Action A
  unfolding touch put_node
  with_repository_lock repository callback = do
    repo_path ← lift (safe_repository_path repository)
    let lock_directory = safe_join root (codes "repositories" ∷ repo_path ∷ [])
    _ ← mkdir_all lock_directory
    _ ← (λ d.
        open_lock (lock_directory ++ codes ".tag.lock" ∷ [])
          (node_at (lock_directory ++ codes ".tag.lock" ∷ []) d) d)
    callback

  -- The loop of referencedManifestDigests.
  unfoldable pub referenced_loop : FilePath → List Bytes → List Bytes → Action (List Bytes)
  referenced_loop tag_dir [] referenced = return referenced
  referenced_loop tag_dir (name ∷ names) referenced =
      let next = referenced_loop tag_dir names in
      λ d.
        if is_folder (node_at (tag_dir ++ name ∷ []) d)
        then next referenced d
        else (read_file (tag_dir ++ name ∷ []) >>= λ data_read.
              next (trim_space data_read ∷ referenced))
            d

  unfoldable pub referenced_manifest_digests : Bytes → Action (List Bytes)
  unfolding referenced_loop
  referenced_manifest_digests repo_path = do
    names ← on_error is_not_exist (return []) (read_dir (tags_path root repo_path))
    referenced_loop (tags_path root repo_path) names []

  -- The loop over the directories of one algorithm.
  unfoldable pub collect_digests : ℕ → List Bytes → FilePath → Bytes → List Bytes → ℕ → Action ℕ
  collect_digests cutoff referenced path algorithm [] deleted = return deleted
  collect_digests cutoff referenced path algorithm (encoded ∷ names) deleted =
      let digest_path = path ++ algorithm ∷ encoded ∷ [] in
      let next = collect_digests cutoff referenced path algorithm names in
      λ d.
        if not (is_folder (node_at digest_path d))
        then next deleted d
        else if elem (algorithm ++ b':' ∷ encoded) referenced
        then next deleted d
        else (stat digest_path >>= λ info.
              if ltb cutoff (time_of info)
              then next deleted
              else (remove_all digest_path >>= λ _. next (deleted + 1)))
            d

  unfoldable pub collect_algorithms : ℕ → List Bytes → FilePath → List Bytes → ℕ → Action ℕ
  unfolding collect_digests
  collect_algorithms cutoff referenced path [] deleted = return deleted
  collect_algorithms cutoff referenced path (algorithm ∷ names) deleted =
      let next = collect_algorithms cutoff referenced path names in
      λ d.
        if not (is_folder (node_at (path ++ algorithm ∷ []) d))
        then next deleted d
        else (read_dir (path ++ algorithm ∷ []) >>= λ digests.
              collect_digests cutoff referenced path algorithm digests deleted >>= λ deleted'.
              next deleted')
            d

  -- filepath.Rel to the directory of the repositories, as text.
  abbrev pub repository_of : FilePath → Bytes
  repository_of below = if is_nil below then dot else join below b'/'

  abbrev pub repositories_dir : FilePath
  repositories_dir = safe_join root (codes "repositories" ∷ [])

  -- One directory `manifests`.
  unfoldable pub collect_repository : ℕ → FilePath → ℕ → Action ℕ
  unfolding collect_algorithms referenced_manifest_digests with_repository_lock parent
  collect_repository cutoff path deleted =
      let repo_path = repository_of (drop (length repositories_dir) (parent path)) in
      with_repository_lock repo_path (
        referenced_manifest_digests repo_path >>= λ referenced.
        read_dir path >>= λ names. collect_algorithms cutoff referenced path names deleted)

  abbrev pub is_skipped : Option FilePath → FilePath → Bool
  unfolding is_within
  is_skipped none path = false
  is_skipped (some above) path = is_within above path

  -- The walk; `skipped` is the directory for which the last filepath.SkipDir was returned.
  unfoldable pub collect_loop : ℕ → List FilePath → Option FilePath → ℕ → Action ℕ
  unfolding collect_repository base_name is_within
  collect_loop cutoff [] skipped deleted = return deleted
  collect_loop cutoff (path ∷ paths) skipped deleted =
      let next = collect_loop cutoff paths in
      λ d.
        if is_skipped skipped path
        then next skipped deleted d
        else if not (is_folder (node_at path d)) || not (beq (base_name path) (codes "manifests"))
        then next skipped deleted d
        else (collect_repository cutoff path deleted >>= λ deleted'. next (some path) deleted') d

  unfoldable pub collect_garbage : ℕ → Action ℕ
  unfolding collect_loop walk_paths
  collect_garbage cutoff = do
    present ← on_error is_not_exist (return false) (stat repositories_dir >>= λ _. return true)
    if not present
        then return 0
        else (λ d. collect_loop cutoff (walk_paths repositories_dir d.nodes) none 0 d)
