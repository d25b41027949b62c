-- ===== src/Storage/Referrers.antt =====
-- internal/storage/filesystem.go: ListReferrers, the manifests of a repository that name a subject.
use simplecontainerregistry.Base.{
  Bytes, codes, beq, Bool, true, false, ◌&&◌, ◌||◌, not, List, [], ◌∷◌, ◌++◌, Option, none, some,
  trim_space, if◌then◌else◌, is_nil, Result, ok, err,
}
use simplecontainerregistry.Base.Order.{lex_leb}
use simplecontainerregistry.Storage.Digest.{Descriptor, parse_digest}
use simplecontainerregistry.Storage.Path.{FilePath, safe_repository_path, safe_join}
use simplecontainerregistry.Storage.Manifest.{ManifestJson, descriptor_for_referrer, subject_digest}
use simplecontainerregistry.Storage.Disk.{
  Action, ◌>>=◌, lift, return, is_not_exist, on_error, node_at, is_folder, parent, base_name, stat,
  read_file, walk_paths,
}
use simplecontainerregistry.Storage.Manifests.{content_name, media_type_name}

module _ (root : FilePath) where
  abbrev pub is_referrer : Bytes → Bytes → Bytes → Descriptor → Bool
  is_referrer subject wanted artifact_type descriptor =
      beq subject wanted && (is_nil artifact_type || beq descriptor.artifact_type artifact_type)

  abbrev pub with_referrer :
      Bytes → Bytes → Bytes → Option Descriptor → List Descriptor → List Descriptor
  with_referrer subject wanted artifact_type none found = found
  with_referrer subject wanted artifact_type (some descriptor) found =
      if is_referrer subject wanted artifact_type descriptor then descriptor ∷ found else found

  -- The digest that the directory of a file spells.
  abbrev pub digest_of_path : FilePath → Bytes
  unfolding parent base_name
  digest_of_path path = base_name (parent (parent path)) ++ b':' ∷ base_name (parent path)

  abbrev pub read_referrer :
      ManifestJson
      → Bytes
      → Bytes
      → FilePath
      → Result (Bytes × Bytes)
      → List Descriptor
      → Action (List Descriptor)
  unfolding parent descriptor_for_referrer subject_digest
  read_referrer json wanted artifact_type path (err e) found = return found
  read_referrer json wanted artifact_type path (ok parsed) found = do
    content ← read_file path
    media_type ← read_file (parent path ++ media_type_name ∷ [])
    return (
        with_referrer (subject_digest json content) wanted artifact_type
          (descriptor_for_referrer json content (trim_space media_type) (digest_of_path path))
          found)

  unfoldable pub referrers_loop :
      ManifestJson → Bytes → Bytes → List FilePath → List Descriptor → Action (List Descriptor)
  unfolding base_name parent parse_digest
  referrers_loop json wanted artifact_type [] found = return found
  referrers_loop json wanted artifact_type (path ∷ paths) found =
      (λ d.
        if is_folder (node_at path d) || not (beq (base_name path) content_name)
        then (ok found, d)
        else read_referrer json wanted artifact_type path (parse_digest (digest_of_path path)) found
            d)
      >>= λ found'. referrers_loop json wanted artifact_type paths found'

  unfoldable pub insert_descriptor : Descriptor → List Descriptor → List Descriptor
  insert_descriptor x [] = x ∷ []
  insert_descriptor x (y ∷ ys) =
      let rest = insert_descriptor x ys in
      if lex_leb x.digest y.digest then x ∷ y ∷ ys else y ∷ rest

  -- sort.Slice by digest.
  unfoldable pub sort_descriptors : List Descriptor → List Descriptor
  unfolding insert_descriptor
  sort_descriptors [] = []
  sort_descriptors (x ∷ xs) = insert_descriptor x (sort_descriptors xs)

  abbrev pub manifests_path : Bytes → FilePath
  manifests_path repo_path =
      safe_join root (codes "repositories" ∷ repo_path ∷ codes "manifests" ∷ [])

  unfoldable pub list_referrers : ManifestJson → Bytes → Bytes → Bytes → Action (List Descriptor)
  unfolding referrers_loop sort_descriptors
  list_referrers json repository wanted artifact_type = do
    _ ← lift (parse_digest wanted)
    repo_path ← lift (safe_repository_path repository)
    present ←
        on_error is_not_exist (return false) (stat (manifests_path repo_path) >>= λ _. return true)
    if not present
        then return []
        else ((λ d.
              referrers_loop json wanted artifact_type
                (walk_paths (manifests_path repo_path) d.nodes) [] d)
            >>= λ found. return (sort_descriptors found))
