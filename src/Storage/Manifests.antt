-- ===== src/Storage/Manifests.antt =====
-- internal/storage/filesystem.go: manifests and tags on disk. A manifest is the files `content` and
-- `mediaType` in the directory of its digest; a tag is a file that holds a digest. `temporary` is the
-- random part that os.CreateTemp puts into a file name.
pub mod Stored
pub mod Tagged
pub mod Untagged
use simplecontainerregistry.Base.{
  ℕ, Bytes, codes, beq, Bool, true, false, ◌&&◌, ◌||◌, not, List, [], ◌∷◌, ◌++◌, Option, none, some,
  contains, trim_space, length, if◌then◌else◌, is_nil, Result, ok, err, Error, failure, is_some,
}
use simplecontainerregistry.Base.Order.{lex_leb, sort_strings}
use simplecontainerregistry.Storage.Digest.{
  Hashes, Descriptor, colon, parse_digest, digest_for_content, verify_digest,
}
use simplecontainerregistry.Storage.Path.{
  FilePath, safe_repository_path, sanitize_reference, safe_join, manifest_digest_path, tags_path,
  tag_path,
}
use simplecontainerregistry.Storage.Manifest.{
  ManifestJson, manifest_digest_algorithm, descriptor_for_referrer, subject_digest,
}
use simplecontainerregistry.Storage.Disk.{
  Node, Disk, Action, ◌>>=◌, ◌>>◌, lift, return, fail, is_not_exist, on_error, node_at, is_folder,
  is_file, parent, base_name, stat, read_file, write_file, create_new, mkdir_all, remove,
  remove_all, rename, read_dir, walk_paths,
}

abbrev pub content_name : Bytes
content_name = codes "content"

abbrev pub media_type_name : Bytes
media_type_name = codes "mediaType"

abbrev pub has_colon : Bytes → Bool
has_colon reference = contains reference colon

-- `defer`: a second action whose result is not used.
unfoldable pub finally {ℓ} : {A : Type ℓ} → Action A → Action (Unit {0}) → Action A
finally m k d = ((m d).0, (k (m d).1).1)

-- The steps of one loop.
unfoldable pub for_each {ℓ} : {A : Type ℓ} → List A → (A → Action (Unit {0})) → Action (Unit {0})
for_each [] f = return tt
for_each (x ∷ xs) f = f x >> for_each xs f

-- The names of the entries that are no directories.
unfoldable pub files_of : FilePath → Disk → List Bytes → List Bytes
files_of dir d [] = []
files_of dir d (name ∷ names) =
    let rest = files_of dir d names in
    if is_folder (node_at (dir ++ name ∷ []) d) then rest else name ∷ rest

-- The end of linkManifestTag: the temporary file is made, written and renamed.
unfoldable pub swap_in : FilePath → FilePath → Bytes → Action (Unit {0})
unfolding finally
swap_in temporary_file tag_file digest = do
  _ ← create_new temporary_file
  finally (write_file temporary_file digest >> rename temporary_file tag_file)
      (remove temporary_file)

-- The end of PutManifestContent: the two files.
unfoldable pub write_manifest : Bytes → FilePath → Bytes → Bytes → Action (Bytes × ℕ)
write_manifest digest digest_path media_type content = do
  _ ← mkdir_all digest_path
  _ ← write_file (digest_path ++ content_name ∷ []) content
  _ ← write_file (digest_path ++ media_type_name ∷ []) media_type
  return (digest, length content)

module _ (root : FilePath) where
  -- ManifestTagDigest.
  unfoldable pub manifest_tag_digest : Bytes → Bytes → Action Bytes
  manifest_tag_digest repository tag = do
    repo_path ← lift (safe_repository_path repository)
    name ← lift (sanitize_reference tag)
    data_read ← read_file (tag_path root repo_path name)
    _ ← lift (parse_digest (trim_space data_read))
    return (trim_space data_read)

  -- GetManifest: the content, the media type and the digest.
  unfoldable pub get_manifest : Bytes → Bytes → Action (Bytes × Bytes × Bytes)
  unfolding manifest_tag_digest
  get_manifest repository reference = do
    repo_path ← lift (safe_repository_path repository)
    digest ←
        (if not (has_colon reference)
          then manifest_tag_digest repository reference
          else return reference)
    digest_path ← lift (manifest_digest_path root repo_path digest)
    content ← read_file (digest_path ++ content_name ∷ [])
    media_type ← read_file (digest_path ++ media_type_name ∷ [])
    return (content, trim_space media_type, digest)

  module _ (hashes : Hashes) (json : ManifestJson) where
    -- The check of a reference that is not a digest, and the digest to store under.
    abbrev pub check_reference : Bytes → Result (Unit {0})
    check_reference reference =
        if not (has_colon reference)
        then (elim (sanitize_reference reference) [ ok name ↦ ok tt | err e ↦ err e ])
        else ok tt

    unfoldable pub chosen_digest : Bytes → Bytes → Result Bytes
    unfolding digest_for_content
    chosen_digest reference content =
        if has_colon reference
        then (elim (verify_digest hashes content reference) [
          | ok checked ↦ ok reference
          | err e ↦ err e
        ])
        else ok (digest_for_content hashes (manifest_digest_algorithm json content) content)

    unfoldable pub put_manifest_content : Bytes → Bytes → Bytes → Bytes → Action (Bytes × ℕ)
    unfolding write_manifest chosen_digest
    put_manifest_content repository reference media_type content = do
      repo_path ← lift (safe_repository_path repository)
      _ ← lift (check_reference reference)
      digest ← lift (chosen_digest reference content)
      digest_path ← lift (manifest_digest_path root repo_path digest)
      write_manifest digest digest_path media_type content

  module _ (temporary : Bytes) where
    -- os.CreateTemp(filepath.Dir(tagPath), ".tag-*").
    unfoldable pub temporary_path : FilePath → FilePath
    unfolding parent
    temporary_path tag_file = parent tag_file ++ (codes ".tag-" ++ temporary) ∷ []

    -- linkManifestTag: the tag appears by a rename of a temporary file.
    unfoldable pub link_tag : Bytes → Bytes → Bytes → Action (Unit {0})
    unfolding parent swap_in
    link_tag repo_path tag digest = do
      name ← lift (sanitize_reference tag)
      _ ← mkdir_all (parent (tag_path root repo_path name))
      swap_in (temporary_path (tag_path root repo_path name)) (tag_path root repo_path name) digest

    -- LinkManifestTag.
    unfoldable pub link_manifest_tag : Bytes → Bytes → Bytes → Action (Unit {0})
    unfolding link_tag
    link_manifest_tag repository tag digest = do
      repo_path ← lift (safe_repository_path repository)
      digest_path ← lift (manifest_digest_path root repo_path digest)
      _ ← stat digest_path
      link_tag repo_path tag digest

    unfoldable pub put_manifest :
        Hashes → ManifestJson → Bytes → Bytes → Bytes → Bytes → Action (Bytes × ℕ)
    unfolding put_manifest_content link_tag
    put_manifest hashes json repository reference media_type content = do
      stored ← put_manifest_content hashes json repository reference media_type content
      _ ←
          (if not (has_colon reference)
            then (lift (safe_repository_path repository) >>= λ repo_path.
                link_tag repo_path reference stored.0)
            else return tt)
      return stored

  -- The body of the loop of deleteTagReferences.
  abbrev pub delete_tag_of : FilePath → Bytes → Bytes → Action (Unit {0})
  delete_tag_of tag_dir digest name d =
      if is_folder (node_at (tag_dir ++ name ∷ []) d)
      then (ok tt, d)
      else (read_file (tag_dir ++ name ∷ []) >>= λ data_read.
            if beq (trim_space data_read) digest
            then on_error is_not_exist (return tt) (remove (tag_dir ++ name ∷ []))
            else return tt)
          d

  unfoldable pub delete_tag_references : Bytes → Bytes → Action (Unit {0})
  unfolding for_each
  delete_tag_references repo_path digest = do
    names ← on_error is_not_exist (return []) (read_dir (tags_path root repo_path))
    for_each names (delete_tag_of (tags_path root repo_path) digest)

  abbrev pub refuse_if : Bool → Action (Unit {0})
  refuse_if left = if left then fail (failure (codes "failed to delete manifest")) else return tt

  -- DeleteManifest by digest.
  unfoldable pub delete_by_digest : Bytes → Bytes → Action Bytes
  unfolding delete_tag_references
  delete_by_digest repo_path digest = do
    digest_path ← lift (manifest_digest_path root repo_path digest)
    _ ← stat digest_path
    _ ← remove_all digest_path
    _ ← (λ d. refuse_if (is_some (node_at digest_path d)) d)
    _ ← delete_tag_references repo_path digest
    return digest

  unfoldable pub delete_tag : Bytes → Bytes → Bytes → Action Bytes
  unfolding manifest_tag_digest
  delete_tag repository repo_path reference = do
    digest ← manifest_tag_digest repository reference
    tag ← lift (sanitize_reference reference)
    _ ← on_error is_not_exist (return tt) (remove (tag_path root repo_path tag))
    return digest

  unfoldable pub delete_manifest : Bytes → Bytes → Action Bytes
  unfolding delete_by_digest delete_tag
  delete_manifest repository reference = do
    repo_path ← lift (safe_repository_path repository)
    if not (has_colon reference)
        then delete_tag repository repo_path reference
        else delete_by_digest repo_path reference

  unfoldable pub list_tags : Bytes → Action (List Bytes)
  unfolding files_of
  list_tags repository = do
    repo_path ← lift (safe_repository_path repository)
    names ← on_error is_not_exist (return []) (read_dir (tags_path root repo_path))
    λ d. (ok (sort_strings (files_of (tags_path root repo_path) d names)), d)
