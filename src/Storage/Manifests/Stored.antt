-- ===== src/Storage/Manifests/Stored.antt =====
-- internal/storage/filesystem.go: a manifest that was stored is read back.
use simplecontainerregistry.Base.{
  ℕ, Bytes, true, false, [], ◌∷◌, ◌++◌, some, cut, contains, trim_space, length, ok, ◌≡◌, ◌≢◌, refl,
  sym, ap, ◌∙◌, inl, inr, Option-cases, >>=-eq-ok, beq→ne, beq,
}
use simplecontainerregistry.Storage.Digest.{Hashes, colon, parse_digest}
use simplecontainerregistry.Storage.Path.{FilePath, safe_repository_path, manifest_digest_path}
use simplecontainerregistry.Storage.Manifest.{ManifestJson}
use simplecontainerregistry.Storage.Disk.{Disk, base_name, write_file, mkdir_all}
use simplecontainerregistry.Storage.Disk.View.{
  content_at, bind-ok, lift-ok, read_file-content, write_file-content, same_result,
}
use simplecontainerregistry.Storage.Manifests.{
  content_name, media_type_name, has_colon, manifest_tag_digest, get_manifest, check_reference,
  chosen_digest, put_manifest_content, write_manifest,
}

-- Two names in one directory.
base_name-append : (p : FilePath) (s : Bytes) → base_name (p ++ s ∷ []) ≡ s
unfolding base_name
base_name-append [] s = refl
base_name-append (a ∷ []) s = refl
base_name-append (a ∷ b ∷ p) s = base_name-append (b ∷ p) s

pub names_differ : (p : FilePath) (s t : Bytes) → s ≢ t → p ++ s ∷ [] ≢ p ++ t ∷ []
names_differ p s t h e =
    h (sym (base_name-append p s) ∙ ap (λ (q : FilePath). base_name q) e ∙ base_name-append p t)

-- A digest has a colon.
pub parse_digest-has_colon :
    (digest : Bytes) (parsed : Bytes × Bytes)
    → parse_digest digest ≡ ok parsed
    → has_colon digest ≡ true
unfolding parse_digest contains
parse_digest-has_colon digest parsed h = elim (Option-cases (cut digest colon)) [
  | inl e ↦ absurd (cc (rw (e, parse_digest) at h))
  | inr (r, e) ↦ rw e refl
]

-- The files of a manifest on disk.
IsStored : FilePath → Bytes → Bytes → Disk → Type 0
IsStored digest_path media_type content d =
    (content_at (digest_path ++ content_name ∷ []) d ≡ some content)
    × (content_at (digest_path ++ media_type_name ∷ []) d ≡ some media_type)

digest_path-has_colon :
    (root : FilePath) (repo_path digest : Bytes) (digest_path : FilePath)
    → manifest_digest_path root repo_path digest ≡ ok digest_path
    → has_colon digest ≡ true
unfolding manifest_digest_path
digest_path-has_colon root repo_path digest digest_path h =
    let (parsed, e, k) = >>=-eq-ok (parse_digest digest) _ h in
    parse_digest-has_colon digest parsed e

other_name : beq media_type_name content_name ≡ false
unfolding beq
other_name = refl

IsStored-get_manifest :
    (root : FilePath) (repository repo_path digest media_type content : Bytes)
    (digest_path : FilePath) (d : Disk)
    → safe_repository_path repository ≡ ok repo_path
    → manifest_digest_path root repo_path digest ≡ ok digest_path
    → IsStored digest_path media_type content d
    → get_manifest root repository digest d ≡ (ok (content, trim_space media_type, digest), d)
unfolding get_manifest manifest_tag_digest IsStored
IsStored-get_manifest root repository repo_path digest media_type content digest_path d h1 h2
      (s1, s2) =
    let r1 = read_file-content (digest_path ++ content_name ∷ []) content d s1 in
    let r2 = read_file-content (digest_path ++ media_type_name ∷ []) media_type d s2 in
    let has = digest_path-has_colon root repo_path digest digest_path h2 in
    rw (h1, has, h2, r1, r2) refl

write_manifest-IsStored :
    (digest digest' media_type content : Bytes) (digest_path : FilePath) (size : ℕ) (d d' : Disk)
    → write_manifest digest digest_path media_type content d ≡ (ok (digest', size), d')
    → (digest ≡ digest') × IsStored digest_path media_type content d'
unfolding write_manifest IsStored
write_manifest-IsStored digest digest' media_type content digest_path size d d' h =
    let (u5, d5, e5, h5) = bind-ok (mkdir_all digest_path) _ d h in
    let (u6, d6, e6, h6) =
      bind-ok (write_file (digest_path ++ content_name ∷ []) content) _ d5 h5 in
    let (u7, d7, e7, h7) =
      bind-ok (write_file (digest_path ++ media_type_name ∷ []) media_type) _ d6 h6 in
    let (same, end) = same_result (digest, length content) (digest', size) d7 d' h7 in
    let (at6, keep6) = write_file-content (digest_path ++ content_name ∷ []) content d5 d6 e6 in
    let (at7, keep7) =
      write_file-content (digest_path ++ media_type_name ∷ []) media_type d6 d7 e7 in
    let apart =
      names_differ digest_path media_type_name content_name
        (beq→ne media_type_name content_name other_name) in
    (
      ap (λ (r : Bytes × ℕ). r.0) same,
      (rw (sym end) (keep7 (digest_path ++ content_name ∷ []) apart ∙ at6), rw (sym end) at7),
    )

put_manifest_content-IsStored :
    (root : FilePath) (hashes : Hashes) (json : ManifestJson)
    (repository reference media_type content digest : Bytes) (size : ℕ) (d d' : Disk)
    → put_manifest_content root hashes json repository reference media_type content d
      ≡ (ok (digest, size), d')
    → (repo_path : Bytes) × (digest_path : FilePath) × (safe_repository_path repository
        ≡ ok repo_path)
      × (manifest_digest_path root repo_path digest ≡ ok digest_path)
      × IsStored digest_path media_type content d'
unfolding put_manifest_content IsStored
put_manifest_content-IsStored root hashes json repository reference media_type content digest size d
      d' h =
    let (repo_path, e1, h1) = lift-ok (safe_repository_path repository) _ d h in
    let (u2, e2, h2) = lift-ok (check_reference root hashes json reference) _ d h1 in
    let (digest', e3, h3) = lift-ok (chosen_digest root hashes json reference content) _ d h2 in
    let (digest_path, e4, h4) = lift-ok (manifest_digest_path root repo_path digest') _ d h3 in
    let (same, stored) =
      write_manifest-IsStored digest' digest media_type content digest_path size d d' h4 in
    (repo_path, digest_path, e1, rw (sym same) e4, stored)

-- A manifest that was stored is read back by its digest, with the same content, and the media type
-- without the white space at its ends.
pub put_manifest_content-get_manifest :
    (root : FilePath) (hashes : Hashes) (json : ManifestJson)
    (repository reference media_type content digest : Bytes) (size : ℕ) (d d' : Disk)
    → put_manifest_content root hashes json repository reference media_type content d
      ≡ (ok (digest, size), d')
    → get_manifest root repository digest d' ≡ (ok (content, trim_space media_type, digest), d')
put_manifest_content-get_manifest root hashes json repository reference media_type content digest
      size d d' h =
    let (repo_path, digest_path, e1, e2, stored) =
      put_manifest_content-IsStored root hashes json repository reference media_type content digest
        size d d' h in
    IsStored-get_manifest root repository repo_path digest media_type content digest_path d' e1 e2
      stored
