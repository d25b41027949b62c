-- ===== src/Http/Tags/Protected.antt =====
-- internal/httpserver/server.go: a tag that the repository's policy protects is not moved.
use simplecontainerregistry.Base.{
  Bytes, beq, Bool, true, false, List, [], ◌∷◌, Option, Result, ok, err, Error,
  tag_overwrite_protected, ◌≡◌, refl, inl, inr, Result-cases, In, trim_space,
}
use simplecontainerregistry.Base.Int.{ℤ}
use simplecontainerregistry.Domain.{RepositoryTagPolicy}
use simplecontainerregistry.Storage.Digest.{parse_digest}
use simplecontainerregistry.Storage.Path.{
  FilePath, validate_tag, safe_repository_path, sanitize_reference, tag_path,
}
use simplecontainerregistry.Storage.Disk.{Disk, content_of, missing, lift, node_at, read_file}
use simplecontainerregistry.Storage.Manifests.{manifest_tag_digest}
use simplecontainerregistry.Http.World.{Metadata, World}
use simplecontainerregistry.Http.Tags.{
  tag_policy_pattern_of, tag_policy_protects, tag_state, tag_states, link_manifest_tags_locked,
}

-- A step that leaves the disk alone.
abbrev pub OnlyReads {ℓ} : {A : Type ℓ} → Disk → Result A × Disk → Type ℓ
OnlyReads {A = A} d m = (r : Result A) × (m ≡ lift r d)

-- ManifestTagDigest only reads.
pub manifest_tag_digest-OnlyReads :
    (root : FilePath) (repository tag : Bytes) (d : Disk)
    → OnlyReads d (manifest_tag_digest root repository tag d)
unfolding manifest_tag_digest read_file
manifest_tag_digest-OnlyReads root repository tag d =
    elim (Result-cases (safe_repository_path repository)) [
      | inr (e, h1) ↦ rw h1 (err e, refl)
      | inl (repo_path, h1) ↦ elim (Result-cases (sanitize_reference tag)) [
        | inr (e, h2) ↦ rw (h1, h2) (err e, refl)
        | inl (name, h2) ↦
            let p = tag_path root repo_path name in
            elim (Result-cases (content_of (missing p d) (node_at p d))) [
              | inr (e, h3) ↦ rw (h1, h2, h3) (err e, refl)
              | inl (content, h3) ↦ elim (Result-cases (parse_digest (trim_space content))) [
                | inr (e, h4) ↦ rw (h1, h2, h3, h4) (err e, refl)
                | inl (parsed, h4) ↦ rw (h1, h2, h3, h4) (ok (trim_space content), refl)
              ]
            ]
      ]
    ]

module _ {S : Type 0} (root : FilePath) (compile : Bytes → Option (Bytes → Bool))
    (metadata : Metadata S) (temporary : Bytes) where
  module _ (policy : RepositoryTagPolicy) (pattern : Option (Bytes → Bool))
      (repository digest tag old : Bytes) where
    abbrev Refused : World S → List Bytes → Type 0
    Refused w tags =
        (e : Error) × (tag_states root compile metadata temporary policy pattern repository digest
            tags w
          ≡ (err e, w))

    protected_state :
        tag_policy_protects policy pattern tag ≡ true
        → beq old digest ≡ false
        → tag_state policy pattern digest tag (ok old) ≡ err tag_overwrite_protected
    unfolding tag_state
    protected_state p differs = rw (differs, p) refl

    tag_states-Refused :
        (tags : List Bytes) (w : World S)
        → tag_policy_protects policy pattern tag ≡ true
        → manifest_tag_digest root repository tag w.disk ≡ (ok old, w.disk)
        → beq old digest ≡ false
        → In tag tags
        → Refused w tags
    unfolding tag_states
    tag_states-Refused [] w p now differs at = elim at [ ]
    tag_states-Refused (t ∷ tags) w p now differs at = elim (Result-cases (validate_tag t)) [
      | inr (e, bad) ↦ rw bad (e, refl)
      | inl (valid, fine) ↦ elim at [
        | inl same ↦ rw (fine, same, now, protected_state p differs) (tag_overwrite_protected, refl)
        | inr later ↦
            let (r, reads) = manifest_tag_digest-OnlyReads root repository t w.disk in
            let (e, refused) = tag_states-Refused tags w p now differs later in
            elim (Result-cases (tag_state policy pattern digest t r)) [
              | inr (x, here) ↦ rw (fine, reads, here) (x, refl)
              | inl (state, here) ↦ rw (fine, reads, here, refused) (e, refl)
            ]
      ]
    ]

    -- If the repository's policy is read and its pattern compiles, and the policy protects a tag that
    -- names another manifest at present, then linkManifestTagsLocked with that tag among its tags fails,
    -- and leaves the disk as it was when it was called and the metadata as the reading of the policy
    -- left it: it sets no tag.
    pub link_manifest_tags_locked-Refused :
        (media_type : Bytes) (size_bytes : ℤ) (tags : List Bytes) (w : World S) (s : S)
        → metadata.get_repository_tag_policy repository w.metadata ≡ (ok policy, s)
        → tag_policy_pattern_of compile policy ≡ ok pattern
        → tag_policy_protects policy pattern tag ≡ true
        → manifest_tag_digest root repository tag w.disk ≡ (ok old, w.disk)
        → beq old digest ≡ false
        → In tag tags
        → (e : Error) × (link_manifest_tags_locked root compile metadata temporary repository digest
              media_type size_bytes tags w
            ≡ (err e, record { disk = w.disk; metadata = s }))
    unfolding link_manifest_tags_locked
    link_manifest_tags_locked-Refused media_type size_bytes tags w s known compiled p now differs
          at =
        let w' : World S = record { disk = w.disk; metadata = s } in
        let (e, refused) = tag_states-Refused tags w' p now differs at in
        rw (known, compiled, refused) (e, refl)
