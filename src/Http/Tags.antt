-- ===== src/Http/Tags.antt =====
-- internal/httpserver/server.go: the tags of a push are set under the repository's lock, and set back
-- when one of them, or the metadata, fails. regexp is a parameter: `compile` yields a test, or nothing
-- for a pattern that is not valid. errors.Join keeps its first error here.
pub mod Protected
use simplecontainerregistry.Base.{
  ℕ, Bytes, codes, beq, Bool, true, false, ◌&&◌, ◌||◌, not, List, [], ◌∷◌, ◌++◌, Option, none, some,
  map, reverse, if◌then◌else◌, is_nil, Result, ok, err, Error, failure, not_exist,
  tag_overwrite_protected,
}
use simplecontainerregistry.Base.Int.{ℤ}
use simplecontainerregistry.Domain.{
  RepositoryTagPolicy, RepositoryTag, tag_policy_immutable, tag_policy_pattern,
}
use simplecontainerregistry.Storage.Digest.{Hashes, validate_digest}
use simplecontainerregistry.Storage.Path.{FilePath, validate_repository, validate_tag}
use simplecontainerregistry.Storage.Manifest.{ManifestJson, estimate_manifest_artifact_size}
use simplecontainerregistry.Storage.Disk.{
  Disk, Step, ◌>>=◌, ◌>>◌, lift, return, fail, is_not_exist, then_do,
}
use simplecontainerregistry.Storage.Manifests.{
  manifest_tag_digest, link_manifest_tag, delete_manifest, put_manifest_content, get_manifest,
}
use simplecontainerregistry.Storage.Garbage.{with_repository_lock}
use simplecontainerregistry.Http.World.{
  Metadata, World, UpsertRepositoryTagParams, on_disk, on_metadata, attempt, with_disk,
}

pub record ManifestTagState : Type 0 where
  pub tag : Bytes
  pub digest : Bytes
  pub exists : Bool

module _ (compile : Bytes → Option (Bytes → Bool)) where
  unfoldable pub tag_policy_pattern_of : RepositoryTagPolicy → Result (Option (Bytes → Bool))
  tag_policy_pattern_of policy =
      if not (beq policy.mode tag_policy_pattern) then ok none else (elim (compile policy.pattern) [
        | none ↦ err (failure (codes "invalid tag policy pattern"))
        | some pattern ↦ ok (some pattern)
      ])

abbrev pub matches : Option (Bytes → Bool) → Bytes → Bool
matches none tag = false
matches (some pattern) tag = pattern tag

unfoldable pub tag_policy_protects : RepositoryTagPolicy → Option (Bytes → Bool) → Bytes → Bool
tag_policy_protects policy pattern tag =
    if beq policy.mode tag_policy_immutable
    then true
    else if beq policy.mode tag_policy_pattern
    then matches pattern tag
    else false

-- What the first loop makes of the digest of a tag.
unfoldable pub tag_state :
    RepositoryTagPolicy
    → Option (Bytes → Bool)
    → Bytes
    → Bytes
    → Result Bytes
    → Result ManifestTagState
unfolding tag_policy_protects
tag_state policy pattern digest tag (err e) =
    if is_not_exist e then ok (record { tag = tag; digest = []; exists = false }) else err e
tag_state policy pattern digest tag (ok current) =
    if not (beq current digest) && tag_policy_protects policy pattern tag
    then err tag_overwrite_protected
    else ok (record { tag = tag; digest = current; exists = true })

module _ {S : Type 0} (root : FilePath) (compile : Bytes → Option (Bytes → Bool))
    (metadata : Metadata S) (temporary : Bytes) where
  -- The first loop: the states before the push, if no tag is protected.
  unfoldable pub tag_states :
      RepositoryTagPolicy
      → Option (Bytes → Bool)
      → Bytes
      → Bytes
      → List Bytes
      → Step (World S) (List ManifestTagState)
  unfolding tag_state
  tag_states policy pattern repository digest [] = return []
  tag_states policy pattern repository digest (tag ∷ tags) = do
    _ ← lift (validate_tag tag)
    current ← attempt (on_disk (manifest_tag_digest root repository tag))
    state ← lift (tag_state policy pattern digest tag current)
    states ← tag_states policy pattern repository digest tags
    return (state ∷ states)

  abbrev pub restore : Bytes → ManifestTagState → Step (World S) (Unit {0})
  restore repository state =
      if state.exists
      then on_disk (link_manifest_tag root temporary repository state.tag state.digest)
      else (on_disk (delete_manifest root repository state.tag) >>= λ _. return tt)

  abbrev pub first_error : Option Error → Bool → Result (Unit {0}) → Option Error
  first_error (some e) created r = some e
  first_error none created (ok x) = none
  first_error none created (err e) = if created && is_not_exist e then none else some e

  abbrev pub rollback_result : Option Error → Result (Unit {0})
  rollback_result none = ok tt
  rollback_result (some e) = err e

  -- The loop of rollbackManifestTags, over the states from the last to the first.
  unfoldable pub rollback_loop :
      Bytes → Option Error → List ManifestTagState → Step (World S) (Unit {0})
  rollback_loop repository found [] = lift (rollback_result found)
  rollback_loop repository found (state ∷ states) = attempt (restore repository state) >>= λ r.
      rollback_loop repository (first_error found (not state.exists) r) states

  unfoldable pub rollback_manifest_tags : Bytes → List ManifestTagState → Step (World S) (Unit {0})
  unfolding rollback_loop
  rollback_manifest_tags repository states = rollback_loop repository none (reverse states)

  -- After an error: the rollback, then the error.
  abbrev pub undo : Bytes → List ManifestTagState → Error → Step (World S) (Unit {0})
  unfolding rollback_manifest_tags
  undo repository states e = attempt (rollback_manifest_tags repository states) >>= λ _. fail e

  abbrev pub or_undo :
      Bytes
      → List ManifestTagState
      → Result (Unit {0})
      → Step (World S) (Unit {0})
      → Step (World S) (Unit {0})
  unfolding rollback_manifest_tags
  or_undo repository states (ok x) k = k
  or_undo repository states (err e) k = undo repository states e

  -- The second loop; `linked` are the states behind, the last one first.
  unfoldable pub link_loop :
      Bytes → Bytes → List ManifestTagState → List ManifestTagState → Step (World S) (Unit {0})
  unfolding rollback_manifest_tags
  link_loop repository digest linked [] = return tt
  link_loop repository digest linked (state ∷ states) =
      attempt (on_disk (link_manifest_tag root temporary repository state.tag digest)) >>= λ r.
      or_undo repository (reverse linked) r (link_loop repository digest (state ∷ linked) states)

  abbrev pub upsert_params :
      Bytes → Bytes → Bytes → ℤ → List ManifestTagState → List UpsertRepositoryTagParams
  upsert_params repository digest media_type size_bytes states =
      map
        (λ state. record {
          repository_name = repository;
          tag = state.tag;
          digest = digest;
          media_type = media_type;
          size_bytes = size_bytes;
        })
        states

  unfoldable pub link_manifest_tags_locked :
      Bytes → Bytes → Bytes → ℤ → List Bytes → Step (World S) (Unit {0})
  unfolding tag_states link_loop rollback_manifest_tags
  link_manifest_tags_locked repository digest media_type size_bytes tags = do
    policy ← on_metadata (metadata.get_repository_tag_policy repository)
    pattern ← lift (tag_policy_pattern_of compile policy)
    states ← tag_states policy pattern repository digest tags
    _ ← link_loop repository digest [] states
    r ← attempt (
        on_metadata (
          metadata.upsert_repository_tags
            (upsert_params repository digest media_type size_bytes states)))
    or_undo repository states r (return tt)

  -- withTagMutationLock; the mutex of the process makes its callback one step.
  abbrev pub with_tag_mutation_lock : {A : Type 0} → Bytes → Step (World S) A → Step (World S) A
  with_tag_mutation_lock repository callback =
      on_disk (with_repository_lock root repository (return tt)) >>= λ _. callback

  unfoldable pub put_manifest_and_tags :
      Hashes → ManifestJson → Bytes → Bytes → Bytes → Bytes → List Bytes → Step (World S) Bytes
  unfolding link_manifest_tags_locked
  put_manifest_and_tags hashes json repository reference media_type content tags =
      with_tag_mutation_lock repository (
        on_disk (put_manifest_content root hashes json repository reference media_type content)
        >>= λ stored.
            if is_nil tags
            then return stored.0
            else (link_manifest_tags_locked repository stored.0 media_type
                  (estimate_manifest_artifact_size json content) tags
                >>= λ _. return stored.0))

  unfoldable pub add_repository_tag :
      ManifestJson → Bytes → Bytes → Bytes → Step (World S) RepositoryTag
  unfolding link_manifest_tags_locked
  add_repository_tag json repository tag requested_digest = do
    _ ← lift (validate_repository repository)
    _ ← lift (validate_tag tag)
    _ ← lift (validate_digest requested_digest)
    with_tag_mutation_lock repository (
        on_disk (get_manifest root repository requested_digest) >>= λ found.
        link_manifest_tags_locked repository found.2 found.1
          (estimate_manifest_artifact_size json found.0) (tag ∷ [])
        >>= λ _. on_metadata (metadata.get_repository_tag repository tag))

  unfoldable pub delete_manifest_reference : Bytes → Bytes → Step (World S) (Unit {0})
  unfolding delete_manifest
  delete_manifest_reference repository reference = with_tag_mutation_lock repository (
      on_disk (delete_manifest root repository reference) >>= λ digest.
      on_metadata (metadata.delete_repository_manifest_reference repository reference digest))
