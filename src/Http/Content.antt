-- ===== src/Http/Content.antt =====
-- internal/httpserver/server.go: the handlers of blobs and manifests. A response is its status, with the
-- digest, the media type and the content that it carries; other headers and the texts of errors are left
-- out. `body` is what reading the request's body yields.
pub mod Available
use simplecontainerregistry.Base.{
  ℕ, ◌*◌, Bytes, codes, beq, Bool, true, false, ◌&&◌, ◌||◌, not, List, [], ◌∷◌, ◌++◌, Option, none,
  some, length, all, if◌then◌else◌, is_nil, Result, ok, err, Error, not_exist, invalid_digest,
  invalid_reference, tag_overwrite_protected, ltb, is_some,
}
use simplecontainerregistry.Domain.{action_pull, action_push}
use simplecontainerregistry.Storage.Digest.{Hashes}
use simplecontainerregistry.Storage.Path.{FilePath, validate_tag}
use simplecontainerregistry.Storage.Manifest.{ManifestJson, manifest_blob_digests}
use simplecontainerregistry.Storage.Disk.{Disk, Action, Step, ◌>>=◌, return, on_error}
use simplecontainerregistry.Storage.Manifests.{get_manifest}
use simplecontainerregistry.Storage.Blobs.{
  has_blob, has_repository_blob, delete_repository_blob, open_blob,
}
use simplecontainerregistry.Http.Route.{method_get, method_head, method_put, method_delete}
use simplecontainerregistry.Http.World.{Metadata, World, on_disk, on_metadata, attempt}
use simplecontainerregistry.Http.Paging.{manifest_tags}
use simplecontainerregistry.Http.Tags.{put_manifest_and_tags, delete_manifest_reference}

pub record ContentRequest : Type 0 where
  pub method : Bytes
  pub content_type : Bytes
  pub query_tags : List Bytes
  pub body : Bytes

pub record ContentResponse : Type 0 where
  pub status : ℕ
  pub digest : Bytes
  pub media_type : Bytes
  pub content : Bytes

abbrev pub status_only : ℕ → ContentResponse
status_only status = record { status = status; digest = []; media_type = []; content = [] }

-- writeStorageError.
unfoldable pub storage_status : Error → ℕ
storage_status invalid_digest = 400
storage_status invalid_reference = 400
storage_status not_exist = 404
storage_status _ = 500

-- writeManifestMutationError.
unfoldable pub mutation_status : Error → ℕ
mutation_status tag_overwrite_protected = 409
mutation_status invalid_digest = 400
mutation_status invalid_reference = 400
mutation_status not_exist = 404
mutation_status _ = 500

-- The largest manifest that is read.
abbrev pub max_manifest_bytes : ℕ
max_manifest_bytes = 64 * 1048576

abbrev pub default_media_type : Bytes
default_media_type = codes "application/vnd.oci.image.manifest.v1+json"

abbrev pub is_ok {ℓ} : {A : Type ℓ} → Result A → Bool
is_ok (ok x) = true
is_ok (err e) = false

abbrev pub delete_status : Error → ℕ
unfolding storage_status
delete_status not_exist = storage_status not_exist
delete_status _ = 500

module _ (root : FilePath) where
  -- The loop over the blobs that the manifest names; an error and a missing link are both answered by 400.
  unfoldable pub blobs_available : Bytes → List Bytes → Action Bool
  blobs_available repository [] = return true
  blobs_available repository (digest ∷ digests) =
      let rest = blobs_available repository digests in
      on_error (λ _. true) (return false) (has_repository_blob root repository digest) >>= λ linked.
      if not linked then return false else rest

module _ {S : Type 0} (root : FilePath) (hashes : Hashes) (json : ManifestJson)
    (compile : Bytes → Option (Bytes → Bool)) (metadata : Metadata S) (temporary : Bytes) where
  abbrev pub ContentHandling : Type 0
  ContentHandling = Step (World S) ContentResponse

  abbrev pub answer : ℕ → ContentHandling
  answer status = return (status_only status)

  abbrev pub or_answer :
      {A : Type 0} → (Error → ℕ) → Result A → (A → ContentHandling) → ContentHandling
  or_answer status (ok a) f = f a
  or_answer status (err e) f = answer (status e)

  -- The counter, then the audit event.
  abbrev pub counted : Bytes → Bytes → Bytes → ContentHandling → ContentHandling
  counted repository action event k = do
    incremented ← attempt (on_metadata (metadata.increment_usage_counter repository action))
    or_answer (λ _. 500) incremented
        (λ _. do
          audited ← attempt (on_metadata (metadata.audit event repository))
          or_answer (λ _. 500) audited (λ _. k))

  abbrev pub pulled : Bytes → Bytes → Bytes → ContentHandling → ContentHandling
  pulled repository reference event k = do
    marked ← attempt (on_metadata (metadata.mark_repository_pulled repository reference))
    or_answer (λ _. 500) marked (λ _. counted repository action_pull event k)

  abbrev pub served_blob : Bytes → ContentHandling
  unfolding open_blob storage_status
  served_blob digest = do
    opened ← attempt (on_disk (open_blob root digest))
    or_answer storage_status opened (λ content. return (record {
      status = 200;
      digest = digest;
      media_type = codes "application/octet-stream";
      content = content;
    }))

  abbrev pub deleted_blob : Bytes → Bytes → ContentHandling
  unfolding delete_repository_blob storage_status
  deleted_blob repository digest = do
    deleted ← attempt (on_disk (delete_repository_blob root repository digest))
    or_answer storage_status deleted (λ _. do
      audited ← attempt (on_metadata (metadata.audit (codes "registry.blob.deleted") repository))
      or_answer (λ _. 500) audited (λ _. answer 202))

  -- handleBlob behind its two checks.
  abbrev pub handle_present : Bytes → Bytes → Bytes → ContentHandling
  unfolding open_blob storage_status delete_repository_blob
  handle_present method repository digest =
      if beq method method_delete
      then deleted_blob repository digest
      else if not (beq method method_head)
      then pulled repository [] (codes "registry.blob.pulled") (served_blob digest)
      else served_blob digest

  -- For HEAD, http.ServeContent leaves the content out of the response.
  unfoldable pub handle_blob : Bytes → Bytes → Bytes → ContentHandling
  unfolding open_blob storage_status delete_repository_blob has_repository_blob has_blob
  handle_blob method repository digest = do
    linked ← attempt (on_disk (has_repository_blob root repository digest))
    or_answer (λ _. 400) linked
        (λ is_linked. if not is_linked then answer 404 else do
          present ← attempt (on_disk (has_blob root digest))
          or_answer (λ _. 400) present
              (λ size.
                if not (is_some size) then answer 404 else handle_present method repository digest))

  unfoldable pub get_handler : Bytes → Bytes → Bytes → ContentHandling
  unfolding storage_status get_manifest
  get_handler method repository reference = do
    found ← attempt (on_disk (get_manifest root repository reference))
    or_answer storage_status found (λ stored.
        if beq method method_head
        then return
            (record { status = 200; digest = stored.2; media_type = stored.1; content = [] })
        else pulled repository reference (codes "registry.manifest.pulled") (
            return (record {
              status = 200;
              digest = stored.2;
              media_type = stored.1;
              content = stored.0;
            })))

  -- PUT behind its checks.
  unfoldable pub put_checked : Bytes → Bytes → Bytes → Bytes → List Bytes → ContentHandling
  unfolding put_manifest_and_tags mutation_status
  put_checked repository reference media_type content tags = do
    stored ← attempt (
        put_manifest_and_tags root compile metadata temporary hashes json repository reference
          media_type content tags)
    or_answer mutation_status stored (λ digest.
        counted repository action_push (codes "registry.manifest.pushed")
          (return (record { status = 201; digest = digest; media_type = []; content = [] })))

  unfoldable pub put_handler : Bytes → Bytes → ContentRequest → ContentHandling
  unfolding put_checked blobs_available manifest_tags manifest_blob_digests
  put_handler repository reference r =
      let media_type = if is_nil r.content_type then default_media_type else r.content_type in
      let tags = manifest_tags reference r.query_tags in
      if ltb max_manifest_bytes (length r.body)
      then answer 400
      else if not (all (λ tag. is_ok (validate_tag tag)) tags)
      then answer 400
      else (on_disk (blobs_available root repository (manifest_blob_digests json r.body))
          >>= λ available.
              if not available
              then answer 400
              else put_checked repository reference media_type r.body tags)

  unfoldable pub delete_handler : Bytes → Bytes → ContentHandling
  unfolding delete_manifest_reference storage_status
  delete_handler repository reference = do
    deleted ←
        attempt (delete_manifest_reference root compile metadata temporary repository reference)
    or_answer delete_status deleted (λ _. do
      audited ←
          attempt (on_metadata (metadata.audit (codes "registry.manifest.deleted") repository))
      or_answer (λ _. 500) audited (λ _. answer 202))

  unfoldable pub handle_manifest : Bytes → Bytes → ContentRequest → ContentHandling
  unfolding get_handler put_handler delete_handler
  handle_manifest repository reference r =
      if beq r.method method_get || beq r.method method_head
      then get_handler r.method repository reference
      else if beq r.method method_put
      then put_handler repository reference r
      else if beq r.method method_delete
      then delete_handler repository reference
      else answer 405
