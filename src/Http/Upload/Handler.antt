-- ===== src/Http/Upload/Handler.antt =====
-- internal/httpserver/server.go: handleUploadStart, handleUpload and commitBlobUpload.
use simplecontainerregistry.Base.{
  ℕ, Bytes, codes, beq, Bool, true, false, not, [], ◌++◌, if◌then◌else◌, is_nil, Result, ok, err,
  Error, upload_too_large, leb,
}
use simplecontainerregistry.Base.Int.{ℤ, pos, pos_part}
use simplecontainerregistry.Domain.{action_push}
use simplecontainerregistry.Storage.Digest.{Hashes}
use simplecontainerregistry.Storage.Path.{FilePath, upload_path}
use simplecontainerregistry.Storage.Disk.{
  Step, ◌>>=◌, return, is_not_exist, parent, create_new, mkdir_all, remove,
}
use simplecontainerregistry.Storage.Blobs.{
  count_uploads, commit_blob_from_upload, link_repository_blob,
}
use simplecontainerregistry.Http.Route.{
  method_get, method_post, method_put, method_patch, method_delete,
}
use simplecontainerregistry.Http.World.{Metadata, World, on_disk, on_metadata, attempt}
use simplecontainerregistry.Http.Upload.{
  UploadRequest, Response, plain, minus_ℤ, validate_content_range, request_exceeds_limit,
  upload_location, upload_range, upload_size, append_upload,
}

abbrev pub is_too_large : Error → Bool
is_too_large upload_too_large = true
is_too_large _ = false

-- The answer to an error of appendUpload.
abbrev pub append_status : Error → ℕ
append_status e = if is_too_large e then 413 else 500

module _ {S : Type 0} (root : FilePath) (hashes : Hashes) (metadata : Metadata S) where
  abbrev pub Handling : Type 0
  Handling = Step (World S) Response

  -- An early return with a status.
  abbrev pub reply : ℕ → Handling
  reply status = return (plain status)

  abbrev pub or_reply : {A : Type 0} → ℕ → Result A → (A → Handling) → Handling
  or_reply status (ok a) f = f a
  or_reply status (err e) f = reply status

  unfoldable pub commit_blob_upload : Bytes → FilePath → Bytes → Handling
  commit_blob_upload repository path digest = do
    committed ← attempt (on_disk (commit_blob_from_upload root hashes path digest))
    or_reply 400 committed (λ size. do
      linked ← attempt (on_disk (link_repository_blob root repository digest))
      or_reply 500 linked (λ _. do
        counted ← attempt (on_metadata (metadata.increment_usage_counter repository action_push))
        or_reply 500 counted (λ _. do
          audited ← attempt (on_metadata (metadata.audit (codes "registry.blob.pushed") repository))
          or_reply 500 audited (λ _. return (record {
            status = 201;
            location = codes "/v2/" ++ (repository ++ (codes "/blobs/" ++ digest));
            range = [];
          })))))

  -- writeUploadAccepted.
  abbrev pub accepted : Bytes → Bytes → ℤ → Response
  unfolding upload_location upload_range
  accepted repository upload_id size = record {
    status = 202;
    location = upload_location repository upload_id;
    range = upload_range size;
  }

  abbrev pub append_whole : Bytes → FilePath → UploadRequest → ℤ → Result ℤ → Handling
  unfolding commit_blob_upload
  append_whole repository path r max_bytes (ok size) = commit_blob_upload repository path r.digest
  append_whole repository path r max_bytes (err e) = do
    _ ← attempt (on_disk (remove path))
    reply (append_status e)

  -- handleUploadStart behind the creation of the file.
  abbrev pub started : Bytes → Bytes → FilePath → UploadRequest → ℤ → Handling
  unfolding commit_blob_upload upload_location upload_range append_upload
  started repository upload_id path r max_bytes =
      if not (is_nil r.digest)
      then (attempt (on_disk (append_upload path r.rest 0 max_bytes)) >>= λ written.
          append_whole repository path r max_bytes written)
      else return (accepted repository upload_id (pos 0))

  -- The section under uploadMu, and what follows.
  abbrev pub start_counted : Bytes → Bytes → FilePath → UploadRequest → ℤ → ℤ → ℕ → Handling
  unfolding commit_blob_upload upload_location upload_range append_upload
  start_counted repository upload_id path r max_bytes max_sessions active =
      if leb (pos_part max_sessions) active then reply 429 else do
        made ← attempt (on_disk (mkdir_all (parent path)))
        or_reply 500 made (λ _. do
          created ← attempt (on_disk (create_new path))
          or_reply 500 created (λ _. started repository upload_id path r max_bytes))

  -- `upload_id` is a fresh identifier of ids.New; the user is that of the request's context.
  unfoldable pub handle_upload_start : ℤ → ℤ → Bytes → Bytes → Bytes → UploadRequest → Handling
  unfolding commit_blob_upload upload_location upload_range append_upload request_exceeds_limit
      upload_path
  handle_upload_start max_bytes max_sessions user_id upload_id repository r =
      if not (beq r.method method_post)
      then reply 405
      else if request_exceeds_limit r.content_length max_bytes
      then reply 413
      else or_reply 500 (upload_path root repository user_id upload_id) (λ path. do
        counted ← attempt (on_disk (count_uploads root repository user_id))
        or_reply 500 counted
            (λ active. start_counted repository upload_id path r max_bytes max_sessions active))

  abbrev pub range_refused : ℤ → Response
  unfolding upload_range
  range_refused size = record { status = 416; location = []; range = upload_range size }

  abbrev pub after_append : Result ℤ → (ℤ → Handling) → Handling
  after_append (ok size) k = k size
  after_append (err e) k = reply (append_status e)

  abbrev pub in_order : Result (Unit {0}) → ℤ → Handling → Handling
  unfolding upload_range
  in_order (ok checked) size k = k
  in_order (err e) size k = return (range_refused size)

  -- What PATCH and PUT have in common: the chunk is checked, then appended.
  abbrev pub append_chunk : FilePath → UploadRequest → ℤ → ℤ → (ℤ → Handling) → Handling
  unfolding upload_range validate_content_range request_exceeds_limit append_upload
  append_chunk path r max_bytes size k =
      in_order (validate_content_range r.content_range size) size (
        if request_exceeds_limit r.content_length (minus_ℤ max_bytes size)
        then reply 413
        else (attempt (on_disk (append_upload path r.rest (pos_part size) max_bytes)) >>= λ written.
            after_append written k))

  abbrev pub delete_status : Result (Unit {0}) → ℕ
  delete_status (ok deleted) = 204
  delete_status (err e) = if is_not_exist e then 404 else 500

  abbrev pub handle_upload_at : ℤ → Bytes → Bytes → FilePath → UploadRequest → Handling
  unfolding upload_size upload_range validate_content_range request_exceeds_limit append_upload
      upload_location commit_blob_upload
  handle_upload_at max_bytes repository upload_id path r =
      if beq r.method method_patch
      then (attempt (on_disk (upload_size path)) >>= λ found. or_reply 404 found (λ size.
          append_chunk path r max_bytes size
            (λ written. return (accepted repository upload_id written))))
      else if beq r.method method_put
      then (attempt (on_disk (upload_size path)) >>= λ found. or_reply 404 found (λ size.
          append_chunk path r max_bytes size (λ _.
            if is_nil r.digest then reply 400 else commit_blob_upload repository path r.digest)))
      else if beq r.method method_get
      then (attempt (on_disk (upload_size path)) >>= λ found.
          or_reply 404 found
            (λ size. return (record { status = 204; location = []; range = upload_range size })))
      else if beq r.method method_delete
      then (attempt (on_disk (remove path)) >>= λ deleted. reply (delete_status deleted))
      else reply 405

  unfoldable pub handle_upload : ℤ → Bytes → Bytes → Bytes → UploadRequest → Handling
  unfolding upload_size upload_range validate_content_range request_exceeds_limit append_upload
      upload_location commit_blob_upload upload_path
  handle_upload max_bytes user_id repository upload_id r =
      or_reply 400 (upload_path root repository user_id upload_id)
        (λ path. handle_upload_at max_bytes repository upload_id path r)
