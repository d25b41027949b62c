-- ===== src/Http/Upload.antt =====
-- internal/httpserver/server.go: blob uploads. A request is answered by its status, and the headers that
-- a client goes on with; the texts of errors are left out. Sizes are int64. `rest` of a request is what
-- reading its body yields before it ends; a body that breaks off is not modelled. LockUpload and uploadMu
-- make one handler a step.
pub mod Bounds
pub mod Handler
use simplecontainerregistry.Base.{
  ℕ, ◌+◌, ◌-◌, ◌^◌, Bytes, codes, beq, Bool, true, false, ◌&&◌, ◌||◌, not, List, [], ◌∷◌, ◌++◌,
  Option, none, some, cut, take, length, if◌then◌else◌, is_nil, Result, ok, err, Error, failure,
  upload_too_large, ltb, leb,
}
use simplecontainerregistry.Base.Int.{ℤ, pos, negsuc, pos_part, neg_part, sub_ℕ, ltb_ℤ, add64}
use simplecontainerregistry.Base.Number.{parse_int, itoa}
use simplecontainerregistry.Storage.Digest.{Hashes}
use simplecontainerregistry.Storage.Path.{FilePath, upload_path}
use simplecontainerregistry.Storage.Disk.{
  Node, folder, file, Disk, Action, Step, ◌>>=◌, ◌>>◌, lift, return, fail, is_not_exist, on_error,
  node_at, parent, put_node, stat, create_new, mkdir_all, remove,
}
use simplecontainerregistry.Storage.Blobs.{
  size_of, count_uploads, commit_blob_from_upload, link_repository_blob,
}
use simplecontainerregistry.Http.Route.{
  method_get, method_post, method_put, method_patch, method_delete,
}

pub record UploadRequest : Type 0 where
  pub method : Bytes
  -- The digest of the query.
  pub digest : Bytes
  pub content_range : Bytes
  -- -1 for a request without one.
  pub content_length : ℤ
  pub rest : Bytes

pub record Response : Type 0 where
  pub status : ℕ
  pub location : Bytes
  pub range : Bytes

abbrev pub plain : ℕ → Response
plain status = record { status = status; location = []; range = [] }

abbrev pub minus_ℤ : ℤ → ℤ → ℤ
minus_ℤ a b = sub_ℕ (pos_part a + neg_part b) (pos_part b + neg_part a)

abbrev pub check_order : ℤ → ℤ → Result (Unit {0})
check_order start current_size =
    if ltb_ℤ start current_size || ltb_ℤ current_size start
    then err (failure (codes "out-of-order upload chunk"))
    else ok tt

abbrev pub check_end : ℤ → ℤ → Option ℤ → Result (Unit {0})
check_end current_size start none = err (failure (codes "invalid content range"))
check_end current_size start (some end) =
    if ltb_ℤ end start
    then err (failure (codes "invalid content range"))
    else check_order start current_size

abbrev pub check_start : ℤ → Bytes → Option ℤ → Result (Unit {0})
unfolding parse_int
check_start current_size end_raw none = err (failure (codes "invalid content range"))
check_start current_size end_raw (some start) =
    if ltb_ℤ start (pos 0)
    then err (failure (codes "invalid content range"))
    else check_end current_size start (parse_int end_raw)

abbrev pub check_range : ℤ → Option (Bytes × Bytes) → Result (Unit {0})
unfolding parse_int
check_range current_size none = err (failure (codes "invalid content range"))
check_range current_size (some (start_raw, end_raw)) =
    if is_nil start_raw || is_nil end_raw
    then err (failure (codes "invalid content range"))
    else check_start current_size end_raw (parse_int start_raw)

unfoldable pub validate_content_range : Bytes → ℤ → Result (Unit {0})
unfolding parse_int cut
validate_content_range raw current_size =
    if is_nil raw then ok tt else check_range current_size (cut raw (codes "-"))

unfoldable pub request_exceeds_limit : ℤ → ℤ → Bool
request_exceeds_limit content_length remaining =
    not (ltb_ℤ content_length (pos 0))
    && (ltb_ℤ remaining (pos 0) || ltb_ℤ remaining content_length)

unfoldable pub upload_location : Bytes → Bytes → Bytes
upload_location repository upload_id =
    codes "/v2/" ++ (repository ++ (codes "/blobs/uploads/" ++ upload_id))

abbrev pub text_of : ℤ → Bytes
unfolding itoa
text_of (pos n) = itoa n
text_of (negsuc n) = b'-' ∷ itoa (n + 1)

unfoldable pub upload_range : ℤ → Bytes
unfolding itoa
upload_range size =
    if not (ltb_ℤ (pos 0) size) then codes "0-0" else codes "0-" ++ text_of (minus_ℤ size (pos 1))

-- uploadSize.
unfoldable pub upload_size : FilePath → Action ℤ
upload_size path = stat path >>= λ info. return (pos (size_of info))

-- io.LimitReader(body, n).
abbrev pub limit_reader : ℤ → Bytes → Bytes
limit_reader (pos n) body = take n body
limit_reader (negsuc n) body = []

abbrev pub content_of_node : Option Node → Option Bytes
content_of_node (some (file content time)) = some content
content_of_node _ = none

-- The copy, and the truncation when more than `remaining` was written.
abbrev pub append_copied : FilePath → Bytes → Bytes → ℕ → ℤ → Action ℤ
append_copied path content copied original_size remaining d =
    if ltb_ℤ remaining (pos (length copied))
    then (
      err upload_too_large,
      put_node path (file (take original_size (content ++ copied)) d.now) d,
    )
    else if is_nil copied
    then (ok (pos (length content)), d)
    else (ok (pos (length (content ++ copied))), put_node path (file (content ++ copied) d.now) d)

abbrev pub append_open : FilePath → Bytes → ℕ → ℤ → Option Bytes → Action ℤ
unfolding add64 put_node stat
append_open path body original_size max_size none d = elim (stat path d).0 [
  | err e ↦ (err e, d)
  | ok info ↦ (err (failure (codes "is a directory")), d)
]
append_open path body original_size max_size (some content) d =
    let remaining = minus_ℤ max_size (pos original_size) in
    if ltb_ℤ remaining (pos 0)
    then (err upload_too_large, d)
    else append_copied path content (limit_reader (add64 remaining (pos 1)) body) original_size
        remaining d

-- appendUpload: the file is opened for appending.
unfoldable pub append_upload : FilePath → Bytes → ℕ → ℤ → Action ℤ
unfolding add64 put_node stat
append_upload path body original_size max_size d =
    append_open path body original_size max_size (content_of_node (node_at path d)) d
