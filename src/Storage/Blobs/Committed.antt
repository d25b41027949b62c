-- ===== src/Storage/Blobs/Committed.antt =====
-- internal/storage/filesystem.go: a blob that was committed has the content that its digest stands for.
use simplecontainerregistry.Base.{
  ℕ, Bytes, beq, true, false, Option, none, some, length, Result, ok, ◌≡◌, refl, sym, ap, ◌∙◌, inl,
  inr, Bool-cases,
}
use simplecontainerregistry.Storage.Digest.{
  Hashes, parse_digest, digest_hash, digest_for_content, verify_digest,
}
use simplecontainerregistry.Storage.Path.{FilePath, blob_path}
use simplecontainerregistry.Storage.Disk.{Disk, node_at, is_folder, parent, mkdir_all, read_file}
use simplecontainerregistry.Storage.Disk.View.{
  content_at, bind-ok, lift-ok, read_file-content, mkdir_all-content, same_result,
}
use simplecontainerregistry.Storage.Disk.Moves.{mkdir_all-parent, rename-content, read_file-ok}
use simplecontainerregistry.Storage.Blobs.{
  checked_content, open_blob, require_hash, require_equal, place_blob, commit_blob_from_upload,
}

place_blob-content :
    (upload destination : FilePath) (content : Bytes) (d d' : Disk)
    → content_at upload d ≡ some content
    → is_folder (node_at destination d) ≡ false
    → place_blob upload destination d ≡ (ok tt, d')
    → content_at destination d' ≡ some content
unfolding place_blob
place_blob-content upload destination content d d' there free h =
    let (u, d1, made, moved) = bind-ok (mkdir_all (parent destination)) _ d h in
    rename-content upload destination content _ d1 d'
      (mkdir_all-content (parent destination) upload d d1 made ∙ there)
      (mkdir_all-parent destination d d1 free made) moved

require_equal-ok :
    (actual expected : Bytes) (u : Unit {0}) (d d' : Disk)
    → require_equal actual expected d ≡ (ok u, d')
    → (beq actual expected ≡ true) × (d ≡ d')
require_equal-ok actual expected u d d' h = elim (Bool-cases (beq actual expected)) [
  | inl e ↦ (e, ap (λ (r : Result (Unit {0}) × Disk). r.1) (rw e at h))
  | inr e ↦ absurd (cc (rw e at h))
]

require_hash-ok :
    (hash : Option (Bytes → Bytes)) (u : Unit {0}) (d d' : Disk)
    → require_hash hash d ≡ (ok u, d')
    → d ≡ d'
require_hash-ok none u d d' h = absurd (cc h)
require_hash-ok (some f) u d d' h = ap (λ (r : Result (Unit {0}) × Disk). r.1) h

checked_content-ok :
    (hashes : Hashes) (upload : FilePath) (expected content : Bytes) (d d' : Disk)
    → checked_content hashes upload expected d ≡ (ok content, d')
    → (content_at upload d ≡ some content)
      × (verify_digest hashes content expected ≡ ok tt)
      × (d ≡ d')
unfolding checked_content verify_digest
checked_content-ok hashes upload expected content d d' h =
    let (parsed, e1, h1) = lift-ok (parse_digest expected) _ d h in
    let (u2, d2, e2, h2) = bind-ok (require_hash (digest_hash hashes parsed.0)) _ d h1 in
    let (read, d3, e3, h3) = bind-ok (read_file upload) _ d2 h2 in
    let (u4, d4, e4, h4) =
      bind-ok (require_equal (digest_for_content hashes parsed.0 read) expected) _ d3 h3 in
    let (there, s3) = read_file-ok upload read d2 d3 e3 in
    let (matched, s4) =
      require_equal-ok (digest_for_content hashes parsed.0 read) expected u4 d3 d4 e4 in
    let s2 = require_hash-ok (digest_hash hashes parsed.0) u2 d d2 e2 in
    let (same, s5) = same_result read content d4 d' h4 in
    (rw (s2, sym same) there, rw (sym same, e1, matched) refl, s2 ∙ s3 ∙ s4 ∙ s5)

opened :
    (root destination : FilePath) (expected content : Bytes) (d : Disk)
    → blob_path root expected ≡ ok destination
    → content_at destination d ≡ some content
    → open_blob root expected d ≡ (ok content, d)
unfolding open_blob
opened root destination expected content d at there =
    rw (at, read_file-content destination content d there) refl

-- If an upload is committed under a digest whose place in the store is not a directory, then the
-- upload had a content with that digest, its size is told, and opening the blob yields that content.
pub commit_blob_from_upload-open_blob :
    (root : FilePath) (hashes : Hashes) (upload : FilePath) (expected : Bytes) (path : FilePath)
    (size : ℕ) (d d' : Disk)
    → blob_path root expected ≡ ok path
    → is_folder (node_at path d) ≡ false
    → commit_blob_from_upload root hashes upload expected d ≡ (ok size, d')
    → (content : Bytes) × (content_at upload d ≡ some content)
      × (size ≡ length content)
      × (verify_digest hashes content expected ≡ ok tt)
      × (open_blob root expected d' ≡ (ok content, d'))
unfolding commit_blob_from_upload
commit_blob_from_upload-open_blob root hashes upload expected path size d d' at free h =
    let (content, d1, e1, h1) = bind-ok (checked_content hashes upload expected) _ d h in
    let (there, verified, same) = checked_content-ok hashes upload expected content d d1 e1 in
    let (destination, e2, h2) = lift-ok (blob_path root expected) _ d1 h1 in
    let (u3, d3, e3, h3) = bind-ok (place_blob upload destination) _ d1 h2 in
    let (size_eq, end) = same_result (length content) size d3 d' h3 in
    let here : path ≡ destination = cc (at, e2) in
    let placed =
      place_blob-content upload destination content d d3 there (rw here at free)
        (rw (sym same) at e3) in
    (
      content,
      there,
      sym size_eq,
      verified,
      opened root destination expected content d' e2 (rw end at placed),
    )
