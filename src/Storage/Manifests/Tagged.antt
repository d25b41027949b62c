-- ===== src/Storage/Manifests/Tagged.antt =====
-- internal/storage/filesystem.go: a tag that was linked names its digest.
use simplecontainerregistry.Base.{
  Bytes, false, some, Result, ok, ◌≡◌, ◌≢◌, refl, sym, ap, ◌∙◌, >>=-eq-ok,
}
use simplecontainerregistry.Storage.Digest.{parse_digest}
use simplecontainerregistry.Storage.Path.{
  FilePath, safe_repository_path, sanitize_reference, manifest_digest_path, tag_path,
}
use simplecontainerregistry.Storage.Disk.{
  Node, Disk, Action, ◌>>◌, fail, node_at, is_folder, parent, stat, write_file, create_new,
  mkdir_all, remove, rename,
}
use simplecontainerregistry.Base.{exists}
use simplecontainerregistry.Storage.Digest.Trimmed.{parse_digest-trim_space}
use simplecontainerregistry.Storage.Disk.View.{
  content_at, bind-ok, lift-ok, read_file-content, write_file-content,
}
use simplecontainerregistry.Storage.Disk.Moves.{
  mkdir_all-parent, rename-content, is_folder-create_new, is_folder-write_file, remove-content,
}
use simplecontainerregistry.Storage.Manifests.{
  finally, swap_in, link_tag, link_manifest_tag, temporary_path, manifest_tag_digest,
}

with_state : Result (Unit {0}) → Disk → Result (Unit {0}) × Disk
with_state r d = (r, d)

-- A deferred action decides nothing about the result.
finally-ok :
    (m k : Action (Unit {0})) (d d' : Disk)
    → finally m k d ≡ (ok tt, d')
    → (d1 : Disk) × (m d ≡ (ok tt, d1)) × ((k d1).1 ≡ d')
unfolding finally with_state
finally-ok m k d d' h = (
  (m d).1,
  ap (λ (r : Result (Unit {0}) × Disk). with_state r.0 (m d).1) h,
  ap (λ (r : Result (Unit {0}) × Disk). r.1) h,
)

swap_in-content :
    (temporary_file tag_file : FilePath) (digest : Bytes) (d d' : Disk)
    → temporary_file ≢ tag_file
    → is_folder (node_at tag_file d) ≡ false
    → swap_in temporary_file tag_file digest d ≡ (ok tt, d')
    → content_at tag_file d' ≡ some digest
unfolding swap_in
swap_in-content temporary_file tag_file digest d d' apart free h =
    let (u1, d1, made, h1) = bind-ok (create_new temporary_file) _ d h in
    let (d2, swapped, end) =
      finally-ok (write_file temporary_file digest >> rename temporary_file tag_file)
        (remove temporary_file) d1 d' h1 in
    let (u3, d3, wrote, renamed) = bind-ok (write_file temporary_file digest) _ d1 swapped in
    let free1 = is_folder-create_new temporary_file tag_file d d1 apart made ∙ free in
    let free3 = is_folder-write_file temporary_file tag_file digest d1 d3 apart wrote ∙ free1 in
    let (there, others) = write_file-content temporary_file digest d1 d3 wrote in
    let here =
      rename-content temporary_file tag_file digest (fail exists) d3 d2 there free3
        (rw renamed refl) in
    ap (λ (e : Disk). content_at tag_file e) (sym end)
    ∙ remove-content temporary_file tag_file d2 apart
    ∙ here

link_tag-content :
    (root : FilePath) (temporary repo_path tag name digest : Bytes) (d d' : Disk)
    → sanitize_reference tag ≡ ok name
    → temporary_path root temporary (tag_path root repo_path name) ≢ tag_path root repo_path name
    → is_folder (node_at (tag_path root repo_path name) d) ≡ false
    → link_tag root temporary repo_path tag digest d ≡ (ok tt, d')
    → content_at (tag_path root repo_path name) d' ≡ some digest
unfolding link_tag
link_tag-content root temporary repo_path tag name digest d d' clean apart free h =
    let (name', e1, h1) = lift-ok (sanitize_reference tag) _ d h in
    let same : name' ≡ name = cc (e1, clean) in
    let (u2, d2, made, h2) = bind-ok (mkdir_all (parent (tag_path root repo_path name'))) _ d h1 in
    swap_in-content (temporary_path root temporary (tag_path root repo_path name))
      (tag_path root repo_path name) digest d2 d' apart
      (mkdir_all-parent (tag_path root repo_path name) d d2 free (rw same at made)) (rw same at h2)

stat-ok : (p : FilePath) (node : Node) (d d' : Disk) → stat p d ≡ (ok node, d') → d ≡ d'
unfolding stat
stat-ok p node d d' h = ap (λ (r : Result Node × Disk). r.1) h

digest_path-parse :
    (root : FilePath) (repo_path digest : Bytes) (digest_path : FilePath)
    → manifest_digest_path root repo_path digest ≡ ok digest_path
    → (parsed : Bytes × Bytes) × (parse_digest digest ≡ ok parsed)
unfolding manifest_digest_path
digest_path-parse root repo_path digest digest_path h =
    let (parsed, e, k) = >>=-eq-ok (parse_digest digest) _ h in (parsed, e)

-- After a manifest was linked to a tag, the tag names the digest that it was given, if the place of
-- the tag is not a directory and not that of the temporary file.
pub link_manifest_tag-manifest_tag_digest :
    (root : FilePath) (temporary repository repo_path tag name digest : Bytes) (d d' : Disk)
    → safe_repository_path repository ≡ ok repo_path
    → sanitize_reference tag ≡ ok name
    → temporary_path root temporary (tag_path root repo_path name) ≢ tag_path root repo_path name
    → is_folder (node_at (tag_path root repo_path name) d) ≡ false
    → link_manifest_tag root temporary repository tag digest d ≡ (ok tt, d')
    → manifest_tag_digest root repository tag d' ≡ (ok digest, d')
unfolding link_manifest_tag manifest_tag_digest
link_manifest_tag-manifest_tag_digest root temporary repository repo_path tag name digest d d' safe
      clean apart free h =
    let (repo_path', e1, h1) = lift-ok (safe_repository_path repository) _ d h in
    let same : repo_path' ≡ repo_path = cc (e1, safe) in
    let (digest_path, e2, h2) = lift-ok (manifest_digest_path root repo_path' digest) _ d h1 in
    let (node, d3, seen, h3) = bind-ok (stat digest_path) _ d h2 in
    let still : d ≡ d3 = stat-ok digest_path node d d3 seen in
    let (parsed, e4) = digest_path-parse root repo_path' digest digest_path e2 in
    let there =
      link_tag-content root temporary repo_path tag name digest d3 d' clean apart (rw still at free)
        (rw same at h3) in
    let read = read_file-content (tag_path root repo_path name) digest d' there in
    rw (safe, clean, read, parse_digest-trim_space digest parsed e4, e4) refl
