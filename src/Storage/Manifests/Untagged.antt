-- ===== src/Storage/Manifests/Untagged.antt =====
-- internal/storage/filesystem.go: a tag that was deleted names nothing.
use simplecontainerregistry.Base.{
  Bytes, false, List, [], ◌∷◌, Option, none, some, is_nil, Result, ok, err, Error, ◌≡◌, refl, sym,
  ap, ◌∙◌, inl, inr, Bool-cases,
}
use simplecontainerregistry.Storage.Path.{
  FilePath, safe_repository_path, sanitize_reference, tag_path,
}
use simplecontainerregistry.Storage.Disk.{
  Node, folder, file, Disk, Action, return, is_not_exist, on_error, same_path, find, take_out,
  drop_node, node_at, parent, missing, children, content_of, remove, remove_node, read_file,
}
use simplecontainerregistry.Storage.Disk.View.{
  contents, content_at, content_at-touch, bind-ok, lift-ok,
}
use simplecontainerregistry.Storage.Manifests.{
  has_colon, manifest_tag_digest, delete_tag, delete_manifest,
}

find-taken : (p : FilePath) (nodes : List (FilePath × Node)) → find p (take_out p nodes) ≡ none
unfolding find take_out
find-taken p [] = refl
find-taken p ((q, node) ∷ nodes) = elim (Bool-cases (same_path q p)) [
  | inl e ↦ rw e (find-taken p nodes)
  | inr e ↦ rw (e, e) (find-taken p nodes)
]

dropped : (p : FilePath) (d : Disk) → content_at p (drop_node p d) ≡ none
unfolding drop_node
dropped [] d = refl
dropped (s ∷ p) d = ap (λ (o : Option Node). contents o) (find-taken (s ∷ p) d.nodes)

abbrev removal : FilePath → Option Node → Action (Unit {0})
removal p o = on_error is_not_exist (return tt) (remove_node p o)

removal-none :
    (p : FilePath) (o : Option Node) (u : Unit {0}) (d d' : Disk)
    → node_at p d ≡ o
    → removal p o d ≡ (ok u, d')
    → content_at p d' ≡ none
removal-none p none u d d' e h = elim (Bool-cases (is_not_exist (missing p d))) [
  | inr other ↦ absurd (cc (rw other at h))
  | inl gone ↦
      rw (sym (ap (λ (r : Result (Unit {0}) × Disk). r.1) (rw gone at h)))
        (ap (λ (o : Option Node). contents o) e)
]
removal-none p (some (file content time)) u d d' e h =
    rw (sym (ap (λ (r : Result (Unit {0}) × Disk). r.1) h))
      (content_at-touch (parent p) p (drop_node p d) ∙ dropped p d)
removal-none p (some (folder time)) u d d' e h = elim (Bool-cases (is_nil (children p d))) [
  | inr full ↦ absurd (cc (rw full at h))
  | inl empty ↦
      rw (sym (ap (λ (r : Result (Unit {0}) × Disk). r.1) (rw empty at h)))
        (content_at-touch (parent p) p (drop_node p d) ∙ dropped p d)
]

remove-none :
    (p : FilePath) (u : Unit {0}) (d d' : Disk)
    → on_error is_not_exist (return tt) (remove p) d ≡ (ok u, d')
    → content_at p d' ≡ none
unfolding remove
remove-none p u d d' h = removal-none p (node_at p d) u d d' refl h

content_of-none :
    (e : Error) (o : Option Node) → contents o ≡ none → (x : Error) × (content_of e o ≡ err x)
content_of-none e none h = (e, refl)
content_of-none e (some (folder time)) h = (_, refl)
content_of-none e (some (file content time)) h = absurd (cc h)

-- What the deletion of a tag leaves.
delete_tag-none :
    (root : FilePath) (repository repo_path tag digest name : Bytes) (d d' : Disk)
    → sanitize_reference tag ≡ ok name
    → delete_tag root repository repo_path tag d ≡ (ok digest, d')
    → content_at (tag_path root repo_path name) d' ≡ none
unfolding delete_tag
delete_tag-none root repository repo_path tag digest name d d' clean h =
    let (digest', d1, e1, h1) = bind-ok (manifest_tag_digest root repository tag) _ d h in
    let (name', e2, h2) = lift-ok (sanitize_reference tag) _ d1 h1 in
    let (u, d3, e3, h3) =
      bind-ok (on_error is_not_exist (return tt) (remove (tag_path root repo_path name'))) _ d1
        h2 in
    let same : name' ≡ name = cc (e2, clean) in
    let gone = remove-none (tag_path root repo_path name') u d1 d3 e3 in
    rw (sym (ap (λ (r : Result Bytes × Disk). r.1) h3)) (rw same at gone)

unresolved :
    (root : FilePath) (repository repo_path tag name : Bytes) (d : Disk)
    → safe_repository_path repository ≡ ok repo_path
    → sanitize_reference tag ≡ ok name
    → content_at (tag_path root repo_path name) d ≡ none
    → (e : Error) × ((manifest_tag_digest root repository tag d).0 ≡ err e)
unfolding manifest_tag_digest read_file
unresolved root repository repo_path tag name d safe clean gone =
    let p = tag_path root repo_path name in
    let (x, failed) = content_of-none (missing p d) (node_at p d) gone in
    rw (safe, clean, failed) (x, refl)

-- After a manifest was deleted by a tag, the tag names no digest.
pub delete_manifest-unresolved :
    (root : FilePath) (repository tag name digest : Bytes) (d d' : Disk)
    → sanitize_reference tag ≡ ok name
    → has_colon tag ≡ false
    → delete_manifest root repository tag d ≡ (ok digest, d')
    → (e : Error) × ((manifest_tag_digest root repository tag d').0 ≡ err e)
unfolding delete_manifest
delete_manifest-unresolved root repository tag name digest d d' clean plain h =
    let (repo_path', e1, h1) = lift-ok (safe_repository_path repository) _ d h in
    unresolved root repository repo_path' tag name d' e1 clean
      (delete_tag-none root repository repo_path' tag digest name d d' clean (rw plain at h1))
