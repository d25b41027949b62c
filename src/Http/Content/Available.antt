-- ===== src/Http/Content/Available.antt =====
-- internal/httpserver/server.go: a manifest is accepted only when its blobs are there.
use simplecontainerregistry.Base.{
  ℕ, Bytes, beq, beq_iff, elem, Bool, true, false, List, [], ◌∷◌, Option, length, all, Result, ok,
  err, ltb, ◌≡◌, refl, sym, ap, ◌∙◌, inl, inr, Bool-cases, Result-cases, arith,
}
use simplecontainerregistry.Storage.Digest.{Hashes}
use simplecontainerregistry.Storage.Path.{FilePath, repository_blob_path, validate_tag}
use simplecontainerregistry.Storage.Manifest.{ManifestJson, manifest_blob_digests}
use simplecontainerregistry.Storage.Disk.{
  Disk, lift, stat, or_missing, missing, node_at, is_not_exist,
}
use simplecontainerregistry.Storage.Blobs.{has_repository_blob}
use simplecontainerregistry.Http.Route.{method_put}
use simplecontainerregistry.Http.World.{Metadata, World}
use simplecontainerregistry.Http.Paging.{manifest_tags}
use simplecontainerregistry.Http.Tags.Protected.{OnlyReads}
use simplecontainerregistry.Http.Content.{
  ContentRequest, ContentResponse, status_only, blobs_available, put_handler, handle_manifest,
  max_manifest_bytes, is_ok,
}

has_repository_blob-OnlyReads :
    (root : FilePath) (repository digest : Bytes) (d : Disk)
    → OnlyReads d (has_repository_blob root repository digest d)
unfolding has_repository_blob stat
has_repository_blob-OnlyReads root repository digest d =
    elim (Result-cases (repository_blob_path root repository digest)) [
      | inr (e, bad) ↦ rw bad (err e, refl)
      | inl (path, fine) ↦ elim (Result-cases (or_missing (missing path d) (node_at path d))) [
        | inl (node, found) ↦ rw (fine, found) (ok true, refl)
        | inr (e, failed) ↦ elim (Bool-cases (is_not_exist e)) [
          | inl gone ↦ rw (fine, failed, gone) (ok false, refl)
          | inr other ↦ rw (fine, failed, other) (err e, refl)
        ]
      ]
    ]

module _ (root : FilePath) (repository : Bytes) (d : Disk) where
  abbrev pub IsLinked : Bytes → Type 0
  IsLinked digest = has_repository_blob root repository digest d ≡ lift (ok true) d

  abbrev Checked : List Bytes → Type 0
  Checked digests =
      (b : Bool) × (blobs_available root repository digests d ≡ lift (ok b) d)
      × (b ≡ true → (x : Bytes) → elem x digests ≡ true → IsLinked x)

  head_or_tail :
      (g : Bytes) (gs : List Bytes)
      → IsLinked g
      → ((x : Bytes) → elem x gs ≡ true → IsLinked x)
      → (x : Bytes) → elem x (g ∷ gs) ≡ true
      → IsLinked x
  unfolding elem
  head_or_tail g gs here there x h = elim (Bool-cases (beq g x)) [
    | inl e ↦ rw (sym ((beq_iff g x).0 e)) here
    | inr e ↦ there x (rw e at h)
  ]

  blobs_available-Checked : (digests : List Bytes) → Checked digests
  unfolding blobs_available elem
  blobs_available-Checked [] = (true, refl, λ _ x h. absurd (cc h))
  blobs_available-Checked (g ∷ gs) =
      let (r, reads) = has_repository_blob-OnlyReads root repository g d in
      let (b, rest, linked) = blobs_available-Checked gs in
      elim (Result-cases r) [
        | inr (e, failed) ↦ rw (reads, failed) (false, refl, λ h. absurd (cc h))
        | inl (present, fine) ↦ elim (Bool-cases present) [
          | inr lacks ↦ rw (reads, fine, lacks) (false, refl, λ h. absurd (cc h))
          | inl has ↦
              let here : IsLinked g =
                reads ∙ ap (λ (x : Result Bool). lift x d) (fine ∙ ap (λ (x : Bool). ok x) has) in
              (b, (rw here rest), λ h. head_or_tail g gs here (linked h))
        ]
      ]

-- The status of a response.
abbrev status_of {ℓ} : {S : Type ℓ} → Result ContentResponse × S → ℕ
status_of (ok response, s) = response.status
status_of (err e, s) = 0

abbrev answered : {S : Type 0} → ContentResponse → World S → Result ContentResponse × World S
answered response w = (ok response, w)

answered_as :
    {S : Type 0} (status : ℕ) (response : ContentResponse) (w w' : World S)
    → answered (status_only status) w ≡ answered response w'
    → response.status ≡ 201
    → status ≡ 201
answered_as {S = S} status response w w' h created =
    ap (λ (x : Result ContentResponse × World S). status_of x) h ∙ created

-- If the answer to a PUT of a manifest is 201, then before it every blob that the manifest needs was
-- linked to the repository.
pub handle_manifest-IsLinked :
    {S : Type 0} (root : FilePath) (hashes : Hashes) (json : ManifestJson)
    (compile : Bytes → Option (Bytes → Bool)) (metadata : Metadata S)
    (temporary repository reference : Bytes) (r : ContentRequest) (w w' : World S)
    (response : ContentResponse) (digest : Bytes)
    → r.method ≡ method_put
    → handle_manifest root hashes json compile metadata temporary repository reference r w
      ≡ (ok response, w')
    → response.status ≡ 201
    → elem digest (manifest_blob_digests json r.body) ≡ true
    → IsLinked root repository w.disk digest
unfolding handle_manifest put_handler beq
handle_manifest-IsLinked root hashes json compile metadata temporary repository reference r w w'
      response digest put h created needed =
    let (b, checked, linked) =
      blobs_available-Checked root repository w.disk (manifest_blob_digests json r.body) in
    let h' = rw put at h in
    elim (Bool-cases (ltb max_manifest_bytes (length r.body))) [
      | inl large ↦
          absurd
            (omega (arith, answered_as 400 response w w' (rw (large, put_handler) at h') created))
      | inr small ↦
          elim (Bool-cases
            (all (λ tag. is_ok (validate_tag tag)) (manifest_tags reference r.query_tags))) [
              | inr bad ↦ absurd (
                  omega (
                    arith,
                    answered_as 400 response w w' (rw (small, bad, put_handler) at h') created,
                  ))
              | inl valid ↦ elim (Bool-cases b) [
                | inl all_there ↦ linked all_there digest needed
                | inr lacks ↦ absurd (
                    omega (
                      arith,
                      answered_as 400 response w w'
                          (rw (small, valid, checked, lacks, put_handler) at h') created,
                    ))
              ]
            ]
    ]
