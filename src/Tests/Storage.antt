-- ===== src/Tests/Storage.antt =====
-- internal/storage: digests, manifests and paths, with a hash function that is constant.
use simplecontainerregistry.Storage.Manifests.{}
use simplecontainerregistry.Base.{◌≢◌, beq→ne}
use simplecontainerregistry.Base.{
  ℕ, zero, suc, ◌+◌, ◌-◌, ◌^◌, ◌%◌, ◌<◌, ◌≤◌, Bytes, codes, beq, elem, Bool, true, false, List, [],
  ◌∷◌, ◌++◌, ◌≡◌, ◌↔◌, ◌⊎◌, refl, inl, inr, Result, ok, Option, none, some, arith, length, All,
  trim_space,
}
use simplecontainerregistry.Base.Sets.{NoRepeat}
use simplecontainerregistry.Base.Int.{pos, negsuc, ltb_ℤ}
use simplecontainerregistry.Storage.Digest.{
  sha256, sha512, parse_digest, digest_for_content, verify_digest,
}
use simplecontainerregistry.Storage.Digest.Valid.{IsDigest, parse_digest-IsDigest}
use simplecontainerregistry.Storage.Digest.Computed.{
  parse_digest-digest_for_content, verify_digest-eq,
}
use simplecontainerregistry.Storage.Digest.Algorithm.{AgreesOn512}
use simplecontainerregistry.Storage.Path.{FilePath, bad_part, tag_path, safe_repository_path}
use simplecontainerregistry.Storage.Path.Clean.{IsClean}
use simplecontainerregistry.Storage.Path.Layout.{tag, IsBelow, StorePath-IsBelow}
use simplecontainerregistry.Storage.Manifest.{
  SizeManifest, DigestManifest, manifest_blob_digests, manifest_digest_algorithm,
  manifest_descriptors, estimate_manifest_artifact_size,
}
use simplecontainerregistry.Storage.Manifest.Blobs.{
  NeedsBlob, manifest_blob_digests-NeedsBlob, manifest_digest_algorithm-AgreesOn512,
}
use simplecontainerregistry.Storage.Manifest.Size.{
  estimate-eq-sum, estimate_wraps, positive_sum, declared, int64_limit,
}
use simplecontainerregistry.Tests.Samples.{hashes, small_sizes, sized, root, tag_safe}

-- Sizes that, with two bytes of content, come to 2^63 + 6.
abbrev big_sizes : SizeManifest
big_sizes = record {
  config = some (pos (2 ^ 63 - 1));
  layers = negsuc 4 ∷ [];
  manifests = pos 5 ∷ [];
}

parse_digest-IsDigest_example :
    (parse_digest (codes "sha256:00") ≡ ok (sha256, codes "00"))
    ↔ IsDigest (codes "sha256:00") sha256 (codes "00")
parse_digest-IsDigest_example = parse_digest-IsDigest (codes "sha256:00") sha256 (codes "00")

parse_digest-digest_for_content_example :
    (e : Bytes) × (parse_digest (digest_for_content hashes sha256 (codes "{}")) ≡ ok (sha256, e))
parse_digest-digest_for_content_example =
    parse_digest-digest_for_content hashes sha256 (codes "{}") (inl refl)

verify_digest-eq_example : (verify_digest hashes (codes "{}") (codes "sha256:00") ≡ ok tt) ↔ (
    (codes "sha256:00" ≡ digest_for_content hashes sha256 (codes "{}"))
    ⊎ (codes "sha256:00" ≡ digest_for_content hashes sha512 (codes "{}")))
verify_digest-eq_example = verify_digest-eq hashes (codes "{}") (codes "sha256:00")

manifest_blob_digests-NeedsBlob_example :
    NoRepeat (manifest_blob_digests (sized small_sizes) (codes "{}"))
    × ((elem sha256 (manifest_blob_digests (sized small_sizes) (codes "{}")) ≡ true)
        ↔ NeedsBlob none sha256)
manifest_blob_digests-NeedsBlob_example =
    manifest_blob_digests-NeedsBlob (sized small_sizes) (codes "{}") sha256

manifest_digest_algorithm-AgreesOn512_example :
    (manifest_digest_algorithm (sized small_sizes) (codes "{}") ≡ sha512) ↔ (
      (m : DigestManifest) × ((sized small_sizes).digests (codes "{}") ≡ some m)
      × AgreesOn512 (manifest_descriptors m.config m.layers m.manifests m.subject))
manifest_digest_algorithm-AgreesOn512_example =
    manifest_digest_algorithm-AgreesOn512 (sized small_sizes) (codes "{}")

small_fits : length (codes "{}") + positive_sum (declared small_sizes) < int64_limit
small_fits = omega arith

estimate-eq-sum_example : estimate_manifest_artifact_size (sized small_sizes) (codes "{}") ≡ pos 10
estimate-eq-sum_example =
    estimate-eq-sum (sized small_sizes) (codes "{}") small_sizes refl small_fits

estimate_wraps_example :
    (estimate_manifest_artifact_size (sized big_sizes) (codes "{}") ≡ negsuc (2 ^ 63 - 7))
    × ((ltb_ℤ (estimate_manifest_artifact_size (sized big_sizes) (codes "{}")) (pos 0) ≡ true)
        ↔ (int64_limit ≤ (length (codes "{}") + positive_sum (declared big_sizes)) % 2 ^ 64))
estimate_wraps_example = estimate_wraps (sized big_sizes) (codes "{}") big_sizes refl

root-IsClean : IsClean root
unfolding bad_part beq
root-IsClean = (refl, tt)

app_safe : safe_repository_path (codes "/team/app/") ≡ ok (codes "team/app")
unfolding safe_repository_path simplecontainerregistry.Base.trim
    simplecontainerregistry.Base.trim_right simplecontainerregistry.Base.drop_while
    simplecontainerregistry.Base.contains simplecontainerregistry.Base.cut
    simplecontainerregistry.Base.strip_prefix simplecontainerregistry.Base.any
    simplecontainerregistry.Base.split beq
app_safe = refl

abbrev tag_file : FilePath
tag_file = tag_path root (codes "team/app") (codes "v1")

StorePath-IsBelow_example : IsBelow root tag_file
StorePath-IsBelow_example =
    StorePath-IsBelow root tag_file root-IsClean
      (tag (codes "/team/app/") (codes "team/app") (codes "v1") (codes "v1") app_safe tag_safe refl)
