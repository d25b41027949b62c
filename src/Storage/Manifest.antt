-- ===== src/Storage/Manifest.antt =====
-- internal/storage/filesystem.go, and estimateManifestArtifactSize of internal/httpserver/server.go:
-- what is read from the JSON of a manifest. encoding/json is a parameter, one decoder for each
-- anonymous struct of the source; `none` is an error of Unmarshal.
pub mod Blobs
pub mod Size
use simplecontainerregistry.Base.{
  ℕ, Bytes, codes, beq, elem, Bool, true, false, ◌||◌, List, [], ◌∷◌, ◌++◌, map, Option, none, some,
  has_prefix, is_nil, length, if◌then◌else◌,
}
use simplecontainerregistry.Base.Int.{ℤ, pos, add64, ltb_ℤ, int64}
use simplecontainerregistry.Storage.Digest.{Descriptor, sha256, algorithm_loop}

pub record BlobManifest : Type 0 where
  pub config : Option Descriptor
  pub layers : List Descriptor

pub record DigestManifest : Type 0 where
  pub config : Option Descriptor
  pub layers : List Descriptor
  pub manifests : List Descriptor
  pub subject : Option Descriptor

pub record ReferrerManifest : Type 0 where
  pub artifact_type : Bytes
  pub config : Option Descriptor
  pub subject : Option Descriptor
  pub annotations : List (Bytes × Bytes)

pub record SizeManifest : Type 0 where
  pub config : Option ℤ
  pub layers : List ℤ
  pub manifests : List ℤ

pub record ManifestJson : Type 0 where
  pub subject : Bytes → Option (Option Descriptor)
  pub blobs : Bytes → Option BlobManifest
  pub digests : Bytes → Option DigestManifest
  pub referrer : Bytes → Option ReferrerManifest
  pub sizes : Bytes → Option SizeManifest

unfoldable pub subject_digest : ManifestJson → Bytes → Bytes
subject_digest json content = elim (json.subject content) [
  | none ↦ []
  | some none ↦ []
  | some (some subject) ↦ subject.digest
]

unfoldable pub is_nondistributable_layer_media_type : Bytes → Bool
is_nondistributable_layer_media_type media_type =
    has_prefix media_type (codes "application/vnd.oci.image.layer.nondistributable.v1.")
    || has_prefix media_type (codes "application/vnd.docker.image.rootfs.foreign.")

-- The loop over the layers; `seen` is the map.
unfoldable pub layers_loop : List Bytes → List Descriptor → List Bytes
layers_loop seen [] = []
layers_loop seen (layer ∷ layers) =
    let skipped =
      is_nondistributable_layer_media_type layer.media_type
      || (is_nil layer.digest || elem layer.digest seen) in
    let rest = layers_loop (if skipped then seen else layer.digest ∷ seen) layers in
    if skipped then rest else layer.digest ∷ rest

abbrev pub config_digests : Option Descriptor → List Bytes
config_digests none = []
config_digests (some config) = if is_nil config.digest then [] else config.digest ∷ []

abbrev pub blob_digests_of : Option BlobManifest → List Bytes
blob_digests_of none = []
blob_digests_of (some manifest) =
    config_digests manifest.config ++ layers_loop (config_digests manifest.config) manifest.layers

unfoldable pub manifest_blob_digests : ManifestJson → Bytes → List Bytes
unfolding layers_loop
manifest_blob_digests json content = blob_digests_of (json.blobs content)

abbrev pub optional : Option Descriptor → List Descriptor
optional none = []
optional (some descriptor) = descriptor ∷ []

unfoldable pub manifest_descriptors :
    Option Descriptor → List Descriptor → List Descriptor → Option Descriptor → List Descriptor
manifest_descriptors config layers manifests subject =
    optional config ++ (layers ++ (manifests ++ optional subject))

unfoldable pub manifest_digest_algorithm : ManifestJson → Bytes → Bytes
unfolding manifest_descriptors
manifest_digest_algorithm json content = elim (json.digests content) [
  | none ↦ sha256
  | some m ↦ algorithm_loop [] (manifest_descriptors m.config m.layers m.manifests m.subject)
]

abbrev pub referrer_type : ReferrerManifest → Bytes
referrer_type manifest =
    if is_nil manifest.artifact_type
    then (elim manifest.config [ none ↦ [] | some config ↦ config.media_type ])
    else manifest.artifact_type

unfoldable pub descriptor_for_referrer : ManifestJson → Bytes → Bytes → Bytes → Option Descriptor
descriptor_for_referrer json content media_type digest = elim (json.referrer content) [
  | none ↦ none
  | some manifest ↦ elim manifest.subject [
    | none ↦ none
    | some subject ↦ some (record {
      media_type = media_type;
      artifact_type = referrer_type manifest;
      digest = digest;
      size = pos (length content);
      annotations = manifest.annotations;
    })
  ]
]

-- `if size > 0 { total += size }` on int64.
unfoldable pub add_positive : ℤ → ℤ → ℤ
add_positive total size = if ltb_ℤ (pos 0) size then add64 total size else total

unfoldable pub add_all : ℤ → List ℤ → ℤ
unfolding add_positive
add_all total [] = total
add_all total (size ∷ sizes) = add_all (add_positive total size) sizes

abbrev pub optional_size : Option ℤ → List ℤ
optional_size none = []
optional_size (some size) = size ∷ []

unfoldable pub estimate_manifest_artifact_size : ManifestJson → Bytes → ℤ
unfolding add_all
estimate_manifest_artifact_size json content = elim (json.sizes content) [
  | none ↦ int64 (length content)
  | some m ↦ add_all (int64 (length content)) (optional_size m.config ++ (m.layers ++ m.manifests))
]
