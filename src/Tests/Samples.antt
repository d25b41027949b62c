-- ===== src/Tests/Samples.antt =====
-- A hash function that is constant, a manifest of sizes, and the places that the runs use.
use simplecontainerregistry.Storage.Manifests.{}
use simplecontainerregistry.Base.{◌≢◌, beq→ne}
use simplecontainerregistry.Base.{
  ℕ, zero, suc, ◌+◌, ◌-◌, ◌^◌, ◌<◌, ◌≤◌, Bytes, codes, beq, elem, Bool, true, false, List, [], ◌∷◌,
  ◌++◌, ◌≡◌, ◌↔◌, ◌⊎◌, refl, inl, inr, Result, ok, Option, none, some, arith, length, All,
  trim_space,
}
use simplecontainerregistry.Base.Int.{pos, negsuc}
use simplecontainerregistry.Storage.Digest.{Hashes}
use simplecontainerregistry.Storage.Digest.Computed.{}
use simplecontainerregistry.Storage.Path.{FilePath, sanitize_reference}
use simplecontainerregistry.Storage.Manifest.{ManifestJson, SizeManifest}
use simplecontainerregistry.Storage.Manifest.Blobs.{}
use simplecontainerregistry.Storage.Manifest.Size.{}
use simplecontainerregistry.Storage.Disk.{Disk}

abbrev pub zeros : ℕ → Bytes
zeros zero = []
zeros (suc n) = 0 ∷ zeros n

pub zeros_small : (n : ℕ) → All (λ b. b < 256) (zeros n)
zeros_small zero = tt
zeros_small (suc n) = (omega arith, zeros_small n)

abbrev pub hashes : Hashes
hashes = record {
  sum256 = λ content. zeros 32;
  sum512 = λ content. zeros 64;
  sum256_size = λ content. (refl, zeros_small 32);
  sum512_size = λ content. (refl, zeros_small 64);
}

abbrev pub small_sizes : SizeManifest
small_sizes = record { config = some (pos 3); layers = pos 5 ∷ negsuc 4 ∷ []; manifests = [] }

-- A manifest of sizes alone.
abbrev pub sized : SizeManifest → ManifestJson
sized sizes = record {
  subject = λ content. none;
  blobs = λ content. none;
  digests = λ content. none;
  referrer = λ content. none;
  sizes = λ content. some sizes;
}

abbrev pub root : FilePath
root = codes "srv" ∷ []

pub tag_safe : sanitize_reference (codes "v1") ≡ ok (codes "v1")
unfolding sanitize_reference simplecontainerregistry.Base.contains simplecontainerregistry.Base.cut
    simplecontainerregistry.Base.strip_prefix simplecontainerregistry.Base.all
tag_safe = refl

abbrev pub empty_disk : Disk
empty_disk = record { nodes = []; now = 1 }

abbrev pub digest : Bytes
digest = codes "sha256:0000000000000000000000000000000000000000000000000000000000000000"
