-- ===== src/Storage/Manifest/Blobs.antt =====
-- internal/storage/filesystem.go: the blobs that a manifest needs, and the algorithm of its digest.
use simplecontainerregistry.Base.{
  Bytes, beq, beq_iff, elem, Bool, true, false, ◌||◌, ◌&&◌, not, List, [], ◌∷◌, ◌++◌, Option, none,
  some, is_nil, ◌≡◌, refl, sym, ◌∙◌, ◌⊎◌, ◌↔◌, inl, inr, In, arith, Bool-cases, Option-cases, any,
}
use simplecontainerregistry.Base.Sets.{NoRepeat, elem-append, any-In, In-any}
use simplecontainerregistry.Base.Laws.{In-elem}
use simplecontainerregistry.Storage.Digest.{Descriptor, sha256, sha512, algorithm_loop}
use simplecontainerregistry.Storage.Digest.Algorithm.{
  AgreesOn512, algorithm_loop-AgreesOn512, sha_differ,
}
use simplecontainerregistry.Storage.Manifest.{
  BlobManifest, DigestManifest, ManifestJson, is_nondistributable_layer_media_type, layers_loop,
  config_digests, blob_digests_of, manifest_blob_digests, manifest_descriptors,
  manifest_digest_algorithm,
}

-- The layer is one that the registry stores, and it has this digest.
abbrev needs : Bytes → Descriptor → Bool
needs d layer =
    not (is_nondistributable_layer_media_type layer.media_type)
    && (not (is_nil layer.digest) && beq layer.digest d)

elem-layers_loop :
    (d : Bytes) (seen : List Bytes) (layers : List Descriptor)
    → elem d (layers_loop seen layers) ≡ (any (needs d) layers && not (elem d seen))
unfolding elem layers_loop any
elem-layers_loop d seen [] = ground arith
elem-layers_loop d seen (l ∷ layers) = ground (
  arith,
  elem-layers_loop d seen layers,
  elem-layers_loop d (l.digest ∷ seen) layers,
  beq_iff l.digest d,
)

NoRepeat-layers_loop :
    (seen : List Bytes) (layers : List Descriptor) → NoRepeat (layers_loop seen layers)
unfolding layers_loop
NoRepeat-layers_loop seen [] = tt
NoRepeat-layers_loop seen (l ∷ layers) =
    elim (Bool-cases (
      is_nondistributable_layer_media_type l.media_type
      || (is_nil l.digest || elem l.digest seen))) [
        | inl e ↦ rw e (NoRepeat-layers_loop seen layers)
        | inr e ↦ rw e (
          ground (
            arith,
            elem-layers_loop l.digest (l.digest ∷ seen) layers,
            In-elem l.digest (l.digest ∷ seen) (inl refl),
          ),
          NoRepeat-layers_loop (l.digest ∷ seen) layers,
        )
      ]

-- The digest is not empty, and is that of the config or of a layer that the registry stores.
abbrev pub NeedsBlob : Option BlobManifest → Bytes → Type 0
NeedsBlob none d = ⊥
NeedsBlob (some m) d =
    (is_nil d ≡ false)
    × (((c : Descriptor) × (m.config ≡ some c) × (c.digest ≡ d))
        ⊎ ((l : Descriptor) × In l m.layers
            × (is_nondistributable_layer_media_type l.media_type ≡ false)
            × (l.digest ≡ d)))

elem-digests :
    (d : Bytes) (m : BlobManifest)
    → elem d (blob_digests_of (some m))
      ≡ (elem d (config_digests m.config) || any (needs d) m.layers)
elem-digests d m = ground (
  arith,
  elem-append d (config_digests m.config) (layers_loop (config_digests m.config) m.layers),
  elem-layers_loop d (config_digests m.config) m.layers,
)

config_sound :
    (d : Bytes) (o : Option Descriptor)
    → elem d (config_digests o) ≡ true
    → (is_nil d ≡ false) × ((c : Descriptor) × (o ≡ some c) × (c.digest ≡ d))
unfolding elem
config_sound d none h = cc h
config_sound d (some c) h =
    let e : c.digest ≡ d = ground (arith, beq_iff c.digest d) in
    (rw (← e) (ground arith), (c, refl, e))

config_complete :
    (d : Bytes) (c : Descriptor)
    → is_nil d ≡ false
    → c.digest ≡ d
    → elem d (config_digests (some c)) ≡ true
unfolding elem
config_complete d c hn e = ground (arith, beq_iff c.digest d, e)

needs_parts :
    (d : Bytes) (l : Descriptor)
    → needs d l ≡ true
    → (is_nil d ≡ false)
      × (is_nondistributable_layer_media_type l.media_type ≡ false)
      × (l.digest ≡ d)
needs_parts d l h =
    let e : l.digest ≡ d = ground (arith, beq_iff l.digest d) in
    (rw (← e) (ground arith), ground arith, e)

blobs_sound :
    (o : Option BlobManifest) (d : Bytes) → elem d (blob_digests_of o) ≡ true → NeedsBlob o d
blobs_sound none d h = unfold elem in cc h
blobs_sound (some m) d h = elim (Bool-cases (elem d (config_digests m.config))) [
  | inl e ↦ let (hn, c) = config_sound d m.config e in (hn, inl c)
  | inr e ↦
      let (l, n, q) = any-In (needs d) m.layers (ground (arith, elem-digests d m)) in
      let (hn, hd, hq) = needs_parts d l q in (hn, inr (l, n, hd, hq))
]

blobs_complete :
    (o : Option BlobManifest) (d : Bytes) → NeedsBlob o d → elem d (blob_digests_of o) ≡ true
blobs_complete none d h = absurd h
blobs_complete (some m) d (hn, inl (c, e, q)) =
    let e' : elem d (config_digests m.config) ≡ true = rw e (config_complete d c hn q) in
    ground (arith, elem-digests d m)
blobs_complete (some m) d (hn, inr (l, n, hd, q)) = ground (
  arith,
  elem-digests d m,
  In-any (needs d) m.layers l n (ground (arith, beq_iff l.digest d, q, hd, hn)),
)

NoRepeat-config :
    (o : Option Descriptor) (layers : List Descriptor)
    → NoRepeat (config_digests o ++ layers_loop (config_digests o) layers)
NoRepeat-config none layers = NoRepeat-layers_loop [] layers
NoRepeat-config (some c) layers = elim (Bool-cases (is_nil c.digest)) [
  | inl e ↦ rw e (NoRepeat-layers_loop [] layers)
  | inr e ↦ rw e (
    ground (
      arith,
      elem-layers_loop c.digest (c.digest ∷ []) layers,
      In-elem c.digest (c.digest ∷ []) (inl refl),
    ),
    NoRepeat-layers_loop (c.digest ∷ []) layers,
  )
]

NoRepeat-blobs : (o : Option BlobManifest) → NoRepeat (blob_digests_of o)
NoRepeat-blobs none = tt
NoRepeat-blobs (some m) = NoRepeat-config m.config m.layers

-- Every digest that ManifestBlobDigests lists is listed once; and a digest is listed exactly when
-- the manifest can be decoded, the digest is not empty, and it is that of the config or of a layer
-- whose media type is not one of the nondistributable ones.
pub manifest_blob_digests-NeedsBlob :
    (json : ManifestJson) (content d : Bytes)
    → NoRepeat (manifest_blob_digests json content)
      × ((elem d (manifest_blob_digests json content) ≡ true) ↔ NeedsBlob (json.blobs content) d)
unfolding manifest_blob_digests
manifest_blob_digests-NeedsBlob json content d = (
  NoRepeat-blobs (json.blobs content),
  (blobs_sound (json.blobs content) d, blobs_complete (json.blobs content) d),
)

-- The algorithm is sha512 exactly when the manifest can be decoded, at least one of its descriptors
-- (config, layers, manifests, subject) has a valid sha512 digest, and none has a valid sha256 digest.
pub manifest_digest_algorithm-AgreesOn512 :
    (json : ManifestJson) (content : Bytes)
    → (manifest_digest_algorithm json content ≡ sha512) ↔ (
        (m : DigestManifest) × (json.digests content ≡ some m)
        × AgreesOn512 (manifest_descriptors m.config m.layers m.manifests m.subject))
manifest_digest_algorithm-AgreesOn512 json content = elim (Option-cases (json.digests content)) [
  | inl e ↦
      (λ h. absurd (sha_differ (sym h ∙ undecoded e)), λ (m, q, g). absurd (none_some (sym e ∙ q)))
  | inr (m, e) ↦ (
    λ h. (m, e, (agrees m).0 (sym (decoded m e) ∙ h)),
    λ (m', q, g). decoded m' q ∙ (agrees m').1 g,
  )
]
  where
    undecoded : json.digests content ≡ none → manifest_digest_algorithm json content ≡ sha256
    undecoded e = unfold manifest_digest_algorithm in rw (e, manifest_digest_algorithm)

    decoded :
        (m : DigestManifest)
        → json.digests content ≡ some m
        → manifest_digest_algorithm json content
          ≡ algorithm_loop [] (manifest_descriptors m.config m.layers m.manifests m.subject)
    decoded m e = unfold manifest_digest_algorithm in rw (e, manifest_digest_algorithm)

    agrees :
        (m : DigestManifest)
        → (algorithm_loop [] (manifest_descriptors m.config m.layers m.manifests m.subject)
            ≡ sha512)
          ↔ AgreesOn512 (manifest_descriptors m.config m.layers m.manifests m.subject)
    agrees m =
        algorithm_loop-AgreesOn512 (manifest_descriptors m.config m.layers m.manifests m.subject)

    none_some : {m : DigestManifest} → ¬ (none ≡ some m)
    none_some e = cc e
