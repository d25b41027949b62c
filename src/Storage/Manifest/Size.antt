-- ===== src/Storage/Manifest/Size.antt =====
-- internal/httpserver/server.go, estimateManifestArtifactSize: a sum on int64.
use simplecontainerregistry.Base.{
  ℕ, Bytes, List, [], ◌∷◌, ◌++◌, some, length, ◌+◌, ◌<◌, ◌≤◌, ◌^◌, ◌%◌, ◌≡◌, ◌↔◌, true, refl, ◌∙◌,
  ap, arith,
}
use simplecontainerregistry.Base.Int.{ℤ, pos, negsuc, add64, int64, pos_part, ltb_ℤ}
use simplecontainerregistry.Storage.Manifest.{
  ManifestJson, SizeManifest, add_positive, add_all, optional_size, estimate_manifest_artifact_size,
}

abbrev pub int64_limit : ℕ
int64_limit = 2 ^ 63

-- The sum of the sizes that are positive, in ℕ.
abbrev pub positive_sum : List ℤ → ℕ
positive_sum [] = 0
positive_sum (size ∷ sizes) = pos_part size + positive_sum sizes

add64_fits : (a b : ℕ) → a + b < int64_limit → add64 (pos a) (pos b) ≡ pos (a + b)
unfolding add64
add64_fits a b h = ground arith

add_positive_fits :
    (t : ℕ) (size : ℤ)
    → t + pos_part size < int64_limit
    → add_positive (pos t) size ≡ pos (t + pos_part size)
unfolding add_positive
add_positive_fits t (pos n) h = ground (arith, add64_fits t n)
add_positive_fits t (negsuc n) h = ground arith

add_all_step :
    (total size : ℤ) (sizes : List ℤ)
    → add_all total (size ∷ sizes) ≡ add_all (add_positive total size) sizes
unfolding add_all
add_all_step total size sizes = refl

add_all_fits :
    (t : ℕ) (sizes : List ℤ)
    → t + positive_sum sizes < int64_limit
    → add_all (pos t) sizes ≡ pos (t + positive_sum sizes)
add_all_fits t [] h = unfold add_all in ap (λ (n : ℕ). pos n) (omega arith)
add_all_fits t (size ∷ sizes) h =
    add_all_step (pos t) size sizes
    ∙ ap (λ (z : ℤ). add_all z sizes) (add_positive_fits t size (omega arith))
    ∙ add_all_fits (t + pos_part size) sizes (omega arith)
    ∙ ap (λ (n : ℕ). pos n) (omega arith)

-- The sizes that a manifest declares: of its config, its layers and its child manifests.
abbrev pub declared : SizeManifest → List ℤ
declared m = optional_size m.config ++ (m.layers ++ m.manifests)

estimate_step :
    (json : ManifestJson) (content : Bytes) (m : SizeManifest)
    → json.sizes content ≡ some m
    → estimate_manifest_artifact_size json content ≡ add_all (int64 (length content)) (declared m)
unfolding estimate_manifest_artifact_size
estimate_step json content m e = rw (e, estimate_manifest_artifact_size)

int64_fits : (n : ℕ) → n < int64_limit → int64 n ≡ pos n
int64_fits n h = ground arith

-- As long as the sum stays below 2^63, the estimate is the length of the content plus the sizes that
-- the manifest declares, those that are not positive left out.
pub estimate-eq-sum :
    (json : ManifestJson) (content : Bytes) (m : SizeManifest)
    → json.sizes content ≡ some m
    → length content + positive_sum (declared m) < int64_limit
    → estimate_manifest_artifact_size json content
      ≡ pos (length content + positive_sum (declared m))
estimate-eq-sum json content m e h =
    estimate_step json content m e
    ∙ ap (λ (z : ℤ). add_all z (declared m)) (int64_fits (length content) (omega arith))
    ∙ add_all_fits (length content) (declared m) h

add64-int64 : (t n : ℕ) → add64 (int64 t) (pos n) ≡ int64 (t + n)
unfolding add64
add64-int64 t n = ground arith

add_positive-int64 : (t : ℕ) (size : ℤ) → add_positive (int64 t) size ≡ int64 (t + pos_part size)
unfolding add_positive
add_positive-int64 t (pos n) = ground (arith, add64-int64 t n)
add_positive-int64 t (negsuc n) = ground arith

add_all-int64 : (t : ℕ) (sizes : List ℤ) → add_all (int64 t) sizes ≡ int64 (t + positive_sum sizes)
add_all-int64 t [] = unfold add_all in ap (λ (n : ℕ). int64 n) (omega arith)
add_all-int64 t (size ∷ sizes) =
    add_all_step (int64 t) size sizes
    ∙ ap (λ (z : ℤ). add_all z sizes) (add_positive-int64 t size)
    ∙ add_all-int64 (t + pos_part size) sizes
    ∙ ap (λ (n : ℕ). int64 n) (omega arith)

int64_negative : (n : ℕ) → (ltb_ℤ (int64 n) (pos 0) ≡ true) ↔ (int64_limit ≤ n % 2 ^ 64)
int64_negative n = (λ h. ground arith, λ h. ground arith)

-- Whatever sizes a manifest declares, the estimate is the int64 that is congruent, modulo 2^64, to the
-- length of the content plus the declared sizes that are positive; so it is negative exactly when the
-- remainder of that sum by 2^64 is 2^63 or more.
pub estimate_wraps :
    (json : ManifestJson) (content : Bytes) (m : SizeManifest)
    → json.sizes content ≡ some m
    → (estimate_manifest_artifact_size json content
        ≡ int64 (length content + positive_sum (declared m)))
      × ((ltb_ℤ (estimate_manifest_artifact_size json content) (pos 0) ≡ true)
          ↔ (int64_limit ≤ (length content + positive_sum (declared m)) % 2 ^ 64))
estimate_wraps json content m e =
    let sum : estimate_manifest_artifact_size json content
        ≡ int64 (length content + positive_sum (declared m)) =
      estimate_step json content m e ∙ add_all-int64 (length content) (declared m) in
    (sum, rw sum (int64_negative (length content + positive_sum (declared m))))
