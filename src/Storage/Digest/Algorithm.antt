-- ===== src/Storage/Digest/Algorithm.antt =====
-- internal/storage/filesystem.go, manifestDigestAlgorithm: the algorithm that the digests of a manifest
-- agree on.
use simplecontainerregistry.Base.{
  Bytes, beq, beq→ne, List, [], ◌∷◌, ◌≡◌, ◌≢◌, is_nil, if◌then◌else◌, ok, err, Error, Result-cases,
  ◌↔◌, inl, inr, In, arith, refl, not, ap, ◌∙◌, sym,
}
use simplecontainerregistry.Storage.Digest.{
  sha256, sha512, Descriptor, parse_digest, algorithm_loop,
}
use simplecontainerregistry.Storage.Digest.Valid.{parse_digest-IsDigest, known_algorithm}

-- The descriptor's digest is valid, and under this algorithm.
abbrev pub Uses : Bytes → Descriptor → Type 0
Uses algorithm d = (encoded : Bytes) × (parse_digest d.digest ≡ ok (algorithm, encoded))

-- Some valid digest of the list is under sha512, and none under sha256.
abbrev pub AgreesOn512 : List Descriptor → Type 0
AgreesOn512 ds =
    ((d : Descriptor) × In d ds × Uses sha512 d) × ((d : Descriptor) → In d ds → ¬ Uses sha256 d)

module _ (d : Descriptor) (ds : List Descriptor) (alg : Bytes) where
  loop_skip :
      (e : Error)
      → parse_digest d.digest ≡ err e
      → algorithm_loop alg (d ∷ ds) ≡ algorithm_loop alg ds
  unfolding algorithm_loop
  loop_skip e h = rw (h, algorithm_loop)

  loop_take :
      (c x : Bytes)
      → parse_digest d.digest ≡ ok (c, x)
      → algorithm_loop alg (d ∷ ds) ≡ (
          if is_nil alg
          then algorithm_loop c ds
          else if not (beq alg c)
          then sha256
          else algorithm_loop alg ds)
  unfolding algorithm_loop
  loop_take c x h = rw (h, algorithm_loop)

pub sha_differ : sha512 ≢ sha256
unfolding beq
sha_differ = beq→ne sha512 sha256 refl

loop_256 : (ds : List Descriptor) → algorithm_loop sha256 ds ≡ sha256
loop_256 [] = unfold algorithm_loop in refl
loop_256 (d ∷ ds) = elim (Result-cases (parse_digest d.digest)) [
  | inl ((c, x), h) ↦ ground (arith, loop_take d ds sha256 c x h, loop_256 ds)
  | inr (e, h) ↦ loop_skip d ds sha256 e h ∙ loop_256 ds
]

module _ (d : Descriptor) (ds : List Descriptor) where
  extend :
      ¬ Uses sha256 d
      → algorithm_loop sha512 (d ∷ ds) ≡ algorithm_loop sha512 ds
      → ((algorithm_loop sha512 ds ≡ sha512) ↔ ((d' : Descriptor) → In d' ds → ¬ Uses sha256 d'))
      → (algorithm_loop sha512 (d ∷ ds) ≡ sha512)
        ↔ ((d' : Descriptor) → In d' (d ∷ ds) → ¬ Uses sha256 d')
  extend no256 step ih = (
    λ h d' m. elim m [ inl q ↦ λ u. no256 (rw (← q) at u) | inr n ↦ ih.0 (sym step ∙ h) d' n ],
    λ h. step ∙ ih.1 (λ d' n. h d' (inr n)),
  )

loop_512 :
    (ds : List Descriptor)
    → (algorithm_loop sha512 ds ≡ sha512) ↔ ((d : Descriptor) → In d ds → ¬ Uses sha256 d)
unfolding beq
loop_512 [] = (λ h d m. elim m [ ], λ h. unfold algorithm_loop in refl)
loop_512 (d ∷ ds) = elim (Result-cases (parse_digest d.digest)) [
  | inl ((c, x), h) ↦ elim (known_algorithm ((parse_digest-IsDigest d.digest c x).0 h)) [
    | inl k ↦
        let two : algorithm_loop sha512 (d ∷ ds) ≡ sha256 =
          loop_take d ds sha512 c x h ∙ (rw k refl) in
        (
          λ h'. absurd (sha_differ (sym h' ∙ two)),
          λ f. absurd (f d (inl refl) (x, h ∙ ap (λ (t : Bytes). ok (t, x)) k)),
        )
    | inr k ↦
        extend d ds (λ u. sha_differ (cc (u.1, h, k))) (loop_take d ds sha512 c x h ∙ (rw k refl))
          (loop_512 ds)
  ]
  | inr (e, h) ↦ extend d ds (λ u. cc (u.1, h)) (loop_skip d ds sha512 e h) (loop_512 ds)
]

module _ (d : Descriptor) (ds : List Descriptor) where
  extend_start :
      ¬ Uses sha256 d
      → ¬ Uses sha512 d
      → algorithm_loop [] (d ∷ ds) ≡ algorithm_loop [] ds
      → (algorithm_loop [] ds ≡ sha512) ↔ AgreesOn512 ds
      → (algorithm_loop [] (d ∷ ds) ≡ sha512) ↔ AgreesOn512 (d ∷ ds)
  extend_start no256 no512 step ih = (
    λ h.
        let ((d', m, u), f) = ih.0 (sym step ∙ h) in
        ((d', inr m, u), λ x m'. elim m' [ inl q ↦ λ v. no256 (rw (← q) at v) | inr n ↦ f x n ]),
    λ g. step ∙ ih.1 (narrow g),
  )
    where
      narrow : AgreesOn512 (d ∷ ds) → AgreesOn512 ds
      narrow ((d', inl q, u), f) = absurd (no512 (rw (← q) at u))
      narrow ((d', inr m, u), f) = ((d', m, u), λ x n. f x (inr n))

-- Started with no algorithm, the loop ends with sha512 exactly when the valid digests agree on it.
pub algorithm_loop-AgreesOn512 :
    (ds : List Descriptor) → (algorithm_loop [] ds ≡ sha512) ↔ AgreesOn512 ds
unfolding beq
algorithm_loop-AgreesOn512 [] =
    (λ h. absurd (sha_differ (sym h ∙ (unfold algorithm_loop in refl))), λ g. absurd (g.0.1))
algorithm_loop-AgreesOn512 (d ∷ ds) = elim (Result-cases (parse_digest d.digest)) [
  | inl ((c, x), h) ↦ elim (known_algorithm ((parse_digest-IsDigest d.digest c x).0 h)) [
    | inl k ↦
        let two : algorithm_loop [] (d ∷ ds) ≡ sha256 =
          loop_take d ds [] c x h ∙ ap (λ (t : Bytes). algorithm_loop t ds) k ∙ loop_256 ds in
        (
          λ h'. absurd (sha_differ (sym h' ∙ two)),
          λ g. absurd (g.1 d (inl refl) (x, h ∙ ap (λ (t : Bytes). ok (t, x)) k)),
        )
    | inr k ↦
        let two : algorithm_loop [] (d ∷ ds) ≡ algorithm_loop sha512 ds =
          loop_take d ds [] c x h ∙ ap (λ (t : Bytes). algorithm_loop t ds) k in
        let found : Uses sha512 d = (x, h ∙ ap (λ (t : Bytes). ok (t, x)) k) in
        (
          λ h'. (
            (d, inl refl, found),
            λ x' m'. elim m' [
              | inl q ↦ λ v. sha_differ (cc (v.1, h, k, q))
              | inr n ↦ (loop_512 ds).0 (sym two ∙ h') x' n
            ],
          ),
          λ g. two ∙ (loop_512 ds).1 (λ x' n. g.1 x' (inr n)),
        )
  ]
  | inr (e, h) ↦
      extend_start d ds (λ u. cc (u.1, h)) (λ u. cc (u.1, h)) (loop_skip d ds [] e h)
        (algorithm_loop-AgreesOn512 ds)
]
