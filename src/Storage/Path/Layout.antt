-- ===== src/Storage/Path/Layout.antt =====
-- internal/storage/filesystem.go: the exact paths of blobs, manifests and tags, and that no computed
-- path leaves the storage root.
use mathlib.Core.List.{append_assoc, append-nil, reverse-append}
use simplecontainerregistry.Base.{
  ℕ, zero, suc, Bytes, codes, beq, Bool, true, false, ◌||◌, not, List, [], ◌∷◌, ◌++◌, contains,
  split, is_nil, keep, reverse, if◌then◌else◌, ok, take, ◌>>=◌, >>=-eq-ok, ◌≡◌, refl, arith, All,
  All-append, ap, sym, ◌∙◌, inl, inr, ◌⊎◌, Bool-cases,
}
use simplecontainerregistry.Base.Laws.{Lacks-split, contains-Lacks}
use simplecontainerregistry.Storage.Digest.{sha256, sha512, parse_digest}
use simplecontainerregistry.Storage.Digest.Valid.{
  IsHexDigit, parse_digest-IsDigest, known_algorithm,
}
use simplecontainerregistry.Storage.Path.{
  FilePath, dot, dot_dot, slash, bad_part, safe_repository_path, sanitize_reference, clean_step,
  clean_loop, segments_of, safe_join, blob_path, repository_blob_path, manifest_path,
  manifest_digest_path, tag_path, upload_path,
}
use simplecontainerregistry.Storage.Path.Clean.{
  IsClean, IsSegment, clean_loop_step, safe_repository_path-IsRepository,
  sanitize_reference-IsReference, hex-IsSegment, dot_dot_held,
}

-- A segment that adds something to a path.
abbrev useful : Bytes → Bool
useful s = not (is_nil s || beq s dot)

-- No segment goes up.
abbrev NoUp : List Bytes → Type 0
NoUp = All (λ s. beq s dot_dot ≡ false)

step-useful :
    (done : FilePath) (s : Bytes)
    → beq s dot_dot ≡ false
    → clean_step done s ≡ (if useful s then s ∷ done else done)
unfolding clean_step
step-useful [] s h = ground arith
step-useful (t ∷ done) s h = ground arith

keep-useful :
    (s : Bytes) (ss : List Bytes) → useful s ≡ true → keep useful (s ∷ ss) ≡ s ∷ keep useful ss
unfolding keep
keep-useful s ss e = rw e

drop_useless :
    (s : Bytes) (ss : List Bytes) → useful s ≡ false → keep useful (s ∷ ss) ≡ keep useful ss
unfolding keep
drop_useless s ss e = rw e

loop-NoUp :
    (done : FilePath) (ss : List Bytes)
    → NoUp ss
    → clean_loop done ss ≡ reverse done ++ keep useful ss
loop-NoUp done [] h = unfold clean_loop keep in sym (append-nil (reverse done))
loop-NoUp done (s ∷ ss) (h, hs) = elim (Bool-cases (useful s)) [
  | inl e ↦
      clean_loop_step done s ss
      ∙ ap (λ (d : FilePath). clean_loop d ss) (step-useful done s h ∙ (rw e refl))
      ∙ loop-NoUp (s ∷ done) ss hs
      ∙ (rw (reverse-append (s ∷ []) done, append_assoc, keep-useful s ss e) refl)
  | inr e ↦
      clean_loop_step done s ss
      ∙ ap (λ (d : FilePath). clean_loop d ss) (step-useful done s h ∙ (rw e refl))
      ∙ loop-NoUp done ss hs
      ∙ (rw (drop_useless s ss e) refl)
]

-- The path goes on below the root directory, or is it.
abbrev pub IsBelow : FilePath → FilePath → Type 0
IsBelow root p = (rest : FilePath) × (p ≡ root ++ rest)

-- The paths that the store computes.
pub data StorePath (root : FilePath) : FilePath → Type 0 where
  blob : {p : FilePath} (digest : Bytes) → blob_path root digest ≡ ok p → StorePath root p
  repository_blob :
      {p : FilePath} (repository digest : Bytes)
      → repository_blob_path root repository digest ≡ ok p
      → StorePath root p
  manifest :
      {p : FilePath} (repository reference : Bytes)
      → manifest_path root repository reference ≡ ok p
      → StorePath root p
  manifest_digest :
      {p : FilePath} (raw repository digest : Bytes)
      → safe_repository_path raw ≡ ok repository
      → manifest_digest_path root repository digest ≡ ok p
      → StorePath root p
  tag :
      {p : FilePath} (raw repository raw_tag name : Bytes)
      → safe_repository_path raw ≡ ok repository
      → sanitize_reference raw_tag ≡ ok name
      → tag_path root repository name ≡ p
      → StorePath root p
  upload :
      {p : FilePath} (repository owner_id upload_id : Bytes)
      → upload_path root repository owner_id upload_id ≡ ok p
      → StorePath root p

-- A part of a join that goes up nowhere.
abbrev GoesDown : Bytes → Type 0
GoesDown part = NoUp (split part b'/')

segments-NoUp : (parts : List Bytes) → All GoesDown parts → NoUp (segments_of parts)
unfolding segments_of
segments-NoUp [] h = tt
segments-NoUp (part ∷ parts) (h, hs) =
    All-append _ (split part b'/') (segments_of parts) h (segments-NoUp parts hs)

clean-NoUp : (ss : List Bytes) → IsClean ss → NoUp ss
unfolding bad_part
clean-NoUp [] h = tt
clean-NoUp (s ∷ ss) (h, hs) = (ground arith, clean-NoUp ss hs)

good-useful : (s : Bytes) → bad_part s ≡ false → useful s ≡ true
unfolding bad_part
good-useful s h = ground arith

keep-IsClean :
    (root ss : List Bytes) → IsClean root → keep useful (root ++ ss) ≡ root ++ keep useful ss
keep-IsClean [] ss h = refl
keep-IsClean (s ∷ root) ss (h, hs) =
    keep-useful s (root ++ ss) (good-useful s h)
    ∙ ap (λ (t : FilePath). s ∷ t) (keep-IsClean root ss hs)

join-IsBelow :
    (root : FilePath) (parts : List Bytes)
    → IsClean root
    → All GoesDown parts
    → IsBelow root (safe_join root parts)
unfolding safe_join
join-IsBelow root parts hr hp = (
  keep useful (segments_of parts),
  loop-NoUp [] (root ++ segments_of parts)
        (All-append _ root (segments_of parts) (clean-NoUp root hr) (segments-NoUp parts hp))
      ∙ keep-IsClean root (segments_of parts) hr,
)

ok-IsBelow : (root r p : FilePath) → ok r ≡ ok p → IsBelow root r → IsBelow root p
ok-IsBelow root r p e (rest, q) = (rest, sym (ok_inj e) ∙ q)
  where
    ok_inj : ok r ≡ ok p → r ≡ p
    ok_inj e = cc e

words :
    GoesDown (codes "blobs")
    × GoesDown (codes "repositories")
    × GoesDown (codes "manifests")
    × GoesDown (codes "tags")
    × GoesDown (codes "uploads")
unfolding split beq
words = ((refl, tt), (refl, tt), (refl, tt), (refl, tt), (refl, tt))

segment-GoesDown : (s : Bytes) → IsSegment s → GoesDown s
unfolding bad_part
segment-GoesDown s (e, g) = rw e (ground arith, tt)

plain-GoesDown : (s : Bytes) → contains s slash ≡ false → contains s dot_dot ≡ false → GoesDown s
plain-GoesDown s hs hd = rw (Lacks-split b'/' s (contains-Lacks s b'/' hs)) (dot_dot_held s hd, tt)

hex-GoesDown : (s : Bytes) → All IsHexDigit s → GoesDown s
hex-GoesDown [] h = unfold split beq in (refl, tt)
hex-GoesDown (c ∷ s) h = segment-GoesDown (c ∷ s) (hex-IsSegment (c ∷ s) refl h)

take-hex : (n : ℕ) (s : Bytes) → All IsHexDigit s → All IsHexDigit (take n s)
take-hex zero s h = tt
take-hex (suc n) [] h = tt
take-hex (suc n) (c ∷ s) (h, hs) = (h, take-hex n s hs)

algorithm-GoesDown : (a : Bytes) → (a ≡ sha256) ⊎ (a ≡ sha512) → GoesDown a
unfolding split beq
algorithm-GoesDown a (inl e) = rw e (refl, tt)
algorithm-GoesDown a (inr e) = rw e (refl, tt)

repository-GoesDown :
    (raw repository : Bytes) → safe_repository_path raw ≡ ok repository → GoesDown repository
repository-GoesDown raw repository h =
    clean-NoUp (split repository b'/') (safe_repository_path-IsRepository raw repository h).clean

digest-GoesDown :
    (digest a e : Bytes) → parse_digest digest ≡ ok (a, e) → GoesDown a × All IsHexDigit e
digest-GoesDown digest a e h =
    let d = (parse_digest-IsDigest digest a e).0 h in
    (algorithm-GoesDown a (known_algorithm d), d.digits)

upload_facts :
    (root : FilePath) (repository owner_id upload_id : Bytes) (p : FilePath)
    → upload_path root repository owner_id upload_id ≡ ok p
    → (contains upload_id slash ≡ false)
      × (contains upload_id dot_dot ≡ false)
      × (contains owner_id slash ≡ false)
      × (contains owner_id dot_dot ≡ false)
      × ((safe_repository_path repository >>= λ repo_path.
            ok (safe_join root (codes "uploads" ∷ repo_path ∷ owner_id ∷ upload_id ∷ [])))
          ≡ ok p)
unfolding upload_path
upload_facts root repository owner_id upload_id p h = ground arith

-- Every path that the store computes from a repository name, a reference, a digest, an owner and an
-- upload id, whatever their bytes, stays below the storage root, if the root has no empty, "." or
-- ".." segment.
pub StorePath-IsBelow : (root p : FilePath) → IsClean root → StorePath root p → IsBelow root p
unfolding blob_path repository_blob_path manifest_path manifest_digest_path tag_path
StorePath-IsBelow root p clean (blob digest h) =
    let ((a, e), hd, q) = >>=-eq-ok (parse_digest digest) _ h in
    let (ga, he) = digest-GoesDown digest a e hd in
    let (wb, wr, wm, wt, wu) = words in
    ok-IsBelow root _ p q (
      join-IsBelow root _ clean
        (wb, (ga, (hex-GoesDown (take 2 e) (take-hex 2 e he), (hex-GoesDown e he, tt)))))
StorePath-IsBelow root p clean (repository_blob repository digest h) =
    let (r, hr, h') = >>=-eq-ok (safe_repository_path repository) _ h in
    let ((a, e), hd, q) = >>=-eq-ok (parse_digest digest) _ h' in
    let (ga, he) = digest-GoesDown digest a e hd in
    let (wb, wr, wm, wt, wu) = words in
    ok-IsBelow root _ p q (
      join-IsBelow root _ clean
        (wr, (repository-GoesDown repository r hr, (wb, (ga, (hex-GoesDown e he, tt))))))
StorePath-IsBelow root p clean (manifest repository reference h) =
    let (r, hr, h') = >>=-eq-ok (safe_repository_path repository) _ h in
    let (n, hn, q) = >>=-eq-ok (sanitize_reference reference) _ h' in
    let n' = sanitize_reference-IsReference reference n hn in
    let (wb, wr, wm, wt, wu) = words in
    ok-IsBelow root _ p q (
      join-IsBelow root _ clean (
        wr,
        (
          repository-GoesDown repository r hr,
          (wm, (plain-GoesDown n n'.no_slash n'.no_dot_dot, tt)),
        ),
      ))
StorePath-IsBelow root p clean (manifest_digest raw repository digest hr h) =
    let ((a, e), hd, q) = >>=-eq-ok (parse_digest digest) _ h in
    let (ga, he) = digest-GoesDown digest a e hd in
    let (wb, wr, wm, wt, wu) = words in
    ok-IsBelow root _ p q (
      join-IsBelow root _ clean
        (wr, (repository-GoesDown raw repository hr, (wm, (ga, (hex-GoesDown e he, tt))))))
StorePath-IsBelow root p clean (tag raw repository raw_tag name hr hn q) =
    let n' = sanitize_reference-IsReference raw_tag name hn in
    let (wb, wr, wm, wt, wu) = words in
    ok-IsBelow root _ p (ap (λ (t : FilePath). ok t) q) (
      join-IsBelow root _ clean (
        wr,
        (
          repository-GoesDown raw repository hr,
          (wt, (plain-GoesDown name n'.no_slash n'.no_dot_dot, tt)),
        ),
      ))
StorePath-IsBelow root p clean (upload repository owner_id upload_id h) =
    let (us, ud, os, od, h') = upload_facts root repository owner_id upload_id p h in
    let (r, hr, q) = >>=-eq-ok (safe_repository_path repository) _ h' in
    let (wb, wr, wm, wt, wu) = words in
    ok-IsBelow root _ p q (
      join-IsBelow root _ clean (
        wu,
        (
          repository-GoesDown repository r hr,
          (plain-GoesDown owner_id os od, (plain-GoesDown upload_id us ud, tt)),
        ),
      ))
