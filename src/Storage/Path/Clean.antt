-- ===== src/Storage/Path/Clean.antt =====
-- internal/storage/filesystem.go: the paths that the store computes stay below its root.
use simplecontainerregistry.Base.{
  Bytes, beq, beq_iff, true, false, List, [], ◌∷◌, ◌++◌, contains, split, trim, is_slash, is_nil,
  all, any, reverse, ok, ◌≡◌, refl, arith, All, All-append, ap, sym, ◌∙◌, inl, inr, Bool-cases,
}
use mathlib.Core.List.{append_assoc, append-nil, reverse-append}
use simplecontainerregistry.Base.Laws.{Lacks, contains-Lacks, Lacks-split, contains-append}
use simplecontainerregistry.Storage.Digest.Valid.{IsHexDigit}
use simplecontainerregistry.Storage.Path.{
  FilePath, dot, dot_dot, slash, bad_part, safe_repository_path, sanitize_reference,
  is_reference_byte, clean_step, clean_loop, segments_of, safe_join,
}

-- Segments that filepath.Clean keeps.
abbrev pub IsClean : List Bytes → Type 0
IsClean = All (λ s. bad_part s ≡ false)

pub clean_step-good :
    (done : FilePath) (s : Bytes) → bad_part s ≡ false → clean_step done s ≡ s ∷ done
unfolding clean_step bad_part
clean_step-good [] s h = ground arith
clean_step-good (t ∷ done) s h = ground arith

pub clean_loop_step :
    (done : FilePath) (s : Bytes) (ss : List Bytes)
    → clean_loop done (s ∷ ss) ≡ clean_loop (clean_step done s) ss
unfolding clean_loop
clean_loop_step done s ss = refl

clean_loop-IsClean :
    (done : FilePath) (ss : List Bytes) → IsClean ss → clean_loop done ss ≡ reverse done ++ ss
clean_loop-IsClean done [] h = unfold clean_loop in sym (append-nil (reverse done))
clean_loop-IsClean done (s ∷ ss) (h, hs) =
    clean_loop_step done s ss
    ∙ ap (λ (d : FilePath). clean_loop d ss) (clean_step-good done s h)
    ∙ clean_loop-IsClean (s ∷ done) ss hs
    ∙ (rw (reverse-append (s ∷ []) done, append_assoc) refl)

-- A join of segments that are clean is what it looks like.
pub safe_join-IsClean :
    (root : FilePath) (parts : List Bytes)
    → IsClean root
    → IsClean (segments_of parts)
    → safe_join root parts ≡ root ++ segments_of parts
unfolding safe_join
safe_join-IsClean root parts hr hp =
    clean_loop-IsClean [] (root ++ segments_of parts) (All-append _ root (segments_of parts) hr hp)

-- A text that is one clean segment.
abbrev pub IsSegment : Bytes → Type 0
IsSegment s = (split s b'/' ≡ s ∷ []) × (bad_part s ≡ false)

any-IsClean : (ss : List Bytes) → any bad_part ss ≡ false → IsClean ss
unfolding any
any-IsClean [] h = tt
any-IsClean (s ∷ ss) h = (ground arith, any-IsClean ss (ground arith))

-- What safeRepositoryPath lets through: the text without slashes at its ends, not empty, without
-- "..", and made of segments that filepath.Clean keeps.
pub record IsRepository (raw repository : Bytes) : Type 0 where
  pub trimmed : repository ≡ trim is_slash raw
  pub no_dot_dot : contains repository dot_dot ≡ false
  pub not_nil : is_nil repository ≡ false
  pub clean : IsClean (split repository b'/')

pub safe_repository_path-IsRepository :
    (raw repository : Bytes)
    → safe_repository_path raw ≡ ok repository
    → IsRepository raw repository
unfolding safe_repository_path
safe_repository_path-IsRepository raw repository h = record {
  trimmed = ground arith;
  no_dot_dot = ground arith;
  not_nil = ground arith;
  clean = any-IsClean (split repository b'/') (ground arith);
}

-- What sanitizeReference lets through.
pub record IsReference (raw reference : Bytes) : Type 0 where
  pub same : reference ≡ raw
  pub not_nil : is_nil reference ≡ false
  pub no_slash : contains reference slash ≡ false
  pub no_dot_dot : contains reference dot_dot ≡ false
  pub bytes : all is_reference_byte reference ≡ true

pub sanitize_reference-IsReference :
    (raw reference : Bytes) → sanitize_reference raw ≡ ok reference → IsReference raw reference
unfolding sanitize_reference
sanitize_reference-IsReference raw reference h = record {
  same = ground arith;
  not_nil = ground arith;
  no_slash = ground arith;
  no_dot_dot = ground arith;
  bytes = ground arith;
}

pub dot_dot_held : (s : Bytes) → contains s dot_dot ≡ false → beq s dot_dot ≡ false
dot_dot_held s h = elim (Bool-cases (beq s dot_dot)) [
  | inl e ↦ cc (
    h,
    ap (λ (t : Bytes). contains t dot_dot) ((beq_iff s dot_dot).0 e),
    contains-append [] dot_dot [],
  )
  | inr e ↦ e
]

-- A text without slashes and without "..", that is neither empty nor ".", is one segment.
pub plain-IsSegment :
    (s : Bytes)
    → is_nil s ≡ false
    → contains s slash ≡ false
    → contains s dot_dot ≡ false
    → beq s dot ≡ false
    → IsSegment s
unfolding bad_part
plain-IsSegment s hn hs hd h1 =
    (Lacks-split b'/' s (contains-Lacks s b'/' hs), ground (arith, dot_dot_held s hd))

hex-Lacks : (s : Bytes) → All IsHexDigit s → Lacks b'/' s
hex-Lacks [] h = tt
hex-Lacks (c ∷ s) (h, hs) = (ground arith, hex-Lacks s hs)

pub hex-IsSegment : (s : Bytes) → is_nil s ≡ false → All IsHexDigit s → IsSegment s
hex-IsSegment [] hn h = cc hn
hex-IsSegment (c ∷ s) hn (h, hs) =
    (Lacks-split b'/' (c ∷ s) (hex-Lacks (c ∷ s) (h, hs)), unfold bad_part beq in ground arith)
