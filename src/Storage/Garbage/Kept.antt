-- ===== src/Storage/Garbage/Kept.antt =====
-- internal/storage/filesystem.go: what garbage collection leaves alone.
use simplecontainerregistry.Base.{
  ℕ, ◌+◌, Bytes, beq, beq→eq, elem, true, false, ◌&&◌, List, [], ◌∷◌, ◌++◌, Option, none, some,
  keep, if◌then◌else◌, Result, ok, err, ◌≡◌, refl, sym, ap, ◌∙◌, inl, inr, Bool-cases, Option-cases,
  and_parts, ltb,
}
use simplecontainerregistry.Storage.Path.{FilePath}
use simplecontainerregistry.Storage.Disk.{
  Node, folder, file, Disk, Action, ◌>>=◌, then_do, same_path, find, take_out_all, is_within,
  node_at, is_folder, parent, blocked, remove_all, stat, read_dir, entries_of,
}
use simplecontainerregistry.Storage.Disk.View.{contents, content_at, content_at-touch, same_path→eq}
use simplecontainerregistry.Storage.Blobs.{time_of}
use simplecontainerregistry.Storage.Garbage.{collect_digests, collect_algorithms}

-- A step that leaves the content of a path as it is.
abbrev pub Keeps {ℓ} : {A : Type ℓ} → FilePath → Action A → Type 0
Keeps q m = (d : Disk) → content_at q (m d).1 ≡ content_at q d

then_do-Keeps {ℓ κ} :
    {A : Type ℓ} {B : Type κ} (q : FilePath) (r : Result A × Disk) (f : A → Action B)
    → ((a : A) → Keeps q (f a))
    → content_at q (then_do r f).1 ≡ content_at q r.1
then_do-Keeps q (ok a, d) f k = k a d
then_do-Keeps q (err e, d) f k = refl

Keeps-bind {ℓ κ} :
    {A : Type ℓ} {B : Type κ} (q : FilePath) (m : Action A) (f : A → Action B)
    → Keeps q m
    → ((a : A) → Keeps q (f a))
    → Keeps q (m >>= f)
Keeps-bind q m f h k d = then_do-Keeps q (m d) f k ∙ h d

not_within-same :
    (p r q : FilePath) → is_within p r ≡ true → is_within p q ≡ false → same_path r q ≡ false
not_within-same p r q h k = elim (Bool-cases (same_path r q)) [
  | inl e ↦ absurd (cc (h, k, ap (λ (x : FilePath). is_within p x) (same_path→eq r q e)))
  | inr e ↦ e
]

find-take_out_all :
    (p q : FilePath) (nodes : List (FilePath × Node))
    → is_within p q ≡ false
    → find q (take_out_all p nodes) ≡ find q nodes
unfolding find take_out_all keep
find-take_out_all p q [] h = refl
find-take_out_all p q ((r, node) ∷ nodes) h = elim (Bool-cases (is_within p r)) [
  | inr e ↦ rw e (
      ap (λ (o : Option Node). if same_path r q then some node else o)
        (find-take_out_all p q nodes h))
  | inl e ↦ rw (e, not_within-same p r q e h) (find-take_out_all p q nodes h)
]

content_at-take_out_all :
    (p q : FilePath) (d : Disk)
    → is_within p q ≡ false
    → content_at q (record d { nodes = take_out_all p d.nodes }) ≡ content_at q d
content_at-take_out_all p [] d h = refl
content_at-take_out_all p (s ∷ q) d h =
    ap (λ (o : Option Node). contents o) (find-take_out_all p (s ∷ q) d.nodes h)

-- Removing a tree leaves what is outside of it.
remove_all-Keeps : (p q : FilePath) → is_within p q ≡ false → Keeps q (remove_all p)
unfolding remove_all
remove_all-Keeps p q h d = elim (Option-cases (node_at p d)) [
  | inr (node, e) ↦ rw e (
      content_at-touch (parent p) q (record d { nodes = take_out_all p d.nodes })
      ∙ content_at-take_out_all p q d h)
  | inl e ↦ elim (Bool-cases (blocked [] p d)) [ inl b ↦ rw (e, b) refl | inr b ↦ rw (e, b) refl ]
]

entries_of-Keeps :
    (p q : FilePath) (o : Option Node) (d : Disk)
    → content_at q (entries_of p o d).1 ≡ content_at q d
entries_of-Keeps p q none d = refl
entries_of-Keeps p q (some (folder time)) d = refl
entries_of-Keeps p q (some (file content time)) d = refl

read_dir-Keeps : (p q : FilePath) → Keeps q (read_dir p)
unfolding read_dir
read_dir-Keeps p q d = entries_of-Keeps p q (node_at p d) d

-- Two directories two levels below one that hold the same path are one.
within-eq :
    (path : FilePath) (a b x y : Bytes) (q : FilePath)
    → is_within (path ++ a ∷ b ∷ []) q ≡ true
    → is_within (path ++ x ∷ y ∷ []) q ≡ true
    → (a ≡ x) × (b ≡ y)
unfolding is_within
within-eq [] a b x y [] h k = absurd (cc h)
within-eq [] a b x y (s ∷ []) h k = let (u, v) = and_parts (beq a s) false h in absurd (cc v)
within-eq [] a b x y (s ∷ t ∷ q) h k =
    let (h1, h') = and_parts (beq a s) (beq b t && true) h in
    let (h2, u) = and_parts (beq b t) true h' in
    let (k1, k') = and_parts (beq x s) (beq y t && true) k in
    let (k2, v) = and_parts (beq y t) true k' in
    (beq→eq a s h1 ∙ sym (beq→eq x s k1), beq→eq b t h2 ∙ sym (beq→eq y t k2))
within-eq (p ∷ path) a b x y [] h k = absurd (cc h)
within-eq (p ∷ path) a b x y (s ∷ q) h k =
    within-eq path a b x y q (and_parts (beq p s) (is_within (path ++ a ∷ b ∷ []) q) h).1
      (and_parts (beq p s) (is_within (path ++ x ∷ y ∷ []) q) k).1

module _ (root : FilePath) (cutoff : ℕ) (referenced : List Bytes) (path : FilePath)
    (algorithm encoded : Bytes) (q : FilePath)
    (named : elem (algorithm ++ b':' ∷ encoded) referenced ≡ true)
    (inside : is_within (path ++ algorithm ∷ encoded ∷ []) q ≡ true) where
  -- A digest that no tag names is elsewhere.
  elsewhere :
      (a e : Bytes)
      → elem (a ++ b':' ∷ e) referenced ≡ false
      → is_within (path ++ a ∷ e ∷ []) q ≡ false
  elsewhere a e free = elim (Bool-cases (is_within (path ++ a ∷ e ∷ []) q)) [
    | inr out ↦ out
    | inl both ↦
        let (sa, se) = within-eq path algorithm encoded a e q inside both in
        absurd (cc (named, free, sa, se))
  ]

  digests-Keeps :
      (a : Bytes) (names : List Bytes) (deleted : ℕ)
      → Keeps q (collect_digests root cutoff referenced path a names deleted)
  unfolding collect_digests stat
  digests-Keeps a [] deleted d = refl
  digests-Keeps a (e ∷ names) deleted d =
      let p = path ++ a ∷ e ∷ [] in
      let after : ℕ → Action ℕ = collect_digests root cutoff referenced path a names in
      let next = digests-Keeps a names in
      elim (Bool-cases (is_folder (node_at p d))) [
        | inr other ↦ rw other (next deleted d)
        | inl dir ↦ elim (Bool-cases (elem (a ++ b':' ∷ e) referenced)) [
          | inl tagged ↦ rw (dir, tagged) (next deleted d)
          | inr free ↦
              let gone = remove_all-Keeps p q (elsewhere a e free) in
              rw (dir, free)
                (Keeps-bind q (stat p)
                  (λ info.
                    if ltb cutoff (time_of info)
                    then after deleted
                    else (remove_all p >>= λ _. after (deleted + 1)))
                  (λ d1. refl)
                  (λ info d1. elim (Bool-cases (ltb cutoff (time_of info))) [
                    | inl young ↦ rw young (next deleted d1)
                    | inr old ↦ rw old (
                        Keeps-bind q (remove_all p) (λ _. after (deleted + 1)) gone
                          (λ _. next (deleted + 1)) d1)
                  ])
                  d)
        ]
      ]

  collect_algorithms-Keeps :
      (names : List Bytes) (deleted : ℕ)
      → Keeps q (collect_algorithms root cutoff referenced path names deleted)
  unfolding collect_algorithms read_dir
  collect_algorithms-Keeps [] deleted d = refl
  collect_algorithms-Keeps (a ∷ names) deleted d =
      let p = path ++ a ∷ [] in
      let after : ℕ → Action ℕ = collect_algorithms root cutoff referenced path names in
      let next = collect_algorithms-Keeps names in
      elim (Bool-cases (is_folder (node_at p d))) [
        | inr other ↦ rw other (next deleted d)
        | inl dir ↦ rw dir (
            Keeps-bind q (read_dir p)
              (λ digests. collect_digests root cutoff referenced path a digests deleted >>= after)
              (read_dir-Keeps p q)
              (λ digests.
                Keeps-bind q (collect_digests root cutoff referenced path a digests deleted) after
                  (digests-Keeps a digests deleted) next)
              d)
      ]

-- Collecting in a directory of manifests leaves every file in the directory of a digest that is among
-- the referenced ones.
pub collect_algorithms-content_at :
    (root : FilePath) (cutoff : ℕ) (referenced : List Bytes) (path : FilePath)
    (algorithm encoded : Bytes) (q : FilePath) (names : List Bytes) (deleted : ℕ) (d : Disk)
    → elem (algorithm ++ b':' ∷ encoded) referenced ≡ true
    → is_within (path ++ algorithm ∷ encoded ∷ []) q ≡ true
    → content_at q (collect_algorithms root cutoff referenced path names deleted d).1
      ≡ content_at q d
collect_algorithms-content_at root cutoff referenced path algorithm encoded q names deleted d named
      inside =
    collect_algorithms-Keeps root cutoff referenced path algorithm encoded q named inside names
      deleted d
