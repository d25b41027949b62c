-- ===== src/Storage/Disk/Moves.antt =====
-- Directories are made, and a file is moved: what is at the destination.
use simplecontainerregistry.Base.{
  ℕ, ◌+◌, ◌<◌, Bytes, false, List, [], ◌∷◌, ◌++◌, Option, none, some, length, length-append,
  if◌then◌else◌, Result, ok, Error, ◌≡◌, ◌≢◌, refl, sym, ap, ◌∙◌, inl, inr, is_nil, Option-cases,
  Bool-cases, arith,
}
use simplecontainerregistry.Storage.Path.{FilePath}
use simplecontainerregistry.Storage.Disk.{
  Node, folder, file, Disk, Action, node_at, parent, put_node, drop_node, is_folder, touch, missing,
  blocked, find, same_path, make_folder, mkdir_below, mkdir_all, rename, on_error, is_exist,
  read_file, content_of, write_over, write_file, create_new, take_out, remove_node, remove,
  children,
}
use simplecontainerregistry.Storage.Disk.View.{
  contents, content_at, bind-ok, node_at-put_node, ne→same_path, same_path→eq, content_at-touch,
  content_at-put_same, given-ne,
}

put_other :
    (p q : FilePath) (node : Node) (d : Disk)
    → p ≢ []
    → p ≢ q
    → is_folder (node_at q (put_node p node d)) ≡ is_folder (node_at q d)
put_other p q node d h k = rw (node_at-put_node p q node d h, ne→same_path p q k) refl

is_folder-touch :
    (p q : FilePath) (d : Disk) → is_folder (node_at q (touch p d)) ≡ is_folder (node_at q d)
unfolding touch put_node find same_path
is_folder-touch [] [] d = refl
is_folder-touch [] (t ∷ q) d = refl
is_folder-touch (s ∷ p) q d = elim (Bool-cases (is_folder (node_at (s ∷ p) d))) [
  | inr e ↦ rw e refl
  | inl e ↦ rw e (elim (Bool-cases (same_path (s ∷ p) q)) [
    | inl same ↦
        rw (node_at-put_node (s ∷ p) q (folder d.now) d (λ h. cc h), same)
          (sym (
            ap (λ (r : FilePath). is_folder (node_at r d)) (sym (same_path→eq (s ∷ p) q same)) ∙ e))
    | inr other ↦ rw (node_at-put_node (s ∷ p) q (folder d.now) d (λ h. cc h), other) refl
  ])
]

is_folder-make_folder :
    (p q : FilePath) (o : Option Node) (d : Disk)
    → p ≢ []
    → p ≢ q
    → is_folder (node_at q (make_folder p o d).1) ≡ is_folder (node_at q d)
is_folder-make_folder p q none d h k =
    put_other p q (folder d.now) (touch (parent p) d) h k ∙ is_folder-touch (parent p) q d
is_folder-make_folder p q (some (folder time)) d h k = refl
is_folder-make_folder p q (some (file c time)) d h k = refl

-- Making a directory makes nothing deeper than it.
is_folder-mkdir_below :
    (above p q : FilePath) (d d' : Disk)
    → length above + length p < length q
    → mkdir_below above p d ≡ (ok tt, d')
    → is_folder (node_at q d') ≡ is_folder (node_at q d)
unfolding mkdir_below
is_folder-mkdir_below above [] q d d' deep h =
    ap (λ (r : Result (Unit {0}) × Disk). is_folder (node_at q r.1)) (sym h)
is_folder-mkdir_below above (s ∷ p) q d d' deep h =
    let here = above ++ s ∷ [] in
    let (u, d1, e, k) =
      bind-ok (λ d. make_folder here (node_at here d) d) (λ _. mkdir_below here p) d h in
    let len = length-append above (s ∷ []) in
    let given : here ≢ [] = λ z. absurd (omega (arith, len, ap (λ (r : FilePath). length r) z)) in
    let apart : here ≢ q =
      λ z. absurd (omega (arith, len, deep, ap (λ (r : FilePath). length r) z)) in
    is_folder-mkdir_below here p q d1 d' (omega (arith, len, deep)) k
    ∙ ap (λ (r : Result (Unit {0}) × Disk). is_folder (node_at q r.1)) (sym e)
    ∙ is_folder-make_folder here q (node_at here d) d given apart

length-parent : (p : FilePath) → p ≢ [] → length (parent p) < length p
unfolding parent
length-parent [] h = absurd (h refl)
length-parent (s ∷ []) h = omega arith
length-parent (s ∷ t ∷ p) h = omega (arith, length-parent (t ∷ p) (λ z. cc z))

pub mkdir_all-parent :
    (q : FilePath) (d d' : Disk)
    → is_folder (node_at q d) ≡ false
    → mkdir_all (parent q) d ≡ (ok tt, d')
    → is_folder (node_at q d') ≡ false
unfolding mkdir_all
mkdir_all-parent q d d' free h =
    let given : q ≢ [] = λ z. cc (free, ap (λ (r : FilePath). is_folder (node_at r d)) z) in
    is_folder-mkdir_below [] (parent q) q d d' (omega (arith, length-parent q given)) h ∙ free

pub content_node :
    (o : Option Node) (content : Bytes)
    → contents o ≡ some content
    → (time : ℕ) × (o ≡ some (file content time))
content_node none content h = absurd (cc h)
content_node (some (folder time)) content h = absurd (cc h)
content_node (some (file c time)) content h = (time, cc h)

missing-exist : (p : FilePath) (d : Disk) → is_exist (missing p d) ≡ false
unfolding missing
missing-exist p d = elim (Bool-cases (blocked [] p d)) [ inl e ↦ rw e refl | inr e ↦ rw e refl ]

-- A file that was renamed to a path that is no directory is there.
pub rename-content :
    (p q : FilePath) (content : Bytes) (k : Action (Unit {0})) (d d' : Disk)
    → content_at p d ≡ some content
    → is_folder (node_at q d) ≡ false
    → on_error is_exist k (rename p q) d ≡ (ok tt, d')
    → content_at q d' ≡ some content
unfolding rename
rename-content p q content k d d' there free h =
    let (time, node) = content_node (node_at p d) content there in
    let given : q ≢ [] = λ z. cc (free, ap (λ (r : FilePath). is_folder (node_at r d)) z) in
    elim (Bool-cases (is_folder (node_at (parent q) d))) [
      | inr e ↦ absurd (cc (rw (node, free, e, missing-exist q d) at h))
      | inl e ↦
          let moved = touch (parent p) (drop_node p d) in
          rw (sym (ap (λ (r : Result (Unit {0}) × Disk). r.1) (rw (node, free, e) at h))) (
            content_at-touch (parent q) q (put_node q (file content time) moved)
            ∙ content_at-put_same q content time moved given)
    ]

content_of-ok :
    (e : Error) (o : Option Node) (content : Bytes)
    → content_of e o ≡ ok content
    → contents o ≡ some content
content_of-ok e none content h = absurd (cc h)
content_of-ok e (some (folder time)) content h = absurd (cc h)
content_of-ok e (some (file c time)) content h = cc h

-- A file that could be read had that content.
pub read_file-ok :
    (p : FilePath) (content : Bytes) (d d' : Disk)
    → read_file p d ≡ (ok content, d')
    → (content_at p d ≡ some content) × (d ≡ d')
unfolding read_file
read_file-ok p content d d' h = (
  content_of-ok (missing p d) (node_at p d) content (ap (λ (r : Result Bytes × Disk). r.0) h),
  ap (λ (r : Result Bytes × Disk). r.1) h,
)

-- Writing a file makes no directory elsewhere.
is_folder-write_over :
    (p q : FilePath) (content : Bytes) (o : Option Node) (d d' : Disk)
    → node_at p d ≡ o
    → p ≢ q
    → write_over p content o d ≡ (ok tt, d')
    → is_folder (node_at q d') ≡ is_folder (node_at q d)
is_folder-write_over p q content none d d' e k h =
    elim (Bool-cases (is_folder (node_at (parent p) d))) [
      | inr f ↦ absurd (cc (rw f at h))
      | inl f ↦ rw (sym (ap (λ (r : Result (Unit {0}) × Disk). r.1) (rw f at h))) (
          put_other p q (file content d.now) (touch (parent p) d) (given-ne p d none e refl) k
          ∙ is_folder-touch (parent p) q d)
    ]
is_folder-write_over p q content (some (folder time)) d d' e k h = absurd (cc h)
is_folder-write_over p q content (some (file c time)) d d' e k h =
    rw (sym (ap (λ (r : Result (Unit {0}) × Disk). r.1) h))
      (put_other p q (file content d.now) d (given-ne p d _ e refl) k)

pub is_folder-write_file :
    (p q : FilePath) (content : Bytes) (d d' : Disk)
    → p ≢ q
    → write_file p content d ≡ (ok tt, d')
    → is_folder (node_at q d') ≡ is_folder (node_at q d)
unfolding write_file
is_folder-write_file p q content d d' k h =
    is_folder-write_over p q content (node_at p d) d d' refl k h

pub is_folder-create_new :
    (p q : FilePath) (d d' : Disk)
    → p ≢ q
    → create_new p d ≡ (ok tt, d')
    → is_folder (node_at q d') ≡ is_folder (node_at q d)
unfolding create_new
is_folder-create_new p q d d' k h = elim (Option-cases (node_at p d)) [
  | inr (o, e) ↦ absurd (cc (rw e at h))
  | inl e ↦ is_folder-write_over p q [] none d d' e k (rw e at h)
]

find-take_out :
    (p q : FilePath) (nodes : List (FilePath × Node))
    → p ≢ q
    → find q (take_out p nodes) ≡ find q nodes
unfolding find take_out
find-take_out p q [] k = refl
find-take_out p q ((r, node) ∷ nodes) k = elim (Bool-cases (same_path r p)) [
  | inr e ↦
      rw e (
        ap (λ (o : Option Node). if same_path r q then some node else o)
          (find-take_out p q nodes k))
  | inl e ↦
      let apart : same_path r q ≡ false =
        ne→same_path r q (λ z. k (sym (same_path→eq r p e) ∙ z)) in
      rw (e, apart) (find-take_out p q nodes k)
]

content_at-drop_node :
    (p q : FilePath) (d : Disk) → p ≢ q → content_at q (drop_node p d) ≡ content_at q d
unfolding drop_node
content_at-drop_node p [] d k = refl
content_at-drop_node p (s ∷ q) d k =
    ap (λ (o : Option Node). contents o) (find-take_out p (s ∷ q) d.nodes k)

remove_node-content :
    (p q : FilePath) (o : Option Node) (d : Disk)
    → p ≢ q
    → content_at q (remove_node p o d).1 ≡ content_at q d
remove_node-content p q none d k = refl
remove_node-content p q (some (file c time)) d k =
    content_at-touch (parent p) q (drop_node p d) ∙ content_at-drop_node p q d k
remove_node-content p q (some (folder time)) d k = elim (Bool-cases (is_nil (children p d))) [
  | inl e ↦ rw e (content_at-touch (parent p) q (drop_node p d) ∙ content_at-drop_node p q d k)
  | inr e ↦ rw e refl
]

-- Removing a path leaves the content of the others.
pub remove-content :
    (p q : FilePath) (d : Disk) → p ≢ q → content_at q (remove p d).1 ≡ content_at q d
unfolding remove
remove-content p q d k = remove_node-content p q (node_at p d) d k
