-- ===== src/Storage/Disk/View.antt =====
-- What the operations on the disk do to the contents of the files.
use simplecontainerregistry.Base.{
  ℕ, Bytes, beq→eq, beq_refl, true, false, [], ◌∷◌, ◌++◌, Option, none, some, if◌then◌else◌, Result,
  ok, err, Error, ◌≡◌, ◌≢◌, refl, sym, ap, ◌∙◌, inl, inr, Bool-cases, arith,
}
use mathlib.Core.Option.{some-injective}
use simplecontainerregistry.Storage.Path.{FilePath}
use simplecontainerregistry.Storage.Disk.{
  Node, folder, file, Disk, Action, then_do, same_path, find, node_at, parent, put_node, is_folder,
  touch, content_of, missing, read_file, write_over, write_file, make_folder, mkdir_below,
  mkdir_all, lift, ◌>>=◌,
}

abbrev pub contents : Option Node → Option Bytes
contents (some (file content time)) = some content
contents _ = none

-- What a file holds.
abbrev pub content_at : FilePath → Disk → Option Bytes
content_at p d = contents (node_at p d)

pub same_path→eq : (p q : FilePath) → same_path p q ≡ true → p ≡ q
unfolding same_path
same_path→eq [] [] h = refl
same_path→eq (a ∷ p) (b ∷ q) h = ground (arith, beq→eq a b, same_path→eq p q)
same_path→eq [] (b ∷ q) h = cc h
same_path→eq (a ∷ p) [] h = cc h

pub same_path_refl : (p : FilePath) → same_path p p ≡ true
unfolding same_path
same_path_refl [] = refl
same_path_refl (a ∷ p) = ground (arith, beq_refl a, same_path_refl p)

pub ne→same_path : (p q : FilePath) → p ≢ q → same_path p q ≡ false
ne→same_path p q h = elim (Bool-cases (same_path p q)) [
  | inl e ↦ absurd (h (same_path→eq p q e))
  | inr e ↦ e
]

pub node_at-put_node :
    (p q : FilePath) (node : Node) (d : Disk)
    → p ≢ []
    → node_at q (put_node p node d) ≡ (if same_path p q then some node else node_at q d)
unfolding put_node find same_path
node_at-put_node [] q node d h = absurd (h refl)
node_at-put_node (s ∷ p) [] node d h = refl
node_at-put_node (s ∷ p) (t ∷ q) node d h = refl

pub content_at-put_same :
    (p : FilePath) (content : Bytes) (time : ℕ) (d : Disk)
    → p ≢ []
    → content_at p (put_node p (file content time) d) ≡ some content
content_at-put_same p content time d h =
    rw (node_at-put_node p p (file content time) d h, same_path_refl p) refl

pub content_at-put_other :
    (p q : FilePath) (node : Node) (d : Disk)
    → p ≢ []
    → p ≢ q
    → content_at q (put_node p node d) ≡ content_at q d
content_at-put_other p q node d h k = rw (node_at-put_node p q node d h, ne→same_path p q k) refl

-- A directory in place of a node that is no file changes no content.
content_at-put_folder :
    (p q : FilePath) (time : ℕ) (d : Disk)
    → p ≢ []
    → content_at p d ≡ none
    → content_at q (put_node p (folder time) d) ≡ content_at q d
content_at-put_folder p q time d h k = elim (Bool-cases (same_path p q)) [
  | inr e ↦ rw (node_at-put_node p q (folder time) d h, e) refl
  | inl e ↦ rw (node_at-put_node p q (folder time) d h, e) (sym (rw (same_path→eq p q e) at k))
]

folder_content : (o : Option Node) → is_folder o ≡ true → contents o ≡ none
folder_content none h = refl
folder_content (some (folder time)) h = refl
folder_content (some (file content time)) h = cc h

pub content_at-touch : (p q : FilePath) (d : Disk) → content_at q (touch p d) ≡ content_at q d
unfolding touch put_node find same_path
content_at-touch [] [] d = refl
content_at-touch [] (t ∷ q) d = refl
content_at-touch (s ∷ p) q d = elim (Bool-cases (is_folder (node_at (s ∷ p) d))) [
  | inr e ↦ rw e refl
  | inl e ↦
      rw e
        (content_at-put_folder (s ∷ p) q d.now d (λ h. cc h) (folder_content (node_at (s ∷ p) d) e))
]

then_do-ok {ℓ κ} :
    {A : Type ℓ} {B : Type κ} (r : Result A × Disk) (f : A → Action B) {b : B} {d' : Disk}
    → then_do r f ≡ (ok b, d')
    → (a : A) × (d1 : Disk) × (r ≡ (ok a, d1)) × (f a d1 ≡ (ok b, d'))
then_do-ok (ok a, d1) f h = (a, d1, refl, h)
then_do-ok (err e, d1) f h = absurd (cc h)

-- A bind of actions that succeeds.
pub bind-ok {ℓ κ} :
    {A : Type ℓ} {B : Type κ} (m : Action A) (f : A → Action B) (d : Disk) {b : B} {d' : Disk}
    → (m >>= f) d ≡ (ok b, d')
    → (a : A) × (d1 : Disk) × (m d ≡ (ok a, d1)) × (f a d1 ≡ (ok b, d'))
bind-ok m f d h = then_do-ok (m d) f h

pub lift-ok {ℓ κ} :
    {A : Type ℓ} {B : Type κ} (r : Result A) (f : A → Action B) (d : Disk) {b : B} {d' : Disk}
    → (lift r >>= f) d ≡ (ok b, d')
    → (a : A) × (r ≡ ok a) × (f a d ≡ (ok b, d'))
lift-ok (ok a) f d h = (a, refl, h)
lift-ok (err e) f d h = absurd (cc h)

content_of-eq :
    (e : Error) (o : Option Node) (content : Bytes)
    → contents o ≡ some content
    → content_of e o ≡ ok content
content_of-eq e none content h = absurd (cc h)
content_of-eq e (some (folder time)) content h = absurd (cc h)
content_of-eq e (some (file c time)) content h =
    ap (λ (b : Bytes). ok b) (some-injective c content h)

pub read_file-content :
    (p : FilePath) (content : Bytes) (d : Disk)
    → content_at p d ≡ some content
    → read_file p d ≡ (ok content, d)
unfolding read_file
read_file-content p content d h =
    ap (λ (r : Result Bytes). (r, d)) (content_of-eq (missing p d) (node_at p d) content h)

pub given-ne :
    (p : FilePath) (d : Disk) (o : Option Node) → node_at p d ≡ o → is_folder o ≡ false → p ≢ []
given-ne p d o e h z =
    cc
      (h, ap (λ (x : Option Node). is_folder x) e, ap (λ (r : FilePath). is_folder (node_at r d)) z)

-- What a successful write leaves.
IsWritten : FilePath → Bytes → Disk → Disk → Type 0
IsWritten p content d d' =
    (content_at p d' ≡ some content) × ((q : FilePath) → p ≢ q → content_at q d' ≡ content_at q d)

put-IsWritten :
    (p : FilePath) (content : Bytes) (time : ℕ) (d d1 : Disk)
    → p ≢ []
    → ((q : FilePath) → content_at q d1 ≡ content_at q d)
    → IsWritten p content d (put_node p (file content time) d1)
unfolding IsWritten
put-IsWritten p content time d d1 h same = (
  content_at-put_same p content time d1 h,
  λ q k. content_at-put_other p q (file content time) d1 h k ∙ same q,
)

write_over-IsWritten :
    (p : FilePath) (content : Bytes) (o : Option Node) (d d' : Disk)
    → node_at p d ≡ o
    → write_over p content o d ≡ (ok tt, d')
    → IsWritten p content d d'
write_over-IsWritten p content none d d' e h =
    elim (Bool-cases (is_folder (node_at (parent p) d))) [
      | inr f ↦ absurd (cc (rw f at h))
      | inl f ↦ rw (sym (ap (λ (r : Result (Unit {0}) × Disk). r.1) (rw f at h))) (
          put-IsWritten p content d.now d (touch (parent p) d) (given-ne p d none e refl)
            (λ q. content_at-touch (parent p) q d))
    ]
write_over-IsWritten p content (some (folder time)) d d' e h = absurd (cc h)
write_over-IsWritten p content (some (file c time)) d d' e h =
    rw (sym (ap (λ (r : Result (Unit {0}) × Disk). r.1) h))
      (put-IsWritten p content d.now d d (given-ne p d _ e refl) (λ q. refl))

pub write_file-content :
    (p : FilePath) (content : Bytes) (d d' : Disk)
    → write_file p content d ≡ (ok tt, d')
    → (content_at p d' ≡ some content) × ((q : FilePath) → p ≢ q → content_at q d' ≡ content_at q d)
unfolding write_file IsWritten
write_file-content p content d d' h = write_over-IsWritten p content (node_at p d) d d' refl h

make_folder-content :
    (p q : FilePath) (o : Option Node) (d : Disk)
    → node_at p d ≡ o
    → content_at q (make_folder p o d).1 ≡ content_at q d
make_folder-content p q none d e =
    content_at-put_folder p q d.now (touch (parent p) d) (given-ne p d none e refl)
      (content_at-touch (parent p) p d ∙ ap (λ (o : Option Node). contents o) e)
    ∙ content_at-touch (parent p) q d
make_folder-content p q (some (folder time)) d e = refl
make_folder-content p q (some (file c time)) d e = refl

mkdir_below-content :
    (above p q : FilePath) (d d' : Disk)
    → mkdir_below above p d ≡ (ok tt, d')
    → content_at q d' ≡ content_at q d
unfolding mkdir_below
mkdir_below-content above [] q d d' h =
    ap (λ (r : Result (Unit {0}) × Disk). content_at q r.1) (sym h)
mkdir_below-content above (s ∷ p) q d d' h =
    let here = above ++ s ∷ [] in
    let (u, d1, e, k) =
      bind-ok (λ d. make_folder here (node_at here d) d) (λ _. mkdir_below here p) d h in
    mkdir_below-content here p q d1 d' k
    ∙ ap (λ (r : Result (Unit {0}) × Disk). content_at q r.1) (sym e)
    ∙ make_folder-content here q (node_at here d) d refl

-- Making directories changes no content.
pub mkdir_all-content :
    (p q : FilePath) (d d' : Disk) → mkdir_all p d ≡ (ok tt, d') → content_at q d' ≡ content_at q d
unfolding mkdir_all
mkdir_all-content p q d d' h = mkdir_below-content [] p q d d' h

-- What a result is, if it is one.
abbrev pub result_of {ℓ} : {A : Type ℓ} → A → Result A × Disk → A
result_of a (ok b, d) = b
result_of a (err e, d) = a

abbrev pub done {ℓ} : {A : Type ℓ} → A → Disk → Result A × Disk
done a d = (ok a, d)

pub same_result {ℓ} :
    {A : Type ℓ} (a b : A) (d d' : Disk) → done a d ≡ done b d' → (a ≡ b) × (d ≡ d')
same_result {A = A} a b d d' h =
    (ap (λ (r : Result A × Disk). result_of a r) h, ap (λ (r : Result A × Disk). r.1) h)
