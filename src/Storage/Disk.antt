-- ===== src/Storage/Disk.antt =====
-- The file system that internal/storage/filesystem.go calls by package os: a table of paths. "/" is the
-- empty path, and is always a directory. An operation is a step on the disk that may fail; faults of
-- the device (a full disk, permissions) are not modelled. `now` is the time of the step.
pub mod View
pub mod Moves
use simplecontainerregistry.Base.{
  ℕ, Bytes, codes, beq, Bool, true, false, ◌&&◌, ◌||◌, not, List, [], ◌∷◌, ◌++◌, Option, none, some,
  keep, any, map, if◌then◌else◌, is_nil, Result, ok, err, Error, not_exist, exists, failure,
  is_some, length,
}
use simplecontainerregistry.Base.Order.{lex_leb, sort_strings}
use simplecontainerregistry.Storage.Path.{FilePath}

pub data Node : Type 0 where
  folder : ℕ → Node
  file : Bytes → ℕ → Node

pub record Disk : Type 0 where
  pub nodes : List (FilePath × Node)
  pub now : ℕ

-- Code that changes a state and may fail.
abbrev pub Step {ℓ} : Type 0 → Type ℓ → Type ℓ
Step S A = S → Result A × S

abbrev pub Action {ℓ} : Type ℓ → Type ℓ
Action A = Step Disk A

abbrev pub then_do {ℓ κ} :
    {S : Type 0} {A : Type ℓ} {B : Type κ} → Result A × S → (A → Step S B) → Result B × S
then_do (ok a, d) f = f a d
then_do (err e, d) f = (err e, d)

infixl 5 ◌>>=◌ ◌>>◌
abbrev pub ◌>>=◌ {ℓ κ} :
    {S : Type 0} {A : Type ℓ} {B : Type κ} → Step S A → (A → Step S B) → Step S B
(m >>= f) d = then_do (m d) f

abbrev pub ◌>>◌ {ℓ} : {S : Type 0} {B : Type ℓ} → Step S (Unit {0}) → Step S B → Step S B
m >> k = m >>= λ _. k

abbrev pub lift {ℓ} : {S : Type 0} {A : Type ℓ} → Result A → Step S A
lift r d = (r, d)

abbrev pub return {ℓ} : {S : Type 0} {A : Type ℓ} → A → Step S A
return a d = (ok a, d)

abbrev pub fail {ℓ} : {S : Type 0} {A : Type ℓ} → Error → Step S A
fail e d = (err e, d)

abbrev pub is_not_exist : Error → Bool
is_not_exist not_exist = true
is_not_exist _ = false

abbrev pub is_exist : Error → Bool
is_exist exists = true
is_exist _ = false

abbrev pub catch_step {ℓ} :
    {S : Type 0} {A : Type ℓ} → (Error → Bool) → Step S A → Result A × S → Result A × S
catch_step test k (ok a, d) = (ok a, d)
catch_step test k (err e, d) = if test e then k d else (err e, d)

-- What the code does on one kind of error in place of returning it.
abbrev pub on_error {ℓ} :
    {S : Type 0} {A : Type ℓ} → (Error → Bool) → Step S A → Step S A → Step S A
on_error test k m d = catch_step test k (m d)

unfoldable pub same_path : FilePath → FilePath → Bool
same_path [] [] = true
same_path (a ∷ p) (b ∷ q) = beq a b && same_path p q
same_path _ _ = false

unfoldable pub find : FilePath → List (FilePath × Node) → Option Node
find p [] = none
find p ((q, node) ∷ nodes) = let rest = find p nodes in if same_path q p then some node else rest

unfoldable pub take_out : FilePath → List (FilePath × Node) → List (FilePath × Node)
take_out p [] = []
take_out p ((q, node) ∷ nodes) =
    let rest = take_out p nodes in if same_path q p then rest else (q, node) ∷ rest

abbrev pub node_at : FilePath → Disk → Option Node
node_at [] d = some (folder 0)
node_at (s ∷ p) d = find (s ∷ p) d.nodes

-- The path without its last segment, and that segment.
unfoldable pub parent : FilePath → FilePath
parent [] = []
parent (s ∷ []) = []
parent (s ∷ t ∷ p) = s ∷ parent (t ∷ p)

unfoldable pub base_name : FilePath → Bytes
base_name [] = []
base_name (s ∷ []) = s
base_name (s ∷ t ∷ p) = base_name (t ∷ p)

unfoldable pub put_node : FilePath → Node → Disk → Disk
put_node p node d = record d { nodes = (p, node) ∷ d.nodes }

unfoldable pub drop_node : FilePath → Disk → Disk
drop_node p d = record d { nodes = take_out p d.nodes }

abbrev pub is_folder : Option Node → Bool
is_folder (some (folder time)) = true
is_folder _ = false

abbrev pub is_file : Option Node → Bool
is_file (some (file content time)) = true
is_file _ = false

-- The entries of a directory are changed: its modification time is now.
unfoldable pub touch : FilePath → Disk → Disk
touch p d = if is_folder (node_at p d) then put_node p (folder d.now) d else d

-- Whether a directory on the way is a file.
unfoldable pub blocked : FilePath → FilePath → Disk → Bool
blocked above [] d = false
blocked above (s ∷ p) d = is_file (node_at above d) || blocked (above ++ s ∷ []) p d

-- ENOENT, or ENOTDIR.
unfoldable pub missing : FilePath → Disk → Error
unfolding blocked
missing p d = if blocked [] p d then failure (codes "not a directory") else not_exist

abbrev pub or_missing : Error → Option Node → Result Node
or_missing e none = err e
or_missing e (some node) = ok node

-- os.Stat.
unfoldable pub stat : FilePath → Action Node
stat p d = (or_missing (missing p d) (node_at p d), d)

abbrev pub content_of : Error → Option Node → Result Bytes
content_of e none = err e
content_of e (some (folder time)) = err (failure (codes "is a directory"))
content_of e (some (file content time)) = ok content

-- os.ReadFile.
unfoldable pub read_file : FilePath → Action Bytes
read_file p d = (content_of (missing p d) (node_at p d), d)

abbrev pub write_over : FilePath → Bytes → Option Node → Action (Unit {0})
write_over p content (some (folder time)) d = (err (failure (codes "is a directory")), d)
write_over p content (some (file old time)) d = (ok tt, put_node p (file content d.now) d)
write_over p content none d =
    if is_folder (node_at (parent p) d)
    then (ok tt, put_node p (file content d.now) (touch (parent p) d))
    else (err (missing p d), d)

-- os.WriteFile.
unfoldable pub write_file : FilePath → Bytes → Action (Unit {0})
unfolding put_node touch
write_file p content d = write_over p content (node_at p d) d

-- os.OpenFile with O_CREATE|O_EXCL, and Close.
unfoldable pub create_new : FilePath → Action (Unit {0})
unfolding put_node touch
create_new p d = if is_some (node_at p d) then (err exists, d) else write_over p [] none d

abbrev pub make_folder : FilePath → Option Node → Action (Unit {0})
make_folder p (some (folder time)) d = (ok tt, d)
make_folder p (some (file content time)) d = (err (failure (codes "not a directory")), d)
make_folder p none d = (ok tt, put_node p (folder d.now) (touch (parent p) d))

unfoldable pub mkdir_below : FilePath → List Bytes → Action (Unit {0})
unfolding put_node touch
mkdir_below above [] d = (ok tt, d)
mkdir_below above (s ∷ p) d =
    let here = above ++ s ∷ [] in
    then_do (make_folder here (node_at here d) d) (λ _. mkdir_below here p)

-- os.MkdirAll.
unfoldable pub mkdir_all : FilePath → Action (Unit {0})
unfolding mkdir_below
mkdir_all p = mkdir_below [] p

-- Whether a path is at or below another.
unfoldable pub is_within : FilePath → FilePath → Bool
is_within [] q = true
is_within (s ∷ p) [] = false
is_within (s ∷ p) (t ∷ q) = beq s t && is_within p q

-- The entries of a directory, in the order of their names.
unfoldable pub children : FilePath → Disk → List Bytes
unfolding same_path parent base_name
children p d = sort_strings (
    map (λ entry. base_name entry.0)
      (keep (λ entry. same_path (parent entry.0) p && not (is_nil entry.0)) d.nodes))

abbrev pub remove_node : FilePath → Option Node → Action (Unit {0})
remove_node p none d = (err (missing p d), d)
remove_node p (some (file content time)) d = (ok tt, touch (parent p) (drop_node p d))
remove_node p (some (folder time)) d =
    if is_nil (children p d)
    then (ok tt, touch (parent p) (drop_node p d))
    else (err (failure (codes "directory not empty")), d)

-- os.Remove.
unfoldable pub remove : FilePath → Action (Unit {0})
unfolding drop_node touch
remove p d = remove_node p (node_at p d) d

unfoldable pub take_out_all : FilePath → List (FilePath × Node) → List (FilePath × Node)
unfolding is_within
take_out_all p nodes = keep (λ entry. not (is_within p entry.0)) nodes

abbrev pub remove_tree : FilePath → Option Node → Action (Unit {0})
remove_tree p none d =
    if blocked [] p d then (err (failure (codes "not a directory")), d) else (ok tt, d)
remove_tree p (some node) d =
    (ok tt, touch (parent p) (record d { nodes = take_out_all p d.nodes }))

-- os.RemoveAll.
unfoldable pub remove_all : FilePath → Action (Unit {0})
unfolding blocked touch take_out_all
remove_all p d = remove_tree p (node_at p d) d

abbrev pub rename_node : FilePath → FilePath → Option Node → Action (Unit {0})
rename_node p q none d = (err (missing p d), d)
rename_node p q (some node) d =
    if is_folder (node_at q d)
    then (err exists, d)
    else if is_folder (node_at (parent q) d)
    then (ok tt, touch (parent q) (put_node q node (touch (parent p) (drop_node p d))))
    else (err (missing q d), d)

-- os.Rename of a file.
unfoldable pub rename : FilePath → FilePath → Action (Unit {0})
unfolding drop_node touch put_node
rename p q d = rename_node p q (node_at p d) d

abbrev pub entries_of : FilePath → Option Node → Action (List Bytes)
entries_of p none d = (err (missing p d), d)
entries_of p (some (file content time)) d = (err (failure (codes "not a directory")), d)
entries_of p (some (folder time)) d = (ok (children p d), d)

-- os.ReadDir.
unfoldable pub read_dir : FilePath → Action (List Bytes)
unfolding children missing
read_dir p d = entries_of p (node_at p d) d

-- The order of filepath.WalkDir.
unfoldable pub path_leb : FilePath → FilePath → Bool
path_leb [] q = true
path_leb (s ∷ p) [] = false
path_leb (s ∷ p) (t ∷ q) = if beq s t then path_leb p q else lex_leb s t

unfoldable pub insert_path : FilePath → List FilePath → List FilePath
unfolding path_leb
insert_path p [] = p ∷ []
insert_path p (q ∷ qs) =
    let rest = insert_path p qs in
    if same_path p q then q ∷ qs else if path_leb p q then p ∷ q ∷ qs else q ∷ rest

-- The paths that filepath.WalkDir visits.
unfoldable pub walk_paths : FilePath → List (FilePath × Node) → List FilePath
unfolding insert_path is_within
walk_paths root [] = []
walk_paths root ((p, node) ∷ nodes) =
    let rest = walk_paths root nodes in if is_within root p then insert_path p rest else rest
