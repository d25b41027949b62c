-- ===== src/Base/Text.antt =====
-- Go's package strings, on bytes. Case folding and white space are those of ASCII.
use Prim.Native.Nat.{ℕ, ◌+◌}
use mathlib.Core.Bool.{Bool, ◌&&◌, ◌||◌}
use mathlib.Core.Option.{Option, none, some}
use mathlib.Core.List.{List, [], ◌∷◌, ◌++◌, reverse, map}
use simplecontainerregistry.Base.Tests.{◌==◌, leb, if◌then◌else◌, is_some}
use simplecontainerregistry.Base.Lists.{Bytes}

-- The text behind a prefix.
unfoldable pub strip_prefix : Bytes → Bytes → Option Bytes
strip_prefix [] s = some s
strip_prefix (p ∷ ps) [] = none
strip_prefix (p ∷ ps) (c ∷ s) = if p == c then strip_prefix ps s else none

-- strings.HasPrefix(s, p).
unfoldable pub has_prefix : Bytes → Bytes → Bool
has_prefix s p = is_some (strip_prefix p s)

-- strings.HasSuffix(s, p).
unfoldable pub has_suffix : Bytes → Bytes → Bool
has_suffix s p = is_some (strip_prefix (reverse p) (reverse s))

-- strings.TrimPrefix(s, p).
unfoldable pub trim_prefix : Bytes → Bytes → Bytes
trim_prefix s p = elim (strip_prefix p s) [ none ↦ s | some r ↦ r ]

-- strings.TrimSuffix(s, p).
unfoldable pub trim_suffix : Bytes → Bytes → Bytes
trim_suffix s p = elim (strip_prefix (reverse p) (reverse s)) [ none ↦ s | some r ↦ reverse r ]

-- One byte more before the separator.
abbrev pub widen : ℕ → Option (Bytes × Bytes) → Option (Bytes × Bytes)
widen c none = none
widen c (some (a, b)) = some (c ∷ a, b)

-- strings.Cut(s, sep): the parts around the first `sep`.
unfoldable pub cut : Bytes → Bytes → Option (Bytes × Bytes)
cut [] sep = elim (strip_prefix sep []) [ none ↦ none | some r ↦ some ([], r) ]
cut (c ∷ s) sep =
    let later = widen c (cut s sep) in
    elim (strip_prefix sep (c ∷ s)) [ none ↦ later | some r ↦ some ([], r) ]

-- strings.Contains(s, sub).
unfoldable pub contains : Bytes → Bytes → Bool
contains s sub = is_some (cut s sub)

-- One byte more in the first part.
abbrev pub push : ℕ → List Bytes → List Bytes
push c [] = (c ∷ []) ∷ []
push c (p ∷ ps) = (c ∷ p) ∷ ps

-- strings.Split(s, sep) for a separator of one byte: one part at least.
unfoldable pub split : Bytes → ℕ → List Bytes
split [] sep = [] ∷ []
split (c ∷ s) sep = let parts = split s sep in if c == sep then [] ∷ parts else push c parts

unfoldable pub join : List Bytes → ℕ → Bytes
join [] sep = []
join (p ∷ []) sep = p
join (p ∷ q ∷ ps) sep = p ++ sep ∷ join (q ∷ ps) sep

unfoldable pub drop_while : (ℕ → Bool) → Bytes → Bytes
drop_while p [] = []
drop_while p (c ∷ s) = let rest = drop_while p s in if p c then rest else c ∷ s

-- strings.TrimRight and strings.Trim with the bytes of a test.
unfoldable pub trim_right : (ℕ → Bool) → Bytes → Bytes
trim_right p s = reverse (drop_while p (reverse s))

unfoldable pub trim : (ℕ → Bool) → Bytes → Bytes
trim p s = trim_right p (drop_while p s)

abbrev pub is_slash : ℕ → Bool
is_slash c = c == b'/'

abbrev pub is_space : ℕ → Bool
is_space c = c == 32 || (leb 9 c && leb c 13)

-- strings.TrimSpace.
unfoldable pub trim_space : Bytes → Bytes
trim_space s = trim is_space s

abbrev pub lower : ℕ → ℕ
lower c = if leb b'A' c && leb c b'Z' then c + 32 else c

-- strings.ToLower.
unfoldable pub to_lower : Bytes → Bytes
to_lower s = map lower s
