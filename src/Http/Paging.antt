-- ===== src/Http/Paging.antt =====
-- internal/httpserver/server.go: the lists of tags and of repositories, in pages; and the tags that a
-- push names. A reply is its status, and on success the page with the `last` of the Link header.
pub mod Walk
pub mod Named
use simplecontainerregistry.Base.{
  ℕ, zero, suc, ◌-◌, Bytes, beq, codes, elem, Bool, true, false, ◌&&◌, ◌||◌, not, List, [], ◌∷◌,
  Option, none, some, ltb, leb, is_nil, keep, take, length, contains, if◌then◌else◌, Result, ok,
  err, failure, map,
}
use simplecontainerregistry.Base.Int.{ℤ, pos, negsuc}
use simplecontainerregistry.Base.Number.{parse_int}
use simplecontainerregistry.Base.Order.{lex_leb}
use simplecontainerregistry.Http.Route.{method_get}
use simplecontainerregistry.Domain.{Repository}

abbrev pub non_negative : Option ℤ → Result ℕ
non_negative none = err (failure (codes "invalid non-negative integer"))
non_negative (some (pos n)) = ok n
non_negative (some (negsuc n)) = err (failure (codes "invalid non-negative integer"))

unfoldable pub parse_non_negative_int : Bytes → Result ℕ
parse_non_negative_int raw = if is_nil raw then ok 0 else non_negative (parse_int raw)

-- A value that a page after `last` may hold.
unfoldable pub is_past : Bytes → Bytes → Bool
is_past last value = not (not (is_nil last) && lex_leb value last)

unfoldable pub page_strings : List Bytes → Bytes → ℕ → List Bytes
page_strings values last limit =
    let paged = keep (is_past last) values in
    if ltb 0 limit && ltb limit (length paged) then take (suc limit) paged else paged

-- values[n], which the callers keep in range.
abbrev pub at_index : ℕ → List Bytes → Bytes
at_index n [] = []
at_index zero (x ∷ xs) = x
at_index (suc n) (x ∷ xs) = at_index n xs

pub record Page : Type 0 where
  pub names : List Bytes
  pub next_last : Option Bytes

unfoldable pub cut_page : ℕ → List Bytes → Page
cut_page limit names =
    if ltb 0 limit && ltb limit (length names)
    then record { names = take limit names; next_last = some (at_index (limit - 1) names) }
    else record { names = names; next_last = none }

pub data PageReply : Type 0 where
  refused : ℕ → PageReply
  page : Page → PageReply

abbrev pub page_of : Result ℕ → (ℕ → Page) → PageReply
page_of (err e) f = refused 400
page_of (ok limit) f = page (f limit)

-- handleTags; `listed` is what ListTags returned, `n` and `last` are the query's.
unfoldable pub handle_tags : Bytes → Result (List Bytes) → Bytes → Bytes → PageReply
unfolding cut_page page_strings
handle_tags method (err e) n last = if not (beq method method_get) then refused 405 else refused 400
handle_tags method (ok tags) n last =
    if not (beq method method_get)
    then refused 405
    else page_of (parse_non_negative_int n) (λ limit. cut_page limit (page_strings tags last limit))

abbrev pub repository_names : List Repository → List Bytes
repository_names repositories = map (λ r. r.name) repositories

abbrev pub catalog_page : Result (List Repository) → Bytes → ℕ → PageReply
catalog_page (err e) last limit = refused 500
catalog_page (ok repositories) last limit =
    page (cut_page limit (keep (is_past last) (repository_names repositories)))

abbrev pub catalog_reply : Result ℕ → Result (List Repository) → Bytes → PageReply
catalog_reply (err e) listed last = refused 400
catalog_reply (ok limit) listed last = catalog_page listed last limit

-- handleCatalog; `listed` is what ListRepositories returned.
unfoldable pub handle_catalog : Bytes → Result (List Repository) → Bytes → Bytes → PageReply
unfolding cut_page is_past
handle_catalog method listed n last =
    if not (beq method method_get)
    then refused 405
    else catalog_reply (if is_nil n then ok 0 else non_negative (parse_int n)) listed last

-- The loop of manifestTags over the query's tags.
unfoldable pub tags_loop : List Bytes → List Bytes → List Bytes
tags_loop seen [] = []
tags_loop seen (tag ∷ tags) =
    let skipped = is_nil tag || elem tag seen in
    let rest = tags_loop (if skipped then seen else tag ∷ seen) tags in
    if skipped then rest else tag ∷ rest

unfoldable pub manifest_tags : Bytes → List Bytes → List Bytes
unfolding tags_loop
manifest_tags reference query_tags =
    if not (contains reference (codes ":")) then reference ∷ [] else tags_loop [] query_tags
