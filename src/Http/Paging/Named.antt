-- ===== src/Http/Paging/Named.antt =====
-- internal/httpserver/server.go: the list of tags that manifestTags computes for a push.
use simplecontainerregistry.Base.{
  Bytes, codes, beq, beq_iff, elem, if◌then◌else◌, true, false, ◌&&◌, ◌||◌, not, List, [], ◌∷◌,
  is_nil, contains, ◌≡◌, refl, inl, arith, Bool-cases, inr,
}
use simplecontainerregistry.Base.Sets.{NoRepeat}
use simplecontainerregistry.Base.Laws.{In-elem}
use simplecontainerregistry.Http.Paging.{tags_loop, manifest_tags}

elem-tags_loop :
    (a : Bytes) (seen ts : List Bytes)
    → elem a (tags_loop seen ts) ≡ (elem a ts && (not (is_nil a) && not (elem a seen)))
unfolding elem tags_loop
elem-tags_loop a seen [] = ground arith
elem-tags_loop a seen (t ∷ ts) =
    ground (arith, elem-tags_loop a seen ts, elem-tags_loop a (t ∷ seen) ts, beq_iff t a)

first_seen : (t : Bytes) (seen : List Bytes) → elem t (t ∷ seen) ≡ true
first_seen t seen = In-elem t (t ∷ seen) (inl refl)

unseen :
    (t : Bytes) (seen ts : List Bytes) → elem t seen ≡ true → elem t (tags_loop seen ts) ≡ false
unseen t seen ts h = ground (arith, elem-tags_loop t seen ts)

NoRepeat-tags_loop : (seen ts : List Bytes) → NoRepeat (tags_loop seen ts)
unfolding tags_loop
NoRepeat-tags_loop seen [] = tt
NoRepeat-tags_loop seen (t ∷ ts) = elim (Bool-cases (is_nil t || elem t seen)) [
  | inl e ↦ rw e (NoRepeat-tags_loop seen ts)
  | inr e ↦ rw e (unseen t (t ∷ seen) ts (first_seen t seen), NoRepeat-tags_loop (t ∷ seen) ts)
]

nothing_seen : (a : Bytes) → elem a [] ≡ false
unfolding elem
nothing_seen a = refl

only_reference : (reference : Bytes) → NoRepeat (reference ∷ [])
only_reference reference = (nothing_seen reference, tt)

-- The list that manifestTags computes names no tag twice. With a reference that has a colon, a tag is
-- listed exactly when it is one of the query's and not empty; with another reference, that is the only
-- one listed.
pub manifest_tags-NoRepeat :
    (reference : Bytes) (query_tags : List Bytes) (a : Bytes)
    → NoRepeat (manifest_tags reference query_tags)
      × (elem a (manifest_tags reference query_tags) ≡ (
          if contains reference (codes ":")
          then elem a query_tags && not (is_nil a)
          else beq reference a))
unfolding manifest_tags elem
manifest_tags-NoRepeat reference query_tags a = elim (Bool-cases (contains reference (codes ":"))) [
  | inl colon ↦ rw colon (
    NoRepeat-tags_loop [] query_tags,
    ground (arith, elem-tags_loop a [] query_tags, nothing_seen a),
  )
  | inr tag ↦ rw tag (only_reference reference, ground arith)
]
