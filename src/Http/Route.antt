-- ===== src/Http/Route.antt =====
-- internal/httpserver/server.go: the registry route that a request's method and path stand for.
pub mod Actions
use simplecontainerregistry.Base.{
  Bytes, codes, beq, Bool, true, false, ◌&&◌, ◌||◌, not, List, [], ◌∷◌, ◌++◌, Option, none, some,
  cut, trim_prefix, has_prefix, is_nil, if◌then◌else◌,
}
use simplecontainerregistry.Domain.{Action, action_pull, action_push, action_delete, action_admin}

abbrev pub method_get : Bytes
method_get = codes "GET"

abbrev pub method_head : Bytes
method_head = codes "HEAD"

abbrev pub method_post : Bytes
method_post = codes "POST"

abbrev pub method_put : Bytes
method_put = codes "PUT"

abbrev pub method_patch : Bytes
method_patch = codes "PATCH"

abbrev pub method_delete : Bytes
method_delete = codes "DELETE"

-- registryRouteKind.
pub data RouteKind : Type 0 where
  blob upload_start upload manifest tags referrers catalog : RouteKind

pub record RegistryRoute : Type 0 where
  pub repository : Bytes
  pub kind : RouteKind
  pub reference : Bytes
  pub upload_id : Bytes
  pub action : Action

-- cutMarker: the marker may not stand at the start.
unfoldable pub cut_marker : Bytes → Bytes → Option (Bytes × Bytes)
cut_marker value marker = elim (cut value marker) [
  | none ↦ none
  | some (before, after) ↦ if is_nil before then none else some (before, after)
]

unfoldable pub action_for_manifest_method : Bytes → Action
action_for_manifest_method method =
    if beq method method_get || beq method method_head
    then action_pull
    else if beq method method_put
    then action_push
    else if beq method method_delete
    then action_delete
    else []

abbrev pub route : Bytes → RouteKind → Bytes → Bytes → Action → Option RegistryRoute
route repository kind reference upload_id action = some (record {
  repository = repository;
  kind = kind;
  reference = reference;
  upload_id = upload_id;
  action = action;
})

-- The rules of parseRegistryRoute from the last to the first; each falls through to the one before.
unfoldable pub route_upload : Bytes → Bytes → Option RegistryRoute
route_upload method rest = elim (cut_marker rest (codes "/blobs/uploads/")) [
  | none ↦ none
  | some (repository, upload_id) ↦
      if is_nil upload_id
      then (if not (beq method method_post)
          then none
          else route repository upload_start [] [] action_push)
      else if not (beq method method_patch)
          && (not (beq method method_put)
              && (not (beq method method_get) && not (beq method method_delete)))
      then none
      else route repository upload [] upload_id action_push
]

unfoldable pub route_blob : Bytes → Bytes → Option RegistryRoute
route_blob method rest = elim (cut_marker rest (codes "/blobs/")) [
  | none ↦ route_upload method rest
  | some (repository, digest) ↦
      if not (is_nil digest) && not (has_prefix digest (codes "uploads/"))
      then (if not (beq method method_get)
            && (not (beq method method_head) && not (beq method method_delete))
          then none
          else route repository blob digest []
              (if beq method method_delete then action_delete else action_pull))
      else route_upload method rest
]

unfoldable pub route_manifest : Bytes → Bytes → Option RegistryRoute
unfolding action_for_manifest_method
route_manifest method rest = elim (cut_marker rest (codes "/manifests/")) [
  | none ↦ route_blob method rest
  | some (repository, reference) ↦
      if is_nil (action_for_manifest_method method) || is_nil reference
      then none
      else route repository manifest reference [] (action_for_manifest_method method)
]

unfoldable pub route_referrers : Bytes → Bytes → Option RegistryRoute
route_referrers method rest = elim (cut_marker rest (codes "/referrers/")) [
  | none ↦ route_manifest method rest
  | some (repository, digest) ↦
      if not (is_nil repository) && not (is_nil digest)
      then (if not (beq method method_get)
          then none
          else route repository referrers digest [] action_pull)
      else route_manifest method rest
]

unfoldable pub route_tags : Bytes → Bytes → Option RegistryRoute
route_tags method rest = elim (cut rest (codes "/tags/list")) [
  | none ↦ route_referrers method rest
  | some (repository, after) ↦
      if is_nil repository
      then route_referrers method rest
      else route repository tags [] [] action_pull
]

unfoldable pub parse_registry_route : Bytes → Bytes → Option RegistryRoute
parse_registry_route method path =
    let rest = trim_prefix path (codes "/v2/") in
    if is_nil rest
    then none
    else if beq rest (codes "_catalog")
    then route [] catalog [] [] action_admin
    else route_tags method rest
