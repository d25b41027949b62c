-- ===== src/Http/Route/Actions.antt =====
-- internal/httpserver/server.go, parseRegistryRoute: the access that a route asks for.
use simplecontainerregistry.Base.{
  Bytes, codes, beq, beq_iff, true, false, ◌&&◌, ◌||◌, not, some, cut, trim_prefix, has_prefix,
  is_nil, ◌≡◌, refl, arith, ◌⊎◌, inl, inr, Option-cases, Bool-cases,
}
use mathlib.Core.Path.{subst}
use mathlib.Core.Option.{some-injective}
use simplecontainerregistry.Domain.{Action, action_pull, action_push, action_delete, action_admin}
use simplecontainerregistry.Http.Route.{
  RouteKind, RegistryRoute, blob, upload_start, upload, manifest, tags, referrers, catalog,
  method_get, method_head, method_post, method_put, method_patch, method_delete,
  action_for_manifest_method, cut_marker, route_upload, route_blob, route_manifest, route_referrers,
  route_tags, parse_registry_route,
}

-- The action that a route of each kind must ask for, by the method of the request.
abbrev pub Guards : Bytes → RouteKind → Action → Type 0
Guards method blob action =
    ((method ≡ method_delete) × (action ≡ action_delete))
    ⊎ (((method ≡ method_get) ⊎ (method ≡ method_head)) × (action ≡ action_pull))
Guards method upload_start action = (method ≡ method_post) × (action ≡ action_push)
Guards method upload action =
    ((method ≡ method_patch)
      ⊎ ((method ≡ method_put) ⊎ ((method ≡ method_get) ⊎ (method ≡ method_delete))))
    × (action ≡ action_push)
Guards method manifest action =
    ((method ≡ method_delete) × (action ≡ action_delete))
    ⊎ (((method ≡ method_put) × (action ≡ action_push))
        ⊎ (((method ≡ method_get) ⊎ (method ≡ method_head)) × (action ≡ action_pull)))
Guards method tags action = action ≡ action_pull
Guards method referrers action = (method ≡ method_get) × (action ≡ action_pull)
Guards method catalog action = action ≡ action_admin

guarded :
    (method : Bytes) (x r : RegistryRoute)
    → some x ≡ some r
    → Guards method x.kind x.action
    → Guards method r.kind r.action
guarded method x r e g =
    subst (λ (t : RegistryRoute). Guards method t.kind t.action) (some-injective x r e) g

-- A test of a method that passed.
is_method : (method m : Bytes) → beq method m ≡ true → method ≡ m
is_method method m h = (beq_iff method m).0 h

upload_methods :
    (method : Bytes)
    → (not (beq method method_patch)
        && (not (beq method method_put)
            && (not (beq method method_get) && not (beq method method_delete))))
      ≡ false
    → (method ≡ method_patch)
      ⊎ ((method ≡ method_put) ⊎ ((method ≡ method_get) ⊎ (method ≡ method_delete)))
upload_methods method h = elim (Bool-cases (beq method method_patch)) [
  | inl a ↦ inl (is_method method method_patch a)
  | inr a ↦ elim (Bool-cases (beq method method_put)) [
    | inl b ↦ inr (inl (is_method method method_put b))
    | inr b ↦ elim (Bool-cases (beq method method_get)) [
      | inl c ↦ inr (inr (inl (is_method method method_get c)))
      | inr c ↦ inr (inr (inr (is_method method method_delete (ground arith))))
    ]
  ]
]

upload_guard :
    (method rest : Bytes) (r : RegistryRoute)
    → route_upload method rest ≡ some r
    → Guards method r.kind r.action
unfolding route_upload
upload_guard method rest r h = elim (Option-cases (cut_marker rest (codes "/blobs/uploads/"))) [
  | inl e ↦ cc (rw (e, route_upload) at h)
  | inr ((repository, id), e) ↦
      let h' = rw (e, route_upload) at h in
      elim (Bool-cases (is_nil id)) [
        | inl n ↦ elim (Bool-cases (beq method method_post)) [
          | inl p ↦ guarded method _ r (rw (n, p) at h') (is_method method method_post p, refl)
          | inr p ↦ cc (rw (n, p) at h')
        ]
        | inr n ↦
            elim (Bool-cases (
              not (beq method method_patch)
              && (not (beq method method_put)
                  && (not (beq method method_get) && not (beq method method_delete))))) [
                    | inl p ↦ cc (rw (n, p) at h')
                    | inr p ↦ guarded method _ r (rw (n, p) at h') (upload_methods method p, refl)
                  ]
      ]
]

read_method :
    (method : Bytes)
    → (not (beq method method_get) && (not (beq method method_head) && true)) ≡ false
    → (method ≡ method_get) ⊎ (method ≡ method_head)
read_method method h = elim (Bool-cases (beq method method_get)) [
  | inl a ↦ inl (is_method method method_get a)
  | inr a ↦ inr (is_method method method_head (ground arith))
]

manifest_action :
    (method : Bytes)
    → is_nil (action_for_manifest_method method) ≡ false
    → Guards method manifest (action_for_manifest_method method)
unfolding action_for_manifest_method
manifest_action method h = elim (Bool-cases (beq method method_get || beq method method_head)) [
  | inl g ↦ rw g (inr (inr (read_method method (ground arith), refl)))
  | inr g ↦ elim (Bool-cases (beq method method_put)) [
    | inl p ↦ rw (g, p) (inr (inl (is_method method method_put p, refl)))
    | inr p ↦ elim (Bool-cases (beq method method_delete)) [
      | inl d ↦ rw (g, p, d) (inl (is_method method method_delete d, refl))
      | inr d ↦ cc (rw (g, p, d) at h)
    ]
  ]
]

blob_guard :
    (method rest : Bytes) (r : RegistryRoute)
    → route_blob method rest ≡ some r
    → Guards method r.kind r.action
unfolding route_blob
blob_guard method rest r h = elim (Option-cases (cut_marker rest (codes "/blobs/"))) [
  | inl e ↦ upload_guard method rest r (rw (e, route_blob) at h)
  | inr ((repository, digest), e) ↦
      let h' = rw (e, route_blob) at h in
      elim (Bool-cases (not (is_nil digest) && not (has_prefix digest (codes "uploads/")))) [
        | inl n ↦ elim (Bool-cases (beq method method_delete)) [
          | inl d ↦
              elim (Bool-cases
                (not (beq method method_get) && (not (beq method method_head) && not true))) [
                  | inl p ↦ cc (rw (n, d, p) at h')
                  | inr p ↦
                      guarded method _ r (rw (n, d, p) at h')
                        (inl (is_method method method_delete d, refl))
                ]
          | inr d ↦
              elim (Bool-cases
                (not (beq method method_get) && (not (beq method method_head) && not false))) [
                  | inl p ↦ cc (rw (n, d, p) at h')
                  | inr p ↦
                      guarded method _ r (rw (n, d, p) at h') (inr (read_method method p, refl))
                ]
        ]
        | inr n ↦ upload_guard method rest r (rw n at h')
      ]
]

manifest_guard :
    (method rest : Bytes) (r : RegistryRoute)
    → route_manifest method rest ≡ some r
    → Guards method r.kind r.action
unfolding route_manifest
manifest_guard method rest r h = elim (Option-cases (cut_marker rest (codes "/manifests/"))) [
  | inl e ↦ blob_guard method rest r (rw (e, route_manifest) at h)
  | inr ((repository, reference), e) ↦
      let h' = rw (e, route_manifest) at h in
      elim (Bool-cases (is_nil (action_for_manifest_method method) || is_nil reference)) [
        | inl p ↦ cc (rw p at h')
        | inr p ↦ guarded method _ r (rw p at h') (manifest_action method (ground arith))
      ]
]

referrers_guard :
    (method rest : Bytes) (r : RegistryRoute)
    → route_referrers method rest ≡ some r
    → Guards method r.kind r.action
unfolding route_referrers
referrers_guard method rest r h = elim (Option-cases (cut_marker rest (codes "/referrers/"))) [
  | inl e ↦ manifest_guard method rest r (rw (e, route_referrers) at h)
  | inr ((repository, digest), e) ↦
      let h' = rw (e, route_referrers) at h in
      elim (Bool-cases (not (is_nil repository) && not (is_nil digest))) [
        | inl n ↦ elim (Bool-cases (beq method method_get)) [
          | inl g ↦ guarded method _ r (rw (n, g) at h') (is_method method method_get g, refl)
          | inr g ↦ cc (rw (n, g) at h')
        ]
        | inr n ↦ manifest_guard method rest r (rw n at h')
      ]
]

tags_guard :
    (method rest : Bytes) (r : RegistryRoute)
    → route_tags method rest ≡ some r
    → Guards method r.kind r.action
unfolding route_tags
tags_guard method rest r h = elim (Option-cases (cut rest (codes "/tags/list"))) [
  | inl e ↦ referrers_guard method rest r (rw (e, route_tags) at h)
  | inr ((repository, after), e) ↦
      let h' = rw (e, route_tags) at h in
      elim (Bool-cases (is_nil repository)) [
        | inl n ↦ referrers_guard method rest r (rw n at h')
        | inr n ↦ guarded method _ r (rw n at h') refl
      ]
]

-- Whatever the path, a route that deletes a blob or a manifest asks for the right to delete, one that
-- writes a manifest or works on an upload for the right to push, one that reads a blob, a manifest,
-- the tags or the referrers for the right to pull, and the catalog for the right to administer; and a
-- route of each kind but tags and catalog has one of the methods of its kind.
pub parse_registry_route-Guards :
    (method path : Bytes) (r : RegistryRoute)
    → parse_registry_route method path ≡ some r
    → Guards method r.kind r.action
unfolding parse_registry_route
parse_registry_route-Guards method path r h =
    elim (Bool-cases (is_nil (trim_prefix path (codes "/v2/")))) [
      | inl n ↦ cc (rw (n, parse_registry_route) at h)
      | inr n ↦ elim (Bool-cases (beq (trim_prefix path (codes "/v2/")) (codes "_catalog"))) [
        | inl c ↦ guarded method _ r (rw (n, c, parse_registry_route) at h) refl
        | inr c ↦ tags_guard method _ r (rw (n, c, parse_registry_route) at h)
      ]
    ]
