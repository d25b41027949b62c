-- ===== src/Tests/Http.antt =====
-- internal/httpserver: concrete requests.
use simplecontainerregistry.Domain.{action_push}
use simplecontainerregistry.Base.Laws.{contains-Lacks}
use simplecontainerregistry.Auth.Scope.{parse_scope}
use simplecontainerregistry.Http.Access.{scope_text}
use simplecontainerregistry.Http.Access.Challenge.{single, parse_scope-scope_text}
use simplecontainerregistry.Base.{elem, contains, not, ◌&&◌, if◌then◌else◌}
use simplecontainerregistry.Base.Sets.{NoRepeat}
use simplecontainerregistry.Http.Paging.{manifest_tags}
use simplecontainerregistry.Http.Paging.Named.{manifest_tags-NoRepeat}
use simplecontainerregistry.Base.{
  ℕ, ◌+◌, ◌^◌, ◌≤◌, ◌<◌, Bytes, codes, beq, beq→ne, Bool, true, false, List, [], ◌∷◌, ◌≡◌, ◌↔◌,
  refl, inl, inr, In, Result, ok, err, ◌++◌, zero, suc, db_not_found, Option, none, some, arith,
  Error, keep, All, length, is_nil,
}
use simplecontainerregistry.Base.Int.{pos}
use simplecontainerregistry.Base.Order.{IsSorted, lex_leb}
use simplecontainerregistry.Domain.{
  Grant, RepositoryTagPolicy, role_reader, action_pull, tag_policy_immutable,
}
use simplecontainerregistry.Auth.Scope.{AccessClaim, repository_type, user_subject, has_access}
use simplecontainerregistry.Http.Access.{
  Principal, Decision, served, handle_registry, principal_from_bearer,
}
use simplecontainerregistry.Http.Access.Revoked.{MayNow, handle_registry-MayNow}
use simplecontainerregistry.Http.World.{Metadata, World}
use simplecontainerregistry.Http.Tags.{
  tag_policy_pattern_of, tag_policy_protects, link_manifest_tags_locked,
}
use simplecontainerregistry.Http.Tags.Protected.{link_manifest_tags_locked-Refused}
use simplecontainerregistry.Storage.Manifests.{manifest_tag_digest}
use simplecontainerregistry.Storage.Path.{FilePath}
use simplecontainerregistry.Storage.Disk.{Node, folder, file, Disk, node_at, return, fail}
use simplecontainerregistry.Storage.Disk.View.{content_at}
use simplecontainerregistry.Http.Route.{
  RegistryRoute, blob, manifest, method_get, parse_registry_route,
}
use simplecontainerregistry.Http.Route.Actions.{Guards, parse_registry_route-Guards}
use simplecontainerregistry.Http.Limiter.{new_auth_attempt_limiter, auth_account_attempts}
use simplecontainerregistry.Http.Limiter.Bound.{Attempt, accepted, accepted-IsBounded}
use simplecontainerregistry.Http.Paging.{is_past}
use simplecontainerregistry.Http.Paging.Walk.{walk, walk-eq}
use simplecontainerregistry.Http.Upload.{append_upload}
use simplecontainerregistry.Http.Upload.Bounds.{AppendsWithin, append_upload-AppendsWithin}

abbrev app : Bytes
app = codes "team/app"

abbrev pull_route : RegistryRoute
pull_route = record {
  repository = app;
  kind = manifest;
  reference = codes "v1";
  upload_id = [];
  action = action_pull;
}

pull_route_parsed :
    parse_registry_route method_get (codes "/v2/team/app/manifests/v1") ≡ some pull_route
unfolding parse_registry_route simplecontainerregistry.Base.trim_prefix
    simplecontainerregistry.Base.strip_prefix beq simplecontainerregistry.Http.Route.route_tags
    simplecontainerregistry.Base.cut simplecontainerregistry.Http.Route.route_referrers
    simplecontainerregistry.Http.Route.cut_marker simplecontainerregistry.Http.Route.route_manifest
pull_route_parsed = refl

parse_registry_route-Guards_example : Guards method_get manifest action_pull
parse_registry_route-Guards_example =
    parse_registry_route-Guards method_get (codes "/v2/team/app/manifests/v1") pull_route
      pull_route_parsed

abbrev attempts : List Attempt
attempts = record { ip_address = codes "10.0.0.1"; username = codes "Ann "; time = 5 } ∷ []

accepted-IsBounded_example :
    accepted (codes "ann") new_auth_attempt_limiter attempts ≤ auth_account_attempts
accepted-IsBounded_example =
    accepted-IsBounded (codes "ann") 0 new_auth_attempt_limiter attempts refl (omega arith)
      ((omega arith, omega arith), tt)

abbrev names : List Bytes
names = codes "a" ∷ codes "b" ∷ codes "c" ∷ []

names-IsSorted : IsSorted names
unfolding lex_leb
names-IsSorted = ((refl, (refl, tt)), ((refl, tt), (tt, tt)))

names_past : length (keep (is_past (codes "a")) names) ≤ 2
unfolding keep is_past lex_leb
names_past = omega arith

walk-eq_example : walk 3 1 names (codes "a") ≡ keep (is_past (codes "a")) names
walk-eq_example =
    walk-eq 2 1 names (codes "a") (omega arith) names-IsSorted (refl, (refl, (refl, tt))) names_past

abbrev upload_file : FilePath
upload_file = codes "u" ∷ []

abbrev upload_disk : Disk
upload_disk = record { nodes = (upload_file, file (1 ∷ 2 ∷ []) 0) ∷ []; now = 7 }

upload_there : content_at upload_file upload_disk ≡ some (1 ∷ 2 ∷ [])
unfolding node_at simplecontainerregistry.Storage.Disk.find
    simplecontainerregistry.Storage.Disk.same_path beq
upload_there = refl

append_upload-AppendsWithin_example :
    AppendsWithin 4 upload_file
      (1 ∷ 2 ∷ [])
      (3 ∷ [])
      (append_upload upload_file (3 ∷ []) 2 (pos 4) upload_disk)
append_upload-AppendsWithin_example =
    append_upload-AppendsWithin 4 upload_file (1 ∷ 2 ∷ []) (3 ∷ []) upload_disk (omega arith)
      upload_there (omega arith)

abbrev validate : Bytes → Option Principal
validate token = some (record {
  user_id = codes "u1";
  username = codes "ann";
  role = role_reader;
  access = record { type = repository_type; name = app; actions = action_pull ∷ [] } ∷ [];
})

abbrev grants_of : Bytes → Result (List Grant)
grants_of user_id = ok (
    record {
      id = codes "g1";
      subject_type = user_subject;
      subject_id = codes "u1";
      repository_prefix = codes "team/";
      actions = action_pull ∷ [];
      created_at = 0;
      updated_at = 0;
    }
    ∷ [])

abbrev ann : Option Principal
ann = validate []

served_now :
    handle_registry validate grants_of (codes "Bearer t") (some pull_route) ≡ served ann pull_route
unfolding handle_registry principal_from_bearer simplecontainerregistry.Base.cut
    simplecontainerregistry.Base.strip_prefix simplecontainerregistry.Base.beq
    simplecontainerregistry.Base.to_lower simplecontainerregistry.Base.any
    simplecontainerregistry.Base.elem simplecontainerregistry.Base.trim_prefix
    simplecontainerregistry.Base.trim_suffix simplecontainerregistry.Base.has_prefix has_access
    simplecontainerregistry.Auth.Scope.claim_allows
    simplecontainerregistry.Auth.Scope.intersect_access
    simplecontainerregistry.Auth.Scope.allowed_actions
    simplecontainerregistry.Auth.Scope.intersect_loop
    simplecontainerregistry.Auth.Scope.granted_actions
    simplecontainerregistry.Auth.Scope.grant_applies
    simplecontainerregistry.Auth.Scope.repository_matches
    simplecontainerregistry.Auth.Scope.unique_actions simplecontainerregistry.Auth.Scope.unique_loop
    simplecontainerregistry.Http.Access.has_current_registry_access
served_now = refl

handle_registry-MayNow_example :
    (principal : Principal) × (principal_from_bearer validate (codes "Bearer t") ≡ some principal)
    × (has_access principal.access app action_pull ≡ true)
    × MayNow grants_of principal app action_pull
handle_registry-MayNow_example =
    handle_registry-MayNow validate grants_of (codes "Bearer t") pull_route ann pull_route refl
      served_now

abbrev immutable : RepositoryTagPolicy
immutable = record {
  repository_name = app;
  mode = tag_policy_immutable;
  pattern = [];
  updated_at = none;
}

-- Metadata that is one policy.
abbrev metadata : Metadata RepositoryTagPolicy
metadata = record {
  increment_usage_counter = λ repository action. return tt;
  mark_repository_pulled = λ repository reference. return tt;
  audit = λ action repository. return tt;
  get_repository_tag_policy = λ repository s. (ok s, s);
  upsert_repository_tags = λ params. return tt;
  delete_repository_manifest_reference = λ repository reference digest. return tt;
  get_repository_tag = λ repository tag. fail db_not_found;
  list_grants_by_user = λ user_id. return [];
}

abbrev zeros : ℕ → Bytes
zeros zero = []
zeros (suc n) = b'0' ∷ zeros n

abbrev ones : ℕ → Bytes
ones zero = []
ones (suc n) = b'1' ∷ ones n

abbrev old_digest : Bytes
old_digest = codes "sha256:" ++ zeros 64

abbrev new_digest : Bytes
new_digest = codes "sha256:" ++ ones 64

abbrev tagged : World RepositoryTagPolicy
tagged = record {
  disk = record {
    nodes =
        (
          codes "repositories" ∷ codes "team" ∷ codes "app" ∷ codes "tags" ∷ codes "v1" ∷ [],
          file old_digest 0,
        )
        ∷ [];
    now = 9;
  };
  metadata = immutable;
}

no_regexp : Bytes → Option (Bytes → Bool)
no_regexp pattern = none

tag_now : manifest_tag_digest [] app (codes "v1") tagged.disk ≡ (ok old_digest, tagged.disk)
unfolding manifest_tag_digest simplecontainerregistry.Storage.Path.safe_repository_path
    simplecontainerregistry.Storage.Path.bad_part
    simplecontainerregistry.Storage.Path.sanitize_reference
    simplecontainerregistry.Storage.Path.is_reference_byte
    simplecontainerregistry.Storage.Path.safe_join simplecontainerregistry.Storage.Path.clean_loop
    simplecontainerregistry.Storage.Path.clean_step simplecontainerregistry.Storage.Path.segments_of
    simplecontainerregistry.Storage.Path.tag_path simplecontainerregistry.Base.trim
    simplecontainerregistry.Base.trim_right simplecontainerregistry.Base.drop_while
    simplecontainerregistry.Base.contains simplecontainerregistry.Base.cut
    simplecontainerregistry.Base.strip_prefix simplecontainerregistry.Base.any
    simplecontainerregistry.Base.all simplecontainerregistry.Base.split
    simplecontainerregistry.Base.beq simplecontainerregistry.Base.trim_space
    simplecontainerregistry.Storage.Digest.parse_digest
    simplecontainerregistry.Storage.Digest.check_digest
    simplecontainerregistry.Storage.Digest.digest_hex_length
    simplecontainerregistry.Storage.Digest.is_hex simplecontainerregistry.Storage.Disk.read_file
    simplecontainerregistry.Storage.Disk.find simplecontainerregistry.Storage.Disk.same_path
    simplecontainerregistry.Storage.Disk.blocked simplecontainerregistry.Storage.Disk.missing
tag_now = refl

no_pattern : tag_policy_pattern_of no_regexp immutable ≡ ok none
unfolding tag_policy_pattern_of beq
no_pattern = refl

is_protected : tag_policy_protects immutable none (codes "v1") ≡ true
unfolding tag_policy_protects beq
is_protected = refl

digests_differ : beq old_digest new_digest ≡ false
unfolding beq
digests_differ = refl

link_manifest_tags_locked-Refused_example :
    (e : Error) × (link_manifest_tags_locked [] no_regexp metadata
        (codes "1")
        app
        new_digest
        []
        (pos 2)
        (codes "v1" ∷ [])
        tagged
      ≡ (err e, tagged))
link_manifest_tags_locked-Refused_example =
    link_manifest_tags_locked-Refused [] no_regexp metadata (codes "1") immutable none app
      new_digest (codes "v1") old_digest [] (pos 2) (codes "v1" ∷ []) tagged immutable refl
      no_pattern is_protected tag_now digests_differ (inl refl)

abbrev query : List Bytes
query = codes "v1" ∷ codes "v2" ∷ codes "v1" ∷ []

manifest_tags-NoRepeat_example :
    NoRepeat (manifest_tags old_digest query)
    × (elem (codes "v1") (manifest_tags old_digest query) ≡ (
        if contains old_digest (codes ":")
        then elem (codes "v1") query && not (is_nil (codes "v1"))
        else beq old_digest (codes "v1")))
manifest_tags-NoRepeat_example = manifest_tags-NoRepeat old_digest query (codes "v1")

app_no_colon : contains app (codes ":") ≡ false
unfolding contains simplecontainerregistry.Base.cut simplecontainerregistry.Base.strip_prefix
app_no_colon = refl

parse_scope-scope_text_example :
    parse_scope (scope_text app action_push) ≡ ok (single app action_push)
parse_scope-scope_text_example =
    parse_scope-scope_text app action_push (contains-Lacks app b':' app_no_colon) refl
      (inr (inl refl))
