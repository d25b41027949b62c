-- ===== src/Tests/Database.antt =====
-- internal/db/store.go, on a database with a user, a grant and two tags of one repository.
use simplecontainerregistry.Base.{
  ℕ, Bytes, codes, true, false, if◌then◌else◌, ◌==◌, ◌<◌, ◌^◌, ◌≤◌, ◌*◌, ◌+◌, List, [], ◌∷◌, ◌≡◌,
  refl, Option, none, some, Result, ok, err, arith,
}
use simplecontainerregistry.Base.Int.{ℤ, pos, negsuc}
use simplecontainerregistry.Domain.{role_reader, action_pull, action_push, DailyUsage, GcSettings}
use simplecontainerregistry.Auth.Scope.{user_subject}
use simplecontainerregistry.Db.Tables.{Database, empty_database, constraint_failed, sum_of}
use simplecontainerregistry.Db.Users.{CreateUserParams, create_user}
use simplecontainerregistry.Db.Grants.{CreateGrantParams}
use simplecontainerregistry.Db.Repositories.{size_of, tags_of}
use simplecontainerregistry.Db.Tags.{
  UpsertRepositoryTagParams, check_params, upsert_tags, upsert_repository_tags,
  delete_repository_manifest_reference,
}
use simplecontainerregistry.Db.Tags.View.{view, assign_all}
use simplecontainerregistry.Db.Tags.Refined.{
  forget, upsert_repository_tags-view, delete_repository_manifest_reference-view,
}
use simplecontainerregistry.Db.Usage.{daily_usage, day, hour, series_end, shown_days}
use simplecontainerregistry.Db.Usage.Series.{series_of}
use simplecontainerregistry.Db.Usage.Daily.{reported, first_day, uses, daily_usage-series}
use simplecontainerregistry.Db.Settings.{Durations, gc_settings, update_gc_settings}
use simplecontainerregistry.Db.Settings.Stored.{update_gc_settings-gc_settings}
use simplecontainerregistry.Db.Audit.{Base64}
use simplecontainerregistry.Db.History.{
  Packages, Reached, counts_usage, IsConsistent, creates_user, upserts_tags, deletes_reference,
  replaces_user_grant, respond, perform, start, next,
}
use simplecontainerregistry.Db.History.Reachable.{Reached-IsConsistent}
use simplecontainerregistry.Db.History.Failed.{respond-Unchanged}

-- Durations as texts of one number, with its sign in front.
abbrev written : ℤ → Bytes
written (pos n) = 0 ∷ n ∷ []
written (negsuc n) = 1 ∷ n ∷ []

abbrev read : Bytes → Option ℤ
read (sign ∷ n ∷ []) = if sign == 0 then some (pos n) else some (negsuc n)
read _ = none

abbrev durations : Durations
durations = record { text = written; parse = read }

read-written : (z : ℤ) → read (written z) ≡ some z
read-written (pos n) = refl
read-written (negsuc n) = refl

abbrev base64 : Base64
base64 = record { encode = λ bytes. bytes; decode = λ text. some text }

abbrev packages : Packages
packages = record {
  compile = λ pattern. none;
  rfc3339 = λ time. time ∷ [];
  durations = durations;
  base64 = base64;
}

abbrev tagged : Bytes → UpsertRepositoryTagParams
tagged tag = record {
  repository_name = codes "app";
  tag = tag;
  digest = codes "d";
  media_type = codes "m";
  size_bytes = pos 3;
}

abbrev user : CreateUserParams
user = record {
  username = codes "ann";
  display_name = codes "Ann";
  role = role_reader;
  secret_hash = codes "h";
  not_before = none;
  expires_at = none;
}

abbrev with_user : Database
with_user = perform packages (creates_user (1 ∷ []) user 5) empty_database

abbrev with_tags : Database
with_tags =
    perform packages (upserts_tags (tagged (codes "v1") ∷ tagged (codes "v2") ∷ []) 6) with_user

abbrev untagged : Database
untagged = perform packages (deletes_reference (codes "app") (codes "v1") (codes "d")) with_tags

reached : Reached packages with_tags
reached =
    next (next start (creates_user (1 ∷ []) user 5))
      (upserts_tags (tagged (codes "v1") ∷ tagged (codes "v2") ∷ []) 6)

Reached-IsConsistent_example : IsConsistent untagged
Reached-IsConsistent_example =
    Reached-IsConsistent packages
      (next reached (deletes_reference (codes "app") (codes "v1") (codes "d")))

-- The subject is no user: the old grants are deleted, and come back.
abbrev stranger : CreateGrantParams
stranger = record {
  subject_type = user_subject;
  subject_id = codes "nobody";
  repository_prefix = codes "team/";
  actions = action_pull ∷ [];
}

refused :
    (respond packages (replaces_user_grant (1 ∷ []) stranger 7) with_tags).0 ≡ err constraint_failed
unfolding respond simplecontainerregistry.Db.Grants.replace_user_grant
    simplecontainerregistry.Base.beq simplecontainerregistry.Domain.valid_actions
    simplecontainerregistry.Base.any simplecontainerregistry.Db.Tables.delete_where
    simplecontainerregistry.Base.keep perform upsert_repository_tags
    simplecontainerregistry.Db.Tables.checked_sum simplecontainerregistry.Db.Tables.upsert_row
    create_user simplecontainerregistry.Domain.valid_role
    simplecontainerregistry.Db.Users.valid_window simplecontainerregistry.Base.elem
    simplecontainerregistry.Db.Users.new_id
refused = refl

respond-Unchanged_example :
    (respond packages (replaces_user_grant (1 ∷ []) stranger 7) with_tags).1 ≡ with_tags
respond-Unchanged_example =
    respond-Unchanged packages (replaces_user_grant (1 ∷ []) stranger 7) with_tags constraint_failed
      refused

-- The tags name one digest, of three bytes.
small :
    size_of (
      tags_of (codes "app") (
        upsert_tags
          (tagged (codes "v1") ∷ tagged (codes "v2") ∷ [])
          6
          empty_database.repository_tags))
    < 2 ^ 63
unfolding size_of tags_of upsert_tags simplecontainerregistry.Db.Tables.upsert_row
    simplecontainerregistry.Base.any simplecontainerregistry.Base.keep
    simplecontainerregistry.Base.beq simplecontainerregistry.Base.elem
small = omega arith

checked_tags : check_params (codes "app") (tagged (codes "v1") ∷ tagged (codes "v2") ∷ []) ≡ ok tt
unfolding check_params simplecontainerregistry.Base.beq
checked_tags = refl

upsert_repository_tags-view_example :
    ((upsert_repository_tags (tagged (codes "v1") ∷ tagged (codes "v2") ∷ []) 6 empty_database).0
      ≡ ok tt)
    × ((name tag : Bytes)
        → view
            (upsert_repository_tags
              (tagged (codes "v1") ∷ tagged (codes "v2") ∷ [])
              6
              empty_database).1
            name
            tag
          ≡ assign_all
              (tagged (codes "v1") ∷ tagged (codes "v2") ∷ [])
              (view empty_database)
              name
              tag)
upsert_repository_tags-view_example =
    upsert_repository_tags-view (tagged (codes "v1")) (tagged (codes "v2") ∷ []) 6 empty_database
      refl checked_tags small

deleted :
    (delete_repository_manifest_reference (codes "app") (codes "v1") (codes "d") with_tags).0
    ≡ ok tt
unfolding delete_repository_manifest_reference simplecontainerregistry.Db.Tables.checked_sum
    simplecontainerregistry.Base.keep simplecontainerregistry.Db.Tables.delete_where perform
    upsert_repository_tags simplecontainerregistry.Base.beq
    simplecontainerregistry.Db.Tables.upsert_row simplecontainerregistry.Base.any create_user
    simplecontainerregistry.Domain.valid_role simplecontainerregistry.Db.Users.valid_window
    simplecontainerregistry.Base.elem simplecontainerregistry.Base.contains
    simplecontainerregistry.Base.cut simplecontainerregistry.Base.strip_prefix
deleted = refl

delete_repository_manifest_reference-view_example :
    view
      (delete_repository_manifest_reference (codes "app") (codes "v1") (codes "d") with_tags).1
      (codes "app")
      (codes "v2")
    ≡ forget (codes "app") (codes "v1") (codes "d") (view with_tags) (codes "app") (codes "v2")
delete_repository_manifest_reference-view_example =
    delete_repository_manifest_reference-view (codes "app") (codes "v1") (codes "d") with_tags
      (Reached-IsConsistent packages reached).fitting deleted (codes "app") (codes "v2")

abbrev gc : GcSettings
gc = record { enabled = true; delay = pos 0; interval = pos 5 }

update_gc_settings-gc_settings_example :
    ((update_gc_settings durations gc 7 with_tags).0 ≡ ok tt)
    × ((gc_settings durations gc (update_gc_settings durations gc 7 with_tags).1).0 ≡ ok gc)
update_gc_settings-gc_settings_example =
    update_gc_settings-gc_settings durations gc read-written 7 gc with_tags refl refl

abbrev noon : ℕ
noon = 3 * day + 12 * hour

abbrev pulled : Database
pulled = perform packages (counts_usage (codes "app") action_pull noon) with_tags

enough : shown_days (pos 2) * day ≤ series_end noon
enough = omega arith

daily_usage-series_example :
    ((daily_usage noon (pos 2) (codes "app") pulled).0
      ≡ ok (
          series_of
            (reported noon (pos 2) (codes "app") pulled)
            (first_day noon (pos 2))
            (shown_days (pos 2))))
    × (sum_of
          (λ usage. usage.pulls)
          (series_of
            (reported noon (pos 2) (codes "app") pulled)
            (first_day noon (pos 2))
            (shown_days (pos 2)))
        ≡ uses action_pull (reported noon (pos 2) (codes "app") pulled))
    × (sum_of
          (λ usage. usage.pushes)
          (series_of
            (reported noon (pos 2) (codes "app") pulled)
            (first_day noon (pos 2))
            (shown_days (pos 2)))
        ≡ uses action_push (reported noon (pos 2) (codes "app") pulled))
daily_usage-series_example = daily_usage-series noon (pos 2) (codes "app") pulled enough
