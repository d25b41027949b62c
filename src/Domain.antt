-- ===== src/Domain.antt =====
-- internal/domain/domain.go: the values that the database, the token service and the HTTP server
-- exchange. A Go string type is its bytes; an instant is a number of nanoseconds; a duration is a
-- signed number of nanoseconds.
use simplecontainerregistry.Base.{
  ℕ, Bytes, codes, beq, Bool, ◌&&◌, ◌||◌, Option, List, all, not, is_nil,
}
use simplecontainerregistry.Base.Int.{ℤ}

-- type Role string.
abbrev pub Role : Type 0
Role = Bytes

abbrev pub role_reader : Role
role_reader = codes "reader"

abbrev pub role_admin : Role
role_admin = codes "admin"

-- type UserStatus string.
abbrev pub UserStatus : Type 0
UserStatus = Bytes

abbrev pub status_active : UserStatus
status_active = codes "active"

abbrev pub status_disabled : UserStatus
status_disabled = codes "disabled"

-- type Action string.
abbrev pub Action : Type 0
Action = Bytes

abbrev pub action_pull : Action
action_pull = codes "pull"

abbrev pub action_push : Action
action_push = codes "push"

abbrev pub action_delete : Action
action_delete = codes "delete"

abbrev pub action_admin : Action
action_admin = codes "admin"

pub record User : Type 0 where
  pub id : Bytes
  pub username : Bytes
  pub display_name : Bytes
  pub role : Role
  pub status : UserStatus
  pub secret_hash : Bytes
  pub not_before : Option ℕ
  pub expires_at : Option ℕ
  pub last_used_at : Option ℕ
  pub created_at : ℕ
  pub updated_at : ℕ
  pub disabled_at : Option ℕ

pub record Grant : Type 0 where
  pub id : Bytes
  pub subject_type : Bytes
  pub subject_id : Bytes
  pub repository_prefix : Bytes
  pub actions : List Action
  pub created_at : ℕ
  pub updated_at : ℕ

pub record Repository : Type 0 where
  pub name : Bytes
  pub tag_count : ℕ
  pub manifest_count : ℕ
  pub size_bytes : ℕ
  pub last_push_at : Option ℕ
  pub last_pull_at : Option ℕ

pub record RepositoryTag : Type 0 where
  pub repository_name : Bytes
  pub tag : Bytes
  pub digest : Bytes
  pub media_type : Bytes
  pub size_bytes : ℕ
  pub pushed_at : ℕ
  pub pulled_at : Option ℕ

-- type TagPolicyMode string.
abbrev pub TagPolicyMode : Type 0
TagPolicyMode = Bytes

abbrev pub tag_policy_mutable : TagPolicyMode
tag_policy_mutable = codes "mutable"

abbrev pub tag_policy_immutable : TagPolicyMode
tag_policy_immutable = codes "immutable"

abbrev pub tag_policy_pattern : TagPolicyMode
tag_policy_pattern = codes "pattern"

unfoldable pub valid_tag_policy_mode : TagPolicyMode → Bool
valid_tag_policy_mode mode =
    beq mode tag_policy_mutable || (beq mode tag_policy_immutable || beq mode tag_policy_pattern)

pub record RepositoryTagPolicy : Type 0 where
  pub repository_name : Bytes
  pub mode : TagPolicyMode
  pub pattern : Bytes
  pub updated_at : Option ℕ

pub record DashboardSummary : Type 0 where
  pub repositories : ℕ
  pub tags : ℕ
  pub storage_bytes : ℕ
  pub active_users : ℕ
  pub users_expiring_soon : ℕ
  pub pulls_24h : ℕ
  pub pushes_24h : ℕ

pub record DailyUsage : Type 0 where
  pub date : ℕ
  pub pulls : ℕ
  pub pushes : ℕ

pub record RegistryWebhookSettings : Type 0 where
  pub url : Bytes

pub record SigningKey : Type 0 where
  pub id : Bytes
  pub secret : Bytes
  pub created_at : ℕ
  pub retired_at : Option ℕ

pub record AuditEvent : Type 0 where
  pub id : Bytes
  pub actor_user_id : Option Bytes
  pub action : Bytes
  pub target_type : Bytes
  pub target_id : Bytes
  pub result : Bytes
  pub ip_address : Bytes
  pub user_agent : Bytes
  pub created_at : ℕ

pub record GcSettings : Type 0 where
  pub enabled : Bool
  pub delay : ℤ
  pub interval : ℤ

unfoldable pub valid_role : Role → Bool
valid_role role = beq role role_reader || beq role role_admin

unfoldable pub valid_action : Action → Bool
valid_action a =
    beq a action_pull || (beq a action_push || (beq a action_delete || beq a action_admin))

-- At least one action, and none but the four.
unfoldable pub valid_actions : List Action → Bool
unfolding valid_action all
valid_actions actions = not (is_nil actions) && all valid_action actions
