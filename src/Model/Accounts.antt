-- ===== src/Model/Accounts.antt =====
-- internal/model/user.go, internal/model/audit.go and internal/model/api_request_log.go.
use Prim.Native.Nat.{ℕ}
use Prim.Native.String.{String}
use mathlib.Core.Bool.{Bool, true, false}
use mathlib.Core.Option.{Option}

-- A role also arrives as text, in a request or in a token.
pub data UserRole : Type 0 where
  admin developer auditor : UserRole
  other_role : String → UserRole

pub data UserStatus : Type 0 where
  active disabled : UserStatus
  other_status : String → UserStatus

pub record User : Type 0 where
  pub id : ℕ
  pub name : String
  pub email : String
  pub password_hash : String
  pub role : UserRole
  pub department : String
  pub status : UserStatus
  pub last_login_at : Option ℕ
  pub created_at : ℕ
  pub updated_at : ℕ

pub data AuditAction : Type 0 where
  login_success login_failure app_upload app_delete app_download hardening_create : AuditAction
  hardening_download strategy_save user_create user_update user_status_change : AuditAction

pub record AuditLog : Type 0 where
  pub id : ℕ
  pub actor_user_id : ℕ
  pub actor_email : String
  pub action : AuditAction
  pub target_type : String
  pub target_id : ℕ
  pub detail : String
  pub ip : String
  pub success : Bool
  pub created_at : ℕ

-- The latency is that of a clock that does not run backwards.
pub record ApiRequestLog : Type 0 where
  pub id : ℕ
  pub method : String
  pub path : String
  pub status : ℕ
  pub latency_ms : ℕ
  pub client_ip : String
  pub actor_user_id : ℕ
  pub created_at : ℕ

abbrev pub is_disabled : UserStatus → Bool
is_disabled disabled = true
is_disabled _ = false
