-- ===== src/Users/Service.antt =====
-- internal/service/user_service.go.
use Prim.Native.String.{◌++◌ as append}
use beetle_shield_backend.Prelude.{
  ℕ, Bool, true, false, ◌&&◌, ◌||◌, not, String, Option, none, some, ◌==◌, if◌then◌else◌,
}
use beetle_shield_backend.Model.{AuditAction, User, UserRole, UserStatus, active, is_disabled}
use beetle_shield_backend.Store.{
  Result, ok, err, email_already_exists, cannot_disable_self, user_not_found, M, ◌>>=◌, ◌>>◌, pure,
  fail, guard, attempt, map_error,
}
use beetle_shield_backend.Audit.{RecordAuditInput, deferred_audit, error_text, succeeded}
use beetle_shield_backend.Users.Repository.{
  UpdateUserInput, find_by_email, find_user, create_user_row, update_user_row,
  update_user_status_row, role_text,
}
use beetle_shield_backend.Users.Tokens.{hash_password}

pub record CreateUserInput : Type 0 where
  pub name : String
  pub email : String
  pub password : String
  pub role : UserRole
  pub department : String
  pub actor_user_id : ℕ
  pub ip : String

abbrev created_id : Result User → ℕ
created_id (ok u) = u.id
created_id (err e) = 0

abbrev creation_detail : CreateUserInput → Result User → String
creation_detail input (ok u) = append u.email (append " (" (append (role_text u.role) ")"))
creation_detail input (err e) = append input.email (append " - " (error_text e))

abbrev pub creation_audit : CreateUserInput → Result User → RecordAuditInput
creation_audit input result = record {
  actor_user_id = input.actor_user_id;
  actor_email = "";
  action = AuditAction.user_create;
  target_type = "user";
  target_id = created_id result;
  detail = creation_detail input result;
  ip = input.ip;
  success = succeeded result;
}

abbrev pub new_user : CreateUserInput → String → User
new_user input hashed = record {
  id = 0;
  name = input.name;
  email = input.email;
  password_hash = hashed;
  role = input.role;
  department = input.department;
  status = active;
  last_login_at = none;
  created_at = 0;
  updated_at = 0;
}

module _ (generate_from_password : ℕ → String → ℕ → Result String) (duplicate_key : String) where
  abbrev pub create_unless_found : CreateUserInput → Result User → M User
  create_unless_found input (ok found) = fail email_already_exists
  create_unless_found input (err e) = do
    hashed ← hash_password generate_from_password input.password
    create_user_row duplicate_key (new_user input hashed)

  unfoldable pub create_user : CreateUserInput → M User
  create_user input =
      deferred_audit (creation_audit input)
        (do found ← attempt (find_by_email input.email); create_unless_found input found)

-- `!= nil`
abbrev given : {A : Type 0} → Option A → Bool
given none = false
given (some x) = true

-- `len(updates) > 0`
abbrev pub has_updates : UpdateUserInput → Bool
has_updates input = given input.name || (given input.department || given input.role)

abbrev update_detail : Result User → String
update_detail (ok u) = "用户资料已更新"
update_detail (err e) = append "更新用户失败 - " (error_text e)

abbrev pub update_audit : ℕ → ℕ → String → Result User → RecordAuditInput
update_audit id actor ip result = record {
  actor_user_id = actor;
  actor_email = "";
  action = AuditAction.user_update;
  target_type = "user";
  target_id = id;
  detail = update_detail result;
  ip = ip;
  success = succeeded result;
}

unfoldable pub update_user : ℕ → UpdateUserInput → ℕ → String → M User
update_user id input actor ip = deferred_audit (update_audit id actor ip) (do
  found ← map_error (λ _. user_not_found) (find_user id)
  if has_updates input then update_user_row id input else pure tt
  find_user id)

abbrev status_detail : UserStatus → Result (Unit {0}) → String
status_detail status (ok _) = append "状态变更为 " (if is_disabled status then "禁用" else "启用")
status_detail status (err e) = append "状态变更失败 - " (error_text e)

abbrev pub status_audit : ℕ → UserStatus → ℕ → String → Result (Unit {0}) → RecordAuditInput
status_audit id status actor ip result = record {
  actor_user_id = actor;
  actor_email = "";
  action = AuditAction.user_status_change;
  target_type = "user";
  target_id = id;
  detail = status_detail status result;
  ip = ip;
  success = succeeded result;
}

unfoldable pub update_user_status : ℕ → UserStatus → ℕ → String → M (Unit {0})
update_user_status id status actor ip = deferred_audit (status_audit id status actor ip) (do
  found ← map_error (λ _. user_not_found) (find_user id)
  guard (not ((id == actor) && is_disabled status)) cannot_disable_self
  update_user_status_row id status)
