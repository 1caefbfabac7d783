-- ===== src/Users/Login.antt =====
-- internal/service/auth_service.go.
use beetle_shield_backend.Prelude.{ℕ, true, false, not, String, if◌then◌else◌}
use beetle_shield_backend.Prelude.Int.{ℤ}
use beetle_shield_backend.Model.{AuditAction, User, is_disabled}
use beetle_shield_backend.Store.{
  Error, Result, ok, err, invalid_credentials, user_disabled, M, ◌>>=◌, ◌>>◌, pure, fail, attempt,
  ignore,
}
use beetle_shield_backend.Audit.{record_audit}
use beetle_shield_backend.Users.Repository.{find_by_email, find_user, update_last_login, role_text}
use beetle_shield_backend.Users.Tokens.{Claims, generate_token, check_password}

unfoldable pub record_login_failure : String → String → M (Unit {0})
record_login_failure email ip = record_audit (record {
  actor_user_id = 0;
  actor_email = email;
  action = AuditAction.login_failure;
  target_type = "";
  target_id = 0;
  detail = "";
  ip = ip;
  success = false;
})

-- Record that the login failed, and return the error.
abbrev pub refuse : {A : Type 0} → String → String → Error → M A
refuse email ip e = do record_login_failure email ip; fail e

unfoldable pub get_user_by_id : ℕ → M User
get_user_by_id id = find_user id

module _ (sign : Claims → String → Result String)
    (compare_hash_and_password : String → String → Result (Unit {0})) (jwt_secret : String)
    (jwt_expire_hours : ℤ) where
  abbrev pub issue : String → User → M (String × User)
  issue ip user = do
    token ← generate_token sign jwt_secret user.id (role_text user.role) jwt_expire_hours
    ignore (update_last_login user.id)
    record_audit (record {
      actor_user_id = user.id;
      actor_email = user.email;
      action = AuditAction.login_success;
      target_type = "";
      target_id = 0;
      detail = "";
      ip = ip;
      success = true;
    })
    pure (token, user)

  abbrev pub login_found : String → String → String → Result User → M (String × User)
  login_found email password ip (err e) = refuse email ip invalid_credentials
  login_found email password ip (ok user) =
      if not (check_password compare_hash_and_password user.password_hash password)
      then refuse email ip invalid_credentials
      else if is_disabled user.status
      then refuse email ip user_disabled
      else issue ip user

  unfoldable pub login : String → String → String → M (String × User)
  login email password ip = do
    found ← attempt (find_by_email email)
    login_found email password ip found
