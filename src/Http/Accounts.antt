-- ===== src/Http/Accounts.antt =====
-- internal/handler/auth_handler.go and internal/handler/user_handler.go. `bind` is gin's
-- `ShouldBindJSON` for the struct of the request, with the rules of its tags. No wrapped error is
-- one that a handler asks for, so `errors.Is` is a test of the constructor.
use beetle_shield_backend.Prelude.{
  ℕ, Bool, true, false, not, String, Option, none, some, List, if◌then◌else◌,
}
use beetle_shield_backend.Prelude.Int.{ℤ}
use beetle_shield_backend.Model.{User, UserRole, UserStatus, other_role, other_status}
use beetle_shield_backend.Store.{Error, Result, ok, err}
use beetle_shield_backend.Audit.{error_text}
use beetle_shield_backend.Users.Repository.{UpdateUserInput, list_users}
use beetle_shield_backend.Users.Tokens.{Claims}
use beetle_shield_backend.Users.Service.{create_user, update_user, update_user_status}
use beetle_shield_backend.Users.Login.{login, get_user_by_id}
use beetle_shield_backend.Http.Numbers.{parse_uint, parsed_or_none, atoi_value}
use beetle_shield_backend.Http.Reply.{
  Reply, failure, Handler, Request, default_query, query_text, reply, respond,
}

pub record LoginRequest : Type 0 where
  pub email : String
  pub password : String

abbrev pub login_error : {A : Type 0} → Error → Reply A
login_error Error.invalid_credentials = failure 401 40102 "邮箱或密码错误"
login_error Error.user_disabled = failure 403 40301 "账号已被禁用"
login_error _ = failure 500 50000 "登录失败，请稍后重试"

-- A body that does not bind, or the handler behind it.
abbrev pub bound : {A B : Type 0} → ℕ → (A → Handler B) → Result A → Handler B
bound code handle (ok a) = handle a
bound code handle (err e) = reply (failure 400 code (error_text e))

-- An id that does not parse, or the handler behind it.
abbrev pub with_id : {B : Type 0} → ℕ → String → (ℕ → Handler B) → Option ℕ → Handler B
with_id code message handle (some id) = handle id
with_id code message handle none = reply (failure 400 code message)

module _ (sign : Claims → String → Result String)
    (compare_hash_and_password : String → String → Result (Unit {0})) (jwt_secret : String)
    (jwt_expire_hours : ℤ) (bind : String → Result LoginRequest) where
  abbrev login_bound : Request → LoginRequest → Handler (String × User)
  login_bound c req =
      respond login_error (λ session. session)
        (login sign compare_hash_and_password jwt_secret jwt_expire_hours req.email req.password
          c.client_ip)

  unfoldable pub handle_login : Request → Handler (String × User)
  handle_login c = bound 40001 (login_bound c) (bind c.body)

unfoldable pub handle_me : Request → Handler User
handle_me c = respond (λ _. failure 404 40401 "用户不存在") (λ u. u) (get_user_by_id c.user_id)

abbrev pub valid_user_role : UserRole → Bool
valid_user_role (other_role text) = false
valid_user_role _ = true

abbrev pub valid_user_status : UserStatus → Bool
valid_user_status (other_status text) = false
valid_user_status _ = true

module _ (ilike : String → String → Bool) where
  unfoldable pub handle_list_users : Request → Handler (List User × ℕ)
  handle_list_users c =
      respond (λ _. failure 500 50005 "查询用户列表失败") (λ page. page)
        (list_users ilike (record {
          search = query_text c "search";
          role = query_text c "role";
          page = atoi_value (default_query c "page" "1");
          page_size = atoi_value (default_query c "pageSize" "10");
        }))

pub record CreateUserRequest : Type 0 where
  pub name : String
  pub email : String
  pub password : String
  pub role : UserRole
  pub department : String

abbrev pub user_creation_error : {A : Type 0} → Error → Reply A
user_creation_error Error.email_already_exists = failure 409 40901 "邮箱已被使用"
user_creation_error _ = failure 500 50006 "创建用户失败"

module _ (generate_from_password : ℕ → String → ℕ → Result String) (duplicate_key : String)
    (bind : String → Result CreateUserRequest) where
  abbrev create_user_bound : Request → CreateUserRequest → Handler User
  create_user_bound c req =
      if not (valid_user_role req.role)
      then reply (failure 400 40008 "无效的用户角色")
      else respond user_creation_error (λ u. u)
          (create_user generate_from_password duplicate_key (record {
            name = req.name;
            email = req.email;
            password = req.password;
            role = req.role;
            department = req.department;
            actor_user_id = c.user_id;
            ip = c.client_ip;
          }))

  unfoldable pub handle_create_user : Request → Handler User
  handle_create_user c = bound 40007 (create_user_bound c) (bind c.body)

abbrev pub user_update_error : {A : Type 0} → Error → Reply A
user_update_error Error.user_not_found = failure 404 40403 "用户不存在"
user_update_error _ = failure 500 50007 "更新用户失败"

abbrev pub valid_if_given : Option UserRole → Bool
valid_if_given none = true
valid_if_given (some role) = valid_user_role role

module _ (bind : String → Result UpdateUserInput) where
  abbrev update_user_bound : Request → ℕ → UpdateUserInput → Handler User
  update_user_bound c id req =
      if not (valid_if_given req.role)
      then reply (failure 400 40008 "无效的用户角色")
      else respond user_update_error (λ u. u) (update_user id req c.user_id c.client_ip)

  unfoldable pub handle_update_user : Request → Handler User
  handle_update_user c =
      with_id 40009 "非法的用户 ID" (λ id. bound 40007 (update_user_bound c id) (bind c.body))
        (parsed_or_none (parse_uint c.id_param))

abbrev pub status_change_error : {A : Type 0} → Error → Reply A
status_change_error Error.user_not_found = failure 404 40403 "用户不存在"
status_change_error Error.cannot_disable_self = failure 403 40303 "不能禁用自己的账号"
status_change_error _ = failure 500 50008 "更新用户状态失败"

module _ (bind : String → Result UserStatus) where
  abbrev update_status_bound : Request → ℕ → UserStatus → Handler (Unit {0})
  update_status_bound c id status =
      if not (valid_user_status status)
      then reply (failure 400 40010 "无效的用户状态")
      else respond status_change_error (λ u. u) (update_user_status id status c.user_id c.client_ip)

  unfoldable pub handle_update_user_status : Request → Handler (Unit {0})
  handle_update_user_status c =
      with_id 40009 "非法的用户 ID" (λ id. bound 40007 (update_status_bound c id) (bind c.body))
        (parsed_or_none (parse_uint c.id_param))
