-- ===== src/Router/Routes.antt =====
-- The routes of `New` in internal/router/router.go, with the middleware of their groups, and the
-- methods of internal/middleware/cors.go.
use beetle_shield_backend.Prelude.{Bool, true, false, String, List, [], ◌∷◌}
use beetle_shield_backend.Model.{UserRole, admin, developer}

pub data Method : Type 0 where
  get post put patch delete options : Method
  other_method : String → Method

abbrev pub method_text : Method → String
method_text get = "GET"
method_text post = "POST"
method_text put = "PUT"
method_text patch = "PATCH"
method_text delete = "DELETE"
method_text options = "OPTIONS"
method_text (other_method text) = text

pub data Endpoint : Type 0 where
  health login me : Endpoint
  upload_app list_apps get_app app_history delete_app app_download_url : Endpoint
  list_users create_user update_user update_user_status : Endpoint
  templates current_strategy save_current_strategy list_strategies create_strategy : Endpoint
  get_strategy update_strategy delete_strategy : Endpoint
  create_task list_tasks overview get_task task_logs task_report task_download_url : Endpoint
  audit_logs api_logs : Endpoint

abbrev pub method_of : Endpoint → Method
method_of login = post
method_of upload_app = post
method_of delete_app = delete
method_of create_user = post
method_of update_user = patch
method_of update_user_status = patch
method_of save_current_strategy = put
method_of create_strategy = post
method_of update_strategy = put
method_of delete_strategy = delete
method_of create_task = post
method_of _ = get

-- `c.FullPath()`
abbrev pub full_path : Endpoint → String
full_path health = "/health"
full_path login = "/api/v1/auth/login"
full_path me = "/api/v1/auth/me"
full_path upload_app = "/api/v1/apps/upload"
full_path list_apps = "/api/v1/apps"
full_path get_app = "/api/v1/apps/:id"
full_path app_history = "/api/v1/apps/:id/hardening-history"
full_path delete_app = "/api/v1/apps/:id"
full_path app_download_url = "/api/v1/apps/:id/download-url"
full_path list_users = "/api/v1/users"
full_path create_user = "/api/v1/users"
full_path update_user = "/api/v1/users/:id"
full_path update_user_status = "/api/v1/users/:id/status"
full_path templates = "/api/v1/strategies/templates"
full_path current_strategy = "/api/v1/strategies/current"
full_path save_current_strategy = "/api/v1/strategies/current"
full_path list_strategies = "/api/v1/strategies"
full_path create_strategy = "/api/v1/strategies"
full_path get_strategy = "/api/v1/strategies/:id"
full_path update_strategy = "/api/v1/strategies/:id"
full_path delete_strategy = "/api/v1/strategies/:id"
full_path create_task = "/api/v1/hardening-tasks"
full_path list_tasks = "/api/v1/hardening-tasks"
full_path overview = "/api/v1/hardening-tasks/overview"
full_path get_task = "/api/v1/hardening-tasks/:id"
full_path task_logs = "/api/v1/hardening-tasks/:id/logs"
full_path task_report = "/api/v1/hardening-tasks/:id/report"
full_path task_download_url = "/api/v1/hardening-tasks/:id/download-url"
full_path audit_logs = "/api/v1/audit-logs"
full_path api_logs = "/api/v1/api-logs"

pub data Guard : Type 0 where
  jwt_auth : Guard
  require_role : List UserRole → Guard

abbrev pub write_roles : Guard
write_roles = require_role (admin ∷ developer ∷ [])

abbrev pub admin_only : Guard
admin_only = require_role (admin ∷ [])

-- The middleware of the group, then that of the route.
abbrev pub guards_of : Endpoint → List Guard
guards_of health = []
guards_of login = []
guards_of upload_app = jwt_auth ∷ write_roles ∷ []
guards_of delete_app = jwt_auth ∷ write_roles ∷ []
guards_of app_download_url = jwt_auth ∷ write_roles ∷ []
guards_of list_users = jwt_auth ∷ admin_only ∷ []
guards_of create_user = jwt_auth ∷ admin_only ∷ []
guards_of update_user = jwt_auth ∷ admin_only ∷ []
guards_of update_user_status = jwt_auth ∷ admin_only ∷ []
guards_of save_current_strategy = jwt_auth ∷ admin_only ∷ []
guards_of create_strategy = jwt_auth ∷ admin_only ∷ []
guards_of update_strategy = jwt_auth ∷ admin_only ∷ []
guards_of delete_strategy = jwt_auth ∷ admin_only ∷ []
guards_of create_task = jwt_auth ∷ write_roles ∷ []
guards_of task_download_url = jwt_auth ∷ write_roles ∷ []
guards_of _ = jwt_auth ∷ []

-- The routes of the group /api/v1 are logged.
abbrev pub is_logged : Endpoint → Bool
is_logged health = false
is_logged _ = true

-- `Access-Control-Allow-Methods`
abbrev pub cors_allows : Method → Bool
cors_allows get = true
cors_allows post = true
cors_allows put = true
cors_allows delete = true
cors_allows options = true
cors_allows _ = false
