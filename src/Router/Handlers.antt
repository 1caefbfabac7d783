-- ===== src/Router/Handlers.antt =====
-- The handler of each route of internal/router/router.go, wired up as cmd/server/main.go does.
use beetle_shield_backend.Prelude.{ℕ, Bool, String, Option, List}
use beetle_shield_backend.Prelude.Int.{ℤ}
use beetle_shield_backend.Model.{
  ApiRequestLog, App, AuditLog, HardeningLog, Strategy, User, UserStatus,
}
use beetle_shield_backend.Store.{Result, World}
use beetle_shield_backend.Report.{HardeningReport}
use beetle_shield_backend.Dashboard.{DashboardOverview, get_overview}
use beetle_shield_backend.HardeningRepository.{LoadedTask}
use beetle_shield_backend.HardeningService.{HardeningTaskDetail}
use beetle_shield_backend.Users.Repository.{UpdateUserInput}
use beetle_shield_backend.Users.Tokens.{Claims}
use beetle_shield_backend.Apps.Service.{ApkFile}
use beetle_shield_backend.Http.Accounts.{
  LoginRequest, CreateUserRequest, handle_login, handle_me, handle_list_users, handle_create_user,
  handle_update_user, handle_update_user_status,
}
use beetle_shield_backend.Http.Apps.{
  handle_upload, handle_list_apps, handle_get_app, handle_delete_app, handle_app_download_url,
}
use beetle_shield_backend.Http.Strategies.{
  SaveStrategyRequest, handle_templates, handle_get_current, handle_save_current,
  handle_create_strategy, handle_update_strategy, handle_get_strategy, handle_delete_strategy,
  handle_list_strategies,
}
use beetle_shield_backend.Http.Hardening.{
  CreateHardeningTaskRequest, handle_create_task, handle_list_tasks, handle_get_task,
  handle_task_logs, handle_task_download_url, handle_get_report, handle_app_history,
  handle_get_overview,
}
use beetle_shield_backend.Http.Logs.{handle_audit_list, handle_request_list}
use beetle_shield_backend.Http.Reply.{Reply, success, failure, Handler, Request}
use beetle_shield_backend.Router.Routes.{Endpoint}

-- What the server is given: its configuration, the libraries it calls, and gin's reading of a body
-- for each struct of a request.
pub record Deps : Type 1 where
  pub Float : Type 0
  pub float_zero : Float
  pub percentage : ℕ → ℕ → Float
  pub average_seconds : List (ℕ × ℕ) → Float
  pub round_to_int : Float → ℤ
  pub start_of_day : ℕ → ℕ
  pub hour_of : ℕ → ℕ
  pub parse_time : String → Option ℕ
  pub to_lower : String → String
  pub task_no_of : ℕ → String
  pub ilike : String → String → Bool
  pub duplicate_key : String
  pub generate_from_password : ℕ → String → ℕ → Result String
  pub compare_hash_and_password : String → String → Result (Unit {0})
  pub sign : Claims → String → Result String
  pub parse : String → String → ℕ → Result (Claims × Bool)
  pub open_apk : String → Result ApkFile
  pub md5_hex : String → String
  pub sha256_hex : String → String
  pub presigned : String → String
  pub jwt_secret : String
  pub jwt_expire_hours : ℤ
  pub max_upload_size_mb : ℤ
  pub engine_version : String
  pub default_vmp_rules : String
  pub bind_login : String → Result LoginRequest
  pub bind_create_user : String → Result CreateUserRequest
  pub bind_update_user : String → Result UpdateUserInput
  pub bind_user_status : String → Result UserStatus
  pub bind_strategy : String → Result SaveStrategyRequest
  pub bind_task : String → Result CreateHardeningTaskRequest

-- The data of a reply.
pub data Payload (Float : Type 0) : Type 0 where
  no_data : Payload Float
  health_data : String → Payload Float
  session_data : String × User → Payload Float
  user_data : User → Payload Float
  users_data : List User × ℕ → Payload Float
  app_data : App → Payload Float
  apps_data : List App × ℕ → Payload Float
  url_data : String → Payload Float
  template_data : List (String × Strategy) → Payload Float
  strategy_data : Strategy → Payload Float
  strategies_data : List Strategy × ℕ → Payload Float
  deleted_data : Bool → Payload Float
  task_data : HardeningTaskDetail → Payload Float
  tasks_data : List LoadedTask × ℕ → Payload Float
  history_data : List LoadedTask → Payload Float
  logs_data : List HardeningLog → Payload Float
  report_data : HardeningReport → Payload Float
  overview_data : DashboardOverview Float → Payload Float
  audit_data : List AuditLog × ℕ → Payload Float
  requests_data : List ApiRequestLog × ℕ → Payload Float

abbrev pub with_data : {A B : Type 0} → (A → B) → Reply A × World → Reply B × World
with_data f (success status a, w) = (success status (f a), w)
with_data f (failure status code message, w) = (failure status code message, w)

module _ (deps : Deps) where
  abbrev pub handle : Endpoint → Request → Handler (Payload deps.Float)
  handle Endpoint.health c w = (success 200 (health_data "ok"), w)
  handle Endpoint.login c w = with_data session_data (
      handle_login deps.sign deps.compare_hash_and_password deps.jwt_secret deps.jwt_expire_hours
        deps.bind_login c w)
  handle Endpoint.me c w = with_data user_data (handle_me c w)
  handle Endpoint.upload_app c w =
      with_data app_data
        (handle_upload deps.open_apk deps.md5_hex deps.sha256_hex deps.max_upload_size_mb c w)
  handle Endpoint.list_apps c w = with_data apps_data (handle_list_apps deps.ilike c w)
  handle Endpoint.get_app c w = with_data app_data (handle_get_app c w)
  handle Endpoint.app_history c w = with_data history_data (handle_app_history c w)
  handle Endpoint.delete_app c w = with_data (λ _. no_data) (handle_delete_app c w)
  handle Endpoint.app_download_url c w =
      with_data url_data (handle_app_download_url deps.presigned c w)
  handle Endpoint.list_users c w = with_data users_data (handle_list_users deps.ilike c w)
  handle Endpoint.create_user c w =
      with_data user_data (
        handle_create_user deps.generate_from_password deps.duplicate_key deps.bind_create_user c w)
  handle Endpoint.update_user c w =
      with_data user_data (handle_update_user deps.bind_update_user c w)
  handle Endpoint.update_user_status c w =
      with_data (λ _. no_data) (handle_update_user_status deps.bind_user_status c w)
  handle Endpoint.templates c w = with_data template_data (handle_templates c w)
  handle Endpoint.current_strategy c w = with_data strategy_data (handle_get_current c w)
  handle Endpoint.save_current_strategy c w =
      with_data strategy_data (handle_save_current deps.bind_strategy c w)
  handle Endpoint.list_strategies c w =
      with_data strategies_data (handle_list_strategies deps.ilike c w)
  handle Endpoint.create_strategy c w =
      with_data strategy_data (handle_create_strategy deps.bind_strategy c w)
  handle Endpoint.get_strategy c w = with_data strategy_data (handle_get_strategy c w)
  handle Endpoint.update_strategy c w =
      with_data strategy_data (handle_update_strategy deps.bind_strategy c w)
  handle Endpoint.delete_strategy c w = with_data deleted_data (handle_delete_strategy c w)
  handle Endpoint.create_task c w =
      with_data task_data
        (handle_create_task deps.default_vmp_rules deps.task_no_of deps.bind_task c w)
  handle Endpoint.list_tasks c w = with_data tasks_data (handle_list_tasks deps.ilike c w)
  handle Endpoint.overview c w = with_data overview_data (
      handle_get_overview
        (get_overview deps.Float deps.float_zero deps.percentage deps.average_seconds
          deps.round_to_int deps.start_of_day deps.hour_of deps.engine_version)
        c w)
  handle Endpoint.get_task c w = with_data task_data (handle_get_task c w)
  handle Endpoint.task_logs c w = with_data logs_data (handle_task_logs c w)
  handle Endpoint.task_report c w =
      with_data report_data (handle_get_report deps.to_lower deps.engine_version c w)
  handle Endpoint.task_download_url c w =
      with_data url_data (handle_task_download_url deps.presigned c w)
  handle Endpoint.audit_logs c w = with_data audit_data (handle_audit_list deps.parse_time c w)
  handle Endpoint.api_logs c w = with_data requests_data (handle_request_list deps.parse_time c w)
