-- ===== src/Http/Hardening.antt =====
-- internal/handler/hardening_handler.go.
use beetle_shield_backend.Prelude.{ℕ, Bool, String, Option, List}
use beetle_shield_backend.Model.{HardeningLog, Strategy}
use beetle_shield_backend.Store.{Error, Result, M}
use beetle_shield_backend.Report.{HardeningReport}
use beetle_shield_backend.Dashboard.{DashboardOverview}
use beetle_shield_backend.HardeningRepository.{LoadedTask, list}
use beetle_shield_backend.HardeningService.{
  HardeningTaskDetail, app_history, create, download_url, get, get_report, task_logs,
}
use beetle_shield_backend.Http.Accounts.{bound, with_id}
use beetle_shield_backend.Http.Numbers.{parse_uint, parsed_or_none, parsed_value, atoi_value}
use beetle_shield_backend.Http.Reply.{
  Reply, failure, Handler, Request, default_query, query_text, respond,
}

pub record CreateHardeningTaskRequest : Type 0 where
  pub app_id : ℕ
  pub strategy_id : ℕ
  pub strategy_name : String
  pub strategy_snapshot : Option Strategy

abbrev pub task_creation_error : {A : Type 0} → Error → Reply A
task_creation_error Error.hardening_app_not_found = failure 404 40402 "应用不存在"
task_creation_error Error.hardening_active_task_exists = failure 409 40910 "应用已有进行中的加固任务"
task_creation_error Error.hardening_strategy_not_found = failure 404 40412 "加固策略不存在"
task_creation_error _ = failure 500 50020 "创建加固任务失败"

module _ (default_vmp_rules : String) (task_no_of : ℕ → String)
    (bind : String → Result CreateHardeningTaskRequest) where
  abbrev create_task_bound : Request → CreateHardeningTaskRequest → Handler HardeningTaskDetail
  create_task_bound c req =
      respond task_creation_error (λ detail. detail)
        (create default_vmp_rules task_no_of (record {
          app_id = req.app_id;
          strategy_id = req.strategy_id;
          strategy_name = req.strategy_name;
          strategy_snapshot = req.strategy_snapshot;
          created_by = c.user_id;
          ip = c.client_ip;
        }))

  unfoldable pub handle_create_task : Request → Handler HardeningTaskDetail
  handle_create_task c = bound 40020 (create_task_bound c) (bind c.body)

module _ (ilike : String → String → Bool) where
  unfoldable pub handle_list_tasks : Request → Handler (List LoadedTask × ℕ)
  handle_list_tasks c =
      respond (λ _. failure 500 50021 "查询加固任务失败") (λ page. page)
        (list ilike (record {
          status = query_text c "status";
          app_id = parsed_value (parse_uint (default_query c "appId" "0"));
          search = query_text c "search";
          page = atoi_value (default_query c "page" "1");
          page_size = atoi_value (default_query c "pageSize" "10");
        }))

-- `parseUintParam(c, "id")`
abbrev pub task_id : {B : Type 0} → Request → (ℕ → Handler B) → Handler B
task_id c handle = with_id 40021 "非法任务 ID" handle (parsed_or_none (parse_uint c.id_param))

-- A missing task, or the message of the query.
abbrev pub task_query_error : {A : Type 0} → String → Error → Reply A
task_query_error message Error.hardening_task_not_found = failure 404 40410 "加固任务不存在"
task_query_error message _ = failure 500 50021 message

unfoldable pub handle_get_task : Request → Handler HardeningTaskDetail
handle_get_task c =
    task_id c (λ id. respond (task_query_error "查询加固任务失败") (λ detail. detail) (get id))

unfoldable pub handle_task_logs : Request → Handler (List HardeningLog)
handle_task_logs c = task_id c (λ id.
    respond (task_query_error "查询加固日志失败") (λ logs. logs)
      (task_logs id (record {
        step_key = query_text c "stepKey";
        after_id = parsed_value (parse_uint (default_query c "afterId" "0"));
        limit = atoi_value (default_query c "limit" "-1");
      })))

abbrev pub artifact_error : {A : Type 0} → Error → Reply A
artifact_error Error.hardening_task_not_found = failure 404 40410 "加固任务不存在"
artifact_error Error.hardening_artifact_not_found = failure 404 40411 "加固产物不存在"
artifact_error Error.invalid_hardening_artifact = failure 400 40020 "非法产物类型"
artifact_error _ = failure 500 50022 "生成产物下载链接失败"

module _ (presigned : String → String) where
  unfoldable pub handle_task_download_url : Request → Handler String
  handle_task_download_url c = task_id c (λ id.
      respond artifact_error (λ url. url)
        (download_url presigned id (query_text c "artifact") c.user_id c.client_ip))

abbrev pub report_error : {A : Type 0} → Error → Reply A
report_error Error.hardening_task_not_found = failure 404 40410 "加固任务不存在"
report_error Error.hardening_report_not_ready = failure 409 40911 "加固任务未完成，无法生成报告"
report_error _ = failure 500 50023 "生成加固报告失败"

module _ (to_lower : String → String) (engine_version : String) where
  unfoldable pub handle_get_report : Request → Handler HardeningReport
  handle_get_report c =
      task_id c (λ id. respond report_error (λ r. r) (get_report to_lower engine_version id))

abbrev pub history_error : {A : Type 0} → Error → Reply A
history_error Error.hardening_app_not_found = failure 404 40402 "应用不存在"
history_error _ = failure 500 50021 "查询应用加固历史失败"

unfoldable pub handle_app_history : Request → Handler (List LoadedTask)
handle_app_history c = task_id c (λ id. respond history_error (λ items. items) (app_history id))

-- `get_overview` with its parameters.
abbrev pub handle_get_overview :
    {Float : Type 0} → M (DashboardOverview Float) → Request → Handler (DashboardOverview Float)
handle_get_overview overview c = respond (λ _. failure 500 50024 "查询系统总览失败") (λ o. o) overview
