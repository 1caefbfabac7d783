-- ===== src/HardeningService/Operations.antt =====
-- The operations of HardeningService, and AppRepository.FindByID. The service's presigned links, the
-- number of a task made from the time, and strings.ToLower are parameters.
use Prim.Native.String.{◌++◌ as append}
use beetle_shield_backend.Prelude.{
  ℕ, true, false, ◌||◌, not, String, Option, none, some, List, ltb, str_eq, first_where,
  if◌then◌else◌,
}
use beetle_shield_backend.Prelude.Int.{pos}
use beetle_shield_backend.Model.{
  App, AppStatus, AuditAction, HardeningLog, HardeningStep, HardeningTask, HardeningTaskStatus,
  Strategy, is_completed,
}
use beetle_shield_backend.Store.{
  Error, Result, ok, err, is_record_not_found, M, ◌>>=◌, ◌>>◌, pure, fail, guard, attempt,
  from_result, map_error, time_now, first, external_call, hardening_app_not_found,
  hardening_task_not_found, hardening_active_task_exists, hardening_artifact_not_found,
  invalid_hardening_artifact, hardening_report_not_ready, hardening_strategy_not_found,
}
use beetle_shield_backend.Audit.{record_audit, error_text}
use beetle_shield_backend.Engine.{normalize_vmp_rules}
use beetle_shield_backend.Report.{HardeningReport, build_hardening_report}
use beetle_shield_backend.Strategies.{default_strategy_name, resolve_for_hardening}
use beetle_shield_backend.HardeningRepository.{
  LoadedTask, HardeningLogFilter, app_has_id, create_task_with_steps_for_app, find_by_id, logs,
  recent_by_app, steps,
}

pub record CreateHardeningTaskInput : Type 0 where
  pub app_id : ℕ
  pub strategy_id : ℕ
  pub strategy_name : String
  pub strategy_snapshot : Option Strategy
  pub created_by : ℕ
  pub ip : String

pub record HardeningTaskDetail : Type 0 where
  pub task : LoadedTask
  pub steps : List HardeningStep
  pub recent_logs : List HardeningLog

-- `if errors.Is(err, gorm.ErrRecordNotFound) { return found }`
abbrev pub not_found_as : Error → Error → Error
not_found_as instead e = if is_record_not_found e then instead else e

unfoldable pub find_app : ℕ → M App
find_app id = first (λ d. first_where (app_has_id id) d.apps)

unfoldable pub get : ℕ → M HardeningTaskDetail
get id = do
  task ← map_error (not_found_as hardening_task_not_found) (find_by_id id)
  ss ← steps id
  ls ← logs id (record { step_key = ""; after_id = 0; limit = pos 20 })
  pure (record { task = task; steps = ss; recent_logs = ls })

unfoldable pub task_logs : ℕ → HardeningLogFilter → M (List HardeningLog)
task_logs task_id filter = do
  task ← map_error (not_found_as hardening_task_not_found) (find_by_id task_id)
  logs task_id filter

unfoldable pub app_history : ℕ → M (List LoadedTask)
app_history app_id = do
  app ← map_error (not_found_as hardening_app_not_found) (find_app app_id)
  recent_by_app app_id (pos 5)

abbrev pub missing_strategy : Error → Error
missing_strategy Error.strategy_not_found = hardening_strategy_not_found
missing_strategy e = e

abbrev pub or_current : String → Option Strategy → M (Strategy × String)
or_current name (some snapshot) = pure (snapshot, name)
or_current name none = resolve_for_hardening 0

-- The strategy of a new task: the one named by its key, the one sent, or the current one.
unfoldable pub choose_strategy : CreateHardeningTaskInput → M (Strategy × String)
choose_strategy input =
    if ltb 0 input.strategy_id
    then map_error missing_strategy (resolve_for_hardening input.strategy_id)
    else or_current input.strategy_name input.strategy_snapshot

-- The row of a new task, before its insert.
abbrev pub new_task : String → String → ℕ → Strategy × String → ℕ → HardeningTask
new_task default_vmp_rules task_no app_id (strategy, name) created_by = record {
  id = 0;
  task_no = task_no;
  app_id = app_id;
  status = HardeningTaskStatus.queued;
  strategy_name = if str_eq name "" then default_strategy_name else name;
  strategy_snapshot = record strategy {
    vmp_rules_text = normalize_vmp_rules strategy.vmp_rules_text default_vmp_rules;
  };
  unsigned_object_key = "";
  unsigned_file_size = 0;
  unsigned_sha256 = "";
  signed_test_object_key = "";
  signed_test_file_size = 0;
  signed_test_sha256 = "";
  error_summary = "";
  created_by = created_by;
  started_at = none;
  finished_at = none;
  created_at = 0;
  updated_at = 0;
}

abbrev creation_error : Error → Error
creation_error Error.active_hardening_task_exists = hardening_active_task_exists
creation_error e = not_found_as hardening_app_not_found e

abbrev audit_failure : CreateHardeningTaskInput → Error → M (Unit {0})
audit_failure input e = record_audit (record {
  actor_user_id = input.created_by;
  actor_email = "";
  action = AuditAction.hardening_create;
  target_type = "app";
  target_id = input.app_id;
  detail = append "创建加固任务失败 - " (error_text e);
  ip = input.ip;
  success = false;
})

-- The deferred audit, where an error is returned.
abbrev pub audit_if_failed :
    CreateHardeningTaskInput → Result HardeningTaskDetail → M HardeningTaskDetail
audit_if_failed input (ok detail) = pure detail
audit_if_failed input (err e) = audit_failure input e >> fail e

abbrev pub artifact_key : String → HardeningTask → Result String
artifact_key artifact t =
    if str_eq artifact "" || str_eq artifact "unsigned"
    then ok t.unsigned_object_key
    else if str_eq artifact "signed_test"
    then ok t.signed_test_object_key
    else err invalid_hardening_artifact

abbrev artifact_label : String → String
artifact_label artifact = if str_eq artifact "" then "unsigned" else artifact

module _ (default_vmp_rules : String) (task_no_of : ℕ → String) where
  abbrev pub create_body : CreateHardeningTaskInput → M HardeningTaskDetail
  create_body input = do
    app ← map_error (not_found_as hardening_app_not_found) (find_app input.app_id)
    chosen ← choose_strategy input
    now ← time_now
    let task = new_task default_vmp_rules (task_no_of now) app.id chosen input.created_by
    id ← map_error creation_error (create_task_with_steps_for_app task AppStatus.processing)
    record_audit (record {
      actor_user_id = input.created_by;
      actor_email = "";
      action = AuditAction.hardening_create;
      target_type = "hardening_task";
      target_id = id;
      detail = append app.name (append " / " task.task_no);
      ip = input.ip;
      success = true;
    })
    get id

  unfoldable pub create : CreateHardeningTaskInput → M HardeningTaskDetail
  create input = attempt (create_body input) >>= audit_if_failed input

module _ (presigned : String → String) where
  unfoldable pub download_url : ℕ → String → ℕ → String → M String
  download_url task_id artifact actor ip = do
    t ← map_error (not_found_as hardening_task_not_found) (find_by_id task_id)
    key ← from_result (artifact_key artifact t.task)
    guard (not (str_eq key "")) hardening_artifact_not_found
    external_call
    record_audit (record {
      actor_user_id = actor;
      actor_email = "";
      action = AuditAction.hardening_download;
      target_type = "hardening_task";
      target_id = t.task.id;
      detail =
          append t.app.name
            (append " / " (append t.task.task_no (append " / " (artifact_label artifact))));
      ip = ip;
      success = true;
    })
    pure (presigned key)

module _ (to_lower : String → String) (engine_version : String) where
  unfoldable pub get_report : ℕ → M HardeningReport
  get_report task_id = do
    t ← map_error (not_found_as hardening_task_not_found) (find_by_id task_id)
    guard (is_completed t.task.status) hardening_report_not_ready
    pure (build_hardening_report to_lower t.task t.app engine_version)
