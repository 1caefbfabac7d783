-- ===== src/Model/Tasks.antt =====
-- internal/model/hardening.go. The association `App` is no column: a query that preloads it
-- returns it beside the task.
use Prim.Native.Nat.{ℕ}
use Prim.Native.String.{String}
use mathlib.Core.Bool.{Bool, true, false}
use mathlib.Core.Option.{Option}
use beetle_shield_backend.Model.Strategies.{Strategy}

pub data HardeningTaskStatus : Type 0 where
  queued running completed failed : HardeningTaskStatus

pub data HardeningStepStatus : Type 0 where
  waiting running success failed : HardeningStepStatus

pub data HardeningStepKey : Type 0 where
  prepare_input parse_package apply_strategy run_engine collect_artifacts : HardeningStepKey
  upload_artifacts : HardeningStepKey

pub data HardeningLogLevel : Type 0 where
  info warn error success : HardeningLogLevel

pub record HardeningTask : Type 0 where
  pub id : ℕ
  pub task_no : String
  pub app_id : ℕ
  pub status : HardeningTaskStatus
  pub strategy_name : String
  pub strategy_snapshot : Strategy
  pub unsigned_object_key : String
  pub unsigned_file_size : ℕ
  pub unsigned_sha256 : String
  pub signed_test_object_key : String
  pub signed_test_file_size : ℕ
  pub signed_test_sha256 : String
  pub error_summary : String
  pub created_by : ℕ
  pub started_at : Option ℕ
  pub finished_at : Option ℕ
  pub created_at : ℕ
  pub updated_at : ℕ

pub record HardeningStep : Type 0 where
  pub id : ℕ
  pub task_id : ℕ
  pub step_key : HardeningStepKey
  pub name : String
  pub status : HardeningStepStatus
  pub sort_order : ℕ
  pub started_at : Option ℕ
  pub finished_at : Option ℕ
  pub error_message : String
  pub created_at : ℕ
  pub updated_at : ℕ

pub record HardeningLog : Type 0 where
  pub id : ℕ
  pub task_id : ℕ
  pub step_id : Option ℕ
  pub level : HardeningLogLevel
  pub message : String
  pub created_at : ℕ

-- `status = ?`, on each status of a task
abbrev pub is_queued : HardeningTaskStatus → Bool
is_queued HardeningTaskStatus.queued = true
is_queued _ = false

abbrev pub is_running : HardeningTaskStatus → Bool
is_running HardeningTaskStatus.running = true
is_running _ = false

abbrev pub is_completed : HardeningTaskStatus → Bool
is_completed HardeningTaskStatus.completed = true
is_completed _ = false

-- `status IN ("queued", "running")`
abbrev pub is_active : HardeningTaskStatus → Bool
is_active HardeningTaskStatus.queued = true
is_active HardeningTaskStatus.running = true
is_active _ = false

abbrev pub is_waiting : HardeningStepStatus → Bool
is_waiting HardeningStepStatus.waiting = true
is_waiting _ = false

abbrev pub is_running_step : HardeningStepStatus → Bool
is_running_step HardeningStepStatus.running = true
is_running_step _ = false

abbrev pub is_success : HardeningStepStatus → Bool
is_success HardeningStepStatus.success = true
is_success _ = false

abbrev pub step_key_eq : HardeningStepKey → HardeningStepKey → Bool
step_key_eq HardeningStepKey.prepare_input HardeningStepKey.prepare_input = true
step_key_eq HardeningStepKey.parse_package HardeningStepKey.parse_package = true
step_key_eq HardeningStepKey.apply_strategy HardeningStepKey.apply_strategy = true
step_key_eq HardeningStepKey.run_engine HardeningStepKey.run_engine = true
step_key_eq HardeningStepKey.collect_artifacts HardeningStepKey.collect_artifacts = true
step_key_eq HardeningStepKey.upload_artifacts HardeningStepKey.upload_artifacts = true
step_key_eq _ _ = false
