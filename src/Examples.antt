-- ===== src/Examples.antt =====
-- The theorems at concrete inputs: one app, its tasks, a strategy, and an engine that writes both
-- artifacts.
mod Run
mod Reports
mod Services
mod Web
mod Routes
mod Machine
mod Loop
use beetle_shield_backend.Prelude.{
  ℕ, ◌≡◌, ◌≢◌, ◌<◌, ◌≤◌, refl, true, false, String, Option, none, some, List, [], ◌∷◌, All, ◌==◌,
  ◌&&◌, count_where, rows_where, arith,
}
use beetle_shield_backend.Prelude.Int.{pos}
use beetle_shield_backend.Model.{
  App, AppStatus, AppTag, HardeningLog, HardeningLogLevel, HardeningStep, HardeningStepKey,
  HardeningStepStatus, HardeningTask, HardeningTaskStatus, RiskLevel, Strategy, zero_app,
  zero_strategy, is_running,
}
use beetle_shield_backend.Store.{Db, World, Result, record_not_found, ok, err, running}
use beetle_shield_backend.HardeningRepository.Creation.{IsCreated}
use beetle_shield_backend.HardeningRepository.Transitions.{IsTransitioned, transition_needs_app}
use beetle_shield_backend.HardeningRepository.Active.{OneActive}
use beetle_shield_backend.HardeningRepository.Cleared.{FailedCleared}
use beetle_shield_backend.HardeningRepository.Evolution.{Evolved}
use beetle_shield_backend.HardeningRepository.Histories.{
  Operation, create_task, mark_running, store_artifacts, complete_task, fail_task, recover_tasks,
  history, apply, history-OneActive, history-Evolved, history-FailedCleared,
}
use beetle_shield_backend.HardeningRepository.Guarantees.{
  create_task_with_steps_for_app_lem, failure, failure_changes_nothing,
}
use beetle_shield_backend.HardeningRepository.Recovered.{recover_running_tasks_lem}
use beetle_shield_backend.HardeningRepository.Recovery.{is_orphan, recover_running_tasks_blocked}
use beetle_shield_backend.HardeningRepository.{
  active_for, create_task_with_default_steps, create_steps, transition_task_for_app,
  lock_hardening_task, transition_task_for_app_tx, app_has_id, complete_updates, fail_updates,
  fail_tasks, mark_task_running, LoadedTask, find_step, start_step, finish_step_success, append_log,
  record_artifacts, Artifacts, create_task_with_steps_for_app, fail_task_for_app,
  recover_running_tasks, failed_task_artifact_fields,
}

abbrev pub app_7 : App
app_7 = record zero_app {
  id = 7;
  name = "Wallet";
  package_name = "com.wallet";
  version = "1.0";
  object_key = "uploads/wallet.apk";
}

abbrev pub zero_task : HardeningTask
zero_task = record {
  id = 0;
  task_no = "T1";
  app_id = 7;
  status = HardeningTaskStatus.queued;
  strategy_name = "finance";
  strategy_snapshot = zero_strategy;
  unsigned_object_key = "";
  unsigned_file_size = 0;
  unsigned_sha256 = "";
  signed_test_object_key = "";
  signed_test_file_size = 0;
  signed_test_sha256 = "";
  error_summary = "";
  created_by = 3;
  started_at = none;
  finished_at = none;
  created_at = 0;
  updated_at = 0;
}

abbrev pub task_1 : HardeningTask
task_1 = record zero_task { id = 1; status = HardeningTaskStatus.running; started_at = some 2 }

abbrev pub with_tasks : List HardeningTask → Db
with_tasks tasks = record {
  users = [];
  apps = app_7 ∷ [];
  strategies = [];
  tasks = tasks;
  steps = [];
  logs = [];
  audit_logs = [];
  request_logs = [];
}

-- No call fails, and the clock counts the calls.
abbrev pub fair : Db → World
fair d = record { db = d; objects = []; next_id = 20; calls = 0; fault = λ _. none; clock = λ n. n }

abbrev pub artifacts : Artifacts
artifacts = record {
  unsigned_key = "a/unsigned.apk";
  unsigned_size = 10;
  unsigned_sha = "aa";
  signed_key = "";
  signed_size = 0;
  signed_sha = "";
}

created :
    (create_task_with_steps_for_app zero_task AppStatus.processing (fair (with_tasks []))).0 ≡ ok 20
unfolding create_task_with_steps_for_app running create_task_with_default_steps create_steps
created = refl

recovers : (recover_running_tasks "restart" (fair (with_tasks (task_1 ∷ [])))).0 ≡ ok (task_1 ∷ [])
unfolding recover_running_tasks running fail_tasks transition_task_for_app_tx
recovers = refl

create_task_with_steps_for_app_example :
    IsCreated
      (with_tasks [])
      zero_task
      AppStatus.processing
      20
      (create_task_with_steps_for_app zero_task AppStatus.processing (fair (with_tasks []))).1.db
create_task_with_steps_for_app_example =
    create_task_with_steps_for_app_lem zero_task AppStatus.processing (fair (with_tasks [])) 20
      created

recover_running_tasks_example :
    ((task_1 ∷ []) ≡ rows_where (λ t. is_running t.status) (task_1 ∷ []))
    × (count_where
          (λ t. is_running t.status)
          (recover_running_tasks "restart" (fair (with_tasks (task_1 ∷ [])))).1.db.tasks
        ≡ 0)
recover_running_tasks_example =
    recover_running_tasks_lem "restart" (fair (with_tasks (task_1 ∷ []))) (task_1 ∷ []) recovers

-- The task of an app that is gone.
abbrev orphan : HardeningTask
orphan = record task_1 { app_id = 8 }

orphan_there :
    0 < count_where (is_orphan (with_tasks (task_1 ∷ orphan ∷ []))) (task_1 ∷ orphan ∷ [])
orphan_there = omega arith

recover_running_tasks_blocked_example :
    ((ts : List HardeningTask)
      → (recover_running_tasks "restart" (fair (with_tasks (task_1 ∷ orphan ∷ [])))).0 ≢ ok ts)
    × ((recover_running_tasks "restart" (fair (with_tasks (task_1 ∷ orphan ∷ [])))).1.db
        ≡ with_tasks (task_1 ∷ orphan ∷ []))
recover_running_tasks_blocked_example =
    recover_running_tasks_blocked "restart" (fair (with_tasks (task_1 ∷ orphan ∷ []))) orphan_there

transition_needs_app_example :
    (transition_task_for_app 1
      (fail_updates "engine" 9)
      (λ a. record a { status = AppStatus.failed })
      (fair (with_tasks (orphan ∷ [])))).0
    ≢ ok tt
transition_needs_app_example =
    transition_needs_app (fair (with_tasks (orphan ∷ []))) 1 (fail_updates "engine" 9)
      (λ a. record a { status = AppStatus.failed }) orphan refl refl

-- A second creation and a second failure are refused.
abbrev operations : List Operation
operations =
    create_task zero_task AppStatus.processing
    ∷ create_task zero_task AppStatus.processing
    ∷ mark_running 20 30
    ∷ store_artifacts 20 artifacts
    ∷ complete_task 1 artifacts 40 RiskLevel.low
    ∷ fail_task 1 "late" 41
    ∷ recover_tasks "restart"
    ∷ []

no_task_active : OneActive (with_tasks [])
no_task_active a = omega arith

history-OneActive_example : OneActive (history operations (fair (with_tasks []))).db
history-OneActive_example = history-OneActive operations (fair (with_tasks [])) no_task_active

history-Evolved_example :
    Evolved (task_1 ∷ []) (history operations (fair (with_tasks (task_1 ∷ [])))).db.tasks
history-Evolved_example = history-Evolved operations (fair (with_tasks (task_1 ∷ [])))

abbrev failing : List Operation
failing = store_artifacts 1 artifacts ∷ fail_task 1 "engine" 41 ∷ recover_tasks "restart" ∷ []

history-FailedCleared_example : FailedCleared (history failing (fair (with_tasks (task_1 ∷ [])))).db
history-FailedCleared_example =
    history-FailedCleared failing (fair (with_tasks (task_1 ∷ [])))
      (((λ _ e. absurd (running_1 e)), tt), (tt, (tt, tt))) ((λ e. absurd (running_1 e)), tt)
  where
    running_1 : HardeningTaskStatus.running ≢ HardeningTaskStatus.failed
    running_1 e = cc

late : failure (fail_task 1 "late" 9) (fair (with_tasks [])) ≡ some record_not_found
unfolding fail_task_for_app running transition_task_for_app lock_hardening_task
late = refl

failure_changes_nothing_example :
    (apply (fail_task 1 "late" 9) (fair (with_tasks []))).db ≡ with_tasks []
failure_changes_nothing_example =
    failure_changes_nothing (fail_task 1 "late" 9) (fair (with_tasks [])) record_not_found late
