-- ===== src/HardeningRepository/Tasks.antt =====
-- The operations on tasks: creation, the transitions of the status, artifacts, recovery.
use beetle_shield_backend.Prelude.{
  ℕ, Bool, true, false, ◌&&◌, String, none, some, List, [], ◌∷◌, ◌++◌, ◌==◌, ltb, count_where,
  rows_where, first_where, if◌then◌else◌,
}
use beetle_shield_backend.Model.{
  App, AppStatus, HardeningStep, HardeningStepKey, HardeningStepStatus, HardeningTask,
  HardeningTaskStatus, RiskLevel, is_active, is_queued, is_running, is_running_step,
}
use beetle_shield_backend.Store.{
  active_hardening_task_exists, M, ◌>>=◌, ◌>>◌, pure, guard, time_now, query, insert_row, first,
  require_updated_row, update_tasks, update_steps, update_apps, transaction,
}

-- A step of `defaultHardeningSteps`.
pub record StepTemplate : Type 0 where
  pub step_key : HardeningStepKey
  pub name : String
  pub sort_order : ℕ

abbrev pub default_hardening_steps : List StepTemplate
default_hardening_steps =
    record { step_key = HardeningStepKey.prepare_input; name = "准备输入"; sort_order = 1 }
    ∷ record { step_key = HardeningStepKey.parse_package; name = "解析包体"; sort_order = 2 }
    ∷ record { step_key = HardeningStepKey.apply_strategy; name = "应用策略"; sort_order = 3 }
    ∷ record { step_key = HardeningStepKey.run_engine; name = "执行加固"; sort_order = 4 }
    ∷ record { step_key = HardeningStepKey.collect_artifacts; name = "收集产物"; sort_order = 5 }
    ∷ record { step_key = HardeningStepKey.upload_artifacts; name = "上传产物"; sort_order = 6 }
    ∷ []

-- `app_id = ? AND status IN ("queued", "running")`
abbrev pub active_for : ℕ → HardeningTask → Bool
active_for app_id t = t.app_id == app_id && is_active t.status

-- `id = ? AND status = "queued"`
abbrev pub queued_with_id : ℕ → HardeningTask → Bool
queued_with_id id t = t.id == id && is_queued t.status

abbrev pub running_with_id : ℕ → HardeningTask → Bool
running_with_id id t = t.id == id && is_running t.status

abbrev pub has_id : ℕ → HardeningTask → Bool
has_id id t = t.id == id

abbrev pub app_has_id : ℕ → App → Bool
app_has_id id a = a.id == id

-- The row of a step, as it is created from its template.
abbrev pub step_row : StepTemplate → ℕ → ℕ → ℕ → HardeningStep
step_row template task_id id now = record {
  id = id;
  task_id = task_id;
  step_key = template.step_key;
  name = template.name;
  status = HardeningStepStatus.waiting;
  sort_order = template.sort_order;
  started_at = none;
  finished_at = none;
  error_message = "";
  created_at = now;
  updated_at = now;
}

-- `tx.Create(&step)`
unfoldable pub create_step : StepTemplate → ℕ → M (Unit {0})
create_step template task_id =
    insert_row
      (λ id now d. (tt, record d { steps = d.steps ++ (step_row template task_id id now ∷ []) }))

unfoldable pub create_steps : List StepTemplate → ℕ → M (Unit {0})
unfolding create_step
create_steps [] task_id = pure tt
create_steps (template ∷ rest) task_id = create_step template task_id >> create_steps rest task_id

-- The key and the times are assigned by the insert. The id is returned, which in the source is
-- written into the caller's struct.
unfoldable pub create_task_with_default_steps : HardeningTask → M ℕ
create_task_with_default_steps task = do
  id ← insert_row (λ id now d. (
    id,
    record d {
      tasks = d.tasks ++ (record task { id = id; created_at = now; updated_at = now } ∷ []);
    },
  ))
  create_steps default_hardening_steps id
  pure id

unfoldable pub create_task_with_steps_for_app : HardeningTask → AppStatus → M ℕ
create_task_with_steps_for_app task app_status = transaction (do
  app ← first (λ d. first_where (app_has_id task.app_id) d.apps)
  count ← query (λ d. count_where (active_for task.app_id) d.tasks)
  guard (count == 0) active_hardening_task_exists
  id ← create_task_with_default_steps task
  require_updated_row (update_apps (app_has_id task.app_id) (λ a. record a { status = app_status }))
  pure id)

unfoldable pub has_active_task_for_app : ℕ → M Bool
has_active_task_for_app app_id = do
  count ← query (λ d. count_where (active_for app_id) d.tasks)
  pure (ltb 0 count)

unfoldable pub mark_task_running : ℕ → ℕ → M (Unit {0})
mark_task_running task_id started_at = require_updated_row (
    update_tasks (queued_with_id task_id)
      (λ t. record t { status = HardeningTaskStatus.running; started_at = some started_at }))

-- What the six artifact columns of a task hold.
pub record Artifacts : Type 0 where
  pub unsigned_key : String
  pub unsigned_size : ℕ
  pub unsigned_sha : String
  pub signed_key : String
  pub signed_size : ℕ
  pub signed_sha : String

abbrev pub set_artifacts : Artifacts → HardeningTask → HardeningTask
set_artifacts a t = record t {
  unsigned_object_key = a.unsigned_key;
  unsigned_file_size = a.unsigned_size;
  unsigned_sha256 = a.unsigned_sha;
  signed_test_object_key = a.signed_key;
  signed_test_file_size = a.signed_size;
  signed_test_sha256 = a.signed_sha;
}

-- The six columns of a row, read back.
abbrev pub artifacts_of : HardeningTask → Artifacts
artifacts_of t = record {
  unsigned_key = t.unsigned_object_key;
  unsigned_size = t.unsigned_file_size;
  unsigned_sha = t.unsigned_sha256;
  signed_key = t.signed_test_object_key;
  signed_size = t.signed_test_file_size;
  signed_sha = t.signed_test_sha256;
}

-- `failedTaskArtifactFields`
abbrev pub failed_task_artifact_fields : Artifacts
failed_task_artifact_fields = record {
  unsigned_key = "";
  unsigned_size = 0;
  unsigned_sha = "";
  signed_key = "";
  signed_size = 0;
  signed_sha = "";
}

unfoldable pub record_artifacts : ℕ → Artifacts → M (Unit {0})
record_artifacts task_id artifacts =
    require_updated_row (update_tasks (has_id task_id) (set_artifacts artifacts))

-- Both callers expect the status `running`.
unfoldable pub transition_task_for_app_tx :
    ℕ → ℕ → (HardeningTask → HardeningTask) → (App → App) → M (Unit {0})
transition_task_for_app_tx task_id app_id task_updates app_updates = do
  require_updated_row (update_tasks (running_with_id task_id) task_updates)
  require_updated_row (update_apps (app_has_id app_id) app_updates)

unfoldable pub lock_hardening_task : ℕ → M HardeningTask
lock_hardening_task task_id = first (λ d. first_where (has_id task_id) d.tasks)

unfoldable pub transition_task_for_app :
    ℕ → (HardeningTask → HardeningTask) → (App → App) → M (Unit {0})
transition_task_for_app task_id task_updates app_updates = transaction (do
  task ← lock_hardening_task task_id
  transition_task_for_app_tx task.id task.app_id task_updates app_updates)

abbrev pub complete_updates : Artifacts → ℕ → HardeningTask → HardeningTask
complete_updates artifacts finished_at t =
    let u = set_artifacts artifacts t in
    record u {
      status = HardeningTaskStatus.completed;
      finished_at = some finished_at;
      error_summary = "";
    }

unfoldable pub complete_task_for_app : ℕ → Artifacts → ℕ → RiskLevel → M (Unit {0})
complete_task_for_app task_id artifacts finished_at risk_level =
    transition_task_for_app task_id (complete_updates artifacts finished_at)
      (λ a. record a { status = AppStatus.completed; risk_level = some risk_level })

abbrev pub fail_updates : String → ℕ → HardeningTask → HardeningTask
fail_updates summary finished_at t =
    let u = set_artifacts failed_task_artifact_fields t in
    record u {
      status = HardeningTaskStatus.failed;
      error_summary = summary;
      finished_at = some finished_at;
    }

unfoldable pub fail_task_for_app : ℕ → String → ℕ → M (Unit {0})
fail_task_for_app task_id summary finished_at =
    transition_task_for_app task_id (fail_updates summary finished_at)
      (λ a. record a { status = AppStatus.failed })

-- The loop of `RecoverRunningTasks`.
unfoldable pub fail_tasks : List HardeningTask → String → ℕ → M (Unit {0})
fail_tasks [] summary now = pure tt
fail_tasks (task ∷ rest) summary now =
    transition_task_for_app_tx task.id task.app_id (fail_updates summary now)
      (λ a. record a { status = AppStatus.failed })
    >> fail_tasks rest summary now

-- `task_id IN ids`
abbrev pub step_of_tasks : List HardeningTask → HardeningStep → Bool
step_of_tasks [] s = false
step_of_tasks (t ∷ ts) s = if s.task_id == t.id then true else step_of_tasks ts s

abbrev pub recover_body : String → List HardeningTask → M (List HardeningTask)
recover_body summary [] = pure []
recover_body summary (task ∷ rest) = do
  now ← time_now
  fail_tasks (task ∷ rest) summary now
  updated ←
      update_steps (λ s. step_of_tasks (task ∷ rest) s && is_running_step s.status)
        (λ s. record s {
          status = HardeningStepStatus.failed;
          error_message = summary;
          finished_at = some now;
        })
  pure (task ∷ rest)

-- The tasks are returned as they were before.
unfoldable pub recover_running_tasks : String → M (List HardeningTask)
recover_running_tasks summary = transaction (do
  tasks ← query (λ d. rows_where (λ t. is_running t.status) d.tasks)
  recover_body summary tasks)
