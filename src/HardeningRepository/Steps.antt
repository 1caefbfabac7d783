-- ===== src/HardeningRepository/Steps.antt =====
-- The operations on the steps and the logs of a task.
use beetle_shield_backend.Prelude.{
  ℕ, Bool, ◌&&◌, not, String, none, some, [], ◌∷◌, ◌++◌, ◌==◌, ltb, count_where, first_where,
}
use beetle_shield_backend.Model.{
  HardeningLog, HardeningStep, HardeningStepKey, HardeningStepStatus, is_running, is_running_step,
  is_success, is_waiting, step_key_eq,
}
use beetle_shield_backend.Store.{
  prior_steps_incomplete, record_not_found, M, ◌>>=◌, ◌>>◌, guard, query, insert_row, first,
  require_updated_row, update_steps, transaction,
}
use beetle_shield_backend.HardeningRepository.Tasks.{has_id}

abbrev pub step_has_id : ℕ → HardeningStep → Bool
step_has_id id s = s.id == id

unfoldable pub find_step : ℕ → HardeningStepKey → M HardeningStep
find_step task_id key =
    first (λ d. first_where (λ s. s.task_id == task_id && step_key_eq s.step_key key) d.steps)

-- `task_id = ? AND sort_order < ? AND status <> "success"`
abbrev pub incomplete_prior : HardeningStep → HardeningStep → Bool
incomplete_prior step s =
    s.task_id == step.task_id && (ltb s.sort_order step.sort_order && not (is_success s.status))

unfoldable pub start_step : ℕ → ℕ → M (Unit {0})
start_step step_id started_at = transaction (do
  step ← first (λ d. first_where (step_has_id step_id) d.steps)
  guard (is_waiting step.status) record_not_found
  task ← first (λ d. first_where (has_id step.task_id) d.tasks)
  guard (is_running task.status) record_not_found
  incomplete_prior_steps ← query (λ d. count_where (incomplete_prior step) d.steps)
  guard (incomplete_prior_steps == 0) prior_steps_incomplete
  require_updated_row (
      update_steps (λ s. s.id == step_id && is_waiting s.status)
        (λ s. record s {
          status = HardeningStepStatus.running;
          started_at = some started_at;
          finished_at = none;
          error_message = "";
        })))

unfoldable pub finish_step_success : ℕ → ℕ → M (Unit {0})
finish_step_success step_id finished_at = require_updated_row (
    update_steps (λ s. s.id == step_id && is_running_step s.status)
      (λ s. record s {
        status = HardeningStepStatus.success;
        finished_at = some finished_at;
        error_message = "";
      }))

unfoldable pub finish_step_failed : ℕ → String → ℕ → M (Unit {0})
finish_step_failed step_id message finished_at = require_updated_row (
    update_steps (λ s. s.id == step_id && is_running_step s.status)
      (λ s. record s {
        status = HardeningStepStatus.failed;
        finished_at = some finished_at;
        error_message = message;
      }))

-- The key and the time of the row are assigned by the insert.
unfoldable pub append_log : HardeningLog → M (Unit {0})
append_log log = insert_row (λ id now d.
    (tt, record d { logs = d.logs ++ (record log { id = id; created_at = now } ∷ []) }))
