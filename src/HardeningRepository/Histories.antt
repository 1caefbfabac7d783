-- ===== src/HardeningRepository/Histories.antt =====
-- Histories: any sequence of calls of the repository's operations, by the worker and by requests,
-- each of which may fail at any of its statements. What every history keeps of the tasks.
use beetle_shield_backend.Prelude.{ℕ, Bool, String, List, [], ◌∷◌, ◌≢◌, All}
use beetle_shield_backend.Model.{
  AppStatus, HardeningLog, HardeningStep, HardeningTask, HardeningTaskStatus, RiskLevel,
}
use beetle_shield_backend.Store.{Db, World, update_steps}
use beetle_shield_backend.Store.Hoare.{Keeps, Keeps-insert_row, Keeps-update_steps, keeps_rules}
use beetle_shield_backend.HardeningRepository.Tasks.{
  Artifacts, create_task_with_steps_for_app, mark_task_running, record_artifacts,
  complete_task_for_app, fail_task_for_app, recover_running_tasks,
}
use beetle_shield_backend.HardeningRepository.Steps.{
  start_step, finish_step_success, finish_step_failed, append_log,
}
use beetle_shield_backend.HardeningRepository.Active.{
  OneActive, create_task_with_steps_for_app-OneActive, mark_task_running-OneActive,
  record_artifacts-OneActive, complete_task_for_app-OneActive, fail_task_for_app-OneActive,
  recover_running_tasks-OneActive,
}
use beetle_shield_backend.HardeningRepository.Cleared.{
  FailedCleared, NotFailed, record_artifacts-FailedCleared,
  create_task_with_steps_for_app-FailedCleared, mark_task_running-FailedCleared,
  complete_task_for_app-FailedCleared, fail_task_for_app-FailedCleared,
  recover_running_tasks-FailedCleared,
}
use beetle_shield_backend.HardeningRepository.Evolution.{
  Evolved, Evolved-refl, EvolvedFrom, create_task_with_steps_for_app-EvolvedFrom,
  mark_task_running-EvolvedFrom, record_artifacts-EvolvedFrom, complete_task_for_app-EvolvedFrom,
  fail_task_for_app-EvolvedFrom, recover_running_tasks-EvolvedFrom,
}

-- The operations that write, each with its arguments.
pub data Operation : Type 0 where
  create_task : HardeningTask → AppStatus → Operation
  mark_running : ℕ → ℕ → Operation
  store_artifacts : ℕ → Artifacts → Operation
  complete_task : ℕ → Artifacts → ℕ → RiskLevel → Operation
  fail_task : ℕ → String → ℕ → Operation
  recover_tasks : String → Operation
  begin_step : ℕ → ℕ → Operation
  succeed_step : ℕ → ℕ → Operation
  fail_step : ℕ → String → ℕ → Operation
  add_log : HardeningLog → Operation

-- The world behind an operation, whether it succeeds or fails.
abbrev pub apply : Operation → World → World
apply (create_task task s) w = (create_task_with_steps_for_app task s w).1
apply (mark_running id now) w = (mark_task_running id now w).1
apply (store_artifacts id artifacts) w = (record_artifacts id artifacts w).1
apply (complete_task id artifacts now r) w = (complete_task_for_app id artifacts now r w).1
apply (fail_task id summary now) w = (fail_task_for_app id summary now w).1
apply (recover_tasks summary) w = (recover_running_tasks summary w).1
apply (begin_step id now) w = (start_step id now w).1
apply (succeed_step id now) w = (finish_step_success id now w).1
apply (fail_step id message now) w = (finish_step_failed id message now w).1
apply (add_log log) w = (append_log log w).1

abbrev pub history : List Operation → World → World
history [] w = w
history (op ∷ ops) w = history ops (apply op w)

-- A predicate that does not look at the steps and the logs.
module _ (P : Db → Type 0) (any_steps : (d : Db) (ss : _) → P d → P (record d { steps = ss }))
    (any_logs : (d : Db) (ls : _) → P d → P (record d { logs = ls })) where
  steps_only :
      (q : HardeningStep → Bool) (f : HardeningStep → HardeningStep) → Keeps P (update_steps q f)
  steps_only q f = Keeps-update_steps q f (λ d p. any_steps d _ p)

  pub start_step-any : (id now : ℕ) → Keeps P (start_step id now)
  unfolding start_step
  start_step-any id now = search (keeps_rules, steps_only) depth 16

  pub finish_step_success-any : (id now : ℕ) → Keeps P (finish_step_success id now)
  unfolding finish_step_success
  finish_step_success-any id now = search (keeps_rules, steps_only)

  pub finish_step_failed-any :
      (id : ℕ) (m : String) (now : ℕ) → Keeps P (finish_step_failed id m now)
  unfolding finish_step_failed
  finish_step_failed-any id m now = search (keeps_rules, steps_only)

  pub append_log-any : (log : HardeningLog) → Keeps P (append_log log)
  unfolding append_log
  append_log-any log = Keeps-insert_row _ (λ id now d p. any_logs d _ p)

-- The condition holds of each operation in the world in which it starts.
abbrev pub Along : (Operation → World → Type 0) → List Operation → World → Type 0
Along Q [] w = Unit
Along Q (op ∷ ops) w = Q op w × Along Q ops (apply op w)

-- What each operation keeps, every history keeps.
module _ (P : Db → Type 0) (Q : Operation → World → Type 0)
    (step : (op : Operation) (w : World) → Q op w → P w.db → P (apply op w).db) where
  pub history-keeps :
      (ops : List Operation) (w : World) → Along Q ops w → P w.db → P (history ops w).db
  history-keeps [] w q p = p
  history-keeps (op ∷ ops) w q p = history-keeps ops (apply op w) q.1 (step op w q.0 p)

apply-OneActive : (op : Operation) (w : World) → OneActive w.db → OneActive (apply op w).db
apply-OneActive (create_task t s) w = (create_task_with_steps_for_app-OneActive t s).at w
apply-OneActive (mark_running id now) w = (mark_task_running-OneActive id now).at w
apply-OneActive (store_artifacts id a) w = (record_artifacts-OneActive id a).at w
apply-OneActive (complete_task id a now r) w = (complete_task_for_app-OneActive id a now r).at w
apply-OneActive (fail_task id m now) w = (fail_task_for_app-OneActive id m now).at w
apply-OneActive (recover_tasks m) w = (recover_running_tasks-OneActive m).at w
apply-OneActive (begin_step id now) w =
    (start_step-any OneActive (λ d ss p. p) (λ d ls p. p) id now).at w
apply-OneActive (succeed_step id now) w =
    (finish_step_success-any OneActive (λ d ss p. p) (λ d ls p. p) id now).at w
apply-OneActive (fail_step id m now) w =
    (finish_step_failed-any OneActive (λ d ss p. p) (λ d ls p. p) id m now).at w
apply-OneActive (add_log l) w = (append_log-any OneActive (λ d ss p. p) (λ d ls p. p) l).at w

any_operation : (ops : List Operation) (w : World) → Along (λ _ _. Unit) ops w
any_operation [] w = tt
any_operation (op ∷ ops) w = (tt, any_operation ops (apply op w))

-- If no app has two active tasks, none ever has: behind every sequence of operations, whichever
-- of them fail, at most one task of an app is queued or running.
pub history-OneActive :
    (ops : List Operation) (w : World) → OneActive w.db → OneActive (history ops w).db
history-OneActive ops w one =
    history-keeps OneActive (λ _ _. Unit) (λ op w _. apply-OneActive op w) ops w
      (any_operation ops w) one

module _ (base : List HardeningTask) where
  apply-EvolvedFrom :
      (op : Operation) (w : World) → EvolvedFrom base w.db → EvolvedFrom base (apply op w).db
  apply-EvolvedFrom (create_task t s) w = (create_task_with_steps_for_app-EvolvedFrom base t s).at w
  apply-EvolvedFrom (mark_running id now) w = (mark_task_running-EvolvedFrom base id now).at w
  apply-EvolvedFrom (store_artifacts id a) w = (record_artifacts-EvolvedFrom base id a).at w
  apply-EvolvedFrom (complete_task id a now r) w =
      (complete_task_for_app-EvolvedFrom base id a now r).at w
  apply-EvolvedFrom (fail_task id m now) w = (fail_task_for_app-EvolvedFrom base id m now).at w
  apply-EvolvedFrom (recover_tasks m) w = (recover_running_tasks-EvolvedFrom base m).at w
  apply-EvolvedFrom (begin_step id now) w =
      (start_step-any (EvolvedFrom base) (λ d ss p. p) (λ d ls p. p) id now).at w
  apply-EvolvedFrom (succeed_step id now) w =
      (finish_step_success-any (EvolvedFrom base) (λ d ss p. p) (λ d ls p. p) id now).at w
  apply-EvolvedFrom (fail_step id m now) w =
      (finish_step_failed-any (EvolvedFrom base) (λ d ss p. p) (λ d ls p. p) id m now).at w
  apply-EvolvedFrom (add_log l) w =
      (append_log-any (EvolvedFrom base) (λ d ss p. p) (λ d ls p. p) l).at w

-- Behind every sequence of operations, whichever of them fail, each task is still in its place
-- with the columns that it was created with, and its status has only moved on: from queued over
-- running to completed or failed.
pub history-Evolved :
    (ops : List Operation) (w : World) → Evolved w.db.tasks (history ops w).db.tasks
history-Evolved ops w =
    history-keeps (EvolvedFrom w.db.tasks) (λ _ _. Unit)
      (λ op v _. apply-EvolvedFrom w.db.tasks op v) ops w (any_operation ops w)
      (Evolved-refl w.db.tasks)

-- A task is not created as failed, and artifacts are recorded of no failed task.
abbrev pub KeepsCleared : Operation → World → Type 0
KeepsCleared (create_task t s) w = t.status ≢ HardeningTaskStatus.failed
KeepsCleared (store_artifacts id a) w = All (NotFailed id) w.db.tasks
KeepsCleared _ w = Unit

apply-FailedCleared :
    (op : Operation) (w : World)
    → KeepsCleared op w
    → FailedCleared w.db
    → FailedCleared (apply op w).db
apply-FailedCleared (create_task t s) w q =
    (create_task_with_steps_for_app-FailedCleared t s q).at w
apply-FailedCleared (mark_running id now) w q = (mark_task_running-FailedCleared id now).at w
apply-FailedCleared (store_artifacts id a) w q = record_artifacts-FailedCleared id a w q
apply-FailedCleared (complete_task id a now r) w q =
    (complete_task_for_app-FailedCleared id a now r).at w
apply-FailedCleared (fail_task id m now) w q = (fail_task_for_app-FailedCleared id m now).at w
apply-FailedCleared (recover_tasks m) w q = (recover_running_tasks-FailedCleared m).at w
apply-FailedCleared (begin_step id now) w q =
    (start_step-any FailedCleared (λ d ss p. p) (λ d ls p. p) id now).at w
apply-FailedCleared (succeed_step id now) w q =
    (finish_step_success-any FailedCleared (λ d ss p. p) (λ d ls p. p) id now).at w
apply-FailedCleared (fail_step id m now) w q =
    (finish_step_failed-any FailedCleared (λ d ss p. p) (λ d ls p. p) id m now).at w
apply-FailedCleared (add_log l) w q =
    (append_log-any FailedCleared (λ d ss p. p) (λ d ls p. p) l).at w

-- If every failed task claims no artifact, so it is behind every sequence of operations that
-- creates no failed task and records no artifacts of a failed one, whichever of them fail.
pub history-FailedCleared :
    (ops : List Operation) (w : World)
    → Along KeepsCleared ops w
    → FailedCleared w.db
    → FailedCleared (history ops w).db
history-FailedCleared ops w q h =
    history-keeps FailedCleared KeepsCleared apply-FailedCleared ops w q h
