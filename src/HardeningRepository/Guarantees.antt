-- ===== src/HardeningRepository/Guarantees.antt =====
-- What one call of an operation of the repository guarantees: on success the whole change, on
-- failure no change.
use beetle_shield_backend.Prelude.{
  update_where_none, update_where, count_where, first_where, ◌≢◌, ◌&&◌, ℕ, suc, ◌≡◌, refl, ap, Bool,
  true, false, not, String, Option, none, some, ◌==◌, arith,
}
use beetle_shield_backend.Model.{
  App, HardeningTaskStatus, is_running, AppStatus, HardeningStep, HardeningTask,
}
use beetle_shield_backend.Store.{
  Db, Error, record_not_found, external, World, Result, ok, err, M, call, insert_row, update_steps,
  update_tasks, require_updated_row, execute, continue, guard, ◌>>=◌,
}
use beetle_shield_backend.Store.Outcomes.{IsAtomic, transaction-IsAtomic}
use beetle_shield_backend.HardeningRepository.Tasks.{
  Artifacts, create_task_with_steps_for_app, mark_task_running, record_artifacts,
  complete_task_for_app, fail_task_for_app, recover_running_tasks, transition_task_for_app,
}
use beetle_shield_backend.HardeningRepository.Steps.{
  start_step, finish_step_success, finish_step_failed, append_log,
}
use beetle_shield_backend.HardeningRepository.Creation.{
  IsCreated, create_task_with_steps_for_app-IsCreated, create_task_with_steps_for_app-IsAtomic,
}
use beetle_shield_backend.HardeningRepository.Histories.{
  Operation, create_task, mark_running, store_artifacts, complete_task, fail_task, recover_tasks,
  begin_step, succeed_step, fail_step, add_log, apply,
}

-- A creation that succeeds with a key was one of a known app that had no active task, and has made
-- exactly the change that `IsCreated` says: the task, its six waiting steps, the app's status.
pub create_task_with_steps_for_app_lem :
    (task : HardeningTask) (s : AppStatus) (w : World) (id : ℕ)
    → (create_task_with_steps_for_app task s w).0 ≡ ok id
    → IsCreated w.db task s id (create_task_with_steps_for_app task s w).1.db
create_task_with_steps_for_app_lem task s w id e =
    (create_task_with_steps_for_app-IsCreated w.db task s).at w refl id e

-- How a task ends: it was found under its key, a row of that key was running, and its app was
-- there; exactly the running rows of the key and the rows of the app have changed, as given.
pub record IsEnded (before : Db) (id : ℕ) (f : HardeningTask → HardeningTask) (g : App → App)
    (after : Db) : Type 0 where
  pub task : HardeningTask
  pub found : first_where (λ t. t.id == id) before.tasks ≡ some task
  pub was_running : count_where (λ t. t.id == task.id && is_running t.status) before.tasks ≢ 0
  pub app_known : count_where (λ a. a.id == task.app_id) before.apps ≢ 0
  pub changed : after ≡ record before {
    tasks = update_where (λ t. t.id == task.id && is_running t.status) f before.tasks;
    apps = update_where (λ a. a.id == task.app_id) g before.apps;
  }

-- The columns of a completed task, and of a failed one.
abbrev pub completed_row : Artifacts → ℕ → HardeningTask → HardeningTask
completed_row artifacts now t = record t {
  status = HardeningTaskStatus.completed;
  unsigned_object_key = artifacts.unsigned_key;
  unsigned_file_size = artifacts.unsigned_size;
  unsigned_sha256 = artifacts.unsigned_sha;
  signed_test_object_key = artifacts.signed_key;
  signed_test_file_size = artifacts.signed_size;
  signed_test_sha256 = artifacts.signed_sha;
  error_summary = "";
  finished_at = some now;
}

abbrev pub failed_row : String → ℕ → HardeningTask → HardeningTask
failed_row summary now t = record t {
  status = HardeningTaskStatus.failed;
  unsigned_object_key = "";
  unsigned_file_size = 0;
  unsigned_sha256 = "";
  signed_test_object_key = "";
  signed_test_file_size = 0;
  signed_test_sha256 = "";
  error_summary = summary;
  finished_at = some now;
}

call-IsAtomic : {A : Type 0} (f : World → A × World) → IsAtomic (call f)
unfolding call
call-IsAtomic {A = A} f = record { at = λ w x. split w x (w.fault w.calls) }
  where
    split :
        (w : World) (x : Error) (o : Option String)
        → let r : Result A × World = elim o [
          | some e ↦ (err (external e), record w { calls = suc w.calls })
          | none ↦ let (a, w') = f w in (ok a, record w' { calls = suc w.calls })
        ] in
          r.0 ≡ err x → r.1.db ≡ w.db
    split w x none e = cc
    split w x (some y) e = refl

-- A statement that matches no row changes nothing, and one that fails neither.
updated-IsAtomic :
    (g : Db → ℕ × Db)
    → ((d : Db) → (g d).0 ≡ 0 → (g d).1 ≡ d)
    → IsAtomic (require_updated_row (execute g))
unfolding require_updated_row execute call ◌>>=◌
updated-IsAtomic g h = record { at = λ w x. split w x (w.fault w.calls) }
  where
    checked :
        (w v : World) (n : ℕ) (x : Error)
        → (n ≡ 0 → v.db ≡ w.db)
        → (b : Bool) → (n == 0) ≡ b
        → (guard (not b) record_not_found v).0 ≡ err x
        → (guard (not b) record_not_found v).1.db ≡ w.db
    checked w v n x k true q e = k (ground arith)
    checked w v n x k false q e = cc

    split :
        (w : World) (x : Error) (o : Option String)
        → let r : Result ℕ × World = elim o [
          | some e ↦ (err (external e), record w { calls = suc w.calls })
          | none ↦ (ok (g w.db).0, record (record w { db = (g w.db).1 }) { calls = suc w.calls })
        ] in
          (continue (λ n. guard (not (n == 0)) record_not_found) r).0 ≡ err x
          → (continue (λ n. guard (not (n == 0)) record_not_found) r).1.db ≡ w.db
    split w x none e =
        checked w (record (record w { db = (g w.db).1 }) { calls = suc w.calls }) (g w.db).0 x
          (h w.db) ((g w.db).0 == 0) refl e
    split w x (some y) e = refl

updated_tasks-IsAtomic :
    (p : HardeningTask → Bool) (f : HardeningTask → HardeningTask)
    → IsAtomic (require_updated_row (update_tasks p f))
unfolding update_tasks
updated_tasks-IsAtomic p f =
    updated-IsAtomic _ (λ d n. ap (λ ts. record d { tasks = ts }) (update_where_none p f d.tasks n))

updated_steps-IsAtomic :
    (p : HardeningStep → Bool) (f : HardeningStep → HardeningStep)
    → IsAtomic (require_updated_row (update_steps p f))
unfolding update_steps
updated_steps-IsAtomic p f =
    updated-IsAtomic _ (λ d n. ap (λ ss. record d { steps = ss }) (update_where_none p f d.steps n))

-- How an operation ended: its error, if it failed.
abbrev pub error_of : {A : Type 0} → Result A × World → Option Error
error_of (ok a, w) = none
error_of (err e, w) = some e

abbrev pub failure : Operation → World → Option Error
failure (create_task task s) w = error_of (create_task_with_steps_for_app task s w)
failure (mark_running id now) w = error_of (mark_task_running id now w)
failure (store_artifacts id artifacts) w = error_of (record_artifacts id artifacts w)
failure (complete_task id artifacts now r) w = error_of (complete_task_for_app id artifacts now r w)
failure (fail_task id summary now) w = error_of (fail_task_for_app id summary now w)
failure (recover_tasks summary) w = error_of (recover_running_tasks summary w)
failure (begin_step id now) w = error_of (start_step id now w)
failure (succeed_step id now) w = error_of (finish_step_success id now w)
failure (fail_step id message now) w = error_of (finish_step_failed id message now w)
failure (add_log log) w = error_of (append_log log w)

unchanged :
    {A : Type 0} (m : M A) (w : World) (e : Error)
    → IsAtomic m
    → error_of (m w) ≡ some e
    → (m w).1.db ≡ w.db
unchanged {A = A} m w e a h = split (m w) (λ x. a.at w x) h
  where
    split :
        (r : Result A × World)
        → ((x : Error) → r.0 ≡ err x → r.1.db ≡ w.db)
        → error_of r ≡ some e
        → r.1.db ≡ w.db
    split (ok b, v) k h' = cc
    split (err x, v) k h' = k x refl

-- An operation of the repository that fails, with whatever error, leaves every table as it was.
pub failure_changes_nothing :
    (op : Operation) (w : World) (e : Error) → failure op w ≡ some e → (apply op w).db ≡ w.db
failure_changes_nothing (create_task t s) w e =
    unchanged _ w e (create_task_with_steps_for_app-IsAtomic t s)
failure_changes_nothing (mark_running id now) w e =
    unfold mark_task_running in unchanged _ w e (updated_tasks-IsAtomic _ _)
failure_changes_nothing (store_artifacts id a) w e =
    unfold record_artifacts in unchanged _ w e (updated_tasks-IsAtomic _ _)
failure_changes_nothing (complete_task id a now r) w e =
    unfold complete_task_for_app transition_task_for_app in unchanged _ w e (transaction-IsAtomic _)
failure_changes_nothing (fail_task id m now) w e =
    unfold fail_task_for_app transition_task_for_app in unchanged _ w e (transaction-IsAtomic _)
failure_changes_nothing (recover_tasks m) w e =
    unfold recover_running_tasks in unchanged _ w e (transaction-IsAtomic _)
failure_changes_nothing (begin_step id now) w e =
    unfold start_step in unchanged _ w e (transaction-IsAtomic _)
failure_changes_nothing (succeed_step id now) w e =
    unfold finish_step_success in unchanged _ w e (updated_steps-IsAtomic _ _)
failure_changes_nothing (fail_step id m now) w e =
    unfold finish_step_failed in unchanged _ w e (updated_steps-IsAtomic _ _)
failure_changes_nothing (add_log l) w e =
    unfold append_log insert_row in unchanged _ w e (call-IsAtomic _)
