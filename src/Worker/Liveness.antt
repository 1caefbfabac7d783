-- ===== src/Worker/Liveness.antt =====
-- What becomes of a task that ProcessNext takes, where recording the outcome does not fail.
use beetle_shield_backend.Prelude.{
  ℕ, zero, update_where, suc, ◌+◌, [], ◌∷◌, All-update_where, ◌<◌, ◌≤◌, ◌≡◌, ◌≢◌, refl, sym, subst,
  true, ◌&&◌, String, some, none, List, ◌==◌, count_where, first_where, arith,
}
use beetle_shield_backend.Model.{AppStatus, HardeningTask, HardeningTaskStatus, is_completed}
use beetle_shield_backend.Store.{
  Db, World, Result, ok, err, ◌>>=◌, continue, pure, from_result, time_now, attempt, update_apps,
  update_tasks,
}
use beetle_shield_backend.Store.Hoare.{Keeps, keeps_rules}
use beetle_shield_backend.Store.Outcomes.{
  Leads, Leads-execute, Leads-imp, Leads-require_updated_row,
}
use beetle_shield_backend.Store.Success.{
  Fine, Succeeds, Succeeds-bind, Succeeds-execute, Succeeds-first, Succeeds-require_updated_row,
  Succeeds-transaction,
}
use beetle_shield_backend.HardeningRepository.{
  LoadedTask, app_has_id, fail_task_for_app, fail_updates, has_id, queued_with_id,
  lock_hardening_task, mark_task_running, running_with_id, transition_task_for_app,
  transition_task_for_app_tx,
}
use beetle_shield_backend.Worker.Completion.{IsDone, found_id, run_task-IsDone}
use beetle_shield_backend.Worker.Run.{process_task, run_task, settle}
use beetle_shield_backend.Worker.Settlement.{
  HasApps, IsSettled, IsTaken, fail_task_for_app-IsSettled, failed_rows, found_app, is_live,
  is_over, row_with, run_task-IsTaken, some_found,
}
use beetle_shield_backend.Worker.Steps.{Config}

-- Some row of the key runs.
abbrev IsRunning : ℕ → Db → Type 0
IsRunning id d = HasApps id d × (count_where (running_with_id id) d.tasks ≢ 0)

positive : {n k : ℕ} → n ≤ k → n ≢ 0 → 0 < k
positive h z = omega arith

live_rows :
    (id : ℕ) (ts : List HardeningTask)
    → count_where (row_with is_live id) ts
      ≤ count_where (row_with is_over id) ts + count_where (running_with_id id) ts
live_rows id [] = omega arith
live_rows id (t ∷ ts) = ground (arith, live_rows id ts)

module _ (id : ℕ) (summary : String) (now : ℕ) where
  transition_tx-Succeeds :
      (t : HardeningTask)
      → Succeeds
          (λ d. IsRunning id d × (first_where (has_id id) d.tasks ≡ some t))
          (transition_task_for_app_tx t.id t.app_id
            (fail_updates summary now)
            (λ a. record a { status = AppStatus.failed }))
          (λ _. IsSettled id)
  unfolding transition_task_for_app_tx update_tasks update_apps
  transition_tx-Succeeds t =
      Succeeds-bind _ (λ _ d. (count_where (app_has_id t.app_id) d.apps ≢ 0) × IsSettled id d) _ _ _
        (Succeeds-require_updated_row _ _ _ (
          Succeeds-execute _ _ _ (λ d p.
            let same : id ≡ t.id = found_id id t d.tasks p.1 in
            let runs : count_where (running_with_id t.id) d.tasks ≢ 0 =
              subst (λ key. count_where (running_with_id key) d.tasks ≢ 0) same p.0.1 in
            (
              runs,
              (
                found_app id d t d.tasks p.0.0 p.1,
                positive (failed_rows id summary now t.id d.tasks same) runs,
              ),
            ))))
        (λ _. Succeeds-require_updated_row _ _ _ (Succeeds-execute _ _ _ (λ d p. (p.0, p.1))))

  fail_task_for_app-Succeeds :
      Succeeds (IsRunning id) (fail_task_for_app id summary now) (λ _. IsSettled id)
  unfolding fail_task_for_app transition_task_for_app lock_hardening_task
  fail_task_for_app-Succeeds = Succeeds-transaction _ _ _ (
      Succeeds-bind _ _ _ _ _ (Succeeds-first _ _ (λ d p. some_found id d.tasks p.1))
        transition_tx-Succeeds)

  -- Whether it runs or is settled already, it is settled then.
  fail_settles :
      (w : World)
      → Fine w
      → IsTaken id w.db
      → IsSettled id (fail_task_for_app id summary now w).1.db
  fail_settles w fine taken = settles (count_where (row_with is_over id) w.db.tasks) refl
    where
      settles :
          (n : ℕ)
          → n ≡ count_where (row_with is_over id) w.db.tasks
          → IsSettled id (fail_task_for_app id summary now w).1.db
      settles (suc n) e = (fail_task_for_app-IsSettled id summary now).at w (omega (arith, e))
      settles zero e =
          let (a, v, e', g, q) =
            fail_task_for_app-Succeeds.at w fine
              (taken.0, λ z. omega (arith, e, z, live_rows id w.db.tasks, taken.1)) in
          subst (λ (r : Result (Unit {0}) × World). IsSettled id r.1.db) (sym e') q

queued_rows :
    (id now : ℕ) (ts : List HardeningTask)
    → count_where (queued_with_id id) ts
      ≤ count_where (row_with is_live id) (
          update_where
            (queued_with_id id)
            (λ t. record t { status = HardeningTaskStatus.running; started_at = some now })
            ts)
queued_rows id now [] = omega arith
queued_rows id now (t ∷ ts) = ground (arith, queued_rows id now ts)

-- What is completed is settled.
done_rows :
    (id : ℕ) (ts : List HardeningTask)
    → count_where (λ (t : HardeningTask). t.id == id && is_completed t.status) ts
      ≤ count_where (row_with is_over id) ts
done_rows id [] = omega arith
done_rows id (t ∷ ts) = ground (arith, done_rows id ts)

-- The world in which the worker has run the task that it took.
abbrev pub after_run : Config → LoadedTask → World → World
after_run cfg t w = (attempt (run_task cfg t) (mark_task_running t.task.id (w.clock w.calls) w).1).1

module _ (cfg : Config) (t : LoadedTask) where
  mark_task_running-IsTaken :
      (now : ℕ)
      → Leads (HasApps t.task.id) (mark_task_running t.task.id now) (λ _. IsTaken t.task.id)
  unfolding mark_task_running update_tasks
  mark_task_running-IsTaken now =
      Leads-imp _ _ _ _ (λ a d q. (q.1.0, positive q.1.1 q.2))
        (Leads-require_updated_row _
          (λ n d. HasApps t.task.id d × (n ≤ count_where (row_with is_live t.task.id) d.tasks)) _
          (Leads-execute _ _ _ (λ d p.
            (All-update_where _ _ _ d.tasks (λ u e h. h) p, queued_rows t.task.id now d.tasks))))

  settle-IsSettled :
      (r : Result (Unit {0})) (w : World)
      → ((u : Unit {0}) → r ≡ ok u → IsDone t.task.id w.db)
      → IsTaken t.task.id w.db
      → Fine w
      → IsSettled t.task.id (settle t r w).1.db
  unfolding pure time_now attempt ◌>>=◌
  settle-IsSettled (ok u) w d taken fine = omega (arith, d u refl, done_rows t.task.id w.db.tasks)
  settle-IsSettled (err e) w d taken fine =
      (reported _).at _ (fail_settles t.task.id _ _ w fine taken)
    where
      reported :
          (r : Result (Unit {0})) → Keeps (IsSettled t.task.id) (from_result r >>= (λ _. pure true))
      reported r = search keeps_rules

  run_settles :
      (r : Result (Unit {0}) × World)
      → r.0 ≡ ok tt
      → IsTaken t.task.id r.1.db
      → Fine (attempt (run_task cfg t) r.1).1
      → IsSettled t.task.id (continue (λ _. attempt (run_task cfg t) >>= settle t) r).1.db
  unfolding attempt ◌>>=◌
  run_settles (ok _, v) e taken fine =
      settle-IsSettled (run_task cfg t v).0 (run_task cfg t v).1
        (λ u e'. (run_task-IsDone cfg t).at v tt u e')
        ((run_task-IsTaken t.task.id cfg t).at v taken) fine
  run_settles (err x, v) e taken fine = cc

-- If every row of the task's key has its app, the task is taken, and no call fails any more once
-- the run itself is over, the task does not stay running: a row of its key is completed or failed
-- when the worker returns, whatever the engine did and whichever calls failed during the run.
pub process_task-IsSettled :
    (cfg : Config) (t : LoadedTask) (w : World)
    → HasApps t.task.id w.db
    → (mark_task_running t.task.id (w.clock w.calls) w).0 ≡ ok tt
    → ((n : ℕ) → (after_run cfg t w).calls ≤ n → (after_run cfg t w).fault n ≡ none)
    → IsSettled t.task.id (process_task cfg t w).1.db
unfolding process_task ◌>>=◌ time_now
process_task-IsSettled cfg t w apps marked fine =
    run_settles cfg t (mark_task_running t.task.id (w.clock w.calls) w) marked
      ((mark_task_running-IsTaken cfg t (w.clock w.calls)).at w apps tt marked)
      (record { no_fault = fine })
