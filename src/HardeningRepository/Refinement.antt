-- ===== src/HardeningRepository/Refinement.antt =====
-- The histories of the repository's operations against the abstract machine of the tasks.
use beetle_shield_backend.Prelude.{
  ℕ, ◌≡◌, refl, sym, ap, subst, ◌∙◌, String, List, [], ◌∷◌, ◌++◌, update_where,
}
use beetle_shield_backend.Model.{
  App, AppStatus, HardeningTask, HardeningTaskStatus, RiskLevel, is_queued, is_running,
}
use beetle_shield_backend.Store.{Db, World, Result, ok, err}
use beetle_shield_backend.Store.Hoare.{
  Keeps, Keeps-bind, Keeps-first, Keeps-require_updated_row, Keeps-transaction, Keeps-update_apps,
  Keeps-update_steps, Keeps-update_tasks, keeps_rules,
}
use beetle_shield_backend.HardeningRepository.Tasks.{
  Artifacts, complete_task_for_app, create_task_with_steps_for_app, fail_task_for_app, fail_tasks,
  fail_updates, lock_hardening_task, mark_task_running, record_artifacts, recover_body,
  recover_running_tasks, running_with_id, transition_task_for_app, transition_task_for_app_tx,
}
use beetle_shield_backend.HardeningRepository.Creation.{
  IsCreated, create_task_with_steps_for_app-IsAtomic, create_task_with_steps_for_app-IsCreated,
}
use beetle_shield_backend.HardeningRepository.Histories.{
  Along, Operation, create_task, mark_running, store_artifacts, complete_task, fail_task,
  recover_tasks, begin_step, succeed_step, fail_step, add_log, append_log-any, apply,
  finish_step_failed-any, finish_step_success-any, history, history-keeps, start_step-any,
}
use beetle_shield_backend.HardeningRepository.Lifecycle.{
  Entry, view, enqueue, begin, complete, give_up, Reaches, stay, go, view-assign, view-same,
  view-append, view-free,
}

module _ (base : List Entry) where
  -- The tables are at a state that the machine reaches from `base`.
  abbrev pub Refines : Db → Type 0
  Refines d = Reaches base (view d.tasks)

  moved : {fs gs : List Entry} → Reaches base fs → gs ≡ fs → Reaches base gs
  moved r e = subst (Reaches base) (sym e) r

  mark_task_running-Refines : (id now : ℕ) → Keeps Refines (mark_task_running id now)
  unfolding mark_task_running
  mark_task_running-Refines id now = Keeps-require_updated_row _ (
      Keeps-update_tasks _ _ (λ d r. go r (
        begin id (
          view-assign _ _ id is_queued HardeningTaskStatus.running (λ t. refl) (λ t. refl)
            (λ t. refl) (λ t. refl) d.tasks))))

  record_artifacts-Refines : (id : ℕ) (a : Artifacts) → Keeps Refines (record_artifacts id a)
  unfolding record_artifacts
  record_artifacts-Refines id a = Keeps-require_updated_row _ (
      Keeps-update_tasks _ _
        (λ d r. moved r (view-same _ _ (λ t. refl) (λ t. refl) (λ t. refl) d.tasks)))

  -- What ends the running tasks of a key, and the transitions made of it.
  module _ (f : HardeningTask → HardeningTask) (g : App → App)
      (ends : (key : ℕ) (d : Db)
        → Refines d
        → Reaches base (view (update_where (running_with_id key) f d.tasks))) where
    transition_tx-Refines :
        (id app_id : ℕ) → Keeps Refines (transition_task_for_app_tx id app_id f g)
    unfolding transition_task_for_app_tx
    transition_tx-Refines id app_id =
        Keeps-bind _ _ (Keeps-require_updated_row _ (Keeps-update_tasks _ f (λ d r. ends id d r)))
          (λ _. Keeps-require_updated_row _ (Keeps-update_apps _ g (λ d r. r)))

    transition-Refines : (id : ℕ) → Keeps Refines (transition_task_for_app id f g)
    unfolding transition_task_for_app lock_hardening_task
    transition-Refines id =
        Keeps-transaction _
          (Keeps-bind _ _ (Keeps-first _) (λ t. transition_tx-Refines t.id t.app_id))

  complete_task_for_app-Refines :
      (id : ℕ) (a : Artifacts) (now : ℕ) (r : RiskLevel)
      → Keeps Refines (complete_task_for_app id a now r)
  unfolding complete_task_for_app
  complete_task_for_app-Refines id a now r =
      transition-Refines _ _
        (λ key d q. go q (
          complete key (
            view-assign _ _ key is_running HardeningTaskStatus.completed (λ t. refl) (λ t. refl)
              (λ t. refl) (λ t. refl) d.tasks)))
        id

  failed :
      (m : String) (now key : ℕ) (d : Db)
      → Refines d
      → Reaches base (view (update_where (running_with_id key) (fail_updates m now) d.tasks))
  failed m now key d q = go q (
      give_up key (
        view-assign _ _ key is_running HardeningTaskStatus.failed (λ t. refl) (λ t. refl)
          (λ t. refl) (λ t. refl) d.tasks))

  fail_task_for_app-Refines :
      (id : ℕ) (m : String) (now : ℕ) → Keeps Refines (fail_task_for_app id m now)
  unfolding fail_task_for_app
  fail_task_for_app-Refines id m now = transition-Refines _ _ (failed m now) id

  fail_tasks-Refines :
      (ts : List HardeningTask) (m : String) (now : ℕ) → Keeps Refines (fail_tasks ts m now)
  unfolding fail_tasks
  fail_tasks-Refines [] m now = search keeps_rules
  fail_tasks-Refines (t ∷ ts) m now =
      Keeps-bind _ _ (transition_tx-Refines _ _ (failed m now) t.id t.app_id)
        (λ _. fail_tasks-Refines ts m now)

  recover_body-Refines : (m : String) (ts : List HardeningTask) → Keeps Refines (recover_body m ts)
  recover_body-Refines m [] = search keeps_rules
  recover_body-Refines m (t ∷ ts) =
      search (keeps_rules, fail_tasks-Refines (t ∷ ts) m, Keeps-update_steps)

  recover_running_tasks-Refines : (m : String) → Keeps Refines (recover_running_tasks m)
  unfolding recover_running_tasks
  recover_running_tasks-Refines m = search (keeps_rules, recover_body-Refines)

  created :
      (before after : Db) (task : HardeningTask) (s : AppStatus) (id : ℕ)
      → task.status ≡ HardeningTaskStatus.queued
      → Refines before
      → IsCreated before task s id after
      → Refines after
  created before after task s id queued r c = go r (
      enqueue id task.app_id (view-free task.app_id before.tasks ∙ c.inactive) (
        ap (λ (d : Db). view d.tasks) c.changed
        ∙ view-append before.tasks _
        ∙ ap
            (λ (s : HardeningTaskStatus).
              view before.tasks ++ (record { id = id; app_id = task.app_id; status = s } ∷ []))
            queued))

  create_task_with_steps_for_app-Refines :
      (task : HardeningTask) (s : AppStatus)
      → task.status ≡ HardeningTaskStatus.queued
      → Keeps Refines (create_task_with_steps_for_app task s)
  create_task_with_steps_for_app-Refines task s queued = record {
    at = λ w r. ended w r (create_task_with_steps_for_app task s w).0 refl;
  }
    where
      ended :
          (w : World)
          → Refines w.db
          → (o : Result ℕ) → (create_task_with_steps_for_app task s w).0 ≡ o
          → Refines (create_task_with_steps_for_app task s w).1.db
      ended w r (ok id) e =
          created w.db _ task s id queued r
            ((create_task_with_steps_for_app-IsCreated w.db task s).at w refl id e)
      ended w r (err x) e =
          subst Refines (sym ((create_task_with_steps_for_app-IsAtomic task s).at w x e)) r

-- A task is created as queued.
abbrev pub QueuesNew : Operation → World → Type 0
QueuesNew (create_task t s) w = t.status ≡ HardeningTaskStatus.queued
QueuesNew _ w = Unit

apply-Refines :
    (base : List Entry) (op : Operation) (w : World)
    → QueuesNew op w
    → Refines base w.db
    → Refines base (apply op w).db
apply-Refines base (create_task t s) w q = (create_task_with_steps_for_app-Refines base t s q).at w
apply-Refines base (mark_running id now) w q = (mark_task_running-Refines base id now).at w
apply-Refines base (store_artifacts id a) w q = (record_artifacts-Refines base id a).at w
apply-Refines base (complete_task id a now r) w q =
    (complete_task_for_app-Refines base id a now r).at w
apply-Refines base (fail_task id m now) w q = (fail_task_for_app-Refines base id m now).at w
apply-Refines base (recover_tasks m) w q = (recover_running_tasks-Refines base m).at w
apply-Refines base (begin_step id now) w q =
    (start_step-any (Refines base) (λ d ss p. p) (λ d ls p. p) id now).at w
apply-Refines base (succeed_step id now) w q =
    (finish_step_success-any (Refines base) (λ d ss p. p) (λ d ls p. p) id now).at w
apply-Refines base (fail_step id m now) w q =
    (finish_step_failed-any (Refines base) (λ d ss p. p) (λ d ls p. p) id m now).at w
apply-Refines base (add_log l) w q =
    (append_log-any (Refines base) (λ d ss p. p) (λ d ls p. p) l).at w

-- The tasks behave as the abstract machine does: behind every sequence of operations that creates
-- tasks as queued, whichever of them fail, the keys, apps and statuses of the tasks are a state
-- that the machine reaches, in which a task is queued only for an app that has no active task,
-- only queued tasks start, and only running ones end.
pub history-Reaches :
    (ops : List Operation) (w : World)
    → Along QueuesNew ops w
    → Reaches (view w.db.tasks) (view (history ops w).db.tasks)
history-Reaches ops w q =
    history-keeps (Refines (view w.db.tasks)) QueuesNew (apply-Refines (view w.db.tasks)) ops w q
      stay
