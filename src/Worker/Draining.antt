-- ===== src/Worker/Draining.antt =====
-- The number of queued tasks under the operations of the worker.
use beetle_shield_backend.Prelude.{
  ℕ, suc, ◌+◌, ◌≡◌, ◌≤◌, refl, Bool, true, false, String, some, List, [], ◌∷◌, count_where,
  update_where, arith,
}
use beetle_shield_backend.Model.{App, HardeningTask, HardeningTaskStatus, RiskLevel, is_queued}
use beetle_shield_backend.Store.{Db, Result, ok, err, ◌>>=◌, attempt, update_tasks}
use beetle_shield_backend.Store.Hoare.{
  Keeps, Keeps-call, Keeps-update_steps, Keeps-bind, Keeps-require_updated_row, Keeps-transaction,
  Keeps-update_apps, Keeps-update_tasks, keeps_rules,
}
use beetle_shield_backend.Store.Outcomes.{
  Leads, Leads-execute, Leads-imp, Leads-require_updated_row,
}
use beetle_shield_backend.HardeningRepository.{
  Artifacts, fail_tasks, recover_body, recover_running_tasks, LoadedTask, complete_task_for_app,
  fail_task_for_app, lock_hardening_task, mark_task_running, next_queued_task, preload,
  queued_with_id, record_artifacts, transition_task_for_app, transition_task_for_app_tx,
}
use beetle_shield_backend.Worker.Artifacts.{delete_object}
use beetle_shield_backend.Worker.Keeping.{run_task-any}
use beetle_shield_backend.Worker.Run.{
  cleanup_keys, cleanup_recovered_artifacts, recover_running, run_task, settle,
}
use beetle_shield_backend.Worker.Steps.{Config}

abbrev pub queued_count : Db → ℕ
queued_count d = count_where (λ (t : HardeningTask). is_queued t.status) d.tasks

fewer_queued :
    (p : HardeningTask → Bool) (f : HardeningTask → HardeningTask)
    → ((t : HardeningTask) → p t ≡ true → is_queued (f t).status ≡ true → is_queued t.status ≡ true)
    → (ts : List HardeningTask)
    → count_where (λ (t : HardeningTask). is_queued t.status) (update_where p f ts)
      ≤ count_where (λ (t : HardeningTask). is_queued t.status) ts
fewer_queued p f h [] = omega arith
fewer_queued p f h (t ∷ ts) = ground (arith, fewer_queued p f h ts, h t)

marked_rows :
    (id now : ℕ) (ts : List HardeningTask)
    → count_where
          (λ (t : HardeningTask). is_queued t.status)
          (update_where
            (queued_with_id id)
            (λ t. record t { status = HardeningTaskStatus.running; started_at = some now })
            ts)
        + count_where (queued_with_id id) ts
      ≤ count_where (λ (t : HardeningTask). is_queued t.status) ts
marked_rows id now [] = omega arith
marked_rows id now (t ∷ ts) = ground (arith, marked_rows id now ts)

module _ (k : ℕ) where
  abbrev pub AtMost : Db → Type 0
  AtMost d = queued_count d ≤ k

  fewer :
      (p : HardeningTask → Bool) (f : HardeningTask → HardeningTask)
      → ((t : HardeningTask)
          → p t ≡ true
          → is_queued (f t).status ≡ true
          → is_queued t.status ≡ true)
      → Keeps AtMost (update_tasks p f)
  fewer p f h = Keeps-update_tasks p f (λ d q. omega (arith, q, fewer_queued p f h d.tasks))

  record_artifacts-AtMost : (id : ℕ) (a : Artifacts) → Keeps AtMost (record_artifacts id a)
  unfolding record_artifacts
  record_artifacts-AtMost id a = Keeps-require_updated_row _ (fewer _ _ (λ t p q. q))

  module _ (f : HardeningTask → HardeningTask) (g : App → App)
      (ended : (t : HardeningTask) → is_queued (f t).status ≡ false) where
    transition_tx-AtMost : (id app_id : ℕ) → Keeps AtMost (transition_task_for_app_tx id app_id f g)
    unfolding transition_task_for_app_tx
    transition_tx-AtMost id app_id =
        Keeps-bind _ _ (Keeps-require_updated_row _ (fewer _ _ (λ t p q. cc (q, ended t))))
          (λ _. Keeps-require_updated_row _ (Keeps-update_apps _ _ (λ d q. q)))

    transition-AtMost : (id : ℕ) → Keeps AtMost (transition_task_for_app id f g)
    unfolding transition_task_for_app lock_hardening_task
    transition-AtMost id =
        Keeps-transaction _
          (Keeps-bind _ _ (search keeps_rules) (λ t. transition_tx-AtMost t.id t.app_id))

  complete_task_for_app-AtMost :
      (id : ℕ) (a : Artifacts) (now : ℕ) (r : RiskLevel)
      → Keeps AtMost (complete_task_for_app id a now r)
  unfolding complete_task_for_app
  complete_task_for_app-AtMost id a now r = transition-AtMost _ _ (λ t. refl) id

  fail_task_for_app-AtMost :
      (id : ℕ) (m : String) (now : ℕ) → Keeps AtMost (fail_task_for_app id m now)
  unfolding fail_task_for_app
  fail_task_for_app-AtMost id m now = transition-AtMost _ _ (λ t. refl) id

  fail_tasks-AtMost :
      (ts : List HardeningTask) (m : String) (now : ℕ) → Keeps AtMost (fail_tasks ts m now)
  unfolding fail_tasks
  fail_tasks-AtMost [] m now = search keeps_rules
  fail_tasks-AtMost (t ∷ ts) m now =
      Keeps-bind _ _ (transition_tx-AtMost _ _ (λ t. refl) t.id t.app_id)
        (λ _. fail_tasks-AtMost ts m now)

  recover_body-AtMost : (m : String) (ts : List HardeningTask) → Keeps AtMost (recover_body m ts)
  recover_body-AtMost m [] = search keeps_rules
  recover_body-AtMost m (t ∷ ts) =
      search (keeps_rules, fail_tasks-AtMost (t ∷ ts) m, Keeps-update_steps)

  delete_object-AtMost : (key : String) → Keeps AtMost (delete_object key)
  unfolding delete_object
  delete_object-AtMost key = Keeps-call _ (λ w p. p)

  cleanup_keys-AtMost : (keys : List String) → Keeps AtMost (cleanup_keys keys)
  unfolding cleanup_keys
  cleanup_keys-AtMost [] = search keeps_rules
  cleanup_keys-AtMost (key ∷ rest) =
      Keeps-bind _ _ (search (keeps_rules, delete_object-AtMost)) (λ _. cleanup_keys-AtMost rest)

  cleanup_recovered-AtMost :
      (ts : List HardeningTask) → Keeps AtMost (cleanup_recovered_artifacts ts)
  unfolding cleanup_recovered_artifacts
  cleanup_recovered-AtMost [] = search keeps_rules
  cleanup_recovered-AtMost (t ∷ rest) =
      Keeps-bind _ _ (cleanup_keys-AtMost _) (λ _. cleanup_recovered-AtMost rest)

  pub recover_running-AtMost : Keeps AtMost recover_running
  unfolding recover_running recover_running_tasks
  recover_running-AtMost = search (keeps_rules, recover_body-AtMost, cleanup_recovered-AtMost)

  pub run_settled-AtMost :
      (cfg : Config) (t : LoadedTask) → Keeps AtMost (attempt (run_task cfg t) >>= settle t)
  run_settled-AtMost cfg t =
      Keeps-bind _ _
        (search (
          keeps_rules,
          run_task-any AtMost (λ d ss p. p) (λ d ls p. p) record_artifacts-AtMost
              complete_task_for_app-AtMost,
        ))
        settled
    where
      settled : (r : Result (Unit {0})) → Keeps AtMost (settle t r)
      settled (ok _) = search keeps_rules
      settled (err e) = search (keeps_rules, fail_task_for_app-AtMost)

  preload-AtMost : (ts : List HardeningTask) → Keeps AtMost (preload ts)
  unfolding preload
  preload-AtMost [] = search keeps_rules
  preload-AtMost (t ∷ ts) = search keeps_rules

  pub next_queued_task-AtMost : Keeps AtMost next_queued_task
  unfolding next_queued_task
  next_queued_task-AtMost = search (keeps_rules, preload-AtMost)

  pub mark_task_running-Fewer :
      (id now : ℕ) → Leads (λ d. queued_count d ≤ suc k) (mark_task_running id now) (λ _. AtMost)
  unfolding mark_task_running update_tasks
  mark_task_running-Fewer id now =
      Leads-imp _ _ _ _ (λ a d q. omega (arith, q.1, q.2))
        (Leads-require_updated_row _ (λ n d. queued_count d + n ≤ suc k) _
          (Leads-execute _ _ _ (λ d p. omega (arith, p, marked_rows id now d.tasks))))
