-- ===== src/Worker/Settlement.antt =====
-- The rows of a task that the worker takes, through a run and the recording of its failure.
use beetle_shield_backend.Prelude.{
  ℕ, ◌<◌, ◌≤◌, ◌≡◌, ◌≢◌, refl, subst, Bool, true, false, ◌&&◌, ◌||◌, String, Option, some, none,
  List, [], ◌∷◌, ◌==◌, All, All-imp, All-update_where, count_where, first_where, update_where,
  arith, if◌then◌else◌,
}
use beetle_shield_backend.Model.{App, HardeningTask, HardeningTaskStatus, RiskLevel, is_running}
use beetle_shield_backend.Store.{Db, update_apps, update_tasks}
use beetle_shield_backend.Store.Hoare.{
  Keeps, Keeps-bind, Keeps-transaction, Keeps-require_updated_row, Keeps-update_apps,
  Keeps-update_tasks, keeps_rules,
}
use beetle_shield_backend.HardeningRepository.{
  Artifacts, LoadedTask, app_has_id, complete_task_for_app, fail_task_for_app, fail_updates, has_id,
  lock_hardening_task, record_artifacts, running_with_id, transition_task_for_app,
  transition_task_for_app_tx,
}
use beetle_shield_backend.Worker.Keeping.{run_task-any}
use beetle_shield_backend.Worker.Run.{run_task}
use beetle_shield_backend.Worker.Steps.{Config}

abbrev pub is_over : HardeningTaskStatus → Bool
is_over HardeningTaskStatus.completed = true
is_over HardeningTaskStatus.failed = true
is_over _ = false

-- A row of the key is completed or failed.
abbrev pub IsSettled : ℕ → Db → Type 0
IsSettled id d = 0 < count_where (λ (t : HardeningTask). t.id == id && is_over t.status) d.tasks

-- Every row of the key has its app.
abbrev pub HasApps : ℕ → Db → Type 0
HasApps id d =
    All (λ (t : HardeningTask). (t.id == id) ≡ true → count_where (app_has_id t.app_id) d.apps ≢ 0)
      d.tasks

kept_apps :
    (p : App → Bool) (f : App → App)
    → ((a : App) → (f a).id ≡ a.id)
    → (id : ℕ) (as_before : List App)
    → count_where (app_has_id id) as_before
      ≤ count_where (app_has_id id) (update_where p f as_before)
kept_apps p f same id [] = omega arith
kept_apps p f same id (a ∷ rest) = ground (arith, kept_apps p f same id rest, same a)

-- The worker has it, or is done with it.
abbrev pub is_live : HardeningTaskStatus → Bool
is_live status = is_over status || is_running status

abbrev pub row_with : (HardeningTaskStatus → Bool) → ℕ → HardeningTask → Bool
row_with test id t = t.id == id && test t.status

-- Every row of the key has its app, and one runs or is settled already.
abbrev pub IsTaken : ℕ → Db → Type 0
IsTaken id d = HasApps id d × (0 < count_where (row_with is_live id) d.tasks)

-- A change of rows that loses none of a kind.
module _ (test : HardeningTaskStatus → Bool) (p : HardeningTask → Bool)
    (f : HardeningTask → HardeningTask) (same_id : (t : HardeningTask) → (f t).id ≡ t.id)
    (kept : (t : HardeningTask)
      → p t ≡ true
      → test t.status ≡ true
      → test (f t).status ≡ true) where
  kept_rows :
      (id : ℕ) (ts : List HardeningTask)
      → count_where (row_with test id) ts ≤ count_where (row_with test id) (update_where p f ts)
  kept_rows id [] = omega arith
  kept_rows id (t ∷ ts) = ground (arith, kept_rows id ts, kept t, same_id t)

module _ (id : ℕ) where
  update_tasks-IsTaken :
      (p : HardeningTask → Bool) (f : HardeningTask → HardeningTask)
      → ((t : HardeningTask) → (f t).id ≡ t.id)
      → ((t : HardeningTask) → (f t).app_id ≡ t.app_id)
      → ((t : HardeningTask) → p t ≡ true → is_live t.status ≡ true → is_live (f t).status ≡ true)
      → Keeps (IsTaken id) (update_tasks p f)
  update_tasks-IsTaken p f same_id same_app kept = Keeps-update_tasks p f (λ d q. (
    All-update_where _ p f d.tasks (λ t e h. rw (same_id t, same_app t) h) q.0,
    omega (arith, q.1, kept_rows is_live p f same_id kept id d.tasks),
  ))

  update_apps-IsTaken :
      (p : App → Bool) (f : App → App)
      → ((a : App) → (f a).id ≡ a.id)
      → Keeps (IsTaken id) (update_apps p f)
  update_apps-IsTaken p f same = Keeps-update_apps p f (λ d q. (
    All-imp _ _ d.tasks (λ t h e z. h e (omega (arith, z, kept_apps p f same t.app_id d.apps))) q.0,
    q.1,
  ))

  record_artifacts-IsTaken : (key : ℕ) (a : Artifacts) → Keeps (IsTaken id) (record_artifacts key a)
  unfolding record_artifacts
  record_artifacts-IsTaken key a =
      Keeps-require_updated_row _
        (update_tasks-IsTaken _ _ (λ t. refl) (λ t. refl) (λ t p live. live))

  complete_task_for_app-IsTaken :
      (key : ℕ) (a : Artifacts) (now : ℕ) (r : RiskLevel)
      → Keeps (IsTaken id) (complete_task_for_app key a now r)
  unfolding complete_task_for_app transition_task_for_app transition_task_for_app_tx
      lock_hardening_task
  complete_task_for_app-IsTaken key a now r = Keeps-transaction _ (
      Keeps-bind _ _ (search keeps_rules) (λ t.
        Keeps-bind _ _
          (Keeps-require_updated_row _
            (update_tasks-IsTaken _ _ (λ t. refl) (λ t. refl) (λ t p live. refl)))
          (λ _. Keeps-require_updated_row _ (update_apps-IsTaken _ _ (λ a. refl)))))

  pub run_task-IsTaken : (cfg : Config) (t : LoadedTask) → Keeps (IsTaken id) (run_task cfg t)
  run_task-IsTaken cfg t =
      run_task-any (IsTaken id) (λ d ss p. p) (λ d ls p. p) record_artifacts-IsTaken
        complete_task_for_app-IsTaken cfg t

  -- What is settled stays settled when running rows fail.
  pub fail_task_for_app-IsSettled :
      (summary : String) (now : ℕ) → Keeps (IsSettled id) (fail_task_for_app id summary now)
  unfolding fail_task_for_app transition_task_for_app transition_task_for_app_tx lock_hardening_task
  fail_task_for_app-IsSettled summary now = Keeps-transaction _ (
      Keeps-bind _ _ (search keeps_rules) (λ t.
        Keeps-bind _ _
          (Keeps-require_updated_row _ (
            Keeps-update_tasks _ _ (λ d q. omega (
              arith,
              q,
              kept_rows is_over _ (fail_updates summary now) (λ t. refl) (λ t p over. refl) id
                  d.tasks,
            ))))
          (λ _. Keeps-require_updated_row _ (Keeps-update_apps _ _ (λ d q. q)))))

  pub failed_rows :
      (summary : String) (now key : ℕ) (ts : List HardeningTask)
      → id ≡ key
      → count_where (running_with_id key) ts
        ≤ count_where
            (row_with is_over id)
            (update_where (running_with_id key) (fail_updates summary now) ts)
  failed_rows summary now key [] e = omega arith
  failed_rows summary now key (t ∷ ts) e = ground (arith, failed_rows summary now key ts e)

  -- A row that is found has its app.
  pub found_app :
      (d : Db) (t : HardeningTask) (ts : List HardeningTask)
      → All
          (λ (t : HardeningTask).
            (t.id == id) ≡ true → count_where (app_has_id t.app_id) d.apps ≢ 0)
          ts
      → first_where (has_id id) ts ≡ some t
      → count_where (app_has_id t.app_id) d.apps ≢ 0
  found_app d t [] h e = cc (e)
  found_app d t (u ∷ ts) h e = found (found_app d t ts h.1) (u.id == id) refl e
    where
      found :
          (first_where (has_id id) ts ≡ some t → count_where (app_has_id t.app_id) d.apps ≢ 0)
          → (b : Bool) → (u.id == id) ≡ b
          → (if b then some u else first_where (has_id id) ts) ≡ some t
          → count_where (app_has_id t.app_id) d.apps ≢ 0
      found rest true same e' = same_app e' (h.0 same)
        where
          same_app :
              {v w : HardeningTask}
              → some v ≡ some w
              → count_where (app_has_id v.app_id) d.apps ≢ 0
              → count_where (app_has_id w.app_id) d.apps ≢ 0
          same_app {v} {w} p q = subst (λ o. has_app o) p q
            where
              has_app : Option HardeningTask → Type 0
              has_app none = Unit
              has_app (some v) = count_where (app_has_id v.app_id) d.apps ≢ 0
      found rest false other e' = rest e'

  pub some_found :
      (ts : List HardeningTask)
      → count_where (running_with_id id) ts ≢ 0
      → (t : HardeningTask) × (first_where (has_id id) ts ≡ some t)
  some_found [] h = absurd (h refl)
  some_found (t ∷ ts) h = found (some_found ts) (t.id == id) refl h
    where
      found :
          (count_where (running_with_id id) ts ≢ 0
            → (u : HardeningTask) × (first_where (has_id id) ts ≡ some u))
          → (b : Bool) → (t.id == id) ≡ b
          → count_where (running_with_id id) (t ∷ ts) ≢ 0
          → (u : HardeningTask) × ((if b then some t else first_where (has_id id) ts) ≡ some u)
      found rest true same z = (t, refl)
      found rest false other z = rest (λ n. z (ground (arith, other, n)))
