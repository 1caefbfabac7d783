-- ===== src/HardeningRepository/Evolution.antt =====
-- How a row of the table of tasks may change: the status moves from queued over running to
-- completed or failed, and the columns that a task is created with stay.
use beetle_shield_backend.Prelude.{
  ℕ, ◌≡◌, ◌∙◌, refl, sym, subst, Bool, true, false, String, List, [], ◌∷◌, ◌++◌, update_where,
  if◌then◌else◌, arith,
}
use beetle_shield_backend.Model.{App, AppStatus, HardeningTask, HardeningTaskStatus, RiskLevel}
use beetle_shield_backend.Store.{Db, World, Result, ok, err, update_tasks, update_apps}
use beetle_shield_backend.Store.Hoare.{
  Keeps, Keeps-bind, Keeps-first, Keeps-transaction, Keeps-update_tasks, Keeps-update_steps,
  Keeps-update_apps, Keeps-require_updated_row, keeps_rules,
}
use beetle_shield_backend.HardeningRepository.Creation.{
  create_task_with_steps_for_app-IsCreated, create_task_with_steps_for_app-IsAtomic,
}
use beetle_shield_backend.HardeningRepository.Tasks.{
  running_with_id, create_task_with_steps_for_app, mark_task_running, Artifacts, record_artifacts,
  transition_task_for_app_tx, transition_task_for_app, lock_hardening_task, complete_task_for_app,
  fail_task_for_app, fail_tasks, recover_running_tasks, recover_body,
}

-- The second status may come after the first, or is the same.
abbrev pub Later : HardeningTaskStatus → HardeningTaskStatus → Type 0
Later HardeningTaskStatus.queued _ = Unit
Later HardeningTaskStatus.running HardeningTaskStatus.queued = ⊥
Later HardeningTaskStatus.running _ = Unit
Later HardeningTaskStatus.completed HardeningTaskStatus.completed = Unit
Later HardeningTaskStatus.completed _ = ⊥
Later HardeningTaskStatus.failed HardeningTaskStatus.failed = Unit
Later HardeningTaskStatus.failed _ = ⊥

pub Later-refl : (s : HardeningTaskStatus) → Later s s
Later-refl HardeningTaskStatus.queued = tt
Later-refl HardeningTaskStatus.running = tt
Later-refl HardeningTaskStatus.completed = tt
Later-refl HardeningTaskStatus.failed = tt

Later-trans : (s t u : HardeningTaskStatus) → Later s t → Later t u → Later s u
Later-trans HardeningTaskStatus.queued t u h k = tt
Later-trans HardeningTaskStatus.running HardeningTaskStatus.queued u h k = absurd h
Later-trans HardeningTaskStatus.running HardeningTaskStatus.running u h k = k
Later-trans HardeningTaskStatus.running HardeningTaskStatus.completed u h k = ground arith
Later-trans HardeningTaskStatus.running HardeningTaskStatus.failed u h k = ground arith
Later-trans HardeningTaskStatus.completed t u h k = ground arith
Later-trans HardeningTaskStatus.failed t u h k = ground arith

-- One row, before and after.
pub record RowLater (t u : HardeningTask) : Type 0 where
  pub id : u.id ≡ t.id
  pub task_no : u.task_no ≡ t.task_no
  pub app_id : u.app_id ≡ t.app_id
  pub strategy_name : u.strategy_name ≡ t.strategy_name
  pub strategy_snapshot : u.strategy_snapshot ≡ t.strategy_snapshot
  pub created_by : u.created_by ≡ t.created_by
  pub created_at : u.created_at ≡ t.created_at
  pub status : Later t.status u.status

RowLater-refl : (t : HardeningTask) → RowLater t t
RowLater-refl t = record {
  id = refl;
  task_no = refl;
  app_id = refl;
  strategy_name = refl;
  strategy_snapshot = refl;
  created_by = refl;
  created_at = refl;
  status = Later-refl t.status;
}

RowLater-trans : (t u v : HardeningTask) → RowLater t u → RowLater u v → RowLater t v
RowLater-trans t u v h k = record {
  id = k.id ∙ h.id;
  task_no = k.task_no ∙ h.task_no;
  app_id = k.app_id ∙ h.app_id;
  strategy_name = k.strategy_name ∙ h.strategy_name;
  strategy_snapshot = k.strategy_snapshot ∙ h.strategy_snapshot;
  created_by = k.created_by ∙ h.created_by;
  created_at = k.created_at ∙ h.created_at;
  status = Later-trans t.status u.status v.status h.status k.status;
}

-- Each row of the first table is still there, in its place; new rows stand behind.
abbrev pub Evolved : List HardeningTask → List HardeningTask → Type 0
Evolved [] us = Unit
Evolved (t ∷ ts) [] = ⊥
Evolved (t ∷ ts) (u ∷ us) = RowLater t u × Evolved ts us

pub Evolved-refl : (ts : List HardeningTask) → Evolved ts ts
Evolved-refl [] = tt
Evolved-refl (t ∷ ts) = (RowLater-refl t, Evolved-refl ts)

Evolved-append : (ts us more : List HardeningTask) → Evolved ts us → Evolved ts (us ++ more)
Evolved-append [] us more h = tt
Evolved-append (t ∷ ts) [] more h = absurd h
Evolved-append (t ∷ ts) (u ∷ us) more h = (h.0, Evolved-append ts us more h.1)

Evolved-update_where :
    (p : HardeningTask → Bool) (f : HardeningTask → HardeningTask) (ts us : List HardeningTask)
    → ((t : HardeningTask) → p t ≡ true → RowLater t (f t))
    → Evolved ts us
    → Evolved ts (update_where p f us)
Evolved-update_where p f [] us h e = tt
Evolved-update_where p f (t ∷ ts) [] h e = e
Evolved-update_where p f (t ∷ ts) (u ∷ us) h e =
    (row (p u) refl, Evolved-update_where p f ts us h e.1)
  where
    row : (b : Bool) → p u ≡ b → RowLater t (if b then f u else u)
    row true q = RowLater-trans t u (f u) e.0 (h u q)
    row false q = e.0

module _ (base : List HardeningTask) where
  -- The tasks have evolved from `base`.
  abbrev pub EvolvedFrom : Db → Type 0
  EvolvedFrom d = Evolved base d.tasks

  evolve :
      (p : HardeningTask → Bool) (f : HardeningTask → HardeningTask)
      → ((t : HardeningTask) → p t ≡ true → RowLater t (f t))
      → Keeps EvolvedFrom (update_tasks p f)
  evolve p f h = Keeps-update_tasks p f (λ d e. Evolved-update_where p f base d.tasks h e)

  apps_only : (p : App → Bool) (f : App → App) → Keeps EvolvedFrom (update_apps p f)
  apps_only p f = Keeps-update_apps p f (λ d e. e)

  pub mark_task_running-EvolvedFrom : (id now : ℕ) → Keeps EvolvedFrom (mark_task_running id now)
  unfolding mark_task_running
  mark_task_running-EvolvedFrom id now =
      Keeps-require_updated_row _ (evolve _ _ (λ t q. ground arith))

  pub record_artifacts-EvolvedFrom :
      (id : ℕ) (artifacts : Artifacts) → Keeps EvolvedFrom (record_artifacts id artifacts)
  unfolding record_artifacts
  record_artifacts-EvolvedFrom id artifacts = Keeps-require_updated_row _ (
      evolve _ _ (λ t q. record {
        id = refl;
        task_no = refl;
        app_id = refl;
        strategy_name = refl;
        strategy_snapshot = refl;
        created_by = refl;
        created_at = refl;
        status = Later-refl t.status;
      }))

  module _ (f : HardeningTask → HardeningTask) (g : App → App)
      (later : (id : ℕ) (t : HardeningTask) → running_with_id id t ≡ true → RowLater t (f t)) where
    transition_tx-EvolvedFrom :
        (id app_id : ℕ) → Keeps EvolvedFrom (transition_task_for_app_tx id app_id f g)
    unfolding transition_task_for_app_tx
    transition_tx-EvolvedFrom id app_id =
        Keeps-bind _ _ (Keeps-require_updated_row _ (evolve _ f (later id)))
          (λ _. Keeps-require_updated_row _ (apps_only _ g))

    transition-EvolvedFrom : (id : ℕ) → Keeps EvolvedFrom (transition_task_for_app id f g)
    unfolding transition_task_for_app lock_hardening_task
    transition-EvolvedFrom id =
        Keeps-transaction _
          (Keeps-bind _ _ (Keeps-first _) (λ t. transition_tx-EvolvedFrom t.id t.app_id))

  pub complete_task_for_app-EvolvedFrom :
      (id : ℕ) (artifacts : Artifacts) (now : ℕ) (r : RiskLevel)
      → Keeps EvolvedFrom (complete_task_for_app id artifacts now r)
  unfolding complete_task_for_app
  complete_task_for_app-EvolvedFrom id artifacts now r =
      transition-EvolvedFrom _ _ (λ i t q. ground arith) id

  pub fail_task_for_app-EvolvedFrom :
      (id : ℕ) (summary : String) (now : ℕ) → Keeps EvolvedFrom (fail_task_for_app id summary now)
  unfolding fail_task_for_app
  fail_task_for_app-EvolvedFrom id summary now =
      transition-EvolvedFrom _ _ (λ i t q. ground arith) id

  fail_tasks-EvolvedFrom :
      (ts : List HardeningTask) (summary : String) (now : ℕ)
      → Keeps EvolvedFrom (fail_tasks ts summary now)
  unfolding fail_tasks
  fail_tasks-EvolvedFrom [] summary now = search keeps_rules
  fail_tasks-EvolvedFrom (t ∷ ts) summary now =
      Keeps-bind _ _ (transition_tx-EvolvedFrom _ _ (λ i t q. ground arith) t.id t.app_id)
        (λ _. fail_tasks-EvolvedFrom ts summary now)

  recover_body-EvolvedFrom :
      (summary : String) (ts : List HardeningTask) → Keeps EvolvedFrom (recover_body summary ts)
  recover_body-EvolvedFrom summary [] = search keeps_rules
  recover_body-EvolvedFrom summary (t ∷ ts) =
      search (keeps_rules, fail_tasks-EvolvedFrom (t ∷ ts) summary, Keeps-update_steps)

  pub recover_running_tasks-EvolvedFrom :
      (summary : String) → Keeps EvolvedFrom (recover_running_tasks summary)
  unfolding recover_running_tasks
  recover_running_tasks-EvolvedFrom summary = search (keeps_rules, recover_body-EvolvedFrom)

  pub create_task_with_steps_for_app-EvolvedFrom :
      (task : HardeningTask) (s : AppStatus)
      → Keeps EvolvedFrom (create_task_with_steps_for_app task s)
  create_task_with_steps_for_app-EvolvedFrom task s = record {
    at = λ w h. ended w h (create_task_with_steps_for_app task s w).0 refl;
  }
    where
      ended :
          (w : World)
          → EvolvedFrom w.db
          → (r : Result ℕ) → (create_task_with_steps_for_app task s w).0 ≡ r
          → EvolvedFrom (create_task_with_steps_for_app task s w).1.db
      ended w h (ok id) e =
          let c = (create_task_with_steps_for_app-IsCreated w.db task s).at w refl id e in
          subst EvolvedFrom (sym c.changed) (Evolved-append base w.db.tasks _ h)
      ended w h (err x) e =
          subst EvolvedFrom (sym ((create_task_with_steps_for_app-IsAtomic task s).at w x e)) h
