-- ===== src/HardeningRepository/Active.antt =====
-- At most one task of an app is queued or running: what each operation on tasks keeps.
use beetle_shield_backend.Prelude.{
  ℕ, ◌≤◌, ◌≡◌, Bool, true, false, String, List, [], ◌∷◌, count_where, count_where-update_where-le,
  count_where-append, arith, sym, subst, refl,
}
use beetle_shield_backend.Model.{App, AppStatus, HardeningTask, RiskLevel}
use beetle_shield_backend.HardeningRepository.Creation.{
  IsCreated, create_task_with_steps_for_app-IsCreated, create_task_with_steps_for_app-IsAtomic,
}
use beetle_shield_backend.Store.{Result, err, Db, World, ok, update_tasks, update_apps}
use beetle_shield_backend.Store.Hoare.{
  Keeps, Keeps-bind, Keeps-update_tasks, Keeps-update_steps, Keeps-update_apps,
  Keeps-require_updated_row, Keeps-transaction, Keeps-first, keeps_rules,
}
use beetle_shield_backend.HardeningRepository.Tasks.{
  active_for, running_with_id, create_task_with_steps_for_app, mark_task_running, Artifacts,
  record_artifacts, transition_task_for_app_tx, transition_task_for_app, lock_hardening_task,
  complete_task_for_app, fail_task_for_app, fail_tasks, recover_running_tasks, recover_body,
}

abbrev pub OneActive : Db → Type 0
OneActive d = (a : ℕ) → count_where (active_for a) d.tasks ≤ 1

-- An update of tasks that makes no task active that was not, of the same app.
OneActive-update_tasks :
    (p : HardeningTask → Bool) (f : HardeningTask → HardeningTask)
    → ((a : ℕ) (t : HardeningTask) → p t ≡ true → active_for a (f t) ≡ true → active_for a t ≡ true)
    → Keeps OneActive (update_tasks p f)
OneActive-update_tasks p f h =
    Keeps-update_tasks p f (λ d one a.
      omega (arith, count_where-update_where-le (active_for a) p f d.tasks (h a), one a))

OneActive-update_apps : (p : App → Bool) (f : App → App) → Keeps OneActive (update_apps p f)
OneActive-update_apps p f = Keeps-update_apps p f (λ d one. one)

pub mark_task_running-OneActive : (id now : ℕ) → Keeps OneActive (mark_task_running id now)
unfolding mark_task_running
mark_task_running-OneActive id now =
    Keeps-require_updated_row _ (OneActive-update_tasks _ _ (λ a t p q. ground arith))

pub record_artifacts-OneActive :
    (id : ℕ) (artifacts : Artifacts) → Keeps OneActive (record_artifacts id artifacts)
unfolding record_artifacts
record_artifacts-OneActive id artifacts =
    Keeps-require_updated_row _ (OneActive-update_tasks _ _ (λ a t p q. q))

module _ (f : HardeningTask → HardeningTask) (g : App → App)
    (inactive : (a : ℕ) (t : HardeningTask) → active_for a (f t) ≡ false) where
  to_inactive : (id : ℕ) → Keeps OneActive (update_tasks (running_with_id id) f)
  to_inactive id = OneActive-update_tasks _ _ (λ a t p q. ground (arith, inactive a t))

  transition_tx-OneActive :
      (id app_id : ℕ) → Keeps OneActive (transition_task_for_app_tx id app_id f g)
  unfolding transition_task_for_app_tx
  transition_tx-OneActive id app_id =
      Keeps-bind _ _ (Keeps-require_updated_row _ (to_inactive id))
        (λ _. Keeps-require_updated_row _ (OneActive-update_apps _ g))

  transition-OneActive : (id : ℕ) → Keeps OneActive (transition_task_for_app id f g)
  unfolding transition_task_for_app lock_hardening_task
  transition-OneActive id =
      Keeps-transaction _
        (Keeps-bind _ _ (Keeps-first _) (λ t. transition_tx-OneActive t.id t.app_id))

pub complete_task_for_app-OneActive :
    (id : ℕ) (artifacts : Artifacts) (now : ℕ) (r : RiskLevel)
    → Keeps OneActive (complete_task_for_app id artifacts now r)
unfolding complete_task_for_app
complete_task_for_app-OneActive id artifacts now r =
    transition-OneActive _ _ (λ a t. ground arith) id

pub fail_task_for_app-OneActive :
    (id : ℕ) (summary : String) (now : ℕ) → Keeps OneActive (fail_task_for_app id summary now)
unfolding fail_task_for_app
fail_task_for_app-OneActive id summary now = transition-OneActive _ _ (λ a t. ground arith) id

fail_tasks-OneActive :
    (ts : List HardeningTask) (summary : String) (now : ℕ)
    → Keeps OneActive (fail_tasks ts summary now)
unfolding fail_tasks
fail_tasks-OneActive [] summary now = search keeps_rules
fail_tasks-OneActive (t ∷ ts) summary now =
    Keeps-bind _ _ (transition_tx-OneActive _ _ (λ a t. ground arith) t.id t.app_id)
      (λ _. fail_tasks-OneActive ts summary now)

recover_body-OneActive :
    (summary : String) (ts : List HardeningTask) → Keeps OneActive (recover_body summary ts)
recover_body-OneActive summary [] = search keeps_rules
recover_body-OneActive summary (t ∷ ts) =
    search (keeps_rules, fail_tasks-OneActive (t ∷ ts) summary, Keeps-update_steps)

pub recover_running_tasks-OneActive :
    (summary : String) → Keeps OneActive (recover_running_tasks summary)
unfolding recover_running_tasks
recover_running_tasks-OneActive summary = search (keeps_rules, recover_body-OneActive)

create-OneActive_lem :
    (before after : Db) (task : HardeningTask) (s : AppStatus) (id : ℕ)
    → OneActive before
    → IsCreated before task s id after
    → OneActive after
create-OneActive_lem before after task s id one c a =
    rw (c.changed, count_where-append (active_for a)) (ground (arith, one a, c.inactive))

-- The transaction counts the active tasks of the app under a lock and refuses a second one.
pub create_task_with_steps_for_app-OneActive :
    (task : HardeningTask) (s : AppStatus) → Keeps OneActive (create_task_with_steps_for_app task s)
create_task_with_steps_for_app-OneActive task s = record {
  at = λ w one. ended w one (create_task_with_steps_for_app task s w).0 refl;
}
  where
    ended :
        (w : World)
        → OneActive w.db
        → (r : Result ℕ) → (create_task_with_steps_for_app task s w).0 ≡ r
        → OneActive (create_task_with_steps_for_app task s w).1.db
    ended w one (ok id) e =
        create-OneActive_lem w.db _ task s id one
          ((create_task_with_steps_for_app-IsCreated w.db task s).at w refl id e)
    ended w one (err x) e =
        subst OneActive (sym ((create_task_with_steps_for_app-IsAtomic task s).at w x e)) one
