-- ===== src/HardeningRepository/Cleared.antt =====
-- A failed task claims no artifact: what the operations on tasks keep.
use beetle_shield_backend.Prelude.{
  ℕ, ◌≡◌, ◌≢◌, refl, sym, subst, Bool, true, false, String, List, [], ◌∷◌, All, All-append,
  All-update_where, update_where, ◌==◌, if◌then◌else◌,
}
use beetle_shield_backend.Model.{App, AppStatus, HardeningTask, HardeningTaskStatus, RiskLevel}
use beetle_shield_backend.Store.{Db, World, Result, ok, err, update_tasks, update_apps}
use beetle_shield_backend.Store.Hoare.{
  Keeps, Keeps-bind, Keeps-first, Keeps-transaction, Keeps-update_tasks, Keeps-update_steps,
  Keeps-update_apps, Keeps-require_updated_row, keeps_rules,
}
use beetle_shield_backend.HardeningRepository.Creation.{
  create_task_with_steps_for_app-IsCreated, create_task_with_steps_for_app-IsAtomic,
}
use beetle_shield_backend.HardeningRepository.Tasks.{
  has_id, create_task_with_steps_for_app, mark_task_running, Artifacts, artifacts_of,
  failed_task_artifact_fields, record_artifacts, set_artifacts, transition_task_for_app_tx,
  transition_task_for_app, lock_hardening_task, complete_task_for_app, fail_task_for_app,
  fail_tasks, recover_running_tasks, recover_body,
}

abbrev pub IsCleared : HardeningTask → Type 0
IsCleared t = t.status ≡ HardeningTaskStatus.failed → artifacts_of t ≡ failed_task_artifact_fields

abbrev pub FailedCleared : Db → Type 0
FailedCleared d = All IsCleared d.tasks

clear :
    (p : HardeningTask → Bool) (f : HardeningTask → HardeningTask)
    → ((t : HardeningTask) → p t ≡ true → IsCleared t → IsCleared (f t))
    → Keeps FailedCleared (update_tasks p f)
clear p f h = Keeps-update_tasks p f (λ d c. All-update_where IsCleared p f d.tasks h c)

apps_only : (p : App → Bool) (f : App → App) → Keeps FailedCleared (update_apps p f)
apps_only p f = Keeps-update_apps p f (λ d c. c)

pub mark_task_running-FailedCleared : (id now : ℕ) → Keeps FailedCleared (mark_task_running id now)
unfolding mark_task_running
mark_task_running-FailedCleared id now =
    Keeps-require_updated_row _ (clear _ _ (λ t q c e. absurd (cc e)))

-- The row of the key is not failed.
abbrev pub NotFailed : ℕ → HardeningTask → Type 0
NotFailed id t = (t.id == id) ≡ true → t.status ≢ HardeningTaskStatus.failed

-- RecordArtifacts does not look at the status: it keeps the invariant where the task is not failed.
pub record_artifacts-FailedCleared :
    (id : ℕ) (artifacts : Artifacts) (w : World)
    → All (NotFailed id) w.db.tasks
    → FailedCleared w.db
    → FailedCleared (record_artifacts id artifacts w).1.db
unfolding record_artifacts
record_artifacts-FailedCleared id artifacts w live c =
    ((Keeps-require_updated_row {P = Both} _ (Keeps-update_tasks {P = Both} _ _ stored)).at w
      (live, c)).1
  where
    Both : Db → Type 0
    Both d = All (NotFailed id) d.tasks × FailedCleared d

    stored :
        (d : Db)
        → Both d
        → Both (record d { tasks = update_where (has_id id) (set_artifacts artifacts) d.tasks })
    stored d b = rows d.tasks b.0 b.1
      where
        rows :
            (ts : List HardeningTask)
            → All (NotFailed id) ts
            → All IsCleared ts
            → All (NotFailed id) (update_where (has_id id) (set_artifacts artifacts) ts)
              × All IsCleared (update_where (has_id id) (set_artifacts artifacts) ts)
        rows [] l c' = (tt, tt)
        rows (t ∷ ts) l c' = behind (t.id == id) refl (rows ts l.1 c'.1)
          where
            Both_rows : List HardeningTask → Type 0
            Both_rows us = All (NotFailed id) us × All IsCleared us

            behind :
                (b : Bool)
                → (t.id == id) ≡ b
                → Both_rows (update_where (has_id id) (set_artifacts artifacts) ts)
                → Both_rows (
                    (if b then set_artifacts artifacts t else t)
                    ∷ update_where (has_id id) (set_artifacts artifacts) ts)
            behind true e r = ((l.0, r.0), ((λ failed. absurd (l.0 e failed)), r.1))
            behind false e r = ((l.0, r.0), (c'.0, r.1))

module _ (f : HardeningTask → HardeningTask) (g : App → App)
    (cleared : (t : HardeningTask) → IsCleared (f t)) where
  transition_tx-FailedCleared :
      (id app_id : ℕ) → Keeps FailedCleared (transition_task_for_app_tx id app_id f g)
  unfolding transition_task_for_app_tx
  transition_tx-FailedCleared id app_id =
      Keeps-bind _ _ (Keeps-require_updated_row _ (clear _ f (λ t q c. cleared t)))
        (λ _. Keeps-require_updated_row _ (apps_only _ g))

  transition-FailedCleared : (id : ℕ) → Keeps FailedCleared (transition_task_for_app id f g)
  unfolding transition_task_for_app lock_hardening_task
  transition-FailedCleared id =
      Keeps-transaction _
        (Keeps-bind _ _ (Keeps-first _) (λ t. transition_tx-FailedCleared t.id t.app_id))

pub complete_task_for_app-FailedCleared :
    (id : ℕ) (artifacts : Artifacts) (now : ℕ) (r : RiskLevel)
    → Keeps FailedCleared (complete_task_for_app id artifacts now r)
unfolding complete_task_for_app
complete_task_for_app-FailedCleared id artifacts now r =
    transition-FailedCleared _ _ (λ t e. absurd (cc e)) id

pub fail_task_for_app-FailedCleared :
    (id : ℕ) (summary : String) (now : ℕ) → Keeps FailedCleared (fail_task_for_app id summary now)
unfolding fail_task_for_app
fail_task_for_app-FailedCleared id summary now = transition-FailedCleared _ _ (λ t e. refl) id

fail_tasks-FailedCleared :
    (ts : List HardeningTask) (summary : String) (now : ℕ)
    → Keeps FailedCleared (fail_tasks ts summary now)
unfolding fail_tasks
fail_tasks-FailedCleared [] summary now = search keeps_rules
fail_tasks-FailedCleared (t ∷ ts) summary now =
    Keeps-bind _ _ (transition_tx-FailedCleared _ _ (λ t e. refl) t.id t.app_id)
      (λ _. fail_tasks-FailedCleared ts summary now)

recover_body-FailedCleared :
    (summary : String) (ts : List HardeningTask) → Keeps FailedCleared (recover_body summary ts)
recover_body-FailedCleared summary [] = search keeps_rules
recover_body-FailedCleared summary (t ∷ ts) =
    search (keeps_rules, fail_tasks-FailedCleared (t ∷ ts) summary, Keeps-update_steps)

pub recover_running_tasks-FailedCleared :
    (summary : String) → Keeps FailedCleared (recover_running_tasks summary)
unfolding recover_running_tasks
recover_running_tasks-FailedCleared summary = search (keeps_rules, recover_body-FailedCleared)

-- A task is created in a state that is not `failed`.
pub create_task_with_steps_for_app-FailedCleared :
    (task : HardeningTask) (s : AppStatus)
    → task.status ≢ HardeningTaskStatus.failed
    → Keeps FailedCleared (create_task_with_steps_for_app task s)
create_task_with_steps_for_app-FailedCleared task s live = record {
  at = λ w h. ended w h (create_task_with_steps_for_app task s w).0 refl;
}
  where
    ended :
        (w : World)
        → FailedCleared w.db
        → (r : Result ℕ) → (create_task_with_steps_for_app task s w).0 ≡ r
        → FailedCleared (create_task_with_steps_for_app task s w).1.db
    ended w h (ok id) e =
        let c = (create_task_with_steps_for_app-IsCreated w.db task s).at w refl id e in
        subst FailedCleared (sym c.changed)
          (All-append IsCleared w.db.tasks _ h ((λ e'. absurd (live e')), tt))
    ended w h (err x) e =
        subst FailedCleared (sym ((create_task_with_steps_for_app-IsAtomic task s).at w x e)) h
