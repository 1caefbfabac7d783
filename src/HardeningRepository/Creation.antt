-- ===== src/HardeningRepository/Creation.antt =====
-- What CreateTaskWithStepsForApp does when it succeeds, as one change of the tables.
use beetle_shield_backend.Prelude.{
  ℕ, ◌≡◌, refl, sym, ap, ◌∙◌, true, some, List, [], ◌∷◌, ◌++◌, count_where, update_where,
  first_where, ◌==◌, arith,
}
use mathlib.Core.List.{append_assoc, append-nil}
use beetle_shield_backend.Model.{App, AppStatus, HardeningStep, HardeningStepStatus, HardeningTask}
use beetle_shield_backend.Store.{
  Db, ◌>>=◌, ◌>>◌, pure, require_updated_row, update_apps, active_hardening_task_exists,
}
use beetle_shield_backend.Store.Outcomes.{
  Leads, Leads-pure, Leads-query, Leads-first, Leads-guard, Leads-insert_row, Leads-execute,
  Leads-bind, Leads-transaction, Leads-require_updated_row, IsAtomic, transaction-IsAtomic,
}
use beetle_shield_backend.HardeningRepository.Tasks.{
  StepTemplate, default_hardening_steps, active_for, app_has_id, step_row, create_step,
  create_steps, create_task_with_default_steps, create_task_with_steps_for_app,
}

-- A new step of the task, made from the template: it waits, and has the template's key and place.
abbrev pub IsFresh : ℕ → StepTemplate → HardeningStep → Type 0
IsFresh task_id template s =
    (s.task_id ≡ task_id)
    × (s.step_key ≡ template.step_key)
    × (s.sort_order ≡ template.sort_order)
    × (s.status ≡ HardeningStepStatus.waiting)

-- One new step for each template, in order.
abbrev pub AreFresh : ℕ → List StepTemplate → List HardeningStep → Type 0
AreFresh task_id [] [] = Unit
AreFresh task_id [] (s ∷ ss) = ⊥
AreFresh task_id (t ∷ ts) [] = ⊥
AreFresh task_id (t ∷ ts) (s ∷ ss) = IsFresh task_id t s × AreFresh task_id ts ss

-- The change: the app was there and had no active task; the task stands behind the others under
-- its new key, its six steps behind the other steps, and the app has the status asked for.
pub record IsCreated (before : Db) (task : HardeningTask) (s : AppStatus) (id : ℕ) (after : Db)
    : Type 0 where
  pub inactive : count_where (active_for task.app_id) before.tasks ≡ 0
  pub app : App
  pub known : first_where (app_has_id task.app_id) before.apps ≡ some app
  pub now : ℕ
  pub new_steps : List HardeningStep
  pub fresh : AreFresh id default_hardening_steps new_steps
  pub changed : after ≡ record before {
    tasks = before.tasks ++ (record task { id = id; created_at = now; updated_at = now } ∷ []);
    steps = before.steps ++ new_steps;
    apps = update_where (app_has_id task.app_id) (λ a. record a { status = s }) before.apps;
  }

-- The state between two inserts of steps: all but the steps is as it was.
abbrev Stepped : Db → ℕ → List StepTemplate → Db → Type 0
Stepped before task_id templates d =
    (new : List HardeningStep) × (d ≡ record before { steps = before.steps ++ new })
    × AreFresh task_id templates new

create_steps-Leads :
    (before : Db) (task_id : ℕ) (templates : List StepTemplate)
    → Leads
        (λ d. d ≡ before)
        (create_steps templates task_id)
        (λ _ d. Stepped before task_id templates d)
unfolding create_steps create_step
create_steps-Leads before task_id [] =
    Leads-pure _ _ tt
      (λ d e. ([], e ∙ ap (λ l. record before { steps = l }) (sym (append-nil before.steps)), tt))
create_steps-Leads before task_id (t ∷ ts) =
    Leads-bind _
      (λ _ d.
        (r : HardeningStep) × (d ≡ record before { steps = before.steps ++ (r ∷ []) })
        × IsFresh task_id t r)
      _ (create_step t task_id) (λ _. create_steps ts task_id) (created t)
      (λ _. record {
        at = λ w q a e.
            let before' : Db = record before { steps = before.steps ++ (q.0 ∷ []) } in
            let ih = (create_steps-Leads before' task_id ts).at w q.1 a e in
            (
              q.0 ∷ ih.0,
              ih.1
                  ∙ ap (λ l. record before { steps = l })
                      (append_assoc before.steps (q.0 ∷ []) ih.0),
              (q.2, ih.2),
            );
      })
  where
    created :
        (t : StepTemplate)
        → Leads
            (λ d. d ≡ before)
            (create_step t task_id)
            (λ _ d.
              (r : HardeningStep) × (d ≡ record before { steps = before.steps ++ (r ∷ []) })
              × IsFresh task_id t r)
    created t =
        Leads-insert_row _ _
          (λ id now d. (tt, record d { steps = d.steps ++ (step_row t task_id id now ∷ []) }))
          (λ id now d e. (
            step_row t task_id id now,
            ap (λ (x : Db). record x { steps = x.steps ++ (step_row t task_id id now ∷ []) }) e,
            (refl, refl, refl, refl),
          ))

-- The task and its six steps are there, and nothing else has changed.
abbrev WithSteps : Db → HardeningTask → ℕ → Db → Type 0
WithSteps before task id d =
    (now : ℕ) × (new : List HardeningStep) × (d ≡ record before {
      tasks = before.tasks ++ (record task { id = id; created_at = now; updated_at = now } ∷ []);
      steps = before.steps ++ new;
    })
    × AreFresh id default_hardening_steps new

create_task-Leads :
    (before : Db) (task : HardeningTask)
    → Leads
        (λ d. d ≡ before)
        (create_task_with_default_steps task)
        (λ id d. WithSteps before task id d)
unfolding create_task_with_default_steps
create_task-Leads before task =
    Leads-bind _
      (λ id d.
        (now : ℕ) × (d ≡ record before {
          tasks =
              before.tasks ++ (record task { id = id; created_at = now; updated_at = now } ∷ []);
        }))
      _ _ _
      (Leads-insert_row _ _ _ (λ id now d e. (
        now,
        ap
            (λ (x : Db). record x {
              tasks = x.tasks ++ (record task { id = id; created_at = now; updated_at = now } ∷ []);
            })
            e,
      )))
      (λ id.
        Leads-bind _ (λ _ d. WithSteps before task id d) _ _ _
          (record {
            at = λ w q a e.
                let s = (create_steps-Leads _ id default_hardening_steps).at w q.1 a e in
                (q.0, s.0, s.1, s.2);
          })
          (λ _. Leads-pure _ _ id (λ d e. e)))

-- The rows that the transaction writes, once its checks have passed.
abbrev Written : Db → HardeningTask → AppStatus → ℕ → Db → Type 0
Written before task s id d =
    (now : ℕ) × (new : List HardeningStep) × (d ≡ record before {
      tasks = before.tasks ++ (record task { id = id; created_at = now; updated_at = now } ∷ []);
      steps = before.steps ++ new;
      apps = update_where (app_has_id task.app_id) (λ a. record a { status = s }) before.apps;
    })
    × AreFresh id default_hardening_steps new

write_rows :
    (before : Db) (task : HardeningTask) (s : AppStatus)
    → Leads
        (λ d. d ≡ before)
        (create_task_with_default_steps task >>= λ id.
          require_updated_row (update_apps (app_has_id task.app_id) (λ a. record a { status = s }))
          >> pure id)
        (λ id d. Written before task s id d)
unfolding update_apps
write_rows before task s = Leads-bind _ _ _ _ _ (create_task-Leads before task) (λ id.
    Leads-bind _ _ _ _ _
      (Leads-require_updated_row _ (λ _ d. Written before task s id d) _
        (Leads-execute _ _ _ (λ d q. (
          q.0,
          q.1,
          ap
              (λ (x : Db). record x {
                apps = update_where (app_has_id task.app_id) (λ a. record a { status = s }) x.apps;
              })
              q.2,
          q.3,
        ))))
      (λ _. Leads-pure _ _ id (λ d r. r.1)))

-- If the transaction succeeds with a key, it has made exactly the change that `IsCreated` says.
pub create_task_with_steps_for_app-IsCreated :
    (before : Db) (task : HardeningTask) (s : AppStatus)
    → Leads
        (λ d. d ≡ before)
        (create_task_with_steps_for_app task s)
        (λ id d. IsCreated before task s id d)
unfolding create_task_with_steps_for_app
create_task_with_steps_for_app-IsCreated before task s = Leads-transaction _ _ _ (
    Leads-bind _ _ _ _ _ (Leads-first _ _) (λ app. Leads-bind _ _ _ _ _ (Leads-query _ _) (λ count.
      Leads-bind _ _ _ _ _ (Leads-guard _ (count == 0) active_hardening_task_exists) (λ _. record {
        at = λ w q id e.
            let ((same, found), counted) = q.0 in
            let written = (write_rows before task s).at w same id e in
            record {
              inactive =
                  ap (λ (x : Db). count_where (active_for task.app_id) x.tasks) (sym same)
                  ∙ (sym counted ∙ is_zero count q.1);
              app = app;
              known =
                  ap (λ (x : Db). first_where (app_has_id task.app_id) x.apps) (sym same) ∙ found;
              now = written.0;
              new_steps = written.1;
              fresh = written.3;
              changed = written.2;
            };
      }))))
  where
    is_zero : (n : ℕ) → (n == 0) ≡ true → n ≡ 0
    is_zero n e = ground arith

-- If it fails, at any of its statements, the tables are as they were.
pub create_task_with_steps_for_app-IsAtomic :
    (task : HardeningTask) (s : AppStatus) → IsAtomic (create_task_with_steps_for_app task s)
unfolding create_task_with_steps_for_app
create_task_with_steps_for_app-IsAtomic task s = transaction-IsAtomic _
