-- ===== src/HardeningRepository/Transitions.antt =====
-- What CompleteTaskForApp and FailTaskForApp do when they succeed, as one change of the tables;
-- and when they cannot succeed.
use beetle_shield_backend.Prelude.{
  ℕ, ◌≡◌, ◌≢◌, refl, sym, ap, ◌∙◌, Bool, String, some, List, [], ◌∷◌, count_where, first_where,
  update_where, All, arith,
}
use beetle_shield_backend.Model.{App, AppStatus, HardeningTask, RiskLevel}
use beetle_shield_backend.Store.{Db, World, ok, update_tasks, update_apps}
use beetle_shield_backend.Store.Outcomes.{
  Leads, Leads-pure, Leads-first, Leads-execute, Leads-bind, Leads-transaction,
  Leads-require_updated_row,
}
use beetle_shield_backend.HardeningRepository.Tasks.{
  running_with_id, has_id, app_has_id, Artifacts, transition_task_for_app_tx,
  transition_task_for_app, lock_hardening_task, complete_updates, complete_task_for_app,
  fail_updates, fail_task_for_app, fail_tasks,
}

-- The change: the task was found under its key and some row of that key was running, its app was
-- there, and exactly the running rows of that key and the rows of the app have been assigned.
pub record IsTransitioned (before : Db) (id : ℕ) (f : HardeningTask → HardeningTask) (g : App → App)
    (after : Db) : Type 0 where
  pub task : HardeningTask
  pub found : first_where (has_id id) before.tasks ≡ some task
  pub was_running : count_where (running_with_id task.id) before.tasks ≢ 0
  pub app_known : count_where (app_has_id task.app_id) before.apps ≢ 0
  pub changed : after ≡ record before {
    tasks = update_where (running_with_id task.id) f before.tasks;
    apps = update_where (app_has_id task.app_id) g before.apps;
  }

-- The two updates of the transition.
abbrev Transitioned : Db → ℕ → ℕ → (HardeningTask → HardeningTask) → (App → App) → Db → Type 0
Transitioned before id app_id f g d =
    (count_where (running_with_id id) before.tasks ≢ 0)
    × (count_where (app_has_id app_id) before.apps ≢ 0)
    × (d ≡ record before {
      tasks = update_where (running_with_id id) f before.tasks;
      apps = update_where (app_has_id app_id) g before.apps;
    })

pub transition_task_for_app_tx-Leads :
    (before : Db) (id app_id : ℕ) (f : HardeningTask → HardeningTask) (g : App → App)
    → Leads
        (λ d. d ≡ before)
        (transition_task_for_app_tx id app_id f g)
        (λ _ d. Transitioned before id app_id f g d)
unfolding transition_task_for_app_tx update_tasks update_apps
transition_task_for_app_tx-Leads before id app_id f g =
    Leads-bind _ _ _ _ _
      (Leads-require_updated_row _
        (λ n d.
          (n ≡ count_where (running_with_id id) before.tasks)
          × (d ≡ record before { tasks = update_where (running_with_id id) f before.tasks }))
        _
        (Leads-execute _ _ _ (λ d e. (
          ap (λ (x : Db). count_where (running_with_id id) x.tasks) e,
          ap (λ (x : Db). record x { tasks = update_where (running_with_id id) f x.tasks }) e,
        ))))
      (λ _. record {
        at = λ w q a e.
            let r =
              (Leads-require_updated_row (λ d. d ≡ w.db)
                  (λ n d.
                    (n ≡ count_where (app_has_id app_id) w.db.apps)
                    × (d ≡ record w.db { apps = update_where (app_has_id app_id) g w.db.apps }))
                  (update_apps (app_has_id app_id) g)
                  (Leads-execute _ _ _ (λ d same. (
                    ap (λ (x : Db). count_where (app_has_id app_id) x.apps) same,
                    ap (λ (x : Db). record x { apps = update_where (app_has_id app_id) g x.apps })
                        same,
                  )))).at
                w refl a e in
            (
              (λ z. q.2 (q.1.0 ∙ z)),
              (λ z.
                  r.2
                    (r.1.0 ∙ (ap (λ (x : Db). count_where (app_has_id app_id) x.apps) q.1.1 ∙ z))),
              r.1.1
                  ∙ ap (λ (x : Db). record x { apps = update_where (app_has_id app_id) g x.apps })
                      q.1.1,
            );
      })

-- If the transaction succeeds, it has made exactly the change that `IsTransitioned` says.
pub transition_task_for_app-IsTransitioned :
    (before : Db) (id : ℕ) (f : HardeningTask → HardeningTask) (g : App → App)
    → Leads
        (λ d. d ≡ before)
        (transition_task_for_app id f g)
        (λ _ d. IsTransitioned before id f g d)
unfolding transition_task_for_app lock_hardening_task
transition_task_for_app-IsTransitioned before id f g = Leads-transaction _ _ _ (
    Leads-bind _ _ _ _ _ (Leads-first _ _) (λ task. record {
      at = λ w q a e.
          let t = (transition_task_for_app_tx-Leads before task.id task.app_id f g).at w q.0 a e in
          record {
            task = task;
            found = ap (λ (x : Db). first_where (has_id id) x.tasks) (sym q.0) ∙ q.1;
            was_running = t.0;
            app_known = t.1;
            changed = t.2;
          };
    }))

-- A completion that succeeds has turned the running task and its app to `completed`, with the
-- artifacts, the time and the risk level that it was given, and touched nothing else.
pub complete_task_for_app-IsTransitioned :
    (before : Db) (id : ℕ) (artifacts : Artifacts) (now : ℕ) (r : RiskLevel)
    → Leads
        (λ d. d ≡ before)
        (complete_task_for_app id artifacts now r)
        (λ _ d.
          IsTransitioned before id
            (complete_updates artifacts now)
            (λ a. record a { status = AppStatus.completed; risk_level = some r })
            d)
unfolding complete_task_for_app
complete_task_for_app-IsTransitioned before id artifacts now r =
    transition_task_for_app-IsTransitioned before id _ _

pub fail_task_for_app-IsTransitioned :
    (before : Db) (id : ℕ) (summary : String) (now : ℕ)
    → Leads
        (λ d. d ≡ before)
        (fail_task_for_app id summary now)
        (λ _ d.
          IsTransitioned before id
            (fail_updates summary now)
            (λ a. record a { status = AppStatus.failed })
            d)
unfolding fail_task_for_app
fail_task_for_app-IsTransitioned before id summary now =
    transition_task_for_app-IsTransitioned before id _ _

-- A transition of a task whose app is gone never succeeds, whatever the calls report.
pub transition_needs_app :
    (w : World) (id : ℕ) (f : HardeningTask → HardeningTask) (g : App → App) (task : HardeningTask)
    → first_where (has_id id) w.db.tasks ≡ some task
    → count_where (app_has_id task.app_id) w.db.apps ≡ 0
    → (transition_task_for_app id f g w).0 ≢ ok tt
transition_needs_app w id f g task found gone e =
    let t = (transition_task_for_app-IsTransitioned w.db id f g).at w refl tt e in
    t.app_known (
      ap (λ (x : HardeningTask). count_where (app_has_id x.app_id) w.db.apps)
        (same_task (sym t.found ∙ found))
      ∙ gone)
  where
    same_task : {t u : HardeningTask} → some t ≡ some u → t ≡ u
    same_task p = cc

-- The apps of the tables, as far as `WHERE id = ?` sees them.
abbrev pub SameApps : Db → Db → Type 0
SameApps before d =
    (a : ℕ) → count_where (app_has_id a) d.apps ≡ count_where (app_has_id a) before.apps

count_where-update_where_same {ℓ} :
    {A : Type ℓ} (p q : A → Bool) (f : A → A) (xs : List A)
    → ((x : A) → p (f x) ≡ p x)
    → count_where p (update_where q f xs) ≡ count_where p xs
count_where-update_where_same p q f [] h = refl
count_where-update_where_same p q f (x ∷ xs) h =
    ground (arith, h x, count_where-update_where_same p q f xs h)

-- The loop of the recovery succeeds only if it finds the app of every task.
pub fail_tasks-Leads :
    (before : Db) (ts : List HardeningTask) (summary : String) (now : ℕ)
    → Leads
        (SameApps before)
        (fail_tasks ts summary now)
        (λ _ _. All (λ t. count_where (app_has_id t.app_id) before.apps ≢ 0) ts)
unfolding fail_tasks
fail_tasks-Leads before [] summary now = Leads-pure _ _ tt (λ d s. tt)
fail_tasks-Leads before (t ∷ ts) summary now = record {
  at = λ w s a e.
      (Leads-bind (λ d. d ≡ w.db)
          (λ _ d. (count_where (app_has_id t.app_id) before.apps ≢ 0) × SameApps before d)
          (λ _ _. All (λ t. count_where (app_has_id t.app_id) before.apps ≢ 0) (t ∷ ts))
          (transition_task_for_app_tx t.id t.app_id (fail_updates summary now)
            (λ a. record a { status = AppStatus.failed }))
          (λ _. fail_tasks ts summary now) (record { at = λ v same b h. one w s v same b h })
          (λ _. record {
            at = λ v q b h. (q.0, (fail_tasks-Leads before ts summary now).at v q.1 b h);
          })).at
        w refl a e;
}
  where
    one :
        (w : World)
        → SameApps before w.db
        → (v : World) → v.db ≡ w.db
        → (b : Unit {0})
        → (transition_task_for_app_tx t.id t.app_id
            (fail_updates summary now)
            (λ a. record a { status = AppStatus.failed })
            v).0
          ≡ ok b
        → (count_where (app_has_id t.app_id) before.apps ≢ 0)
          × SameApps before
              (transition_task_for_app_tx t.id t.app_id
                (fail_updates summary now)
                (λ a. record a { status = AppStatus.failed })
                v).1.db
    one w s v same b h =
        let r =
          (transition_task_for_app_tx-Leads w.db t.id t.app_id (fail_updates summary now)
              (λ a. record a { status = AppStatus.failed })).at
            v same b h in
        (
          (λ z. r.1 (s t.app_id ∙ z)),
          λ a.
              ap (λ (x : Db). count_where (app_has_id a) x.apps) r.2
              ∙ (count_where-update_where_same (app_has_id a) (app_has_id t.app_id)
                    (λ a. record a { status = AppStatus.failed }) w.db.apps (λ x. refl)
                  ∙ s a),
        )
