-- ===== src/Apps/Deletion.antt =====
-- When an app may be deleted, and what a deletion keeps.
use beetle_shield_backend.Prelude.{
  ℕ, ◌==◌, ◌≡◌, refl, ap, ◌∙◌, Bool, true, not, String, List, ltb, count_where, delete_where, arith,
}
use beetle_shield_backend.Model.{App, AuditLog, HardeningTask}
use beetle_shield_backend.Store.{Db, World, Error, Result, ok, err}
use beetle_shield_backend.Store.Hoare.{Keeps-call, Keeps-ignore, keeps_rules}
use beetle_shield_backend.Store.Outcomes.{
  Leads, Leads-bind, Leads-execute, Leads-fail, Leads-guard, Leads-keeps, Leads-map_error,
  Leads-pure, Leads-query,
}
use beetle_shield_backend.Store.Failures.{
  FailsKeeping, FailsKeeping-bind, FailsKeeping-execute, FailsKeeping-Keeps, FailsKeeping-map_error,
  FailsKeeping-then_ignore,
}
use beetle_shield_backend.Audit.Deferred.{
  deferred_audit-Fails, deferred_audit-Keeps, deferred_audit-Leads,
}
use beetle_shield_backend.HardeningRepository.{active_for, app_has_id, has_active_task_for_app}
use beetle_shield_backend.Worker.{delete_object}
use beetle_shield_backend.Apps.Repository.{find_app_row, delete_app_row}
use beetle_shield_backend.Apps.Service.{delete_app, delete_found_app, delete_found_app_body}

-- The apps and the tasks are those.
abbrev pub AppsAndTasks : List App → List HardeningTask → Db → Type 0
AppsAndTasks apps tasks d = (d.apps ≡ apps) × (d.tasks ≡ tasks)

module _ (apps : List App) (tasks : List HardeningTask) (id : ℕ) where
  delete_body-Fails :
      (app : App) → FailsKeeping (AppsAndTasks apps tasks) (delete_found_app_body id app)
  unfolding delete_app_row has_active_task_for_app delete_found_app_body
  delete_body-Fails app = FailsKeeping-bind _ _ (search keeps_rules) (λ b.
      FailsKeeping-bind _ _ (search keeps_rules)
        (λ _. FailsKeeping-then_ignore _ _ (FailsKeeping-map_error _ _ (FailsKeeping-execute _))))

  found-Fails :
      (actor : ℕ) (ip : String) (r : Result App)
      → FailsKeeping (AppsAndTasks apps tasks) (delete_found_app id actor ip r)
  found-Fails actor ip (ok app) = deferred_audit-Fails _ (λ d ls q. q) _ _ (delete_body-Fails app)
  found-Fails actor ip (err e) =
      FailsKeeping-Keeps _ (deferred_audit-Keeps _ (λ d ls q. q) _ _ (search keeps_rules))

-- A deletion that fails, at whatever call or because a task of the app is active, has deleted no
-- app and changed no task.
pub delete_app-failure :
    (id actor : ℕ) (ip : String) (w : World) (e : Error)
    → (delete_app id actor ip w).0 ≡ err e
    → AppsAndTasks w.db.apps w.db.tasks (delete_app id actor ip w).1.db
delete_app-failure id actor ip w e x = fails.at w (refl, refl) e x
  where
    fails : FailsKeeping (AppsAndTasks w.db.apps w.db.tasks) (delete_app id actor ip)
    fails =
        unfold delete_app find_app_row in
        FailsKeeping-bind _ _ (search keeps_rules) (found-Fails w.db.apps w.db.tasks id actor ip)

-- But for the audit log, the tables are those.
abbrev SameButAudit : Db → Db → Type 0
SameButAudit before d = (ls : List AuditLog) × (d ≡ record before { audit_logs = ls })

module _ (before : Db) (id : ℕ) where
  -- No task of the app was active, and the tables have lost its row, and no other; the audit log
  -- has been written.
  abbrev pub IsDeleted : Db → Type 0
  IsDeleted d =
      (count_where (active_for id) before.tasks ≡ 0)
      × ((ls : List AuditLog) × (d
            ≡ record before { apps = delete_where (λ a. a.id == id) before.apps; audit_logs = ls }))

  has_active-SameButAudit :
      Leads
        (SameButAudit before)
        (has_active_task_for_app id)
        (λ b d. SameButAudit before d × (b ≡ ltb 0 (count_where (active_for id) before.tasks)))
  unfolding has_active_task_for_app
  has_active-SameButAudit = Leads-bind _ _ _ _ _ (Leads-query _ _) (λ n. Leads-pure _ _ _ (λ d p.
      (p.0, ap (ltb 0) p.1 ∙ ap (λ (x : Db). ltb 0 (count_where (active_for id) x.tasks)) p.0.1)))

  none_active : (b : Bool) (n : ℕ) → b ≡ ltb 0 n → not b ≡ true → n ≡ 0
  none_active b n e h = ground (arith, e)

  delete_body-IsDeleted :
      (app : App) → Leads (SameButAudit before) (delete_found_app_body id app) (λ _. IsDeleted)
  unfolding delete_app_row delete_object delete_found_app_body
  delete_body-IsDeleted app =
      Leads-bind _ _ _ _ _ (Leads-map_error _ _ _ _ has_active-SameButAudit) (λ b.
        Leads-bind _ _ _ _ _ (Leads-guard _ _ _) (λ _.
          Leads-bind _ _ _ _ _
            (Leads-map_error _ _ _ _ (
              Leads-execute _ (λ _. IsDeleted) _
                (λ d q. (
                  none_active b _ q.0.1 q.1,
                  (
                    q.0.0.0,
                    ap (λ (x : Db). record x { apps = delete_where (app_has_id id) x.apps })
                        q.0.0.1,
                  ),
                ))))
            (λ _. Leads-keeps _ _ (Keeps-ignore _ (Keeps-call _ (λ w p. p))))))

  audited : (d : Db) (ls : List AuditLog) → IsDeleted d → IsDeleted (record d { audit_logs = ls })
  audited d ls q = (q.0, (ls, ap (λ (x : Db). record x { audit_logs = ls }) q.1.1))

  found-IsDeleted :
      (actor : ℕ) (ip : String) (r : Result App)
      → Leads (SameButAudit before) (delete_found_app id actor ip r) (λ _. IsDeleted)
  found-IsDeleted actor ip (ok app) =
      deferred_audit-Leads _ _ (λ a d ls q. audited d ls q) _ _ (delete_body-IsDeleted app)
  found-IsDeleted actor ip (err e) =
      deferred_audit-Leads _ _ (λ a d ls q. audited d ls q) _ _ (Leads-fail _ _ _)

-- If a deletion succeeds, no task of the app was active, and the table of the apps has lost the
-- rows of that key and no other; but for the audit log every other table is as it was.
pub delete_app_lem :
    (id actor : ℕ) (ip : String) (w : World)
    → (delete_app id actor ip w).0 ≡ ok tt
    → IsDeleted w.db id (delete_app id actor ip w).1.db
delete_app_lem id actor ip w e = leads.at w (w.db.audit_logs, refl) tt e
  where
    leads : Leads (SameButAudit w.db) (delete_app id actor ip) (λ _. IsDeleted w.db id)
    leads =
        unfold delete_app find_app_row in
        Leads-bind _ _ _ _ _ (Leads-keeps _ _ (search keeps_rules))
          (found-IsDeleted w.db id actor ip)
