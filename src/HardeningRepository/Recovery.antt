-- ===== src/HardeningRepository/Recovery.antt =====
-- RecoverRunningTasks: when it cannot succeed.
use beetle_shield_backend.Prelude.{
  ℕ, ◌<◌, ◌≡◌, ◌≢◌, refl, ap, ◌∙◌, subst, Bool, true, false, ◌&&◌, String, List, [], ◌∷◌, ◌==◌,
  count_where, rows_where, All, arith, if◌then◌else◌,
}
use beetle_shield_backend.Model.{HardeningTask, is_running}
use beetle_shield_backend.Store.{Db, time_now, World, Result, ok, err}
use beetle_shield_backend.Store.Outcomes.{
  Leads, Leads-query, Leads-bind, Leads-transaction, Leads-any, IsAtomic, transaction-IsAtomic,
}
use beetle_shield_backend.HardeningRepository.Tasks.{
  app_has_id, recover_body, recover_running_tasks,
}
use beetle_shield_backend.HardeningRepository.Transitions.{fail_tasks-Leads, SameApps}

-- The app of the task is in the table.
abbrev pub IsHoused : Db → HardeningTask → Type 0
IsHoused d t = count_where (app_has_id t.app_id) d.apps ≢ 0

-- A running task whose app is gone.
abbrev pub is_orphan : Db → HardeningTask → Bool
is_orphan d t = is_running t.status && count_where (app_has_id t.app_id) d.apps == 0

recover_body-Leads :
    (before : Db) (summary : String) (ts : List HardeningTask)
    → Leads (λ d. d ≡ before) (recover_body summary ts) (λ _ _. All (IsHoused before) ts)
recover_body-Leads before summary [] = Leads-any _ _
recover_body-Leads before summary (t ∷ ts) =
    Leads-bind _ (λ _. SameApps before) _ _ _ (record { at = λ w p now e. same w p now e })
      (λ now.
        Leads-bind _ (λ _ _. All (IsHoused before) (t ∷ ts)) _ _ _
          (fail_tasks-Leads before (t ∷ ts) summary now) (λ _. record { at = λ w h a e. h }))
  where
    same :
        (w : World)
        → w.db ≡ before
        → (now : ℕ) → (time_now w).0 ≡ ok now
        → SameApps before (time_now w).1.db
    same w p now e = unfold time_now in λ a. ap (λ (x : Db). count_where (app_has_id a) x.apps) p

no_orphan :
    (d : Db) (ts : List HardeningTask)
    → All (IsHoused d) (rows_where (λ t. is_running t.status) ts)
    → count_where (is_orphan d) ts ≡ 0
no_orphan d [] h = refl
no_orphan d (t ∷ ts) h = split (no_orphan d ts) (is_running t.status) refl h
  where
    split :
        (All (IsHoused d) (rows_where (λ t. is_running t.status) ts)
          → count_where (is_orphan d) ts ≡ 0)
        → (b : Bool) → is_running t.status ≡ b
        → All (IsHoused d) (
            if b
            then t ∷ rows_where (λ t. is_running t.status) ts
            else rows_where (λ t. is_running t.status) ts)
        → count_where (is_orphan d) (t ∷ ts) ≡ 0
    split ih true e k = ground (arith, ih k.1)
    split ih false e k = ground (arith, ih k)

recover_running_tasks-IsAtomic : (summary : String) → IsAtomic (recover_running_tasks summary)
unfolding recover_running_tasks
recover_running_tasks-IsAtomic summary = transaction-IsAtomic _

-- While the app of some running task is gone, the recovery of all running tasks fails, whatever
-- the calls report, and it leaves every table as it was.
pub recover_running_tasks_blocked :
    (summary : String) (w : World)
    → 0 < count_where (is_orphan w.db) w.db.tasks
    → ((ts : List HardeningTask) → (recover_running_tasks summary w).0 ≢ ok ts)
      × ((recover_running_tasks summary w).1.db ≡ w.db)
recover_running_tasks_blocked summary w orphan =
    (refused, unchanged (recover_running_tasks summary w).0 refl)
  where
    leads :
        Leads
          (λ d. d ≡ w.db)
          (recover_running_tasks summary)
          (λ _ _. count_where (is_orphan w.db) w.db.tasks ≡ 0)
    leads =
        unfold recover_running_tasks in
        Leads-transaction _ _ _ (
          Leads-bind _ _ _ _ _ (Leads-query _ _) (λ ts. record {
            at = λ v q a e. no_orphan w.db w.db.tasks (
                subst (λ l. All (IsHoused w.db) l)
                  (q.1 ∙ ap (λ (x : Db). rows_where (λ t. is_running t.status) x.tasks) q.0)
                  ((recover_body-Leads w.db summary ts).at v q.0 a e));
          }))

    refused : (ts : List HardeningTask) → (recover_running_tasks summary w).0 ≢ ok ts
    refused ts e = absurd (omega (arith, leads.at w refl ts e))

    unchanged :
        (r : Result (List HardeningTask))
        → (recover_running_tasks summary w).0 ≡ r
        → (recover_running_tasks summary w).1.db ≡ w.db
    unchanged (ok ts) e = absurd (refused ts e)
    unchanged (err x) e = (recover_running_tasks-IsAtomic summary).at w x e
