-- ===== src/HardeningRepository/Recovered.antt =====
-- RecoverRunningTasks: what it has done when it succeeds.
use beetle_shield_backend.Prelude.{
  ℕ, ◌≤◌, ◌≡◌, refl, sym, ap, ◌∙◌, subst, Bool, true, false, ◌&&◌, ◌||◌, not, String, List, [], ◌∷◌,
  ◌==◌, count_where, rows_where, update_where, arith, if◌then◌else◌,
}
use beetle_shield_backend.Model.{App, AppStatus, HardeningTask, is_running}
use beetle_shield_backend.Store.{Db, World, ok}
use beetle_shield_backend.Store.Hoare.{Keeps-time_now, Keeps-update_steps}
use beetle_shield_backend.Store.Outcomes.{
  Leads, Leads-pure, Leads-query, Leads-bind, Leads-transaction, Leads-keeps,
}
use beetle_shield_backend.HardeningRepository.Tasks.{
  fail_updates, fail_tasks, recover_body, recover_running_tasks, running_with_id,
}
use beetle_shield_backend.HardeningRepository.Transitions.{transition_task_for_app_tx-Leads}

abbrev listed : List HardeningTask → ℕ → Bool
listed [] id = false
listed (u ∷ us) id = u.id == id || listed us id

-- A running row with none of the listed keys.
abbrev is_left : List HardeningTask → HardeningTask → Bool
is_left us t = is_running t.status && not (listed us t.id)

-- No running row but those with a listed key.
abbrev NoneLeft : List HardeningTask → Db → Type 0
NoneLeft us d = count_where (is_left us) d.tasks ≡ 0

failed_rows :
    (u : HardeningTask) (us : List HardeningTask) (summary : String) (now : ℕ)
    (rows : List HardeningTask)
    → count_where (is_left us) (update_where (running_with_id u.id) (fail_updates summary now) rows)
      ≤ count_where (is_left (u ∷ us)) rows
failed_rows u us summary now [] = omega arith
failed_rows u us summary now (t ∷ rows) = ground (arith, failed_rows u us summary now rows)

fail_tasks-NoneLeft :
    (us : List HardeningTask) (summary : String) (now : ℕ)
    → Leads (NoneLeft us) (fail_tasks us summary now) (λ _ d. NoneLeft [] d)
unfolding fail_tasks
fail_tasks-NoneLeft [] summary now = Leads-pure _ _ tt (λ d h. h)
fail_tasks-NoneLeft (u ∷ us) summary now =
    Leads-bind _ (λ _ d. NoneLeft us d) _ _ _
      (record {
        at = λ w h a e.
            let t =
              (transition_task_for_app_tx-Leads w.db u.id u.app_id (fail_updates summary now)
                  (λ (a : App). record a { status = AppStatus.failed })).at
                w refl a e in
            subst (NoneLeft us) (sym t.2) (none (failed_rows u us summary now w.db.tasks) h);
      })
      (λ _. fail_tasks-NoneLeft us summary now)
  where
    none : {n k : ℕ} → n ≤ k → k ≡ 0 → n ≡ 0
    none h z = omega arith

more_listed :
    (u : HardeningTask) (us rows : List HardeningTask)
    → count_where (is_left (u ∷ us)) rows ≤ count_where (is_left us) rows
more_listed u us [] = omega arith
more_listed u us (t ∷ rows) = ground (arith, more_listed u us rows)

all_listed :
    (rows : List HardeningTask)
    → count_where (is_left (rows_where (λ t. is_running t.status) rows)) rows ≡ 0
all_listed [] = refl
all_listed (t ∷ rows) = split (all_listed rows) (is_running t.status) refl
  where
    R : List HardeningTask
    R = rows_where (λ t. is_running t.status) rows

    split :
        count_where (is_left R) rows ≡ 0
        → (b : Bool) → is_running t.status ≡ b
        → count_where (is_left (if b then t ∷ R else R)) (t ∷ rows) ≡ 0
    split h true e = ground (arith, more_listed t R rows)
    split h false e = ground arith

recover_body-NoneLeft :
    (summary : String) (ts : List HardeningTask)
    → Leads (NoneLeft ts) (recover_body summary ts) (λ us d. (us ≡ ts) × NoneLeft [] d)
recover_body-NoneLeft summary [] = Leads-pure _ _ [] (λ d h. (refl, h))
recover_body-NoneLeft summary (t ∷ ts) =
    Leads-bind _ (λ _. NoneLeft (t ∷ ts)) _ _ _ (Leads-keeps _ _ Keeps-time_now)
      (λ now.
        Leads-bind _ (λ _. NoneLeft []) _ _ _ (fail_tasks-NoneLeft (t ∷ ts) summary now)
          (λ _.
            Leads-bind _ (λ _. NoneLeft []) _ _ _
              (Leads-keeps _ _ (Keeps-update_steps _ _ (λ d h. h)))
              (λ _. Leads-pure _ _ (t ∷ ts) (λ d h. (refl, h)))))

none_listed :
    (rows : List HardeningTask)
    → count_where (is_left []) rows ≡ count_where (λ t. is_running t.status) rows
none_listed [] = refl
none_listed (t ∷ rows) = ground (arith, none_listed rows)

-- A recovery that succeeds returns the rows that were running, as they were, and leaves no task
-- running.
pub recover_running_tasks_lem :
    (summary : String) (w : World) (ts : List HardeningTask)
    → (recover_running_tasks summary w).0 ≡ ok ts
    → (ts ≡ rows_where (λ t. is_running t.status) w.db.tasks)
      × (count_where (λ t. is_running t.status) (recover_running_tasks summary w).1.db.tasks ≡ 0)
recover_running_tasks_lem summary w ts e =
    let r = leads.at w refl ts e in (r.0, sym (none_listed _) ∙ r.1)
  where
    leads :
        Leads
          (λ d. d ≡ w.db)
          (recover_running_tasks summary)
          (λ us d. (us ≡ rows_where (λ t. is_running t.status) w.db.tasks) × NoneLeft [] d)
    leads =
        unfold recover_running_tasks in
        Leads-transaction _ _ _ (
          Leads-bind _ _ _ _ _ (Leads-query _ _) (λ us. record {
            at = λ v q a e'.
                let same =
                  q.1 ∙ ap (λ (x : Db). rows_where (λ t. is_running t.status) x.tasks) q.0 in
                let left : NoneLeft us v.db =
                  subst (λ l. NoneLeft l v.db) (sym q.1) (all_listed v.db.tasks) in
                let r = (recover_body-NoneLeft summary us).at v left a e' in (r.0 ∙ same, r.1);
          }))
