-- ===== src/HardeningService/Admission.antt =====
-- Which creations are admitted, and what they keep of the tables.
use beetle_shield_backend.Prelude.{
  ℕ, ◌≡◌, ◌≢◌, ◌<◌, refl, ◌∙◌, subst, [], ◌∷◌, Bool, true, false, String, Option, none, some, List,
  count_where, first_where, arith, if◌then◌else◌, ◌==◌, ltb,
}
use beetle_shield_backend.Model.{App, AppStatus, HardeningTask, Strategy}
use beetle_shield_backend.Store.{Db, World, Result, fail, ok, err, first, map_error}
use beetle_shield_backend.Store.Hoare.{
  Keeps, keeps_rules, Keeps-insert_row, Keeps-execute, Keeps-bind, Keeps-ignore, Keeps-if,
  Keeps-time_now,
}
use beetle_shield_backend.Store.Outcomes.{
  Leads, Leads-bind, Leads-keeps, Leads-map_error, Leads-any, Leads-pure, Leads-first,
  Leads-attempt,
}
use beetle_shield_backend.Strategies.{
  resolve_for_hardening, get_current, get_current_row, or_promote, or_finance,
  promote_legacy_current, save_row, insert_strategy, replace_strategy, find_strategy,
}
use beetle_shield_backend.Audit.{RecordAuditInput, record_audit}
use beetle_shield_backend.HardeningRepository.{
  active_for, app_has_id, create_task_with_steps_for_app, find_by_id, steps, logs,
}
use beetle_shield_backend.HardeningRepository.Guarantees.{create_task_with_steps_for_app_lem}
use beetle_shield_backend.HardeningService.Operations.{
  CreateHardeningTaskInput, HardeningTaskDetail, missing_strategy, or_current, audit_if_failed,
  choose_strategy, create, create_body, find_app, get,
}

-- A predicate that does not look at the strategies and the audit rows.
module _ (P : Db → Type 0)
    (any_strategies : (d : Db) (ss : _) → P d → P (record d { strategies = ss }))
    (any_audits : (d : Db) (ls : _) → P d → P (record d { audit_logs = ls })) where
  insert_strategy-any : (s : Strategy) → Keeps P (insert_strategy s)
  unfolding insert_strategy
  insert_strategy-any s = Keeps-insert_row _ (λ id now d p. any_strategies d _ p)

  replace_strategy-any : (s : Strategy) → Keeps P (replace_strategy s)
  unfolding replace_strategy
  replace_strategy-any s =
      Keeps-bind _ _ (search keeps_rules) (λ now. Keeps-execute _ (λ d p. any_strategies d _ p))

  save_row-any : (s : Strategy) → Keeps P (save_row s)
  unfolding save_row
  save_row-any s = Keeps-if (s.id == 0) _ _ (insert_strategy-any s) (replace_strategy-any s)

  promote_legacy_current-any : Keeps P promote_legacy_current
  unfolding promote_legacy_current
  promote_legacy_current-any = search (keeps_rules, save_row-any)

  or_finance-any : (r : Result Strategy) → Keeps P (or_finance r)
  or_finance-any (ok s) = search keeps_rules
  or_finance-any (err e) = search keeps_rules

  or_promote-any : (r : Result Strategy) → Keeps P (or_promote r)
  or_promote-any (ok s) = search keeps_rules
  or_promote-any (err e) = search (keeps_rules, promote_legacy_current-any, or_finance-any)

  get_current-any : Keeps P get_current
  unfolding get_current get_current_row
  get_current-any = search (keeps_rules, or_promote-any)

  find_strategy-any : (id : ℕ) → Keeps P (find_strategy id)
  unfolding find_strategy
  find_strategy-any id = search keeps_rules

  resolve_for_hardening-any : (id : ℕ) → Keeps P (resolve_for_hardening id)
  unfolding resolve_for_hardening
  resolve_for_hardening-any id = search (keeps_rules, get_current-any, find_strategy-any)

  choose_strategy-any : (input : CreateHardeningTaskInput) → Keeps P (choose_strategy input)
  unfolding choose_strategy
  choose_strategy-any input = pick input.strategy_snapshot
    where
      pick :
          (o : Option Strategy)
          → Keeps P (
              if ltb 0 input.strategy_id
              then map_error missing_strategy (resolve_for_hardening input.strategy_id)
              else or_current input.strategy_name o)
      pick none = search (keeps_rules, resolve_for_hardening-any)
      pick (some s) = search (keeps_rules, resolve_for_hardening-any)

  record_audit-any : (i : RecordAuditInput) → Keeps P (record_audit i)
  unfolding record_audit
  record_audit-any i = Keeps-ignore _ (Keeps-insert_row _ (λ id now d p. any_audits d _ p))

  get-any : (id : ℕ) → Keeps P (get id)
  unfolding get find_by_id steps logs
  get-any id = search keeps_rules depth 16

find_app-Leads : (P : Db → Type 0) (id : ℕ) → Leads P (find_app id) (λ a d. P d × (a.id ≡ id))
unfolding find_app
find_app-Leads P id = record {
  at = λ w p a e.
      let r = (Leads-first P (λ d. first_where (app_has_id id) d.apps)).at w p a e in
      (r.0, found (first (λ d. first_where (app_has_id id) d.apps) w).1.db.apps a r.1);
}
  where
    found : (apps : List App) (a : App) → first_where (app_has_id id) apps ≡ some a → a.id ≡ id
    found [] a e = cc
    found (b ∷ apps) a e = pick (found apps a) (b.id == id) refl e
      where
        pick :
            (first_where (app_has_id id) apps ≡ some a → a.id ≡ id)
            → (c : Bool) → (b.id == id) ≡ c
            → (if c then some b else first_where (app_has_id id) apps) ≡ some a
            → a.id ≡ id
        pick rest true q e' = value (ground arith) e'
          where
            value : b.id ≡ id → some b ≡ some a → a.id ≡ id
            value p q = cc
        pick rest false q e' = rest e'

-- While an app has a queued or a running task, no creation for it succeeds, whichever strategy it
-- asks for and whatever the calls report.
pub create_refused :
    (rules : String) (task_no_of : ℕ → String) (input : CreateHardeningTaskInput) (w : World)
    (detail : HardeningTaskDetail)
    → 0 < count_where (active_for input.app_id) w.db.tasks
    → (create rules task_no_of input w).0 ≢ ok detail
create_refused rules task_no_of input w detail busy e = leads.at w busy detail e
  where
    Busy : Db → Type 0
    Busy d = 0 < count_where (active_for input.app_id) d.tasks

    creation :
        (app : App) (task : HardeningTask) (s : AppStatus)
        → task.app_id ≡ app.id
        → Leads
            (λ d. Busy d × (app.id ≡ input.app_id))
            (create_task_with_steps_for_app task s)
            (λ _ _. ⊥)
    creation app task s same = record {
      at = λ v p id e'.
          let c = create_task_with_steps_for_app_lem task s v id e' in
          occupied v.db (same ∙ p.1) p.0 c.inactive;
    }
      where
        occupied :
            (d : Db)
            → task.app_id ≡ input.app_id
            → Busy d
            → count_where (active_for task.app_id) d.tasks ≡ 0
            → ⊥
        occupied d q b z = omega (arith, subst (λ a. count_where (active_for a) d.tasks ≡ 0) q z, b)

    body : Leads Busy (create_body rules task_no_of input) (λ _ _. ⊥)
    body = Leads-bind _ _ _ _ _ (Leads-map_error _ _ _ _ (find_app-Leads Busy input.app_id)) (λ app.
        Leads-bind _ _ _ _ _
          (Leads-keeps (λ d. Busy d × (app.id ≡ input.app_id)) _
            (choose_strategy-any _ (λ d s p. p) (λ d s p. p) input))
          (λ chosen. Leads-bind _ _ _ _ _ (Leads-keeps _ _ Keeps-time_now) (λ now.
            Leads-bind _ (λ _ _. ⊥) _ _ _ (Leads-map_error _ _ _ _ (creation app _ _ refl))
              (λ id. record { at = λ v p a e'. p }))))

    leads : Leads Busy (create rules task_no_of input) (λ _ _. ⊥)
    leads =
        unfold create in
        Leads-bind _ (λ r d. (a : HardeningTaskDetail) → r ≡ ok a → ⊥) _ _ _
          (Leads-attempt _ (λ _ _. ⊥) _ body) (λ r. ended r)
      where
        ended :
            (r : Result HardeningTaskDetail)
            → Leads
                (λ d. (a : HardeningTaskDetail) → r ≡ ok a → ⊥)
                (audit_if_failed input r)
                (λ _ _. ⊥)
        ended (ok a) = Leads-pure _ _ a (λ d h. h a refl)
        ended (err x) =
            Leads-bind _ (λ _ _. Unit) _ _ _ (Leads-any _ _)
              (λ _. unfold fail in record { at = λ v p a e'. cc })
