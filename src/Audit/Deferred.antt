-- ===== src/Audit/Deferred.antt =====
-- An operation with a deferred audit does what its body does, but for the audit row.
use beetle_shield_backend.Prelude.{◌≡◌, List}
use beetle_shield_backend.Model.{AuditLog}
use beetle_shield_backend.Store.{Db, Result, ok, M, ◌>>=◌, attempt, from_result, ignore}
use beetle_shield_backend.Store.Hoare.{
  Keeps, Keeps-attempt, Keeps-bind, Keeps-from_result, Keeps-ignore, Keeps-insert_row,
}
use beetle_shield_backend.Store.Failures.{FailsKeeping}
use beetle_shield_backend.Store.Outcomes.{Leads, Leads-attempt, Leads-bind, Leads-keeps}
use beetle_shield_backend.Audit.{RecordAuditInput, deferred_audit, record_audit}

-- A property that does not look at the audit rows.
module _ (P : Db → Type 0)
    (any_audits : (d : Db) (ls : List AuditLog) → P d → P (record d { audit_logs = ls })) where
  pub record_audit-any : (i : RecordAuditInput) → Keeps P (record_audit i)
  unfolding record_audit
  record_audit-any i = Keeps-ignore _ (Keeps-insert_row _ (λ id now d p. any_audits d _ p))

  pub deferred_audit-Keeps :
      {A : Type 0} (row : Result A → RecordAuditInput) (m : M A)
      → Keeps P m
      → Keeps P (deferred_audit row m)
  deferred_audit-Keeps row m k =
      Keeps-bind _ _ (Keeps-attempt _ k)
        (λ r. Keeps-bind _ _ (record_audit-any _) (λ _. Keeps-from_result r))

  pub deferred_audit-Fails :
      {A : Type 0} (row : Result A → RecordAuditInput) (m : M A)
      → FailsKeeping P m
      → FailsKeeping P (deferred_audit row m)
  unfolding attempt ◌>>=◌ from_result ignore record_audit
  deferred_audit-Fails {A} row m h = record {
    at = λ w p e x. (kept (m w).0).at (m w).1 (h.at w p e x);
  }
    where
      kept : (r : Result A) → Keeps P (record_audit (row r))
      kept r = record_audit-any (row r)

pub deferred_audit-Leads :
    {A : Type 0} (P : Db → Type 0) (Q : A → Db → Type 0)
    → ((a : A) (d : Db) (ls : List AuditLog) → Q a d → Q a (record d { audit_logs = ls }))
    → (row : Result A → RecordAuditInput) (m : M A) → Leads P m Q
    → Leads P (deferred_audit row m) Q
deferred_audit-Leads {A} P Q any_audits row m h = Leads-bind _ _ _ _ _ (Leads-attempt _ _ _ h) (λ r.
    Leads-bind _ _ _ _ _
      (Leads-keeps _ _ (
        record_audit-any (λ d. (a : A) → r ≡ ok a → Q a d) (λ d ls p a e. any_audits a d ls (p a e))
          _))
      (λ _. returned r))
  where
    returned : (r : Result A) → Leads (λ d. (a : A) → r ≡ ok a → Q a d) (from_result r) Q
    returned r = unfold from_result in record { at = λ w p a e. p a e }
