-- ===== src/Audit/Queries.antt =====
-- The list of internal/repository/audit_repository.go, which internal/service/audit_service.go
-- hands on.
use beetle_shield_backend.Prelude.{
  ℕ, Bool, true, false, ◌&&◌, ◌||◌, String, Option, none, some, List, ◌==◌, ltb, leb, str_eq,
  count_where, rows_where, not,
}
use beetle_shield_backend.Prelude.Int.{ℤ}
use beetle_shield_backend.Prelude.Sorting.{sort_by, at_least_one}
use beetle_shield_backend.Model.{
  AuditAction, AuditLog, login_success, login_failure, app_upload, app_delete, app_download,
  hardening_create, hardening_download, strategy_save, user_create, user_update, user_status_change,
}
use beetle_shield_backend.Store.{M, ◌>>=◌, pure, query}
use beetle_shield_backend.HardeningRepository.{page_of}

abbrev pub action_text : AuditAction → String
action_text login_success = "auth.login.success"
action_text login_failure = "auth.login.failure"
action_text app_upload = "app.upload"
action_text app_delete = "app.delete"
action_text app_download = "app.download"
action_text hardening_create = "hardening_task.create"
action_text hardening_download = "hardening_task.download"
action_text strategy_save = "strategy.save"
action_text user_create = "user.create"
action_text user_update = "user.update"
action_text user_status_change = "user.update_status"

pub record AuditListFilter : Type 0 where
  pub actor_user_id : ℕ
  pub action : String
  pub target_type : String
  pub success : Option Bool
  pub start_time : Option ℕ
  pub end_time : Option ℕ
  pub page : ℤ
  pub page_size : ℤ

abbrev same_bool : Bool → Bool → Bool
same_bool true b = b
same_bool false b = not b

-- A condition that is not asked for.
abbrev pub unless_given : {A : Type 0} → Option A → (A → Bool) → Bool
unless_given none test = true
unless_given (some a) test = test a

abbrev pub audit_matches : AuditListFilter → AuditLog → Bool
audit_matches filter l =
    ((filter.actor_user_id == 0 || l.actor_user_id == filter.actor_user_id)
      && ((str_eq filter.action "" || str_eq (action_text l.action) filter.action)
          && (str_eq filter.target_type "" || str_eq l.target_type filter.target_type)))
    && (unless_given filter.success (same_bool l.success)
        && (unless_given filter.start_time (λ t. leb t l.created_at)
            && unless_given filter.end_time (λ t. leb l.created_at t)))

-- `created_at DESC, id DESC`
abbrev pub later_log : AuditLog → AuditLog → Bool
later_log l m = ltb m.created_at l.created_at || (m.created_at == l.created_at && ltb m.id l.id)

unfoldable pub list_audit_logs : AuditListFilter → M (List AuditLog × ℕ)
list_audit_logs filter = do
  total ← query (λ d. count_where (audit_matches filter) d.audit_logs)
  rows ← query (λ d.
      page_of (at_least_one filter.page 1) (at_least_one filter.page_size 20)
        (sort_by later_log (rows_where (audit_matches filter) d.audit_logs)))
  pure (rows, total)
