-- ===== src/Audit.antt =====
-- internal/service/audit_service.go and the insert of internal/repository/audit_repository.go:
-- every operation that changes something records who did it, and goes on if that fails. The
-- service is configured with its repository, as cmd/server/main.go does.
pub mod Deferred
pub mod Queries
use Prim.Native.String.{◌++◌ as append}
use beetle_shield_backend.Prelude.{ℕ, Bool, true, false, String, [], ◌∷◌, ◌++◌}
use beetle_shield_backend.Model.{AuditAction, AuditLog}
use beetle_shield_backend.Store.{
  Error, Result, ok, err, M, ◌>>=◌, ◌>>◌, insert_row, ignore, attempt, from_result,
}

pub record RecordAuditInput : Type 0 where
  pub actor_user_id : ℕ
  pub actor_email : String
  pub action : AuditAction
  pub target_type : String
  pub target_id : ℕ
  pub detail : String
  pub ip : String
  pub success : Bool

abbrev pub audit_row : RecordAuditInput → ℕ → ℕ → AuditLog
audit_row input id now = record {
  id = id;
  actor_user_id = input.actor_user_id;
  actor_email = input.actor_email;
  action = input.action;
  target_type = input.target_type;
  target_id = input.target_id;
  detail = input.detail;
  ip = input.ip;
  success = input.success;
  created_at = now;
}

-- A failure is logged, not returned.
unfoldable pub record_audit : RecordAuditInput → M (Unit {0})
record_audit input = ignore (
    insert_row
      (λ id now d. (tt, record d { audit_logs = d.audit_logs ++ (audit_row input id now ∷ []) })))

-- `err == nil`
abbrev pub succeeded : {A : Type 0} → Result A → Bool
succeeded (ok a) = true
succeeded (err e) = false

-- The deferred audit of an operation, from what it returns, which is then returned.
abbrev pub deferred_audit : {A : Type 0} → (Result A → RecordAuditInput) → M A → M A
deferred_audit row m = do result ← attempt m; record_audit (row result); from_result result

-- `err.Error()`
unfoldable pub error_text : Error → String
error_text Error.record_not_found = "record not found"
error_text Error.prior_steps_incomplete = "record not found: prior steps incomplete"
error_text (Error.external text) = text
error_text (Error.joined a b) = append (append (error_text a) "\n") (error_text b)
error_text (Error.persist_completion e) = append "persist task completion: " (error_text e)
error_text Error.active_hardening_task_exists = "active hardening task already exists"
error_text Error.hardening_app_not_found = "app not found"
error_text Error.hardening_task_not_found = "hardening task not found"
error_text Error.hardening_active_task_exists = "app already has an active hardening task"
error_text Error.hardening_artifact_not_found = "hardening artifact not found"
error_text Error.invalid_hardening_artifact = "invalid hardening artifact"
error_text Error.hardening_report_not_ready = "hardening task not completed, report not available"
error_text Error.hardening_strategy_not_found = "hardening strategy not found"
error_text Error.invalid_dex_level = "invalid dex obfuscation level"
error_text Error.invalid_so_shell = "invalid so shell type"
error_text Error.invalid_so_strength = "so strength must be between 0 and 100"
error_text Error.invalid_sig_policy = "invalid signature verification policy"
error_text Error.strategy_not_found = "strategy not found"
error_text Error.strategy_name_required = "strategy name is required"
error_text Error.strategy_name_exists = "strategy name already exists"
error_text Error.default_strategy_delete = "default strategy cannot be deleted"
error_text Error.email_already_exists = "email already exists"
error_text Error.cannot_disable_self = "cannot disable your own account"
error_text Error.user_not_found = "user not found"
error_text Error.invalid_credentials = "invalid email or password"
error_text Error.user_disabled = "user account is disabled"
error_text Error.unsupported_file_type = "unsupported file type, only .apk and .aab are allowed"
error_text Error.file_too_large = "file exceeds the maximum allowed size"
error_text Error.missing_package_info =
    "could not determine package name/version, please provide them manually"
error_text Error.app_not_found = "app not found"
error_text Error.app_has_active_hardening_task =
    "app has an active hardening task and cannot be deleted"
error_text (Error.check_active_task e) = append "check active hardening task: " (error_text e)
error_text (Error.delete_app_record e) = append "delete app record: " (error_text e)
error_text (Error.open_uploaded_file e) = append "open uploaded file: " (error_text e)
error_text (Error.create_temp_file e) = append "create temp file: " (error_text e)
error_text (Error.write_temp_file e) = append "write temp file: " (error_text e)
error_text (Error.seek_temp_file e) = append "seek temp file: " (error_text e)
error_text (Error.upload_to_storage e) = append "upload to storage: " (error_text e)
error_text (Error.save_app_record e) = append "save app record: " (error_text e)
error_text Error.invalid_token = "invalid token"
error_text Error.parse_package_info = "failed to parse package info from manifest"
error_text Error.no_unsigned_artifact = "未生成未签名加固产物"
error_text Error.empty_unsigned_artifact = "未签名加固产物为空"
