-- ===== src/Strategies/Service.antt =====
-- The operations of internal/service/strategy_service.go.
use Prim.Native.String.{◌++◌ as append}
use beetle_shield_backend.Prelude.{ℕ, true, false, ◌||◌, not, String, ◌==◌, str_eq, if◌then◌else◌}
use beetle_shield_backend.Model.{AuditAction, Strategy, zero_strategy}
use beetle_shield_backend.Store.{
  Result, ok, err, is_record_not_found, strategy_not_found, strategy_name_required,
  strategy_name_exists, default_strategy_delete, M, ◌>>=◌, ◌>>◌, pure, fail, guard, attempt,
  from_result, map_error,
}
use beetle_shield_backend.Audit.{record_audit, deferred_audit, error_text, succeeded}
use beetle_shield_backend.Engine.{trim_space}
use beetle_shield_backend.Strategies.Repository.{
  get_current_row, save_current_row, find_strategy, find_regular, create_row, update_row,
  delete_row, name_exists, promote_legacy_current,
}
use beetle_shield_backend.Strategies.Inputs.{
  default_strategy_name, SaveStrategyInput, StrategyPayloadInput, finance_template,
  validate_strategy_fields,
}

abbrev pub empty_table_default : Strategy
empty_table_default = record finance_template { name = default_strategy_name; is_default = true }

abbrev pub or_finance : Result Strategy → M Strategy
or_finance (ok s) = pure s
or_finance (err p) = if is_record_not_found p then pure empty_table_default else fail p

abbrev pub or_promote : Result Strategy → M Strategy
or_promote (ok current) = pure current
or_promote (err e) =
    if is_record_not_found e
    then (do promoted ← attempt promote_legacy_current; or_finance promoted)
    else fail e

unfoldable pub get_current : M Strategy
get_current = do current ← attempt get_current_row; or_promote current

-- The input's columns, over the columns of `s`.
abbrev pub with_fields : SaveStrategyInput → Strategy → Strategy
with_fields input s = record s {
  frida = input.frida;
  xposed = input.xposed;
  emulator = input.emulator;
  dex_level = input.dex_level;
  string_encrypt = input.string_encrypt;
  res_mix = input.res_mix;
  so_shell = input.so_shell;
  so_strength = input.so_strength;
  target_sos = input.target_sos;
  root_detect = input.root_detect;
  signature = input.signature;
  sig_policy = input.sig_policy;
  anti_hook = input.anti_hook;
  res_encrypt = input.res_encrypt;
  screenshot_protect = input.screenshot_protect;
  file_integrity_check = input.file_integrity_check;
  proxy_detect = input.proxy_detect;
  vmp_rules_text = input.vmp_rules_text;
}

-- The key of the strategy that a mutation returns, 0 for none; so its name.
abbrev result_id : Result Strategy → ℕ
result_id (ok s) = s.id
result_id (err e) = 0

abbrev result_name : Result Strategy → String
result_name (ok s) = s.name
result_name (err e) = ""

abbrev failure_or : {A : Type 0} → String → Result A → String
failure_or detail (ok a) = detail
failure_or detail (err e) = append "策略保存失败 - " (error_text e)

-- The deferred audit of a mutation.
abbrev pub audited : ℕ → String → (Result Strategy → String) → M Strategy → M Strategy
audited actor ip detail m =
    deferred_audit
      (λ result. record {
        actor_user_id = actor;
        actor_email = "";
        action = AuditAction.strategy_save;
        target_type = "strategy";
        target_id = result_id result;
        detail = failure_or (detail result) result;
        ip = ip;
        success = succeeded result;
      })
      m

unfoldable pub save_current : SaveStrategyInput → ℕ → String → M Strategy
save_current input updated_by ip =
    audited updated_by ip (λ _. "全局加固策略已更新")
      (do
        validate_strategy_fields input
        save_current_row (
            with_fields input (record zero_strategy {
              name = default_strategy_name;
              is_default = true;
              created_by = updated_by;
              updated_by = updated_by;
            })))

unfoldable pub validate_strategy_payload : StrategyPayloadInput → ℕ → M (Unit {0})
unfolding validate_strategy_fields
validate_strategy_payload input exclude_id = do
  let name = trim_space input.name
  guard (not (str_eq name "")) strategy_name_required
  validate_strategy_fields input.fields
  exists ← name_exists name exclude_id
  guard (not exists) strategy_name_exists

unfoldable pub get_strategy : ℕ → M Strategy
get_strategy id =
    map_error (λ e. if is_record_not_found e then strategy_not_found else e) (find_regular id)

unfoldable pub create_strategy : StrategyPayloadInput → ℕ → String → M Strategy
create_strategy input created_by ip =
    audited created_by ip (λ r. append "创建策略：" (result_name r))
      (do
        validate_strategy_payload input 0
        create_row (
            with_fields input.fields (record zero_strategy {
              name = trim_space input.name;
              description = trim_space input.description;
              created_by = created_by;
              updated_by = created_by;
            })))

unfoldable pub update_strategy : ℕ → StrategyPayloadInput → ℕ → String → M Strategy
update_strategy id input updated_by ip =
    audited updated_by ip (λ r. append "更新策略：" (result_name r))
      (do
        existing ← get_strategy id
        validate_strategy_payload input id
        update_row (
            with_fields input.fields (record existing {
              name = trim_space input.name;
              description = trim_space input.description;
              updated_by = updated_by;
            })))

abbrev audit_deletion : ℕ → String → ℕ → String → Result (Unit {0}) → M (Unit {0})
audit_deletion actor ip target name result = record_audit (record {
  actor_user_id = actor;
  actor_email = "";
  action = AuditAction.strategy_save;
  target_type = "strategy";
  target_id = target;
  detail = failure_or (append "删除策略：" name) result;
  ip = ip;
  success = succeeded result;
})

-- The audit of a deletion names the strategy that was found, also where it is refused.
abbrev pub delete_found : ℕ → ℕ → String → Result Strategy → M (Unit {0})
delete_found id actor ip (ok found) = do
  result ← attempt (if found.is_default then fail default_strategy_delete else delete_row id)
  audit_deletion actor ip found.id found.name result
  from_result result
delete_found id actor ip (err e) = do
  record_audit (record {
    actor_user_id = actor;
    actor_email = "";
    action = AuditAction.strategy_save;
    target_type = "strategy";
    target_id = 0;
    detail = append "策略保存失败 - " (error_text e);
    ip = ip;
    success = false;
  })
  fail e

unfoldable pub delete_strategy : ℕ → ℕ → String → M (Unit {0})
delete_strategy id actor ip = do
  found ←
      attempt (
        map_error (λ e. if is_record_not_found e then strategy_not_found else e) (find_strategy id))
  delete_found id actor ip found

-- The strategy and its name, for a new task.
unfoldable pub resolve_for_hardening : ℕ → M (Strategy × String)
resolve_for_hardening strategy_id =
    if strategy_id == 0
    then (do strategy ← get_current; pure (strategy, default_strategy_name))
    else (do
      strategy ←
          map_error (λ e. if is_record_not_found e then strategy_not_found else e)
            (find_strategy strategy_id)
      pure (
        strategy,
        if strategy.is_default || str_eq strategy.name ""
            then default_strategy_name
            else strategy.name,
      ))
