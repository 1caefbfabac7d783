-- ===== src/Http/Strategies.antt =====
-- internal/handler/strategy_handler.go.
use beetle_shield_backend.Prelude.{ℕ, Bool, true, String, List, [], ◌∷◌}
use beetle_shield_backend.Prelude.Int.{ℤ}
use beetle_shield_backend.Model.{DexObfuscationLevel, SigPolicy, SoShellType, Strategy}
use beetle_shield_backend.Store.{Error, Result}
use beetle_shield_backend.Audit.{error_text}
use beetle_shield_backend.Strategies.{
  SaveStrategyInput, StrategyPayloadInput, basic_template, create_strategy, delete_strategy,
  finance_template, game_template, get_current, get_strategy, list_strategies, save_current,
  update_strategy,
}
use beetle_shield_backend.Http.Accounts.{bound, with_id}
use beetle_shield_backend.Http.Numbers.{parse_uint, parsed_or_none, atoi_value}
use beetle_shield_backend.Http.Reply.{
  Reply, success, failure, Handler, Request, default_query, query_text, reply, respond,
}

abbrev pub templates : List (String × Strategy)
templates = ("finance", finance_template) ∷ ("game", game_template) ∷ ("basic", basic_template) ∷ []

unfoldable pub handle_templates : Request → Handler (List (String × Strategy))
handle_templates c = reply (success 200 templates)

unfoldable pub handle_get_current : Request → Handler Strategy
handle_get_current c = respond (λ _. failure 500 50009 "查询当前策略失败") (λ s. s) get_current

pub record SaveStrategyRequest : Type 0 where
  pub name : String
  pub description : String
  pub frida : Bool
  pub xposed : Bool
  pub emulator : Bool
  pub dex_level : DexObfuscationLevel
  pub string_encrypt : Bool
  pub res_mix : Bool
  pub so_shell : SoShellType
  pub so_strength : ℤ
  pub target_sos : List String
  pub root_detect : Bool
  pub signature : Bool
  pub sig_policy : SigPolicy
  pub anti_hook : Bool
  pub res_encrypt : Bool
  pub screenshot_protect : Bool
  pub file_integrity_check : Bool
  pub proxy_detect : Bool
  pub vmp_rules_text : String

-- The copy of the columns, which the source writes out at both of its uses.
abbrev pub fields_of : SaveStrategyRequest → SaveStrategyInput
fields_of req = record {
  frida = req.frida;
  xposed = req.xposed;
  emulator = req.emulator;
  dex_level = req.dex_level;
  string_encrypt = req.string_encrypt;
  res_mix = req.res_mix;
  so_shell = req.so_shell;
  so_strength = req.so_strength;
  target_sos = req.target_sos;
  root_detect = req.root_detect;
  signature = req.signature;
  sig_policy = req.sig_policy;
  anti_hook = req.anti_hook;
  res_encrypt = req.res_encrypt;
  screenshot_protect = req.screenshot_protect;
  file_integrity_check = req.file_integrity_check;
  proxy_detect = req.proxy_detect;
  vmp_rules_text = req.vmp_rules_text;
}

abbrev pub strategy_payload_from_request : SaveStrategyRequest → StrategyPayloadInput
strategy_payload_from_request req = record {
  name = req.name;
  description = req.description;
  fields = fields_of req;
}

abbrev pub save_current_error : {A : Type 0} → Error → Reply A
save_current_error Error.invalid_dex_level = failure 400 40012 (error_text Error.invalid_dex_level)
save_current_error Error.invalid_so_shell = failure 400 40013 (error_text Error.invalid_so_shell)
save_current_error Error.invalid_so_strength =
    failure 400 40014 (error_text Error.invalid_so_strength)
save_current_error Error.invalid_sig_policy =
    failure 400 40017 (error_text Error.invalid_sig_policy)
save_current_error _ = failure 500 50010 "保存策略失败"

-- `writeStrategyMutationError`
abbrev pub strategy_mutation_error : {A : Type 0} → Error → Reply A
strategy_mutation_error Error.strategy_name_required =
    failure 400 40015 (error_text Error.strategy_name_required)
strategy_mutation_error Error.invalid_dex_level =
    failure 400 40012 (error_text Error.invalid_dex_level)
strategy_mutation_error Error.invalid_so_shell =
    failure 400 40013 (error_text Error.invalid_so_shell)
strategy_mutation_error Error.invalid_so_strength =
    failure 400 40014 (error_text Error.invalid_so_strength)
strategy_mutation_error Error.invalid_sig_policy =
    failure 400 40017 (error_text Error.invalid_sig_policy)
strategy_mutation_error Error.strategy_name_exists = failure 409 40912 "策略名称已存在"
strategy_mutation_error Error.strategy_not_found = failure 404 40412 "加固策略不存在"
strategy_mutation_error Error.default_strategy_delete = failure 409 40913 "默认策略不能删除"
strategy_mutation_error _ = failure 500 50010 "保存策略失败"

-- `parseStrategyIDParam`
abbrev pub strategy_id : {B : Type 0} → Request → (ℕ → Handler B) → Handler B
strategy_id c handle = with_id 40016 "非法策略 ID" handle (parsed_or_none (parse_uint c.id_param))

module _ (bind : String → Result SaveStrategyRequest) where
  unfoldable pub handle_save_current : Request → Handler Strategy
  handle_save_current c =
      bound 40011
        (λ req.
          respond save_current_error (λ s. s) (save_current (fields_of req) c.user_id c.client_ip))
        (bind c.body)

  unfoldable pub handle_create_strategy : Request → Handler Strategy
  handle_create_strategy c =
      bound 40011
        (λ req.
          respond strategy_mutation_error (λ s. s)
            (create_strategy (strategy_payload_from_request req) c.user_id c.client_ip))
        (bind c.body)

  unfoldable pub handle_update_strategy : Request → Handler Strategy
  handle_update_strategy c = strategy_id c (λ id.
      bound 40011
        (λ req.
          respond strategy_mutation_error (λ s. s)
            (update_strategy id (strategy_payload_from_request req) c.user_id c.client_ip))
        (bind c.body))

abbrev pub strategy_query_error : {A : Type 0} → Error → Reply A
strategy_query_error Error.strategy_not_found = failure 404 40412 "加固策略不存在"
strategy_query_error _ = failure 500 50012 "查询策略失败"

unfoldable pub handle_get_strategy : Request → Handler Strategy
handle_get_strategy c =
    strategy_id c (λ id. respond strategy_query_error (λ s. s) (get_strategy id))

unfoldable pub handle_delete_strategy : Request → Handler Bool
handle_delete_strategy c =
    strategy_id c
      (λ id. respond strategy_mutation_error (λ _. true) (delete_strategy id c.user_id c.client_ip))

module _ (ilike : String → String → Bool) where
  unfoldable pub handle_list_strategies : Request → Handler (List Strategy × ℕ)
  handle_list_strategies c =
      respond (λ _. failure 500 50011 "查询策略列表失败") (λ page. page)
        (list_strategies ilike (record {
          search = query_text c "search";
          page = atoi_value (default_query c "page" "1");
          page_size = atoi_value (default_query c "pageSize" "10");
        }))
