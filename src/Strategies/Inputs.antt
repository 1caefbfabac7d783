-- ===== src/Strategies/Inputs.antt =====
-- The inputs, the templates and the validation of internal/service/strategy_service.go.
use beetle_shield_backend.Prelude.{Bool, true, false, ◌||◌, not, String, List, [], ◌∷◌}
use beetle_shield_backend.Prelude.Int.{ℤ, pos, ltb_bound, gtb_bound}
use beetle_shield_backend.Model.{
  DexObfuscationLevel, SigPolicy, SoShellType, Strategy, zero_strategy,
}
use beetle_shield_backend.Store.{
  invalid_dex_level, invalid_so_shell, invalid_so_strength, invalid_sig_policy, M, ◌>>◌, guard,
}

abbrev pub default_strategy_name : String
default_strategy_name = "默认加固策略"

pub record SaveStrategyInput : Type 0 where
  pub frida : Bool
  pub xposed : Bool
  pub emulator : Bool
  pub dex_level : DexObfuscationLevel
  pub string_encrypt : Bool
  pub res_mix : Bool
  pub so_shell : SoShellType
  pub so_strength : ℤ
  pub target_sos : List String
  pub root_detect : Bool
  pub signature : Bool
  pub sig_policy : SigPolicy
  pub anti_hook : Bool
  pub res_encrypt : Bool
  pub screenshot_protect : Bool
  pub file_integrity_check : Bool
  pub proxy_detect : Bool
  pub vmp_rules_text : String

pub record StrategyPayloadInput : Type 0 where
  pub name : String
  pub description : String
  pub fields : SaveStrategyInput

-- `templates["finance"]`, which is also what an empty table gives.
abbrev pub finance_template : Strategy
finance_template = record zero_strategy {
  frida = true;
  xposed = true;
  emulator = true;
  dex_level = DexObfuscationLevel.high;
  string_encrypt = true;
  res_mix = true;
  so_shell = SoShellType.vmp;
  so_strength = pos 90;
  target_sos = "libnative-lib.so" ∷ "libsec.so" ∷ [];
  root_detect = true;
  signature = true;
  sig_policy = SigPolicy.block;
  anti_hook = true;
  res_encrypt = true;
  screenshot_protect = true;
  file_integrity_check = true;
  proxy_detect = true;
}

abbrev pub game_template : Strategy
game_template = record zero_strategy {
  frida = true;
  dex_level = DexObfuscationLevel.medium;
  string_encrypt = true;
  so_shell = SoShellType.vmp;
  so_strength = pos 70;
  target_sos = "libunity.so" ∷ "libmain.so" ∷ [];
  root_detect = true;
  signature = true;
  sig_policy = SigPolicy.warn;
  anti_hook = true;
  screenshot_protect = true;
  file_integrity_check = true;
}

abbrev pub basic_template : Strategy
basic_template = record zero_strategy {
  frida = true;
  dex_level = DexObfuscationLevel.low;
  so_shell = SoShellType.no_shell;
  so_strength = pos 30;
  signature = true;
  sig_policy = SigPolicy.warn;
}

-- `validDexLevels`, `validSoShells`, `validSigPolicies`
abbrev pub valid_dex_level : DexObfuscationLevel → Bool
valid_dex_level (DexObfuscationLevel.other_level _) = false
valid_dex_level _ = true

abbrev pub valid_so_shell : SoShellType → Bool
valid_so_shell (SoShellType.other_shell _) = false
valid_so_shell _ = true

abbrev pub valid_sig_policy : SigPolicy → Bool
valid_sig_policy (SigPolicy.other_policy _) = false
valid_sig_policy _ = true

unfoldable pub validate_strategy_fields : SaveStrategyInput → M (Unit {0})
validate_strategy_fields input = do
  guard (valid_dex_level input.dex_level) invalid_dex_level
  guard (valid_so_shell input.so_shell) invalid_so_shell
  guard (not (ltb_bound input.so_strength 0 || gtb_bound input.so_strength 100)) invalid_so_strength
  guard (valid_sig_policy input.sig_policy) invalid_sig_policy
