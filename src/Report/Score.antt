-- ===== src/Report/Score.antt =====
-- The scores of internal/service/hardening_report.go, from the weights to ResolveRiskLevel.
use beetle_shield_backend.Prelude.{ℕ, ◌+◌, ◌-◌, Bool, ◌&&◌, ◌||◌, ltb, if◌then◌else◌}
use beetle_shield_backend.Model.{DexObfuscationLevel, RiskLevel, Strategy}
use beetle_shield_backend.Engine.{EffectiveFlags, resolve_effective_flags}

abbrev pub weight_anti_debug_env : ℕ
weight_anti_debug_env = 15

abbrev pub weight_hook_defense : ℕ
weight_hook_defense = 15

abbrev pub weight_signature : ℕ
weight_signature = 15

abbrev pub weight_dex_max : ℕ
weight_dex_max = 20

abbrev pub weight_so_shell_max : ℕ
weight_so_shell_max = 20

abbrev pub weight_encryption_max : ℕ
weight_encryption_max = 15

abbrev pub report_min_after_score : ℕ
report_min_after_score = 5

unfoldable pub dex_score : DexObfuscationLevel → ℕ
dex_score DexObfuscationLevel.low = 5
dex_score DexObfuscationLevel.medium = 12
dex_score DexObfuscationLevel.high = weight_dex_max
dex_score (DexObfuscationLevel.other_level _) = 0

unfoldable pub encryption_score : EffectiveFlags → ℕ
encryption_score flags =
    if flags.string_encrypt && flags.assets_encrypt
    then weight_encryption_max
    else if flags.string_encrypt || flags.assets_encrypt
    then 8
    else 0

unfoldable pub bool_score : Bool → ℕ → ℕ
bool_score enabled weight = if enabled then weight else 0

unfoldable pub risk_level_for_score : ℕ → RiskLevel
risk_level_for_score after_score =
    if ltb after_score 25
    then RiskLevel.low
    else if ltb after_score 50
    then RiskLevel.medium
    else if ltb after_score 75
    then RiskLevel.high
    else RiskLevel.critical

pub record ScoreBreakdown : Type 0 where
  pub anti_debug_env_score : ℕ
  pub hook_score : ℕ
  pub sig_score : ℕ
  pub dex_points : ℕ
  pub so_points : ℕ
  pub encrypt_points : ℕ
  pub after_score : ℕ

-- The six points of a breakdown, together.
abbrev pub points : EffectiveFlags → DexObfuscationLevel → ℕ
points flags dex_level =
    bool_score (flags.emulator_detect || flags.root_detect) weight_anti_debug_env
    + bool_score flags.hook_detect weight_hook_defense
    + bool_score flags.sig_verify weight_signature
    + dex_score dex_level
    + bool_score flags.vmp_enabled weight_so_shell_max
    + encryption_score flags

-- The difference does not go below 0 in the source either: `points-le` says that the points are
-- at most 100.
unfoldable pub compute_score_breakdown : EffectiveFlags → DexObfuscationLevel → ScoreBreakdown
compute_score_breakdown flags dex_level =
    let after = 100 - points flags dex_level in
    record {
      anti_debug_env_score =
          bool_score (flags.emulator_detect || flags.root_detect) weight_anti_debug_env;
      hook_score = bool_score flags.hook_detect weight_hook_defense;
      sig_score = bool_score flags.sig_verify weight_signature;
      dex_points = dex_score dex_level;
      so_points = bool_score flags.vmp_enabled weight_so_shell_max;
      encrypt_points = encryption_score flags;
      after_score = if ltb after report_min_after_score then report_min_after_score else after;
    }

unfoldable pub resolve_risk_level : Strategy → RiskLevel
unfolding compute_score_breakdown risk_level_for_score
resolve_risk_level strategy =
    risk_level_for_score
      (compute_score_breakdown (resolve_effective_flags strategy) strategy.dex_level).after_score
