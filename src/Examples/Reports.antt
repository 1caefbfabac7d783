-- ===== src/Examples/Reports.antt =====
-- The theorems on the engine's options and on the report at concrete strategies.
use beetle_shield_backend.Prelude.{◌≡◌, ◌≤◌, ◌<◌, ◌+◌, ◌⊎◌, refl, All, arith}
use beetle_shield_backend.Model.{DexObfuscationLevel, HardeningTaskStatus}
use beetle_shield_backend.Engine.{EngineCommandInput, build_dpt_command, resolve_effective_flags}
use beetle_shield_backend.Engine.Options.{has_arg, option_wanted, has_arg-build_dpt_command}
use beetle_shield_backend.Report.{
  ReportDimension, build_hardening_report, compute_score_breakdown, resolve_risk_level,
}
use beetle_shield_backend.Report.Bounds.{
  compute_score_breakdown_lem, protection_points, build_hardening_report_bounds,
}
use beetle_shield_backend.Report.Monotone.{IsWeaker, risk_rank, resolve_risk_level_mono}
use beetle_shield_backend.Strategies.{basic_template, finance_template}
use beetle_shield_backend.Examples.{app_7, zero_task}

abbrev command : EngineCommandInput
command = record {
  java_bin = "java";
  jar_path = "/opt/dpt.jar";
  input_path = "/work/T1/input.apk";
  output_path = "/work/T1/output.apk";
  rules_path = "/work/T1/vmp-rules.txt";
  strategy = finance_template;
}

has_arg-build_dpt_command_example :
    has_arg "--enable-vmp" (build_dpt_command command)
    ≡ option_wanted "--enable-vmp" (resolve_effective_flags finance_template)
has_arg-build_dpt_command_example = has_arg-build_dpt_command command "--enable-vmp" refl refl

basic-IsWeaker : IsWeaker basic_template finance_template
basic-IsWeaker = ground arith

resolve_risk_level_mono_example :
    risk_rank (resolve_risk_level finance_template) ≤ risk_rank (resolve_risk_level basic_template)
resolve_risk_level_mono_example =
    resolve_risk_level_mono basic_template finance_template basic-IsWeaker

build_hardening_report_bounds_example :
    let r =
      build_hardening_report
        (λ s. s)
        (record zero_task {
          status = HardeningTaskStatus.completed;
          strategy_snapshot = finance_template;
        })
        app_7
        "1.0" in
    All (λ (d : ReportDimension). (d.before ≡ 0) × (d.after ≤ 100)) r.dimensions
    × (5 ≤ r.after_score)
    × (r.after_score ≤ 100)
build_hardening_report_bounds_example =
    build_hardening_report_bounds (λ s. s)
      (record zero_task {
        status = HardeningTaskStatus.completed;
        strategy_snapshot = finance_template;
      })
      app_7 "1.0"

compute_score_breakdown_example :
    let s =
      (compute_score_breakdown
        (resolve_effective_flags finance_template)
        DexObfuscationLevel.high).after_score in
    let earned =
      protection_points (resolve_effective_flags finance_template) DexObfuscationLevel.high in
    (earned ≤ 95 × (s + earned ≡ 100)) ⊎ (95 < earned × (s ≡ 5))
compute_score_breakdown_example =
    compute_score_breakdown_lem (resolve_effective_flags finance_template) DexObfuscationLevel.high
