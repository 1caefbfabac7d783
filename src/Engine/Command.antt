-- ===== src/Engine/Command.antt =====
-- EngineCommandInput and BuildDPTCommand of internal/service/hardening_command.go.
use beetle_shield_backend.Prelude.{Bool, String, List, [], ◌∷◌, ◌++◌, str_eq, if◌then◌else◌}
use beetle_shield_backend.Model.{Strategy, SigPolicy}
use beetle_shield_backend.Engine.Flags.{EffectiveFlags, resolve_effective_flags}

pub record EngineCommandInput : Type 0 where
  pub java_bin : String
  pub jar_path : String
  pub input_path : String
  pub output_path : String
  pub rules_path : String
  pub strategy : Strategy

-- `string(flags.SigPolicy)`
abbrev pub sig_policy_text : SigPolicy → String
sig_policy_text SigPolicy.warn = "warn"
sig_policy_text SigPolicy.block = "block"
sig_policy_text (SigPolicy.other_policy t) = t

-- `if enabled { args = append(args, more...) }`
abbrev pub append_if : Bool → List String → List String → List String
append_if enabled more args = if enabled then args ++ more else args

-- The twelve appends, in the order of the source.
unfoldable pub append_options : EffectiveFlags → String → List String → List String
append_options flags rules_path args =
    let a1 = append_if flags.emulator_detect ("--enable-emulator-detect" ∷ []) args in
    let a2 = append_if flags.root_detect ("--enable-root-detect" ∷ []) a1 in
    let a3 =
      append_if flags.sig_verify
        ("--enable-apk-sig-verify" ∷ "--apk-sig-policy" ∷ sig_policy_text flags.sig_policy ∷ [])
        a2 in
    let a4 = append_if flags.screenshot_protect ("--enable-screenshot-protect" ∷ []) a3 in
    let a5 = append_if flags.file_integrity_check ("--enable-file-integrity-check" ∷ []) a4 in
    let a6 = append_if flags.hook_detect ("--enable-hook-detect" ∷ []) a5 in
    let a7 = append_if flags.proxy_detect ("--enable-proxy-detect" ∷ []) a6 in
    let a8 = append_if flags.string_encrypt ("--enable-string-encrypt" ∷ []) a7 in
    let a9 = append_if flags.assets_encrypt ("--enable-assets-encrypt" ∷ []) a8 in
    append_if flags.vmp_enabled ("--enable-vmp" ∷ "--vmp-rules" ∷ rules_path ∷ []) a9

-- The arguments before the options.
abbrev pub base_args : EngineCommandInput → List String
base_args input =
    (if str_eq input.java_bin "" then "java" else input.java_bin)
    ∷ "-jar"
    ∷ input.jar_path
    ∷ "-f"
    ∷ input.input_path
    ∷ "-o"
    ∷ input.output_path
    ∷ "--no-sign"
    ∷ []

unfoldable pub build_dpt_command : EngineCommandInput → List String
build_dpt_command input =
    append_options (resolve_effective_flags input.strategy) input.rules_path (base_args input)
