-- ===== src/Engine/Options.antt =====
-- Which arguments stand on the command line that BuildDPTCommand builds.
use beetle_shield_backend.Prelude.{
  Bool, true, false, ◌&&◌, ◌||◌, String, List, [], ◌∷◌, ◌++◌, ◌≡◌, refl, str_eq, arith,
}
use mathlib.Core.Bool.{or-false}
use beetle_shield_backend.Engine.Flags.{EffectiveFlags, resolve_effective_flags}
use beetle_shield_backend.Engine.Command.{
  EngineCommandInput, sig_policy_text, append_if, append_options, base_args, build_dpt_command,
}

-- The argument stands on the list.
abbrev pub has_arg : String → List String → Bool
has_arg n [] = false
has_arg n (x ∷ xs) = str_eq n x || has_arg n xs

has_arg-append :
    (n : String) (xs ys : List String) → has_arg n (xs ++ ys) ≡ (has_arg n xs || has_arg n ys)
has_arg-append n [] ys = refl
has_arg-append n (x ∷ xs) ys = ground (arith, has_arg-append n xs ys)

has_arg-append_if :
    (n : String) (b : Bool) (more args : List String)
    → has_arg n (append_if b more args) ≡ (has_arg n args || (b && has_arg n more))
has_arg-append_if n true more args = has_arg-append n args more
has_arg-append_if n false more args = ground arith

-- The option is called for by one of the flags. The value of `--apk-sig-policy` counts as an
-- argument too; the path of the rules does not.
abbrev pub option_wanted : String → EffectiveFlags → Bool
option_wanted n f =
    (((((((((f.emulator_detect && str_eq n "--enable-emulator-detect")
                    || (f.root_detect && str_eq n "--enable-root-detect"))
                  || (f.sig_verify
                      && (str_eq n "--enable-apk-sig-verify"
                          || (str_eq n "--apk-sig-policy"
                              || str_eq n (sig_policy_text f.sig_policy)))))
                || (f.screenshot_protect && str_eq n "--enable-screenshot-protect"))
              || (f.file_integrity_check && str_eq n "--enable-file-integrity-check"))
            || (f.hook_detect && str_eq n "--enable-hook-detect"))
          || (f.proxy_detect && str_eq n "--enable-proxy-detect"))
        || (f.string_encrypt && str_eq n "--enable-string-encrypt"))
      || (f.assets_encrypt && str_eq n "--enable-assets-encrypt"))
    || (f.vmp_enabled && (str_eq n "--enable-vmp" || str_eq n "--vmp-rules"))

append_options_args :
    (f : EffectiveFlags) (rules n : String) (args : List String)
    → has_arg n args ≡ false
    → str_eq n rules ≡ false
    → has_arg n (append_options f rules args) ≡ option_wanted n f
unfolding append_options
append_options_args f rules n args h r = simp (has_arg-append_if, h, r, or-false)

-- An argument that is neither one of the fixed arguments nor the path of the rules stands on the
-- engine's command line exactly when the flags that the strategy resolves to call for it.
pub has_arg-build_dpt_command :
    (input : EngineCommandInput) (n : String)
    → has_arg n (base_args input) ≡ false
    → str_eq n input.rules_path ≡ false
    → has_arg n (build_dpt_command input) ≡ option_wanted n (resolve_effective_flags input.strategy)
unfolding build_dpt_command
has_arg-build_dpt_command input n h r =
    append_options_args (resolve_effective_flags input.strategy) input.rules_path n
      (base_args input) h r
