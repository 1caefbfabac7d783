-- ===== src/Engine/Flags.antt =====
-- EffectiveFlags, ResolveEffectiveFlags and resolveSigPolicy of
-- internal/service/hardening_command.go.
use beetle_shield_backend.Prelude.{Bool, ◌||◌, if◌then◌else◌}
use beetle_shield_backend.Model.{Strategy, SigPolicy, is_high, is_vmp}

pub record EffectiveFlags : Type 0 where
  pub emulator_detect : Bool
  pub root_detect : Bool
  pub hook_detect : Bool
  pub sig_verify : Bool
  pub sig_policy : SigPolicy
  pub string_encrypt : Bool
  pub assets_encrypt : Bool
  pub vmp_enabled : Bool
  pub screenshot_protect : Bool
  pub file_integrity_check : Bool
  pub proxy_detect : Bool

-- Anything but an explicit `warn` is `block`.
unfoldable pub resolve_sig_policy : SigPolicy → SigPolicy
resolve_sig_policy SigPolicy.warn = SigPolicy.warn
resolve_sig_policy _ = SigPolicy.block

-- The policy stays the empty text where the signature is not verified.
unfoldable pub resolve_effective_flags : Strategy → EffectiveFlags
unfolding resolve_sig_policy
resolve_effective_flags s = record {
  emulator_detect = s.emulator;
  root_detect = s.root_detect;
  hook_detect = s.anti_hook || (s.frida || s.xposed);
  sig_verify = s.signature;
  sig_policy = if s.signature then resolve_sig_policy s.sig_policy else SigPolicy.other_policy "";
  string_encrypt = s.string_encrypt;
  assets_encrypt = s.res_encrypt;
  vmp_enabled = is_high s.dex_level || is_vmp s.so_shell;
  screenshot_protect = s.screenshot_protect;
  file_integrity_check = s.file_integrity_check;
  proxy_detect = s.proxy_detect;
}
