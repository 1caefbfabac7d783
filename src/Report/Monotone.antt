-- ===== src/Report/Monotone.antt =====
-- A strategy that turns on more protections never gets a worse score or a higher risk level.
use beetle_shield_backend.Prelude.{ℕ, ◌≤◌, ◌≡◌, Bool, true, ◌||◌, arith}
use beetle_shield_backend.Model.{DexObfuscationLevel, RiskLevel, Strategy, is_high, is_vmp}
use beetle_shield_backend.Engine.{EffectiveFlags, resolve_effective_flags}
use beetle_shield_backend.Report.Score.{
  dex_score, encryption_score, bool_score, points, compute_score_breakdown, risk_level_for_score,
  resolve_risk_level,
}

abbrev pub level_rank : DexObfuscationLevel → ℕ
level_rank (DexObfuscationLevel.other_level _) = 0
level_rank DexObfuscationLevel.low = 1
level_rank DexObfuscationLevel.medium = 2
level_rank DexObfuscationLevel.high = 3

abbrev pub risk_rank : RiskLevel → ℕ
risk_rank RiskLevel.low = 0
risk_rank RiskLevel.medium = 1
risk_rank RiskLevel.high = 2
risk_rank RiskLevel.critical = 3

-- `b` is on wherever `a` is.
abbrev Implies : Bool → Bool → Type 0
Implies a b = a ≡ true → b ≡ true

-- The second strategy turns on all that the first one does.
pub record IsWeaker (s t : Strategy) : Type 0 where
  pub emulator : Implies s.emulator t.emulator
  pub root_detect : Implies s.root_detect t.root_detect
  pub anti_hook : Implies s.anti_hook t.anti_hook
  pub frida : Implies s.frida t.frida
  pub xposed : Implies s.xposed t.xposed
  pub signature : Implies s.signature t.signature
  pub string_encrypt : Implies s.string_encrypt t.string_encrypt
  pub res_encrypt : Implies s.res_encrypt t.res_encrypt
  pub so_shell : Implies (is_vmp s.so_shell) (is_vmp t.so_shell)
  pub dex_level : level_rank s.dex_level ≤ level_rank t.dex_level

bool_score_mono : (a b : Bool) (w : ℕ) → Implies a b → bool_score a w ≤ bool_score b w
unfolding bool_score
bool_score_mono a b w h = ground arith

dex_score_mono :
    (l m : DexObfuscationLevel) → level_rank l ≤ level_rank m → dex_score l ≤ dex_score m
unfolding dex_score
dex_score_mono l m h = ground arith

encryption_score_mono :
    (f g : EffectiveFlags)
    → Implies f.string_encrypt g.string_encrypt
    → Implies f.assets_encrypt g.assets_encrypt
    → encryption_score f ≤ encryption_score g
unfolding encryption_score
encryption_score_mono f g h k = ground arith

Implies-or : (a b c d : Bool) → Implies a c → Implies b d → Implies (a || b) (c || d)
Implies-or a b c d h k e = ground arith

high_mono :
    (l m : DexObfuscationLevel) → level_rank l ≤ level_rank m → Implies (is_high l) (is_high m)
high_mono l m h e = ground arith

points_mono :
    (s t : Strategy)
    → IsWeaker s t
    → points (resolve_effective_flags s) s.dex_level
      ≤ points (resolve_effective_flags t) t.dex_level
unfolding resolve_effective_flags
points_mono s t h = omega (
  arith,
  bool_score_mono (s.emulator || s.root_detect) (t.emulator || t.root_detect) 15
      (Implies-or _ _ _ _ h.emulator h.root_detect),
  bool_score_mono (s.anti_hook || (s.frida || s.xposed)) (t.anti_hook || (t.frida || t.xposed)) 15
      (Implies-or _ _ _ _ h.anti_hook (Implies-or _ _ _ _ h.frida h.xposed)),
  bool_score_mono s.signature t.signature 15 h.signature,
  dex_score_mono s.dex_level t.dex_level h.dex_level,
  bool_score_mono (is_high s.dex_level || is_vmp s.so_shell)
      (is_high t.dex_level || is_vmp t.so_shell) 20
      (Implies-or _ _ _ _ (high_mono s.dex_level t.dex_level h.dex_level) h.so_shell),
  encryption_score_mono (resolve_effective_flags s) (resolve_effective_flags t) h.string_encrypt
      h.res_encrypt,
)

risk_of_points :
    (f g : EffectiveFlags) (l m : DexObfuscationLevel)
    → points f l ≤ points g m
    → risk_rank (risk_level_for_score (compute_score_breakdown g m).after_score)
      ≤ risk_rank (risk_level_for_score (compute_score_breakdown f l).after_score)
unfolding compute_score_breakdown risk_level_for_score
risk_of_points f g l m h = ground arith

-- If the second strategy turns on every protection of the first and obfuscates at least as
-- strongly, the risk level that it resolves to is not higher.
pub resolve_risk_level_mono :
    (s t : Strategy)
    → IsWeaker s t
    → risk_rank (resolve_risk_level t) ≤ risk_rank (resolve_risk_level s)
unfolding resolve_risk_level
resolve_risk_level_mono s t h =
    risk_of_points (resolve_effective_flags s) (resolve_effective_flags t) s.dex_level t.dex_level
      (points_mono s t h)
