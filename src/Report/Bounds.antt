-- ===== src/Report/Bounds.antt =====
-- The ranges of the scores, and what the report says of them.
use beetle_shield_backend.Prelude.{
  if◌then◌else◌, ◌||◌, ◌&&◌, ℕ, ◌+◌, ◌≤◌, ◌≡◌, ◌<◌, ◌⊎◌, Bool, String, All, arith,
}
use beetle_shield_backend.Model.{App, DexObfuscationLevel, HardeningTask}
use beetle_shield_backend.Engine.{EffectiveFlags, resolve_effective_flags}
use beetle_shield_backend.Report.Score.{
  dex_score, encryption_score, bool_score, points, compute_score_breakdown,
}
use beetle_shield_backend.Report.Build.{ReportDimension, build_hardening_report}

pub dex_score-le : (l : DexObfuscationLevel) → dex_score l ≤ 20
unfolding dex_score
dex_score-le l = ground arith

pub encryption_score-le : (f : EffectiveFlags) → encryption_score f ≤ 15
unfolding encryption_score
encryption_score-le f = ground arith

pub bool_score-le : (b : Bool) (w : ℕ) → bool_score b w ≤ w
unfolding bool_score
bool_score-le b w = ground arith

-- The points of all six categories come to at most 100, so the difference is exact.
pub points-le : (f : EffectiveFlags) (l : DexObfuscationLevel) → points f l ≤ 100
points-le f l = omega (arith, dex_score-le, encryption_score-le, bool_score-le)

-- The score is 100 less the points, or 5 if that is more.
after_score-IsExact :
    (f : EffectiveFlags) (l : DexObfuscationLevel)
    → let s = (compute_score_breakdown f l).after_score in
      (5 ≤ s) × ((s + points f l ≡ 100) ⊎ (s ≡ 5) × (95 < points f l))
unfolding compute_score_breakdown
after_score-IsExact f l = ground (arith, points-le f l)

abbrev worth : Bool → ℕ → ℕ
worth b n = if b then n else 0

abbrev obfuscation_worth : DexObfuscationLevel → ℕ
obfuscation_worth DexObfuscationLevel.low = 5
obfuscation_worth DexObfuscationLevel.medium = 12
obfuscation_worth DexObfuscationLevel.high = 20
obfuscation_worth (DexObfuscationLevel.other_level _) = 0

-- What each protection is worth.
abbrev pub protection_points : EffectiveFlags → DexObfuscationLevel → ℕ
protection_points f l =
    worth (f.emulator_detect || f.root_detect) 15
    + worth f.hook_detect 15
    + worth f.sig_verify 15
    + obfuscation_worth l
    + worth f.vmp_enabled 20
    + (worth (f.string_encrypt || f.assets_encrypt) 8
        + worth (f.string_encrypt && f.assets_encrypt) 7)

points_lem : (f : EffectiveFlags) (l : DexObfuscationLevel) → points f l ≡ protection_points f l
unfolding dex_score encryption_score bool_score
points_lem f DexObfuscationLevel.low = ground arith
points_lem f DexObfuscationLevel.medium = ground arith
points_lem f DexObfuscationLevel.high = ground arith
points_lem f (DexObfuscationLevel.other_level t) = ground arith

-- The score against a table of its own: it is 100 less the points of the protections that are on
-- (15 each for the environment, for hooks and for signatures, 5, 12 or 20 for the obfuscation, 20
-- for the shell, 8 or 15 for encryption), or 5 where more than 95 points come together.
pub compute_score_breakdown_lem :
    (f : EffectiveFlags) (l : DexObfuscationLevel)
    → let s = (compute_score_breakdown f l).after_score in
      (protection_points f l ≤ 95 × (s + protection_points f l ≡ 100))
      ⊎ (95 < protection_points f l × (s ≡ 5))
compute_score_breakdown_lem f l = ground (arith, points_lem f l, after_score-IsExact f l)

-- The score and the bars of a report: every bar is 0 before and at most 100 after the hardening,
-- and the score behind it lies between 5 and 100.
pub build_hardening_report_bounds :
    (to_lower : String → String) (t : HardeningTask) (a : App) (v : String)
    → let r = build_hardening_report to_lower t a v in
      All (λ (d : ReportDimension). (d.before ≡ 0) × (d.after ≤ 100)) r.dimensions
      × (5 ≤ r.after_score)
      × (r.after_score ≤ 100)
unfolding build_hardening_report
build_hardening_report_bounds to_lower t a v =
    let flags = resolve_effective_flags t.strategy_snapshot in
    let level = t.strategy_snapshot.dex_level in
    (
      omega (arith, bool_score-le, dex_score-le, encryption_score-le),
      (after_score-IsExact flags level).0,
      ground (arith, after_score-IsExact flags level),
    )
