-- ===== src/Engine/LogLine.antt =====
-- classifyEngineLine of internal/worker/engine.go.
use beetle_shield_backend.Prelude.{
  ℕ, ◌-◌, ◌≡◌, refl, String, ◌&&◌, Bool, ◌||◌, List, map, leb, ◌==◌, if◌then◌else◌,
}
use beetle_shield_backend.Prelude.Text.{codes, contains}
use beetle_shield_backend.Model.{HardeningLogLevel}

-- `unicode.ToUpper`, as far as its value is ASCII: two other letters have an ASCII capital, and
-- no capital of the rest is looked for.
unfoldable pub upper : ℕ → ℕ
upper c =
    if leb b'a' c && leb c b'z'
    then c - 32
    else if c == 0x131
    then b'I'
    else if c == 0x17f
    then b'S'
    else c

-- `strings.Contains(strings.ToUpper(line), word)`
abbrev pub mentions : List ℕ → String → Bool
mentions line word = contains (map upper line) (codes word)

unfoldable pub classify_engine_line : List ℕ → HardeningLogLevel → HardeningLogLevel
classify_engine_line line fallback =
    if mentions line "ERROR" || mentions line "EXCEPTION" || mentions line "FAILED"
    then HardeningLogLevel.error
    else if mentions line "WARN"
    then HardeningLogLevel.warn
    else if mentions line "SUCCESS" || mentions line "ALL DONE"
    then HardeningLogLevel.success
    else fallback

classify_warning :
    classify_engine_line (codes "[Warning] skipped") HardeningLogLevel.info ≡ HardeningLogLevel.warn
unfolding classify_engine_line upper
classify_warning = refl
