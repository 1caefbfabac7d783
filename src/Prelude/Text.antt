-- ===== src/Prelude/Text.antt =====
-- Texts: what the program uses of the package `strings`, on the characters of a text. The
-- characters that it looks for are ASCII, where Go's bytes and the characters here agree.
use Prim.Native.Nat.{ℕ}
use Prim.Native.Char.{code}
use Prim.Native.String.{String}
use mathlib.Core.Bool.{Bool, true, false, ◌&&◌, ◌||◌}
use mathlib.Core.List.{List, [], ◌∷◌}
use beetle_shield_backend.Prelude.Tests.{◌==◌}

abbrev pub codes : String → List ℕ
codes String.[] = []
codes (String.◌∷◌ c s) = code c ∷ codes s

-- `strings.HasPrefix(s, p)`, on codes
abbrev pub has_prefix : List ℕ → List ℕ → Bool
has_prefix s [] = true
has_prefix [] (c ∷ p) = false
has_prefix (x ∷ s) (c ∷ p) = x == c && has_prefix s p

-- `strings.Contains(s, p)`
abbrev pub contains : List ℕ → List ℕ → Bool
contains [] p = has_prefix [] p
contains (x ∷ s) p = has_prefix (x ∷ s) p || contains s p
