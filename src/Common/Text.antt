-- ===== src/Common/Text.antt =====
-- Texts as lists of code points.
use Prim.Native.Nat.{ℕ}
use Prim.Native.String.{String}
use Prim.Native.Char.{code}
use mathlib.Core.List.{List, [], ◌∷◌}
use mathlib.Core.Bool.{Bool, true, false, ◌&&◌, ◌||◌}
use jetson_dlagreen.Common.Tests.{◌==◌}

abbrev pub codes : String → List ℕ
codes String.[] = []
codes (String.◌∷◌ c s) = code c ∷ codes s

abbrev pub is_prefix : List ℕ → List ℕ → Bool
is_prefix [] text = true
is_prefix (p ∷ ps) [] = false
is_prefix (p ∷ ps) (c ∷ text) = p == c && is_prefix ps text

-- `part in text`
abbrev pub is_part : List ℕ → List ℕ → Bool
is_part part [] = is_prefix part []
is_part part (c ∷ text) = is_prefix part (c ∷ text) || is_part part text
