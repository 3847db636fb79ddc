-- ===== src/Prelude/Text.antt =====
-- Text literals as the bytes of a C string.
use Prim.Native.Nat.{ℕ}
use Prim.Native.Char.{code}
use Prim.Native.String.{String}
use mathlib.Core.List.{List, [], ◌∷◌, ◌++◌}

abbrev pub codes : String → List ℕ
codes String.[] = []
codes (String.◌∷◌ c s) = code c ∷ codes s

-- the array that a literal stands for: its bytes and the NUL
abbrev pub literal : String → List ℕ
literal s = codes s ++ 0 ∷ []
