-- ===== src/Base/Text.antt =====
-- Text literals as the bytes of C strings.
use Prim.Native.Char.{code}
use Prim.Native.String.{String}
use mathlib.Core.List.{List, [], ◌∷◌, ◌++◌}
use Prim.Native.Nat.{ℕ}

-- The bytes of a literal without its NUL: `strlen` counts these.
abbrev pub codes : String → List ℕ
codes String.[] = []
codes (String.◌∷◌ c s) = code c ∷ codes s

-- With its NUL: `sizeof` counts these.
abbrev pub with_nul : String → List ℕ
with_nul s = codes s ++ 0 ∷ []
