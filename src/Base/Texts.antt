-- ===== src/Base/Texts.antt =====
-- Texts as the bytes of a `std::string`.
use Prim.Native.Nat.{ℕ}
use Prim.Native.Char.{code}
use Prim.Native.String.{String}
use mathlib.Core.Bool.{Bool, true, false, ◌&&◌}
use mathlib.Core.List.{List, [], ◌∷◌}
use exasol_gateway_sdk.Base.Tests.{◌==◌}

-- The bytes of a literal, which is ASCII.
abbrev pub codes : String → List ℕ
codes String.[] = []
codes (String.◌∷◌ c s) = code c ∷ codes s

-- `==` of `std::string`.
unfoldable pub same : List ℕ → List ℕ → Bool
same [] [] = true
same (a ∷ s) (b ∷ t) = a == b && same s t
same [] (b ∷ t) = false
same (a ∷ s) [] = false
