-- ===== src/Base/Text.antt =====
-- String literals as the bytes before their NUL.
use Prim.Native.Nat.{ℕ}
use Prim.Native.Char.{code}
use Prim.Native.String.{String}
use mathlib.Core.Path.{◌≡◌}
use mathlib.Core.Bool.{Bool, true, ◌&&◌, ◌||◌, not}
use mathlib.Core.Option.{Option, none, some}
use mathlib.Core.List.{List, [], ◌∷◌}
use muen_orin.Base.Tests.{ltb, leb, ◌==◌}

abbrev pub codes : String → List ℕ
codes String.[] = []
codes (String.◌∷◌ c s) = code c ∷ codes s

abbrev pub printable_codes : List ℕ → Bool
printable_codes [] = true
printable_codes (c ∷ cs) = (leb 32 c && ltb c 127) && printable_codes cs

-- Printable bytes but the quote and the backslash.
abbrev pub plain_codes : List ℕ → Bool
plain_codes [] = true
plain_codes (c ∷ cs) = ((leb 32 c && ltb c 127) && not (c == b'"' || c == b'\\')) && plain_codes cs

-- A printable literal without quotes and backslashes.
abbrev pub IsLiteral : String → Type 0
IsLiteral s = plain_codes (codes s) ≡ true

-- A detail that may be put between quotes.
abbrev pub IsDetail : Option String → Type 0
IsDetail none = Unit {0}
IsDetail (some d) = IsLiteral d
