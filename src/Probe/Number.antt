-- ===== src/Probe/Number.antt =====
-- `number` and `hex` of tools/efi-inventory/probe.c.
use muen_orin.Base.{
  ℕ, zero, suc, ◌+◌, ◌/◌, ◌%◌, List, [], ◌∷◌, Option, none, some, true, false, ◌==◌, ◌>>=◌, bit_and,
  ◌>>>◌,
}
use muen_orin.Writer.Emit.{Command, say}
use muen_orin.Writer.Escape.{hex_digit}

-- The loop from index `i` of the array, with the text behind `i`; a write in front of the array
-- is `none`.
unfoldable pub number_loop : ℕ → ℕ → List ℕ → Option (List ℕ)
number_loop zero v text = none
number_loop (suc i) v text = elim (v / 10 == 0) [
  | true ↦ some ((48 + v % 10) ∷ text)
  | false ↦ number_loop i (v / 10) ((48 + v % 10) ∷ text)
]

unfoldable pub number : ℕ → Command
number v w = number_loop 20 v [] >>= λ text. say text w

-- The loop with `left` rounds to go, with the digits behind.
unfoldable pub hex_loop : ℕ → ℕ → List ℕ → List ℕ
hex_loop zero v text = text
hex_loop (suc left) v text = hex_loop left (v >>> 4) (hex_digit (bit_and v 15) ∷ text)

-- The array `b`, up to its NUL.
unfoldable pub hex_text : ℕ → List ℕ
hex_text v = b'"' ∷ b'0' ∷ b'x' ∷ hex_loop 16 v (b'"' ∷ [])

unfoldable pub hex : ℕ → Command
hex v = say (hex_text v)
