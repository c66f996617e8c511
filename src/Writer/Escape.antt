-- ===== src/Writer/Escape.antt =====
-- `unit`, `escaped` and `escaped16` of tools/efi-inventory/core.c: the body of a JSON string.
use muen_orin.Base.{
  ℕ, zero, suc, ◌+◌, List, [], ◌∷◌, some, ◌>>=◌, load, get_or, bit_and, ◌>>>◌, codes, ltb, leb,
  ◌==◌, ◌||◌, if◌then◌else◌,
}
use muen_orin.Writer.Emit.{Command, say}

-- `hex[n]`; every index is masked to four bits.
unfoldable pub hex_digit : ℕ → ℕ
hex_digit n = get_or (codes "0123456789abcdef") n 0

-- The array `b` of each of the three branches, up to its NUL.
unfoldable pub unit_text : ℕ → List ℕ
unit_text c =
    if c == b'"' || c == b'\\'
    then b'\\' ∷ c ∷ []
    else if ltb c 32 || leb 127 c
    then b'\\'
      ∷ b'u'
      ∷ hex_digit (bit_and (c >>> 12) 15)
      ∷ hex_digit (bit_and (c >>> 8) 15)
      ∷ hex_digit (bit_and (c >>> 4) 15)
      ∷ hex_digit (bit_and c 15)
      ∷ []
    else c ∷ []

unfoldable pub unit : ℕ → Command
unit c = say (unit_text c)

-- The loop over the bytes before the NUL.
unfoldable pub escaped : List ℕ → Command
escaped [] w = some w
escaped (c ∷ s) w = unit c w >>= λ w'. escaped s w'

-- The loop from index `i`, with `left` rounds to go.
unfoldable pub escaped16_loop : List ℕ → ℕ → ℕ → Command
escaped16_loop s zero i w = some w
escaped16_loop s (suc left) i w =
    load s i >>= λ c. unit c w >>= λ w'. escaped16_loop s left (i + 1) w'

unfoldable pub escaped16 : List ℕ → ℕ → Command
escaped16 s units = escaped16_loop s units 0
