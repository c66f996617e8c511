-- ===== src/Writer/Json.antt =====
-- An independent reading of the body of a JSON string (RFC 8259, section 7), as UTF-16 code
-- units: what a consumer of the record of tools/efi-inventory does.
use muen_orin.Base.{
  ℕ, ◌+◌, ◌-◌, ◌*◌, List, [], ◌∷◌, Option, none, some, ltb, leb, ◌==◌, ◌&&◌, if◌then◌else◌,
}

-- Between two units, behind a backslash, or within the digits of a `\u` escape.
pub data Mode : Type 0 where
  plain : Mode
  escape : Mode
  hex₃ hex₂ hex₁ hex₀ : ℕ → Mode

unfoldable pub hex_value : ℕ → Option ℕ
hex_value c =
    if leb b'0' c && leb c b'9'
    then some (c - 48)
    else if leb b'a' c && leb c b'f'
    then some (c - 87)
    else if leb b'A' c && leb c b'F'
    then some (c - 55)
    else none

-- What a byte does: a new mode, and the unit that it completes, if any.
pub data Read : Type 0 where
  wrong : Read
  more : Mode → Read
  complete : ℕ → Read

unfoldable pub read_plain : ℕ → Read
read_plain c =
    if ltb c 32
    then wrong
    else if c == b'"'
    then wrong
    else if c == b'\\'
    then more escape
    else complete c

unfoldable pub read_escape : ℕ → Read
read_escape c =
    if c == b'"'
    then complete b'"'
    else if c == b'\\'
    then complete b'\\'
    else if c == b'/'
    then complete b'/'
    else if c == b'b'
    then complete 8
    else if c == b'f'
    then complete 12
    else if c == b'n'
    then complete 10
    else if c == b'r'
    then complete 13
    else if c == b't'
    then complete 9
    else if c == b'u'
    then more (hex₃ 0)
    else wrong

unfoldable pub read_digit : (ℕ → Read) → ℕ → ℕ → Read
read_digit k acc c = elim (hex_value c) [ none ↦ wrong | some v ↦ k (acc * 16 + v) ]

unfoldable pub read_byte : Mode → ℕ → Read
unfolding read_digit
read_byte plain c = read_plain c
read_byte escape c = read_escape c
read_byte (hex₃ acc) c = read_digit (λ v. more (hex₂ v)) acc c
read_byte (hex₂ acc) c = read_digit (λ v. more (hex₁ v)) acc c
read_byte (hex₁ acc) c = read_digit (λ v. more (hex₀ v)) acc c
read_byte (hex₀ acc) c = read_digit complete acc c

unfoldable pub prepend : ℕ → Option (List ℕ) → Option (List ℕ)
prepend c none = none
prepend c (some us) = some (c ∷ us)

-- The units of a whole body; `none` if it is no body of a JSON string.
unfoldable pub unescape : Mode → List ℕ → Option (List ℕ)
unescape plain [] = some []
unescape _ [] = none
unescape m (c ∷ s) = elim (read_byte m c) [
  | wrong ↦ none
  | more m' ↦ unescape m' s
  | complete u ↦ prepend u (unescape plain s)
]
