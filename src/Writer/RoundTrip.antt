-- ===== src/Writer/RoundTrip.antt =====
-- The escapes of tools/efi-inventory/core.c are read back by a JSON reader, and are printable.
use muen_orin.Base.{
  ℕ, ◌+◌, ◌*◌, ◌%◌, ◌^◌, ◌≤◌, ◌<◌, ◌≡◌, ◌∙◌, refl, ap, inl, inr, List, [], ◌∷◌, ◌++◌, Option, none,
  some, Bool, true, false, Bool-cases, All, All-append, bit_and, ◌>>>◌, ltb, leb, ◌==◌, ◌||◌, ◌&&◌,
  all_below, all_below-lt, arith,
}
use muen_orin.Base.Bits.{bit_and_low}
use muen_orin.Writer.Escape.{hex_digit, unit_text}
use muen_orin.Writer.Text.{escape_text}
use muen_orin.Writer.Json.{
  plain, hex₃, hex₂, hex₁, hex₀, hex_value, read_plain, read_escape, read_byte, prepend, unescape,
}

abbrev is_value : ℕ → Option ℕ → Bool
is_value n none = false
is_value n (some v) = v == n

-- Each digit has its value, and is a printable byte.
abbrev good_digit : ℕ → Bool
good_digit n = is_value n (hex_value (hex_digit n)) && leb 32 (hex_digit n) && ltb (hex_digit n) 127

hex_table : all_below 16 good_digit ≡ true
unfolding all_below hex_value hex_digit
hex_table = refl

pub hex_value-hex_digit : (n : ℕ) → n < 16 → hex_value (hex_digit n) ≡ some n
hex_value-hex_digit n h = ground (arith, all_below-lt 16 good_digit n hex_table h)

pub hex_digit-printable : (n : ℕ) → n < 16 → (32 ≤ hex_digit n) × (hex_digit n < 127)
hex_digit-printable n h = ground (arith, all_below-lt 16 good_digit n hex_table h)

abbrev nibble : ℕ → ℕ
nibble x = bit_and x 15

nibble_lem : (x : ℕ) → nibble x ≡ x % 16
nibble_lem x = bit_and_low 4 x

nibbles :
    (c : ℕ)
    → c < 2 ^ 16
    → ((nibble (c >>> 12) * 16 + nibble (c >>> 8)) * 16 + nibble (c >>> 4)) * 16 + nibble c ≡ c
nibbles c h =
    omega (arith, nibble_lem (c >>> 12), nibble_lem (c >>> 8), nibble_lem (c >>> 4), nibble_lem c)

module _ (acc a : ℕ) (s : List ℕ) (h : a < 16) where
  unescape-hex₃ : unescape (hex₃ acc) (hex_digit a ∷ s) ≡ unescape (hex₂ (acc * 16 + a)) s
  unfolding unescape read_byte
  unescape-hex₃ = ground (arith, hex_value-hex_digit a h)

  unescape-hex₂ : unescape (hex₂ acc) (hex_digit a ∷ s) ≡ unescape (hex₁ (acc * 16 + a)) s
  unfolding unescape read_byte
  unescape-hex₂ = ground (arith, hex_value-hex_digit a h)

  unescape-hex₁ : unescape (hex₁ acc) (hex_digit a ∷ s) ≡ unescape (hex₀ (acc * 16 + a)) s
  unfolding unescape read_byte
  unescape-hex₁ = ground (arith, hex_value-hex_digit a h)

  unescape-hex₀ : unescape (hex₀ acc) (hex_digit a ∷ s) ≡ prepend (acc * 16 + a) (unescape plain s)
  unfolding unescape read_byte
  unescape-hex₀ = ground (arith, hex_value-hex_digit a h)

-- Four digits are read as the number that they spell.
unescape_digits :
    (a b c d : ℕ) (s : List ℕ)
    → a < 16
    → b < 16
    → c < 16
    → d < 16
    → unescape (hex₃ 0) (hex_digit a ∷ hex_digit b ∷ hex_digit c ∷ hex_digit d ∷ s)
      ≡ prepend (((a * 16 + b) * 16 + c) * 16 + d) (unescape plain s)
unescape_digits a b c d s ha hb hc hd =
    let start : 0 * 16 + a ≡ a = omega arith in
    unescape-hex₃ 0 a _ ha
    ∙ unescape-hex₂ (0 * 16 + a) b _ hb
    ∙ unescape-hex₁ ((0 * 16 + a) * 16 + b) c _ hc
    ∙ unescape-hex₀ (((0 * 16 + a) * 16 + b) * 16 + c) d s hd
    ∙ ap (λ n. prepend (((n * 16 + b) * 16 + c) * 16 + d) (unescape plain s)) start

unescape_u : (s : List ℕ) → unescape plain (b'\\' ∷ b'u' ∷ s) ≡ unescape (hex₃ 0) s
unfolding unescape read_byte read_plain read_escape
unescape_u s = refl

unescape_quoted :
    (c : ℕ) (s : List ℕ)
    → (c == b'"' || c == b'\\') ≡ true
    → unescape plain (b'\\' ∷ c ∷ s) ≡ prepend c (unescape plain s)
unfolding unescape read_byte read_plain read_escape
unescape_quoted c s e = ground arith

unescape_bare :
    (c : ℕ) (s : List ℕ)
    → (c == b'"' || c == b'\\') ≡ false
    → (ltb c 32 || leb 127 c) ≡ false
    → unescape plain (c ∷ s) ≡ prepend c (unescape plain s)
unfolding unescape read_byte read_plain
unescape_bare c s e f = ground arith

-- A unit is read back from its escape, whatever follows.
unescape-unit_text :
    (c : ℕ) (s : List ℕ)
    → c < 2 ^ 16
    → unescape plain (unit_text c ++ s) ≡ prepend c (unescape plain s)
unfolding unit_text
unescape-unit_text c s h = elim (Bool-cases (c == b'"' || c == b'\\')) [
  | inl quoted ↦ rw quoted (unescape_quoted c s quoted)
  | inr bare ↦ elim (Bool-cases (ltb c 32 || leb 127 c)) [
    | inl odd ↦
        rw (bare, odd)
          (unescape_u _
            ∙ unescape_digits (nibble (c >>> 12)) (nibble (c >>> 8)) (nibble (c >>> 4)) (nibble c) s
                (omega (arith, nibble_lem (c >>> 12))) (omega (arith, nibble_lem (c >>> 8)))
                (omega (arith, nibble_lem (c >>> 4))) (omega (arith, nibble_lem c))
            ∙ ap (λ n. prepend n (unescape plain s)) (nibbles c h))
    | inr even ↦ rw (bare, even) (unescape_bare c s bare even)
  ]
]

-- The escapes of a row of 16-bit units are read back by the JSON reader as the same units:
-- nothing is lost, and no unit ends the string or breaks an escape.
pub unescape-escape_text :
    (us : List ℕ) → All (λ c. c < 2 ^ 16) us → unescape plain (escape_text us) ≡ some us
unfolding escape_text
unescape-escape_text [] h = unfold unescape in refl
unescape-escape_text (c ∷ us) h =
    unescape-unit_text c (escape_text us) h.0
    ∙ ap (prepend c) (unescape-escape_text us h.1)
    ∙ (unfold prepend in refl)

abbrev pub IsPrintable : List ℕ → Type 0
IsPrintable = All (λ b. (32 ≤ b) × (b < 127))

unit_text-IsPrintable : (c : ℕ) → IsPrintable (unit_text c)
unfolding unit_text
unit_text-IsPrintable c = elim (Bool-cases (c == b'"' || c == b'\\')) [
  | inl quoted ↦ rw quoted (ground arith)
  | inr bare ↦ elim (Bool-cases (ltb c 32 || leb 127 c)) [
    | inl odd ↦
        rw (bare, odd)
          (
            (omega arith, omega arith),
            (
              (omega arith, omega arith),
              (digit (c >>> 12), (digit (c >>> 8), (digit (c >>> 4), (digit c, tt)))),
            ),
          )
    | inr even ↦ rw (bare, even) (ground arith)
  ]
]
  where
    digit : (x : ℕ) → (32 ≤ hex_digit (nibble x)) × (hex_digit (nibble x) < 127)
    digit x = hex_digit-printable (nibble x) (omega (arith, nibble_lem x))

-- An escaped text is printable ASCII, whatever the units.
pub escape_text-IsPrintable : (us : List ℕ) → IsPrintable (escape_text us)
unfolding escape_text
escape_text-IsPrintable [] = tt
escape_text-IsPrintable (c ∷ us) =
    All-append _ (unit_text c) (escape_text us) (unit_text-IsPrintable c)
      (escape_text-IsPrintable us)
