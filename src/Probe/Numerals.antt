-- ===== src/Probe/Numerals.antt =====
-- What `number` and `hex` of tools/efi-inventory/probe.c put, read back.
use muen_orin.Base.{
  ℕ, zero, suc, ◌+◌, ◌-◌, ◌*◌, ◌/◌, ◌%◌, ◌^◌, ◌≤◌, ◌<◌, ◌≡◌, ◌∙◌, refl, ap, inl, inr, ◌⊎◌, false,
  List, [], ◌∷◌, ◌++◌, Option, some, Bool-cases, All, length, arith, ◌==◌, ◌>>=◌, bit_and, ◌>>>◌,
}
use native.Mathlib.Nat.{pow-suc}
use muen_orin.Base.Bits.{bit_and_low}
use muen_orin.Writer.Emit.{Emits, say-Emits}
use muen_orin.Writer.Escape.{hex_digit}
use muen_orin.Writer.Json.{hex_value}
use muen_orin.Writer.RoundTrip.{hex_value-hex_digit}
use muen_orin.Probe.Number.{number_loop, number, hex_loop, hex_text, hex}

abbrev pub IsDigit : ℕ → Type 0
IsDigit c = (48 ≤ c) × (c ≤ 57)

-- The number that decimal digits spell, behind the digits of `acc`.
abbrev pub decimal : ℕ → List ℕ → ℕ
decimal acc [] = acc
decimal acc (c ∷ cs) = decimal (acc * 10 + (c - 48)) cs

-- A lone zero, or a first digit that is no zero.
abbrev pub IsLed : List ℕ → Type 0
IsLed text = (text ≡ b'0' ∷ []) ⊎ ((c : ℕ) × (cs : List ℕ) × (text ≡ c ∷ cs) × (b'1' ≤ c))

-- `text` is the decimal numeral of `v`.
pub record IsNumeral (v : ℕ) (text : List ℕ) : Type 0 where
  pub all_digits : All IsDigit text
  pub spells : decimal 0 text ≡ v
  pub leads : IsLed text

-- The result of the loop.
record Spelled (v : ℕ) (text result : List ℕ) : Type 0 where
  all_digits : All IsDigit result
  spells : decimal 0 result ≡ decimal v text
  leads :
      ((v ≡ 0) × (result ≡ b'0' ∷ text))
      ⊎ ((c : ℕ) × (cs : List ℕ) × (result ≡ c ∷ cs) × (b'1' ≤ c))

number_loop-Spelled :
    (i v : ℕ) (text : List ℕ)
    → v < 10 ^ i
    → 0 < i
    → All IsDigit text
    → (result : List ℕ) × (number_loop i v text ≡ some result) × Spelled v text result
unfolding number_loop
number_loop-Spelled zero v text small pos digits = absurd (omega arith)
number_loop-Spelled (suc i) v text small pos digits =
    let digit : IsDigit (48 + v % 10) = (omega arith, omega arith) in
    let joined : v / 10 * 10 + (48 + v % 10 - 48) ≡ v = omega arith in
    let next : v / 10 < 10 ^ i = omega (arith, pow-suc 10 i) in
    elim (Bool-cases (v / 10 == 0)) [
      | inl last ↦
          let z : v / 10 ≡ 0 = ground arith in
          rw (last, number_loop)
            (
              _,
              refl,
              record {
                all_digits = (digit, digits);
                spells = ap (λ n. decimal n text) (omega (arith, z));
                leads = last_leads v text z;
              },
            )
      | inr more ↦
          let rounds : 0 < i = number_rounds i (v / 10) next (ground arith) in
          let (result, e, k) =
            number_loop-Spelled i (v / 10) ((48 + v % 10) ∷ text) next rounds (digit, digits) in
          rw (more, number_loop)
            (
              result,
              e,
              record {
                all_digits = k.all_digits;
                spells = k.spells ∙ ap (λ n. decimal n text) joined;
                leads = elim k.leads [
                  | inl (z, e) ↦ absurd (omega (arith, z, number_more (v / 10) more))
                  | inr first ↦ inr first
                ];
              },
            )
    ]
  where
    number_more : (n : ℕ) → (n == 0) ≡ false → 0 < n
    number_more n h = ground arith

    last_leads :
        (v : ℕ) (text : List ℕ)
        → v / 10 ≡ 0
        → ((v ≡ 0) × ((48 + v % 10) ∷ text ≡ b'0' ∷ text))
          ⊎ ((c : ℕ) × (cs : List ℕ) × ((48 + v % 10) ∷ text ≡ c ∷ cs) × (b'1' ≤ c))
    last_leads v text z = elim (Bool-cases (v == 0)) [
      | inl nought ↦
          let zero_is : v ≡ 0 = ground arith in
          inl (zero_is, ap (λ c. c ∷ text) (omega (arith, zero_is)))
      | inr some_digit ↦
          let pos : 0 < v = number_more v some_digit in
          inr (48 + v % 10, text, refl, omega (arith, z, pos))
    ]

    number_rounds : (i v : ℕ) → v < 10 ^ i → 0 < v → 0 < i
    number_rounds zero v small pos = absurd (omega arith)
    number_rounds (suc i) v small pos = omega arith

-- For a 64-bit number, `number` writes inside its array and puts decimal digits that spell the
-- number, with no zero in front of others.
pub number-Emits : (v : ℕ) → v < 2 ^ 64 → (text : List ℕ) × Emits (number v) text × IsNumeral v text
unfolding number
number-Emits v small =
    let (text, e, k) = number_loop-Spelled 20 v [] (omega arith) (omega arith) tt in
    (
      text,
      record { emit = λ w t h. rw e ((say-Emits text).emit w t h) },
      record {
        all_digits = k.all_digits;
        spells = k.spells;
        leads = elim k.leads [ inl (z, e) ↦ inl e | inr first ↦ inr first ];
      },
    )

-- The number that hexadecimal digits spell, behind the digits of `acc`.
abbrev pub hexadecimal : ℕ → List ℕ → Option ℕ
hexadecimal acc [] = some acc
hexadecimal acc (c ∷ cs) = hex_value c >>= λ d. hexadecimal (acc * 16 + d) cs

pub hex_loop-append :
    (left v : ℕ) (text more : List ℕ)
    → hex_loop left v (text ++ more) ≡ hex_loop left v text ++ more
unfolding hex_loop
hex_loop-append zero v text more = refl
hex_loop-append (suc left) v text more =
    hex_loop-append left (v >>> 4) (hex_digit (bit_and v 15) ∷ text) more

length-hex_loop : (left v : ℕ) (text : List ℕ) → length (hex_loop left v text) ≡ left + length text
unfolding hex_loop
length-hex_loop zero v text = omega arith
length-hex_loop (suc left) v text =
    omega (arith, length-hex_loop left (v >>> 4) (hex_digit (bit_and v 15) ∷ text))

hexadecimal-digit :
    (v : ℕ) (text : List ℕ)
    → hexadecimal (v >>> 4) (hex_digit (bit_and v 15) ∷ text) ≡ hexadecimal v text
hexadecimal-digit v text =
    let low : bit_and v 15 ≡ v % 16 = bit_and_low 4 v in
    let joined : (v >>> 4) * 16 + v % 16 ≡ v = omega arith in
    rw (low, hex_value-hex_digit (v % 16) (omega arith)) (ap (λ n. hexadecimal n text) joined)

hexadecimal-hex_loop :
    (left v : ℕ) (text : List ℕ)
    → v < 16 ^ left
    → hexadecimal 0 (hex_loop left v text) ≡ hexadecimal v text
unfolding hex_loop
hexadecimal-hex_loop zero v text small = let z : v ≡ 0 = omega arith in rw z refl
hexadecimal-hex_loop (suc left) v text small =
    hexadecimal-hex_loop left (v >>> 4) _ (omega (arith, pow-suc 16 left))
    ∙ hexadecimal-digit v text

-- A quoted literal of sixteen digits.
pub record IsHexLiteral (v : ℕ) (text : List ℕ) : Type 0 where
  pub hex_digits : List ℕ
  pub framed : text ≡ b'"' ∷ b'0' ∷ b'x' ∷ (hex_digits ++ (b'"' ∷ []))
  pub sixteen : length hex_digits ≡ 16
  pub spells : hexadecimal 0 hex_digits ≡ some v

-- For a 64-bit number, `hex` puts a quoted literal: 0x and sixteen hexadecimal digits that
-- spell the number.
pub hex-Emits : (v : ℕ) → v < 2 ^ 64 → Emits (hex v) (hex_text v) × IsHexLiteral v (hex_text v)
unfolding hex hex_text
hex-Emits v small = (
  say-Emits _,
  record {
    hex_digits = hex_loop 16 v [];
    framed = ap (λ t. b'"' ∷ b'0' ∷ b'x' ∷ t) (hex_loop-append 16 v [] (b'"' ∷ []));
    sixteen = length-hex_loop 16 v [];
    spells = hexadecimal-hex_loop 16 v [] (omega arith);
  },
)
