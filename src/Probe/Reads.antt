-- ===== src/Probe/Reads.antt =====
-- The parts of the record of tools/efi-inventory/probe.c in the acceptor of JSON texts.
use muen_orin.Base.{
  ℕ, zero, suc, ◌≤◌, ◌<◌, ◌≡◌, inl, inr, sym, ap, ◌∙◌, refl, subst, List, [], ◌∷◌, ◌++◌, some, Bool,
  true, false, Bool-cases, All, leb, ltb, ◌==◌, ◌||◌, ◌&&◌, not, arith, bit_and, ◌>>>◌, all_below,
  all_below-lt, >>=-eq-some, ◌>>=◌,
}
use muen_orin.Base.Bits.{bit_and_low}
use muen_orin.Writer.Escape.{hex_digit, unit_text}
use muen_orin.Writer.Text.{escape_text}
use muen_orin.Probe.Number.{hex_loop, hex_text}
use muen_orin.Probe.Numerals.{IsDigit, IsNumeral, hex_loop-append}
use muen_orin.Probe.Json.{
  begin_value, Frame, object, array, value, after, zero_read, digits, string, Place, is_digit,
  is_hex_digit, step, read, Settles, exact, zero_ends, digits_end,
}

pub read-append : (a b : Place) (s t : List ℕ) → read a s ≡ some b → read a (s ++ t) ≡ read b t
read-append a b [] t e = let same : a ≡ b = cc e in rw same refl
read-append a b (c ∷ s) t e =
    let (m, f, g) = >>=-eq-some (step a.0 a.1 c) _ e in rw f (read-append m b s t g)

-- The place behind a text from `a`, where a number may have ended.
abbrev pub Reads : Place → List ℕ → Place → Type 0
Reads a text b = (p : Place) × (read a text ≡ some p) × Settles p b

-- A byte that may stand behind a value is no digit.
not-digit : (st : List Frame) (c : ℕ) (q : Place) → step after st c ≡ some q → is_digit c ≡ false
not-digit [] c q e = absurd (cc e)
not-digit (object ∷ st) c q e = ground arith
not-digit (array ∷ st) c q e = ground arith

Settles-step :
    {p b : Place} (c : ℕ) (q : Place)
    → Settles p b
    → step b.0 b.1 c ≡ some q
    → step p.0 p.1 c ≡ some q
Settles-step c q exact e = e
Settles-step c q zero_ends e = e
Settles-step c q (digits_end {st = st}) e = rw (not-digit st c q e) e

Settles-trans : {p b q : Place} → Settles p b → Settles b q → Settles p q
Settles-trans exact k = k
Settles-trans zero_ends exact = zero_ends
Settles-trans digits_end exact = digits_end

Settles-Reads : (p b q : Place) (t : List ℕ) → Settles p b → Reads b t q → Reads p t q
Settles-Reads p b q [] s (r, e, k) =
    let same : b ≡ r = cc e in (p, refl, Settles-trans s (subst (λ r. Settles r q) (sym same) k))
Settles-Reads p b q (c ∷ t) s (r, e, k) =
    let (m, f, g) = >>=-eq-some (step b.0 b.1 c) _ e in (r, rw (Settles-step c m s f) g, k)

-- Texts that stand one behind the other.
pub Reads-append : (a b q : Place) (s t : List ℕ) → Reads a s b → Reads b t q → Reads a (s ++ t) q
Reads-append a b q s t (p, e, k) h =
    let (r, f, l) = Settles-Reads p b q t k h in (r, read-append a p s t e ∙ f, l)

-- Bytes that stay in the string.
abbrev pub is_plain : ℕ → Bool
is_plain c = leb 32 c && not (c == b'"' || c == b'\\')

step-plain :
    (k : Bool) (st : List Frame) (c : ℕ)
    → is_plain c ≡ true
    → step (string k) st c ≡ some (string k, st)
step-plain k st c h = ground arith

abbrev pub are_plain : List ℕ → Bool
are_plain [] = true
are_plain (c ∷ cs) = is_plain c && are_plain cs

pub read-plain :
    (k : Bool) (st : List Frame) (cs : List ℕ)
    → are_plain cs ≡ true
    → read (string k, st) cs ≡ some (string k, st)
read-plain k st [] h = refl
read-plain k st (c ∷ cs) h =
    let here : is_plain c ≡ true = ground arith in
    let rest : are_plain cs ≡ true = ground arith in
    rw (step-plain k st c here) (read-plain k st cs rest)

abbrev good_hex : ℕ → Bool
good_hex n = is_hex_digit (hex_digit n) && is_plain (hex_digit n)

hex_table : all_below 16 good_hex ≡ true
unfolding all_below hex_digit
hex_table = refl

hex_digit-hex : (n : ℕ) → n < 16 → is_hex_digit (hex_digit n) ≡ true
hex_digit-hex n h = ground (arith, all_below-lt 16 good_hex n hex_table h)

pub hex_digit-plain : (n : ℕ) → n < 16 → is_plain (hex_digit n) ≡ true
hex_digit-plain n h = ground (arith, all_below-lt 16 good_hex n hex_table h)

pub nibble-lt : (x : ℕ) → bit_and x 15 < 16
nibble-lt x = omega (arith, bit_and_low 4 x)

read-unicode :
    (k : Bool) (st : List Frame) (a b c d : ℕ)
    → a < 16
    → b < 16
    → c < 16
    → d < 16
    → read
        (string k, st)
        (b'\\' ∷ b'u' ∷ hex_digit a ∷ hex_digit b ∷ hex_digit c ∷ hex_digit d ∷ [])
      ≡ some (string k, st)
read-unicode k st a b c d ha hb hc hd =
    rw (hex_digit-hex a ha, hex_digit-hex b hb, hex_digit-hex c hc, hex_digit-hex d hd) refl

read-quoted :
    (k : Bool) (st : List Frame) (c : ℕ)
    → (c == b'"' || c == b'\\') ≡ true
    → read (string k, st) (b'\\' ∷ c ∷ []) ≡ some (string k, st)
read-quoted k st c e = ground arith

-- An escape stays in the string.
read-unit_text :
    (k : Bool) (st : List Frame) (c : ℕ) → read (string k, st) (unit_text c) ≡ some (string k, st)
unfolding unit_text
read-unit_text k st c = elim (Bool-cases (c == b'"' || c == b'\\')) [
  | inl quoted ↦ rw quoted (read-quoted k st c quoted)
  | inr bare ↦ elim (Bool-cases (ltb c 32 || leb 127 c)) [
    | inl odd ↦
        rw (bare, odd)
          (read-unicode k st _ _ _ _ (nibble-lt (c >>> 12)) (nibble-lt (c >>> 8))
            (nibble-lt (c >>> 4)) (nibble-lt c))
    | inr even ↦
        let here : is_plain c ≡ true = ground arith in
        rw (bare, even) (ap (λ m. m >>= λ b. some b) (step-plain k st c here))
  ]
]

pub read-escape_text :
    (k : Bool) (st : List Frame) (s : List ℕ)
    → read (string k, st) (escape_text s) ≡ some (string k, st)
unfolding escape_text
read-escape_text k st [] = refl
read-escape_text k st (c ∷ s) =
    read-append (string k, st) (string k, st) (unit_text c) (escape_text s) (read-unit_text k st c)
    ∙ read-escape_text k st s

hex_loop-are_plain :
    (left v : ℕ) (text : List ℕ) → are_plain text ≡ true → are_plain (hex_loop left v text) ≡ true
unfolding hex_loop
hex_loop-are_plain zero v text h = h
hex_loop-are_plain (suc left) v text h =
    hex_loop-are_plain left (v >>> 4) (hex_digit (bit_and v 15) ∷ text)
      (ground (arith, hex_digit-plain (bit_and v 15) (nibble-lt v)))

-- A string around bytes that stay in it.
pub Reads-hex_text : (st : List Frame) (v : ℕ) → Reads (value, st) (hex_text v) (after, st)
unfolding hex_text
Reads-hex_text st v =
    let plain : are_plain (hex_loop 16 v []) ≡ true = hex_loop-are_plain 16 v [] refl in
    let framed : hex_loop 16 v (b'"' ∷ []) ≡ hex_loop 16 v [] ++ (b'"' ∷ []) =
      hex_loop-append 16 v [] (b'"' ∷ []) in
    (
      (after, st),
      rw framed (
          read-append (string false, st) (string false, st) (hex_loop 16 v []) (b'"' ∷ [])
            (read-plain false st (hex_loop 16 v []) plain)),
      exact,
    )

read-digits :
    (st : List Frame) (cs : List ℕ) → All IsDigit cs → read (digits, st) cs ≡ some (digits, st)
read-digits st [] h = refl
read-digits st (c ∷ cs) h =
    let here : step digits st c ≡ some (digits, st) = ground (arith, h.0) in
    rw here (read-digits st cs h.1)

begin-digit :
    (st : List Frame) (c : ℕ) → IsDigit c → b'1' ≤ c → begin_value st c ≡ some (digits, st)
begin-digit st c h lead = ground (arith, h)

pub Reads-numeral :
    (st : List Frame) (v : ℕ) (text : List ℕ)
    → IsNumeral v text
    → Reads (value, st) text (after, st)
Reads-numeral st v text k = elim k.leads [
  | inl nought ↦ rw nought ((zero_read, st), refl, zero_ends)
  | inr (c, cs, shape, lead) ↦
      let ok : All IsDigit (c ∷ cs) = subst (All IsDigit) shape k.all_digits in
      rw shape ((digits, st), rw (begin-digit st c ok.0 lead) (read-digits st cs ok.1), digits_end)
]
