-- ===== src/Probe/Says.antt =====
-- Commands of tools/efi-inventory/probe.c that put a part of a JSON text, and how they compose.
use muen_orin.Base.{
  printable_codes, plain_codes, IsLiteral, IsDetail, ℕ, zero, suc, ◌^◌, ◌≤◌, ◌<◌, ◌≡◌, refl, List,
  [], ◌∷◌, ◌++◌, String, Option, none, some, Bool, true, false, All, All-append, length, arith,
  ◌>>>◌, bit_and, codes, take, append-nil,
}
use muen_orin.Base.Bits.{bit_and_low}
use muen_orin.Status.{
  State, state_name, observed, unavailable, unsupported, malformed, not_probed, truncated,
}
use muen_orin.Writer.Emit.{Command, Emits, ◌>>◌, >>-Emits, say-Emits}
use muen_orin.Writer.Escape.{hex_digit, escaped, escaped16}
use muen_orin.Writer.Text.{escape_text, escaped-Emits, escaped16-Emits}
use muen_orin.Writer.RoundTrip.{IsPrintable, escape_text-IsPrintable, hex_digit-printable}
use muen_orin.Probe.Number.{number, hex, hex_loop, hex_text}
use muen_orin.Probe.Numerals.{IsDigit, number-Emits, hex-Emits}
use muen_orin.Probe.Record.{lit, key, detail_field, status_field, or_null, quoted}
use muen_orin.Probe.Json.{Frame, object, value, after, string, Place, read, exact}
use muen_orin.Probe.Reads.{
  Reads, Reads-append, are_plain, read-plain, read-escape_text, Reads-hex_text, Reads-numeral,
}

-- The command never faults, whatever the room, and puts printable text, which takes the acceptor
-- of JSON texts from place `a` to place `b`.
pub record Says (a b : Place) (m : Command) : Type 0 where
  pub text : List ℕ
  pub emits : Emits m text
  pub printable : IsPrintable text
  pub reads : Reads a text b

infixl 5 ◌▸◌
pub ◌▸◌ : {a b c : Place} {m k : Command} → Says a b m → Says b c k → Says a c (m >> k)
◌▸◌ {a} {b} {c} {m} {k} hm hk = record {
  text = hm.text ++ hk.text;
  emits = >>-Emits m k hm.text hk.text hm.emits hk.emits;
  printable = All-append _ hm.text hk.text hm.printable hk.printable;
  reads = Reads-append a b c hm.text hk.text hm.reads hk.reads;
}

pub printable_codes-IsPrintable : (cs : List ℕ) → printable_codes cs ≡ true → IsPrintable cs
printable_codes-IsPrintable [] e = tt
printable_codes-IsPrintable (c ∷ cs) e =
    (ground arith, printable_codes-IsPrintable cs (ground arith))

-- A literal with some structure of the record.
pub Says-lit :
    {a b : Place} (s : String)
    → printable_codes (codes s) ≡ true
    → read a (codes s) ≡ some b
    → Says a b (lit s)
Says-lit {b = b} s h e = record {
  text = codes s;
  emits = say-Emits (codes s);
  printable = printable_codes-IsPrintable (codes s) h;
  reads = (b, e, exact);
}

plain_codes-split :
    (cs : List ℕ) → plain_codes cs ≡ true → (printable_codes cs ≡ true) × (are_plain cs ≡ true)
plain_codes-split [] h = (refl, refl)
plain_codes-split (c ∷ cs) h =
    let rest : plain_codes cs ≡ true = ground arith in
    let both = plain_codes-split cs rest in (ground (arith, both.0), ground (arith, both.1))

-- A literal inside a string.
pub Says-inside :
    {k : Bool} {st : List Frame} (s : String)
    → IsLiteral s
    → Says (string k, st) (string k, st) (lit s)
Says-inside {k} {st} s h =
    let both = plain_codes-split (codes s) h in Says-lit s both.0 (read-plain k st (codes s) both.1)

pub Says-nothing : {a : Place} → Says a a (λ w. some w)
Says-nothing {a} = record {
  text = [];
  emits = record { emit = λ w t h. (w, refl, rw (append-nil t) h, refl) };
  printable = tt;
  reads = (a, refl, exact);
}

digits-IsPrintable : (cs : List ℕ) → All IsDigit cs → IsPrintable cs
digits-IsPrintable [] h = tt
digits-IsPrintable (c ∷ cs) h =
    ((omega (arith, h.0), omega (arith, h.0)), digits-IsPrintable cs h.1)

pub Says-number : {st : List Frame} (v : ℕ) → v < 2 ^ 64 → Says (value, st) (after, st) (number v)
Says-number {st} v small =
    let (text, emits, k) = number-Emits v small in
    record {
      text = text;
      emits = emits;
      printable = digits-IsPrintable text k.all_digits;
      reads = Reads-numeral st v text k;
    }

hex_loop-IsPrintable :
    (left v : ℕ) (text : List ℕ) → IsPrintable text → IsPrintable (hex_loop left v text)
unfolding hex_loop
hex_loop-IsPrintable zero v text h = h
hex_loop-IsPrintable (suc left) v text h =
    hex_loop-IsPrintable left (v >>> 4) (hex_digit (bit_and v 15) ∷ text)
      (hex_digit-printable (bit_and v 15) (omega (arith, bit_and_low 4 v)), h)

hex_text-IsPrintable : (v : ℕ) → IsPrintable (hex_text v)
unfolding hex_text
hex_text-IsPrintable v = (
  (omega arith, omega arith),
  (
    (omega arith, omega arith),
    (
      (omega arith, omega arith),
      hex_loop-IsPrintable 16 v (b'"' ∷ []) ((omega arith, omega arith), tt),
    ),
  ),
)

pub Says-hex : {st : List Frame} (v : ℕ) → v < 2 ^ 64 → Says (value, st) (after, st) (hex v)
Says-hex {st} v small = record {
  text = hex_text v;
  emits = (hex-Emits v small).0;
  printable = hex_text-IsPrintable v;
  reads = Reads-hex_text st v;
}

pub Says-key :
    {st : List Frame} (k : String)
    → IsLiteral k
    → Says (after, object ∷ st) (value, object ∷ st) (key k)
unfolding key
Says-key k h = Says-lit ",\"" refl refl ▸ Says-inside k h ▸ Says-lit "\":" refl refl

pub Says-null : {st : List Frame} → Says (value, st) (after, st) (lit "null")
Says-null = Says-lit "null" refl refl

pub Says-detail_field :
    {st : List Frame} (d : Option String)
    → IsDetail d
    → Says (value, st) (after, st) (detail_field d)
Says-detail_field none h = Says-null
Says-detail_field (some d) h = Says-lit "\"" refl refl ▸ Says-inside d h ▸ Says-lit "\"" refl refl

state_name-IsLiteral : (s : State) → IsLiteral (state_name s)
unfolding state_name
state_name-IsLiteral observed = refl
state_name-IsLiteral unavailable = refl
state_name-IsLiteral unsupported = refl
state_name-IsLiteral malformed = refl
state_name-IsLiteral not_probed = refl
state_name-IsLiteral truncated = refl

-- The object of the field is left open.
pub Says-status_field :
    {st : List Frame} (k : String) (s : State) (d : Option String)
    → IsLiteral k
    → IsDetail d
    → Says (after, object ∷ st) (after, object ∷ object ∷ st) (status_field k s d)
unfolding status_field
Says-status_field k s d hk hd =
    Says-key k hk
    ▸ Says-lit "{\"status\":\"" refl refl
    ▸ Says-inside (state_name s) (state_name-IsLiteral s)
    ▸ Says-lit "\",\"detail\":" refl refl
    ▸ Says-detail_field d hd

pub Says-or_null :
    {st : List Frame} (b : Bool) (m : Command)
    → (b ≡ true → Says (value, st) (after, st) m)
    → Says (value, st) (after, st) (or_null b m)
Says-or_null true m h = h refl
Says-or_null false m h = Says-null

pub Says-quoted :
    {st : List Frame} (m : Command)
    → Says (string false, st) (string false, st) m
    → Says (value, st) (after, st) (quoted m)
Says-quoted m h = Says-lit "\"" refl refl ▸ h ▸ Says-lit "\"" refl refl

pub Says-escaped :
    {k : Bool} {st : List Frame} (s : List ℕ) → Says (string k, st) (string k, st) (escaped s)
Says-escaped {k} {st} s = record {
  text = escape_text s;
  emits = escaped-Emits s;
  printable = escape_text-IsPrintable s;
  reads = (_, read-escape_text k st s, exact);
}

pub Says-escaped16 :
    {k : Bool} {st : List Frame} (s : List ℕ) (units : ℕ)
    → units ≤ length s
    → Says (string k, st) (string k, st) (escaped16 s units)
Says-escaped16 {k} {st} s units h = record {
  text = escape_text (take units s);
  emits = escaped16-Emits s units h;
  printable = escape_text-IsPrintable (take units s);
  reads = (_, read-escape_text k st (take units s), exact);
}
