-- ===== src/Probe/Json.antt =====
-- An acceptor of JSON texts (RFC 8259), independent of the writer: what a consumer of the record
-- of tools/efi-inventory must find. It is a stricter one: a text has no white space, and its
-- numbers have no sign, no fraction and no exponent.
use muen_orin.Base.{
  ℕ, zero, suc, ◌≡◌, List, [], ◌∷◌, Option, none, some, Bool, true, false, ltb, leb, ◌==◌, ◌&&◌,
  ◌||◌, codes, if◌then◌else◌, ◌>>=◌,
}

-- What is open around a value.
pub data Frame : Type 0 where
  object array : Frame

-- What is expected next. In a string, the flag says that it is a key.
pub data Mode : Type 0 where
  value first_value key first_key colon after zero_read digits : Mode
  string escape : Bool → Mode
  unicode : Bool → ℕ → Mode
  word : List ℕ → Mode

abbrev pub Place : Type 0
Place = Mode × List Frame

abbrev pub is_digit : ℕ → Bool
is_digit c = leb b'0' c && leb c b'9'

abbrev pub is_hex_digit : ℕ → Bool
is_hex_digit c = is_digit c || (leb b'a' c && leb c b'f') || (leb b'A' c && leb c b'F')

abbrev pub begin_value : List Frame → ℕ → Option Place
begin_value st c =
    if c == b'"'
    then some (string false, st)
    else if c == b'{'
    then some (first_key, object ∷ st)
    else if c == b'['
    then some (first_value, array ∷ st)
    else if c == b'0'
    then some (zero_read, st)
    else if is_digit c
    then some (digits, st)
    else if c == b't'
    then some (word (codes "rue"), st)
    else if c == b'f'
    then some (word (codes "alse"), st)
    else if c == b'n'
    then some (word (codes "ull"), st)
    else none

abbrev pub end_value : List Frame → ℕ → Option Place
end_value [] c = none
end_value (object ∷ st) c =
    if c == b',' then some (key, object ∷ st) else if c == b'}' then some (after, st) else none
end_value (array ∷ st) c =
    if c == b',' then some (value, array ∷ st) else if c == b']' then some (after, st) else none

abbrev pub end_string : Bool → List Frame → Place
end_string true st = (colon, st)
end_string false st = (after, st)

abbrev pub step_string : Bool → List Frame → ℕ → Option Place
step_string k st c =
    if c == b'"'
    then some (end_string k st)
    else if c == b'\\'
    then some (escape k, st)
    else if ltb c 32
    then none
    else some (string k, st)

abbrev pub step_escape : Bool → List Frame → ℕ → Option Place
step_escape k st c =
    if c == b'u'
    then some (unicode k 3, st)
    else if c == b'"'
        || c == b'\\'
        || c == b'/'
        || c == b'b'
        || c == b'f'
        || c == b'n'
        || c == b'r'
        || c == b't'
    then some (string k, st)
    else none

abbrev pub step_unicode : Bool → ℕ → List Frame → ℕ → Option Place
step_unicode k zero st c = if is_hex_digit c then some (string k, st) else none
step_unicode k (suc n) st c = if is_hex_digit c then some (unicode k n, st) else none

abbrev pub step_word : List ℕ → List Frame → ℕ → Option Place
step_word [] st c = none
step_word (x ∷ []) st c = if c == x then some (after, st) else none
step_word (x ∷ y ∷ xs) st c = if c == x then some (word (y ∷ xs), st) else none

abbrev pub step : Mode → List Frame → ℕ → Option Place
step value st c = begin_value st c
step first_value [] c = none
step first_value (f ∷ st) c = if c == b']' then some (after, st) else begin_value (f ∷ st) c
step key st c = if c == b'"' then some (string true, st) else none
step first_key [] c = none
step first_key (f ∷ st) c =
    if c == b'"' then some (string true, f ∷ st) else if c == b'}' then some (after, st) else none
step colon st c = if c == b':' then some (value, st) else none
step after st c = end_value st c
step zero_read st c = end_value st c
step digits st c = if is_digit c then some (digits, st) else end_value st c
step (string k) st c = step_string k st c
step (escape k) st c = step_escape k st c
step (unicode k n) st c = step_unicode k n st c
step (word xs) st c = step_word xs st c

abbrev pub read : Place → List ℕ → Option Place
read a [] = some a
read a (c ∷ cs) = step a.0 a.1 c >>= λ b. read b cs

-- A value has ended at `st`.
pub data Settles : Place → Place → Type 0 where
  exact : {a : Place} → Settles a a
  zero_ends : {st : List Frame} → Settles (zero_read, st) (after, st)
  digits_end : {st : List Frame} → Settles (digits, st) (after, st)

-- The whole text is one value.
abbrev pub IsJson : List ℕ → Type 0
IsJson text = (a : Place) × (read (value, []) text ≡ some a) × Settles a (after, [])
