-- ===== src/Writer/Put.antt =====
-- `Writer` of tools/efi-inventory/core.h, and `put` of core.c. The text of a put is the list of
-- its bytes before the NUL.
use muen_orin.Base.{
  ℕ, ◌+◌, List, [], ◌∷◌, Option, some, Bool, true, false, ◌>>=◌, store, u64, ltb, ◌==◌,
  if◌then◌else◌, replicate,
}

-- `len` is the field `length`.
pub record Writer : Type 0 where
  pub data_bytes : List ℕ
  pub len : ℕ
  pub capacity : ℕ
  pub is_truncated : Bool

-- The body of the loop.
unfoldable pub put_byte : Writer → ℕ → Option Writer
put_byte w c =
    if ltb (u64 (w.len + 1)) w.capacity
    then (store w.data_bytes w.len c >>= λ bytes.
        some (record w { data_bytes = bytes; len = u64 (w.len + 1) }))
    else some (record w { is_truncated = true })

unfoldable pub put_loop : Writer → List ℕ → Option Writer
put_loop w [] = some w
put_loop w (c ∷ s) = put_byte w c >>= λ w'. put_loop w' s

-- `if (w->capacity) w->data[w->length]=0`.
unfoldable pub terminate : Writer → Option Writer
terminate w =
    if w.capacity == 0
    then some w
    else store w.data_bytes w.len 0 >>= λ bytes. some (record w { data_bytes = bytes })

unfoldable pub put : Writer → List ℕ → Option Writer
put w s = put_loop w s >>= terminate

-- `{record, 0, sizeof record, 0}`, for a zeroed array.
abbrev pub new_writer : ℕ → Writer
new_writer capacity = record {
  data_bytes = replicate capacity 0;
  len = 0;
  capacity = capacity;
  is_truncated = false;
}
