-- ===== src/Fdt/Model.antt =====
-- `take_model` of tools/efi-inventory/core.c: the value of the root's `model` property.
use muen_orin.Base.{
  ℕ, zero, suc, ◌+◌, List, Option, some, Bool, true, false, not, ◌||◌, ◌>>=◌, load, store, set,
  sub32, ltb, leb, ◌==◌, if◌then◌else◌,
}
use muen_orin.Status.{unavailable, unsupported, malformed, truncated, observed, state_eq}
use muen_orin.Fdt.Result.{DtResult, dt_model_limit}

-- The test loop over the value at the offset `v`, from index `i` with `left` rounds to go: no NUL
-- and no byte from 0x80.
unfoldable pub is_ascii_text : List ℕ → ℕ → ℕ → ℕ → Option Bool
is_ascii_text p v zero i = some true
is_ascii_text p v (suc left) i = load p (v + i) >>= λ c. elim (c == 0 || leb 0x80 c) [
  | true ↦ some false
  | false ↦ is_ascii_text p v left (i + 1)
]

-- The copy loop into the model array.
unfoldable pub copy_model : List ℕ → ℕ → ℕ → ℕ → List ℕ → Option (List ℕ)
copy_model p v zero i model = some model
copy_model p v (suc left) i model = do
  c ← load p (v + i)
  model' ← store model i c
  copy_model p v left (i + 1) model'

-- The part after the tests, with `n = len - 1` bytes of text.
unfoldable pub set_model : DtResult → List ℕ → ℕ → ℕ → Option DtResult
set_model r p v n = do
  let kept = if ltb dt_model_limit n then dt_model_limit else n
  copied ← copy_model p v kept 0 r.model
  model ← store copied kept 0
  some (record r {
    model = model;
    model_length = n;
    model_state = if ltb dt_model_limit n then truncated else observed;
  })

-- Whether the value is empty or does not end in a NUL.
unfoldable pub is_unterminated : List ℕ → ℕ → ℕ → Option Bool
is_unterminated p v len = elim (len == 0) [
  | true ↦ some true
  | false ↦ load p (v + sub32 len 1) >>= λ c. some (not (c == 0))
]

unfoldable pub take_model : DtResult → List ℕ → ℕ → ℕ → Option DtResult
take_model r p v len =
    if not (state_eq r.model_state unavailable)
    then some (record r { model_state = malformed; model_length = 0; model = set r.model 0 0 })
    else is_unterminated p v len >>= λ bad.
        if bad
        then some (record r { model_state = malformed })
        else is_ascii_text p v (sub32 len 1) 0 >>= λ ascii.
            if ascii
            then set_model r p v (sub32 len 1)
            else some (record r { model_state = unsupported })
