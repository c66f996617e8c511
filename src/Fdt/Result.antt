-- ===== src/Fdt/Result.antt =====
-- `DtResult` of tools/efi-inventory/core.h, `dt_state` of core.c, and the early returns of the
-- parser.
use muen_orin.Base.{ℕ, ◌+◌, List, Option, none, some, String, Bool, true, false, replicate, set}
use muen_orin.Status.{State, malformed, not_probed}

abbrev pub dt_limit : ℕ
dt_limit = 1048576

abbrev pub dt_depth_limit : ℕ
dt_depth_limit = 64

abbrev pub dt_model_limit : ℕ
dt_model_limit = 64

-- `model` is the array with its terminator, `dt_model_limit + 1` bytes.
pub record DtResult : Type 0 where
  pub state : State
  pub detail : Option String
  pub size : ℕ
  pub version : ℕ
  pub last_comp_version : ℕ
  pub model_state : State
  pub model_length : ℕ
  pub model : List ℕ

-- `DtResult r={.state=MALFORMED,.model_state=NOT_PROBED}`.
unfoldable pub blank : DtResult
blank = record {
  state = malformed;
  detail = none;
  size = 0;
  version = 0;
  last_comp_version = 0;
  model_state = not_probed;
  model_length = 0;
  model = replicate (dt_model_limit + 1) 0;
}

unfoldable pub dt_state : DtResult → State → String → DtResult
dt_state r s detail = record r {
  state = s;
  detail = some detail;
  model_state = not_probed;
  model_length = 0;
  model = set r.model 0 0;
}

-- A part of the parser either returns from it or goes on with a value.
pub data Flow (A : Type 0) : Type 0 where
  return : DtResult → Flow A
  next : A → Flow A

abbrev pub Parse : Type 0 → Type 0
Parse A = Option (Flow A)

infixl 5 ◌>>=◌ ◌>>◌
unfoldable pub ◌>>=◌ : {A B : Type 0} → Parse A → (A → Parse B) → Parse B
none >>= f = none
some (return r) >>= f = some (return r)
some (next a) >>= f = f a

abbrev pub ◌>>◌ : {B : Type 0} → Parse (Unit {0}) → Parse B → Parse B
m >> k = m >>= λ _. k

-- A read of the blob.
unfoldable pub fetch : {A : Type 0} → Option A → Parse A
fetch none = none
fetch (some a) = some (next a)

abbrev pub pure : {A : Type 0} → A → Parse A
pure a = some (next a)

-- `if (test) return dt_state(r, s, detail)`.
unfoldable pub reject_if : Bool → DtResult → State → String → Parse (Unit {0})
reject_if true r s detail = some (return (dt_state r s detail))
reject_if false r s detail = pure tt
