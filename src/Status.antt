-- ===== src/Status.antt =====
-- The status policy of tools/efi-inventory/core.h (`State`) and `state_name` of core.c.
use muen_orin.Base.{arith, ℕ, String, Bool, true, false, ◌≡◌, ◌≢◌, ◌⊎◌, inl, inr, refl, ◌==◌}

pub data State : Type 0 where
  observed unavailable unsupported malformed not_probed truncated : State

-- The table of names; its fallback is for values outside the enumeration, which has none here.
unfoldable pub state_name : State → String
state_name observed = "observed"
state_name unavailable = "unavailable"
state_name unsupported = "unsupported"
state_name malformed = "malformed"
state_name not_probed = "not_probed"
state_name truncated = "truncated"

-- The values of the enumerators.
abbrev pub state_code : State → ℕ
state_code observed = 0
state_code unavailable = 1
state_code unsupported = 2
state_code malformed = 3
state_code not_probed = 4
state_code truncated = 5

abbrev pub state_eq : State → State → Bool
state_eq s t = state_code s == state_code t

pub State-cases : (s : State) → (s ≡ observed) ⊎ (s ≢ observed)
State-cases observed = inl refl
State-cases _ = inr (λ e. cc)

pub state_eq→eq : (s t : State) → state_eq s t ≡ true → s ≡ t
state_eq→eq s t e = ground arith

pub state_eq→ne : (s t : State) → state_eq s t ≡ false → s ≢ t
state_eq→ne s t e q = ground (arith, q)
