-- ===== src/Observe/Variable.antt =====
-- `parse_var` of tools/efi-inventory/core.c, with `VarResult` of core.h, and its policy.
use muen_orin.Base.{
  ℕ, ◌≤◌, ◌<◌, ◌^◌, ◌≡◌, ◌≢◌, inl, inr, String, Option, none, some, Bool-cases, not, ltb, ◌==◌,
  if◌then◌else◌, arith,
}
use muen_orin.Efi.{
  efi_error, efi_error_bit, efi_success, efi_unsupported, efi_buffer_too_small, efi_not_found,
  efi_error-leb,
}
use muen_orin.Status.{State, observed, unavailable, unsupported, malformed}

pub record VarResult : Type 0 where
  pub state : State
  pub detail : Option String
  pub status : ℕ
  pub value : ℕ

abbrev pub var_result : State → String → ℕ → VarResult
var_result state detail status = record {
  state = state;
  detail = some detail;
  status = status;
  value = 0;
}

-- `size` and `v` are what the service left in its outputs.
unfoldable pub parse_var : ℕ → ℕ → ℕ → VarResult
parse_var s size v =
    if s == efi_not_found
    then var_result unavailable "not_found" s
    else if s == efi_buffer_too_small
    then var_result malformed "variable_size" s
    else if s == efi_unsupported
    then var_result unsupported "service_unsupported" s
    else if efi_error s
    then var_result unavailable "efi_error" s
    else if not (s == efi_success)
    then var_result unsupported "warning_status" s
    else if not (size == 1)
    then var_result malformed "variable_size" s
    else if ltb 1 v
    then var_result malformed "value_range" s
    else record { state = observed; detail = none; status = s; value = v }

-- The policy of the header comment and the README, a class of answers to each constructor. No
-- two classes meet.
pub data Policy (s size v : ℕ) : VarResult → Type 0 where
  absent : s ≡ efi_not_found → Policy s size v (var_result unavailable "not_found" s)
  large : s ≡ efi_buffer_too_small → Policy s size v (var_result malformed "variable_size" s)
  no_service :
      s ≡ efi_unsupported → Policy s size v (var_result unsupported "service_unsupported" s)
  error :
      efi_error_bit ≤ s
      → s ≢ efi_not_found
      → s ≢ efi_buffer_too_small
      → s ≢ efi_unsupported
      → Policy s size v (var_result unavailable "efi_error" s)
  warning : 0 < s → s < efi_error_bit → Policy s size v (var_result unsupported "warning_status" s)
  wrong_size : s ≡ efi_success → size ≢ 1 → Policy s size v (var_result malformed "variable_size" s)
  wrong_value :
      s ≡ efi_success → size ≡ 1 → 1 < v → Policy s size v (var_result malformed "value_range" s)
  valid :
      s ≡ efi_success
      → size ≡ 1
      → v ≤ 1
      → Policy s size v (record { state = observed; detail = none; status = s; value = v })

-- Every 64-bit status, with any size and value, is reported by the policy for variables.
pub parse_var-Policy : (s size v : ℕ) → s < 2 ^ 64 → Policy s size v (parse_var s size v)
unfolding parse_var
parse_var-Policy s size v h = elim (Bool-cases (s == efi_not_found)) [
  | inl e ↦ rw e (absent (ground arith))
  | inr not_absent ↦ rw not_absent (elim (Bool-cases (s == efi_buffer_too_small)) [
    | inl e ↦ rw e (large (ground arith))
    | inr not_large ↦ rw not_large (elim (Bool-cases (s == efi_unsupported)) [
      | inl e ↦ rw e (no_service (ground arith))
      | inr not_missing ↦ rw not_missing (elim (Bool-cases (efi_error s)) [
        | inl e ↦ rw e (
            error (ground (arith, efi_error-leb s h, e)) (ground arith) (ground arith)
              (ground arith))
        | inr fine ↦ rw fine (elim (Bool-cases (s == efi_success)) [
          | inr other ↦ rw other (warning (ground arith) (ground (arith, efi_error-leb s h, fine)))
          | inl done ↦ rw done (elim (Bool-cases (size == 1)) [
            | inr other ↦ rw other (wrong_size (ground arith) (ground arith))
            | inl one ↦ rw one (elim (Bool-cases (ltb 1 v)) [
              | inl big ↦ rw big (wrong_value (ground arith) (ground arith) (ground arith))
              | inr small ↦ rw small (valid (ground arith) (ground arith) (ground arith))
            ])
          ])
        ])
      ])
    ])
  ])
]
