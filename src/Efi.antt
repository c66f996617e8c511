-- ===== src/Efi.antt =====
-- The status codes and sizes of tools/efi-inventory/efi.h.
use muen_orin.Base.{ℕ, ◌^◌, ◌<◌, bit_and, bit_or, ◌≡◌, Bool, not, arith, leb, ◌==◌}
use muen_orin.Base.Bits.{bit_and_two_pow}

abbrev pub efi_error_bit : ℕ
efi_error_bit = 2 ^ 63

-- `EFI_ERROR(x)`.
unfoldable pub efi_error : ℕ → Bool
efi_error x = not (bit_and x efi_error_bit == 0)

abbrev pub efi_success : ℕ
efi_success = 0

abbrev pub efi_invalid_parameter : ℕ
efi_invalid_parameter = bit_or efi_error_bit 2

abbrev pub efi_unsupported : ℕ
efi_unsupported = bit_or efi_error_bit 3

abbrev pub efi_buffer_too_small : ℕ
efi_buffer_too_small = bit_or efi_error_bit 5

abbrev pub efi_not_found : ℕ
efi_not_found = bit_or efi_error_bit 14

abbrev pub efi_loader_data : ℕ
efi_loader_data = 2

abbrev pub efi_memory_descriptor_version : ℕ
efi_memory_descriptor_version = 1

-- A 64-bit status is an error exactly when it lies in the upper half.
pub efi_error-leb : (x : ℕ) → x < 2 ^ 64 → efi_error x ≡ leb efi_error_bit x
unfolding efi_error
efi_error-leb x h = ground (arith, bit_and_two_pow 63 x)
