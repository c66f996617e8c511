-- ===== src/Tests.antt =====
-- Runs of the definitions on the fixtures of tools/efi-inventory/fixtures.h and on small inputs.
use muen_orin.Base.{
  ℕ, ◌+◌, ◌*◌, ◌^◌, ◌≤◌, ◌<◌, ◌≡◌, refl, List, [], ◌∷◌, ◌++◌, Option, none, some, Bool, true, false,
  arith, length, IsBytes, ltb, ◌&&◌, codes, replicate,
}
use muen_orin.Status.{State, observed, unavailable, malformed, not_probed}
use muen_orin.Fdt.Result.{DtResult}
use muen_orin.Fdt.Parser.{parse_dt}
use muen_orin.Fdt.Firmware.{parse_firmware_dt}
use muen_orin.Map.Parser.{MapResult, parse_map}
use muen_orin.Observe.Level.{decode_el}
use muen_orin.Observe.Vendor.{VendorResult, read_vendor}
use muen_orin.Writer.Put.{Writer, put, new_writer}
use muen_orin.Writer.Escape.{unit_text}
use muen_orin.Fdt.Read.{be32}
use muen_orin.Fdt.Result.{dt_limit}
use muen_orin.Base.{◌≤◌}
use muen_orin.Base.{zero, suc}
use muen_orin.Observe.VendorText.{CanRead}
use muen_orin.Tests.Fixtures.Models.{fdt_min}
pub mod Fixtures
mod Blobs
pub mod Witness
pub mod Firmware
pub mod Sample
pub mod Demo
pub mod Grammar
pub mod Run

abbrev pub are_bytes : List ℕ → Bool
are_bytes [] = true
are_bytes (b ∷ bs) = ltb b 256 && are_bytes bs

pub are_bytes-IsBytes : (bs : List ℕ) → are_bytes bs ≡ true → IsBytes bs
are_bytes-IsBytes [] e = tt
are_bytes-IsBytes (b ∷ bs) e = (ground arith, are_bytes-IsBytes bs (ground arith))

pub fdt_min-IsBytes : IsBytes fdt_min
fdt_min-IsBytes = are_bytes-IsBytes fdt_min refl

pub fdt_min-declared :
    (total : ℕ) → be32 fdt_min 4 ≡ some total → total ≤ dt_limit → total ≤ length fdt_min
unfolding be32
fdt_min-declared total e h = ground (arith, e)

-- Two descriptors: four pages from 0, and one page behind them.
abbrev pub two_descriptors : List ℕ
two_descriptors =
    (7 ∷ replicate 23 0)
    ++ (4 ∷ replicate 15 0)
    ++ (3 ∷ replicate 8 0)
    ++ (64 ∷ replicate 14 0)
    ++ (1 ∷ replicate 15 0)

pub two_descriptors-IsBytes : IsBytes two_descriptors
two_descriptors-IsBytes = are_bytes-IsBytes two_descriptors refl

abbrev map_report : Option MapResult → Option (State × ℕ)
map_report none = none
map_report (some r) = some (r.state, r.count)

two_descriptors_observed :
    map_report (parse_map (some two_descriptors) 80 80 40 1) ≡ some (observed, 2)
unfolding parse_map muen_orin.Map.Parser.argument_fault muen_orin.Map.Parser.parse_loop
    muen_orin.Map.Parser.parse_round muen_orin.Map.Parser.copy_bytes
    muen_orin.Map.Parser.check_descriptor muen_orin.Map.Parser.descriptor_fault
    muen_orin.Map.Parser.descriptor_of muen_orin.Map.Parser.little_endian
    muen_orin.Map.Parser.report_entry muen_orin.Map.Parser.initial_result
    muen_orin.Map.Parser.map_state
two_descriptors_observed = refl

-- The text `Hi`, with its NUL.
abbrev pub hi : List ℕ
hi = 72 ∷ 105 ∷ 0 ∷ []

pub hi-CanRead : CanRead hi
hi-CanRead zero h nonzero = omega arith
hi-CanRead (suc zero) h nonzero = omega arith
hi-CanRead (suc (suc zero)) h nonzero = omega arith
hi-CanRead (suc (suc (suc n))) h nonzero = absurd (nonzero 2 (omega arith) refl)

abbrev vendor_report : Option VendorResult → Option (State × ℕ)
vendor_report none = none
vendor_report (some r) = some (r.state, r.units)

hi_observed : vendor_report (read_vendor (some hi)) ≡ some (observed, 2)
unfolding read_vendor muen_orin.Observe.Vendor.vendor_loop muen_orin.Observe.Vendor.end_scan
    muen_orin.Observe.Vendor.goes_on
hi_observed = refl

el2_observed : (decode_el 8).level ≡ 2
unfolding decode_el
el2_observed = refl

euro_escaped : unit_text 0x20ac ≡ codes "\\u20ac"
unfolding unit_text muen_orin.Writer.Escape.hex_digit
euro_escaped = refl
