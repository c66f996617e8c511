-- ===== src/Observe/Vendor.antt =====
-- `read_vendor` of tools/efi-inventory/core.c, with `VendorResult` of core.h. The text is the
-- list of the units that can be read from the pointer.
use muen_orin.Base.{
  ℕ, zero, suc, ◌+◌, List, Option, none, some, Bool, true, false, not, ◌&&◌, ◌>>=◌, load, store,
  set, replicate, leb, ◌==◌, if◌then◌else◌,
}
use muen_orin.Status.{State, observed, unavailable, unsupported, truncated}

abbrev pub vendor_limit : ℕ
vendor_limit = 64

-- `text` is the array with its terminator, `vendor_limit + 1` units.
pub record VendorResult : Type 0 where
  pub state : State
  pub units : ℕ
  pub text : List ℕ

abbrev pub is_surrogate : ℕ → Bool
is_surrogate c = leb 0xd800 c && leb c 0xdfff

-- How the loop ends: with a final index and array, or at a surrogate.
pub data Scan : Type 0 where
  stopped : ℕ → List ℕ → Scan
  surrogate : List ℕ → Scan

-- The loop from index `i`, with `left` rounds to go to the limit.
unfoldable pub vendor_loop : List ℕ → ℕ → ℕ → List ℕ → Option Scan
vendor_loop text zero i out = some (stopped i out)
vendor_loop text (suc left) i out = load text i >>= λ c. elim (c == 0) [
  | true ↦ some (stopped i out)
  | false ↦ elim (is_surrogate c) [
    | true ↦ some (surrogate out)
    | false ↦ store out i c >>= λ out'. vendor_loop text left (i + 1) out'
  ]
]

-- Whether the text goes on at the limit: `i==VENDOR_LIMIT && text[i]`.
unfoldable pub goes_on : List ℕ → ℕ → Option Bool
goes_on text i =
    if i == vendor_limit then (load text i >>= λ c. some (not (c == 0))) else some false

unfoldable pub end_scan : List ℕ → Scan → Option VendorResult
end_scan text (surrogate out) = some (record { state = unsupported; units = 0; text = set out 0 0 })
end_scan text (stopped i out) = do
  out' ← store out i 0
  more ← goes_on text i
  some (record { state = if more then truncated else observed; units = i; text = out' })

unfoldable pub read_vendor : Option (List ℕ) → Option VendorResult
read_vendor none =
    some (record { state = unavailable; units = 0; text = replicate (vendor_limit + 1) 0 })
read_vendor (some text) =
    vendor_loop text vendor_limit 0 (replicate (vendor_limit + 1) 0) >>= λ scan. end_scan text scan
