-- ===== src/Observe/VendorText.antt =====
-- The contract of `read_vendor` in tools/efi-inventory/core.c: a text that can be read, and what
-- is reported of it.
use muen_orin.Base.{
  ℕ, ◌+◌, ◌≤◌, ◌<◌, ◌≡◌, ◌≢◌, ◌⊎◌, List, some, true, false, length, load, get_elem?,
}
use muen_orin.Status.{observed, unsupported, truncated}
use muen_orin.Observe.Vendor.{VendorResult, vendor_limit, is_surrogate}

-- The first `n` units are there, none is the NUL and none is a surrogate.
abbrev pub HasUnits : List ℕ → ℕ → Type 0
HasUnits text n =
    (j : ℕ) → j < n → (c : ℕ) × (load text j ≡ some c) × (c ≢ 0) × (is_surrogate c ≡ false)

-- The text can be read to its NUL, or to the unit at the limit if that comes first.
abbrev pub CanRead : List ℕ → Type 0
CanRead text =
    (n : ℕ) → n ≤ vendor_limit → ((j : ℕ) → j < n → load text j ≢ some 0) → n < length text

-- The array after `n` rounds.
pub record Copied (text : List ℕ) (n : ℕ) (out : List ℕ) : Type 0 where
  pub size : length out ≡ vendor_limit + 1
  pub units : HasUnits text n
  pub same : (j : ℕ) → j < n → get_elem? out j ≡ load text j

-- A text is refused at its first surrogate, or reported with its first `n` units, behind which
-- its NUL stands or the limit is reached.
pub data VendorEnds (text : List ℕ) (r : VendorResult) : Type 0 where
  refused :
      (n c : ℕ)
      → n < vendor_limit
      → HasUnits text n
      → load text n ≡ some c
      → is_surrogate c ≡ true
      → r.state ≡ unsupported
      → r.units ≡ 0
      → get_elem? r.text 0 ≡ some 0
      → VendorEnds text r
  reported :
      (n : ℕ)
      → n ≤ vendor_limit
      → HasUnits text n
      → r.units ≡ n
      → ((j : ℕ) → j < n → get_elem? r.text j ≡ load text j)
      → get_elem? r.text n ≡ some 0
      → ((load text n ≡ some 0) × (r.state ≡ observed))
        ⊎ ((n ≡ vendor_limit) × (load text n ≢ some 0) × (r.state ≡ truncated))
      → VendorEnds text r
