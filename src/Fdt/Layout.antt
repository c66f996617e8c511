-- ===== src/Fdt/Layout.antt =====
-- The header half of `parse_dt` in tools/efi-inventory/core.c: what a layout that passes its tests
-- means, and the reservation loop.
use muen_orin.Base.{
  refl, ℕ, ◌+◌, ◌%◌, ◌^◌, ◌≤◌, ◌<◌, ◌≡◌, ◌⊎◌, Bool, true, false, arith, sub32, ltb, ◌||◌,
}
use muen_orin.Fdt.Result.{DtResult, dt_limit}
use muen_orin.Fdt.Outcome.{HasRoom, Ensures, goes, Ensures-reject}
use muen_orin.Fdt.Header.{Layout, fdt_header, disjoint, check_layout}
use muen_orin.Fdt.Safe.{malformed-ne}

-- Two ranges with no common byte.
abbrev pub Apart : ℕ → ℕ → ℕ → ℕ → Type 0
Apart a al b bl = (a + al ≤ b) ⊎ (b + bl ≤ a)

-- Aligned blocks inside the blob, apart from one another and from the start of the reservation
-- map.
pub record IsLaidOut (available : ℕ) (l : Layout) : Type 0 where
  pub header : fdt_header ≤ l.total
  pub available_max : l.total ≤ available
  pub limit : l.total ≤ dt_limit
  pub aligned : (l.off_rsv % 8 ≡ 0) × (l.off_struct % 4 ≡ 0) × (l.size_struct % 4 ≡ 0)
  pub starts : (fdt_header ≤ l.off_rsv) × (fdt_header ≤ l.off_struct) × (fdt_header ≤ l.off_strings)
  pub rsv_inside : l.off_rsv ≤ l.total
  pub struct_inside : l.off_struct + l.size_struct ≤ l.total
  pub strings_inside : l.off_strings + l.size_strings ≤ l.total
  pub rsv_apart :
      Apart l.off_rsv 1 l.off_struct l.size_struct × Apart l.off_rsv 1 l.off_strings l.size_strings
  pub apart : Apart l.off_struct l.size_struct l.off_strings l.size_strings

abbrev pub Is32 : Layout → Type 0
Is32 l =
    (l.total < 2 ^ 32)
    × (l.off_struct < 2 ^ 32)
    × (l.off_strings < 2 ^ 32)
    × (l.off_rsv < 2 ^ 32)
    × (l.size_strings < 2 ^ 32)
    × (l.size_struct < 2 ^ 32)

disjoint-Apart :
    (a al b bl : ℕ)
    → a < 2 ^ 32
    → al < 2 ^ 32
    → b < 2 ^ 32
    → bl < 2 ^ 32
    → disjoint a al b bl ≡ true
    → Apart a al b bl
unfolding disjoint
disjoint-Apart a al b bl ha hal hb hbl e = ground arith

record Bounds (l : Layout) : Type 0 where
  starts : (fdt_header ≤ l.off_rsv) × (fdt_header ≤ l.off_struct) × (fdt_header ≤ l.off_strings)
  rsv_inside : l.off_rsv ≤ l.total
  struct_inside : l.off_struct + l.size_struct ≤ l.total
  strings_inside : l.off_strings + l.size_strings ≤ l.total

abbrev pub out_of_bounds : Layout → Bool
out_of_bounds l =
    ltb l.off_rsv fdt_header
    || ltb l.off_struct fdt_header
    || ltb l.off_strings fdt_header
    || ltb l.total l.off_rsv
    || ltb l.total l.off_struct
    || ltb (sub32 l.total l.off_struct) l.size_struct
    || ltb l.total l.off_strings
    || ltb (sub32 l.total l.off_strings) l.size_strings

bounds : (l : Layout) → Is32 l → out_of_bounds l ≡ false → Bounds l
bounds l small e = ground arith

pub check_layout-IsLaidOut :
    (available : ℕ) (r : DtResult) (l : Layout)
    → HasRoom r
    → Is32 l
    → fdt_header ≤ l.total
    → l.total ≤ available
    → l.total ≤ dt_limit
    → Ensures (λ (_ : Unit {0}). IsLaidOut available l) (check_layout r l)
unfolding check_layout
check_layout-IsLaidOut available r l room small header most limit =
    Ensures-reject _ _ _ _ _ room malformed-ne refl λ aligned.
      Ensures-reject _ _ _ _ _ room malformed-ne refl λ bounded.
        Ensures-reject _ _ _ _ _ room malformed-ne refl λ apart.
          let facts : Bounds l = bounds l small bounded in
          goes (record {
            header = header;
            available_max = most;
            limit = limit;
            aligned = ground arith;
            starts = facts.starts;
            rsv_inside = facts.rsv_inside;
            struct_inside = facts.struct_inside;
            strings_inside = facts.strings_inside;
            rsv_apart = (
              disjoint-Apart _ _ _ _ small.3 (omega arith) small.1 small.5 (ground arith),
              disjoint-Apart _ _ _ _ small.3 (omega arith) small.2 small.4 (ground arith),
            );
            apart = disjoint-Apart _ _ _ _ small.1 small.5 small.2 small.4 (ground arith);
          })
