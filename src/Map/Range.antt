-- ===== src/Map/Range.antt =====
-- `range_ok` of tools/efi-inventory/core.c: the test for a representable end.
use muen_orin.Base.{ℕ, ◌+◌, ◌^◌, ◌<◌, ◌≡◌, ◌↔◌, true, arith}
use muen_orin.Map.Parser.{range_ok}

-- For a 64-bit start, `range_ok` holds exactly when the exclusive end of the range is below 2
-- ^ 64; a range that ends at 2 ^ 64 is refused.
pub range_ok_iff :
    (start len : ℕ) → start < 2 ^ 64 → (range_ok start len ≡ true) ↔ (start + len < 2 ^ 64)
unfolding range_ok
range_ok_iff start len h = ground arith
