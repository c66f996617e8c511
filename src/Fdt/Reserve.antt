-- ===== src/Fdt/Reserve.antt =====
-- The reservation loop of `parse_dt` in tools/efi-inventory/core.c.
use muen_orin.Base.{
  refl, ℕ, zero, suc, ◌+◌, ◌-◌, ◌^◌, ◌≤◌, ◌<◌, List, Bool, true, false, arith, length, u64, IsBytes,
}
use muen_orin.Fdt.Words.{be64-lt}
use muen_orin.Fdt.Result.{DtResult}
use muen_orin.Fdt.Outcome.{HasRoom, Ensures, goes, Ensures-bind, Ensures-reject, Ensures-fetch}
use muen_orin.Fdt.Header.{Layout, rsv_limit, rsv_round, rsv_loop}
use muen_orin.Fdt.Safe.{malformed-ne}
use muen_orin.Fdt.Layout.{IsLaidOut}

-- The space of the reservation map begins at the map and stays in the blob.
pub rsv_limit_bounds :
    (available : ℕ) (l : Layout)
    → IsLaidOut available l
    → (l.off_rsv ≤ rsv_limit l) × (rsv_limit l ≤ l.total)
unfolding rsv_limit
rsv_limit_bounds available l h = ground (arith, h.rsv_inside)

-- For blocks that are laid out, the space of the reservation map does not reach into a
-- structure block or a strings block that is not empty and follows the map.
pub rsv_limit-before :
    (available : ℕ) (l : Layout)
    → IsLaidOut available l
    → ((0 < l.size_struct) → (l.off_rsv < l.off_struct) → rsv_limit l ≤ l.off_struct)
      × ((0 < l.size_strings) → (l.off_rsv < l.off_strings) → rsv_limit l ≤ l.off_strings)
unfolding rsv_limit
rsv_limit-before available l h =
    ((λ a b. ground (arith, h.struct_inside)), (λ a b. ground (arith, h.strings_inside)))

module _ (p : List ℕ) (r : DtResult) (limit : ℕ) (bytes : IsBytes p) (room : HasRoom r)
    (inside : limit ≤ length p) (small : limit < 2 ^ 32) where
  rsv_round-Ensures :
      (rsv : ℕ) → rsv ≤ limit → Ensures (λ (_ : Bool). rsv + 16 ≤ limit) (rsv_round p r limit rsv)
  unfolding rsv_round
  rsv_round-Ensures rsv h = Ensures-reject _ _ _ _ _ room malformed-ne refl λ entry.
      let fits : rsv + 16 ≤ limit = ground arith in
      let (address, e, _) = be64-lt p bytes rsv (omega arith) in
      let (size, f, _) = be64-lt p bytes (rsv + 8) (omega arith) in
      Ensures-fetch _ _ e
        (Ensures-fetch _ _ f (Ensures-reject _ _ _ _ _ room malformed-ne refl λ range. goes fits))

  -- More rounds than bytes are enough.
  pub rsv_loop-Ensures :
      (fuel rsv : ℕ)
      → limit - rsv < fuel
      → rsv ≤ limit
      → Ensures (λ (_ : Unit {0}). Unit {0}) (rsv_loop p r limit fuel rsv)
  unfolding rsv_loop
  rsv_loop-Ensures zero rsv enough h = absurd (omega arith)
  rsv_loop-Ensures (suc fuel) rsv enough h = Ensures-bind _ (rsv_round-Ensures rsv h) (elim [
    | true ↦ λ fits. goes tt
    | false ↦ λ fits. rsv_loop-Ensures fuel (u64 (rsv + 16)) (omega arith) (omega arith)
  ])
