-- ===== src/Fdt/Walking.antt =====
-- The structure-block loop of tools/efi-inventory/core.c ends, inside the blob.
use muen_orin.Base.{
  refl, ℕ, zero, suc, ◌+◌, ◌-◌, ◌≤◌, ◌<◌, ◌≡◌, ◌≢◌, inl, inr, true, Bool-cases, arith, u64, ◌==◌,
}
use muen_orin.Fdt.Words.{be32-lt}
use muen_orin.Fdt.Result.{DtResult}
use muen_orin.Fdt.Outcome.{Ensures, goes, Ensures-bind, Ensures-reject, Ensures-fetch}
use muen_orin.Fdt.Structure.{
  Block, Walk, Turn, again, break, dispatch, turn, walk_loop, fdt_nop, fdt_begin_node, fdt_end_node,
  fdt_prop, fdt_end,
}
use muen_orin.Fdt.Safe.{
  IsBlock, IsSafe, malformed-ne, begin_node-Advances, end_node-Advances, property-Advances,
  finish-Ensures,
}

-- The loop breaks at the end of the block, behind a closed root node.
pub record IsClosed (b : Block) (start : DtResult) (w : Walk) : Type 0 where
  pub safe : IsSafe b start w
  pub no_node : w.depth ≡ 0
  pub some_root : w.roots ≢ 0
  pub at_end : w.pos ≡ b.end

-- A round from `w` that goes on has read a token.
abbrev pub RoundOk : Block → DtResult → ℕ → Turn → Type 0
RoundOk b start pos (again w) = IsSafe b start w × (pos ≤ w.pos)
RoundOk b start pos (break w) = IsClosed b start w

module _ (b : Block) (ok : IsBlock b) (start : DtResult) where
  dispatch-RoundOk :
      (token low : ℕ) (w : Walk)
      → IsSafe b start w
      → low ≤ w.pos
      → Ensures (RoundOk b start low) (dispatch b token w)
  unfolding dispatch
  dispatch-RoundOk token low w safe later = elim (Bool-cases (token == fdt_nop)) [
    | inl nop ↦ rw nop (goes (safe, later))
    | inr not-nop ↦ rw not-nop (elim (Bool-cases (token == fdt_begin_node)) [
      | inl begin ↦ rw begin (
          Ensures-bind _ (begin_node-Advances b ok start w safe)
            (λ w' h. goes (h.0, omega (arith, h.1))))
      | inr not-begin ↦ rw not-begin (elim (Bool-cases (token == fdt_end_node)) [
        | inl end ↦ rw end (
            Ensures-bind _ (end_node-Advances b ok start w safe)
              (λ w' h. goes (h.0, omega (arith, h.1))))
        | inr not-end ↦ rw not-end (elim (Bool-cases (token == fdt_prop)) [
          | inl prop ↦ rw prop (
              Ensures-bind _ (property-Advances b ok start w safe)
                (λ w' h. goes (h.0, omega (arith, h.1))))
          | inr not-prop ↦ rw not-prop (elim (Bool-cases (token == fdt_end)) [
            | inl done ↦ rw done (
                Ensures-bind _ (finish-Ensures b ok start w safe) (λ _ h.
                  goes (record { safe = safe; no_node = h.0; some_root = h.1; at_end = h.2 })))
            | inr not-done ↦
                rw not-done
                  (Ensures-reject true _ _ _ _ safe.kept.room malformed-ne refl (λ never. cc))
          ])
        ])
      ])
    ])
  ]

  pub turn-RoundOk :
      (w : Walk) → IsSafe b start w → Ensures (RoundOk b start (w.pos + 4)) (turn b w)
  unfolding turn
  turn-RoundOk w safe = Ensures-reject _ _ _ _ _ safe.kept.room malformed-ne refl λ header.
      let room : w.pos + 4 ≤ b.end = ground (arith, safe.inside, ok.end_small) in
      let (token, read, _) = be32-lt b.p ok.bytes w.pos (omega (arith, ok.struct_inside)) in
      let here : u64 (w.pos + 4) ≡ w.pos + 4 = omega (arith, ok.end_small) in
      Ensures-fetch _ _ read (
        dispatch-RoundOk token (w.pos + 4) (record w { pos = u64 (w.pos + 4) })
          (record {
            inside = omega (arith, here);
            shallow = safe.shallow;
            flags = safe.flags;
            kept = safe.kept;
          })
          (omega (arith, here)))

  -- From a safe walk over a structure block inside the blob, with more rounds than bytes left,
  -- the structure loop ends: with a failure that has a detail and no model, or at the end of
  -- the block, behind a closed root node, with the header fields kept and the model probed.
  pub walk_loop-IsClosed :
      (fuel : ℕ) (w : Walk)
      → b.end - w.pos < fuel
      → IsSafe b start w
      → Ensures (IsClosed b start) (walk_loop b fuel w)
  unfolding walk_loop
  walk_loop-IsClosed zero w enough safe = absurd (omega arith)
  walk_loop-IsClosed (suc fuel) w enough safe = Ensures-bind _ (turn-RoundOk w safe) (elim [
    | again w' ↦ λ h. walk_loop-IsClosed fuel w' (omega (arith, h.0.inside)) h.0
    | break w' ↦ λ h. goes h
  ])
