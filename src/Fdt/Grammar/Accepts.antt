-- ===== src/Fdt/Grammar/Accepts.antt =====
-- The structure loop of tools/efi-inventory/core.c accepts exactly the trees of the grammar.
use muen_orin.Base.{
  ℕ, zero, suc, ◌+◌, ◌-◌, ◌≤◌, ◌<◌, ◌≡◌, ◌↔◌, inl, inr, subst, Bool, false, true, Bool-cases, arith,
  u64, ◌==◌,
}
use muen_orin.Fdt.Words.{be32-lt}
use muen_orin.Fdt.Result.{DtResult}
use muen_orin.Fdt.Structure.{
  Block, Walk, Turn, again, break, dispatch, turn, walk_loop, fdt_nop, fdt_begin_node, fdt_end_node,
  fdt_prop, fdt_end,
}
use muen_orin.Fdt.Safe.{IsBlock, IsSafe}
use muen_orin.Fdt.Walking.{turn-RoundOk}
use muen_orin.Fdt.Grammar.{IsToken, IsTree}
use muen_orin.Fdt.Grammar.Remains.{Remains, Remains-nop, Remains-room, not-Remains}
use muen_orin.Fdt.Grammar.Follows.{Tracks, Follows}
use muen_orin.Fdt.Grammar.Nodes.{begin_node-Decides, end_node-Decides, finish-Decides}
use muen_orin.Fdt.Grammar.Properties.{property-Decides}
use muen_orin.Fdt.Grammar.Decides.{
  Decides, accepts, Decides-reject, Decides-fetch, Decides-bind, Decides-same, Ensures-Decides,
}

-- A round goes on with what remains, or it ends where nothing is missing.
abbrev TurnFollows : Block → Type 0 → Turn → Type 0
TurnFollows b R (again w) = Follows b R w
TurnFollows b R (break w) = R

module _ (b : Block) (ok : IsBlock b) (start : DtResult) where
  dispatch-Decides :
      (token : ℕ) (w : Walk) (late : Bool) (pos : ℕ)
      → IsSafe b start w
      → Tracks w late
      → w.pos ≡ pos + 4
      → IsToken b token pos
      → Decides
          (TurnFollows b (Remains b w.depth late w.roots pos))
          (Remains b w.depth late w.roots pos)
          (dispatch b token w)
  unfolding dispatch
  dispatch-Decides token w late pos safe tracks here t =
      let is_token : (v : ℕ) → token ≡ v → IsToken b v pos =
        λ v e. subst (λ v. IsToken b v pos) e t in
      elim (Bool-cases (token == fdt_nop)) [
        | inl nop ↦ rw nop (
            accepts (record {
              late = late;
              tracks = tracks;
              same =
                  rw here
                    (Remains-nop b w.depth late w.roots pos (is_token fdt_nop (ground arith)));
            }))
        | inr not-nop ↦ rw not-nop (elim (Bool-cases (token == fdt_begin_node)) [
          | inl begin ↦ rw begin (
              Decides-bind _
                (begin_node-Decides b ok start w safe late tracks pos here
                  (is_token fdt_begin_node (ground arith)))
                λ w' h. accepts h)
          | inr not-begin ↦ rw not-begin (elim (Bool-cases (token == fdt_end_node)) [
            | inl end ↦ rw end (
                Decides-bind _
                  (end_node-Decides b ok start w safe late tracks pos here
                    (is_token fdt_end_node (ground arith)))
                  λ w' h. accepts h)
            | inr not-end ↦ rw not-end (elim (Bool-cases (token == fdt_prop)) [
              | inl prop ↦ rw prop (
                  Decides-bind _
                    (property-Decides b ok start w safe late tracks pos here
                      (is_token fdt_prop (ground arith)))
                    λ w' h. accepts h)
              | inr not-prop ↦ rw not-prop (elim (Bool-cases (token == fdt_end)) [
                | inl done ↦ rw done (
                    Decides-bind _
                      (finish-Decides b ok start w safe late tracks pos here
                        (is_token fdt_end (ground arith)))
                      λ _ h. accepts h)
                | inr not-done ↦ rw not-done (
                    Decides-reject true _ _ _ _
                      (λ _.
                        not-Remains b w.depth late w.roots token pos t (ground arith) (ground arith)
                          (ground arith) (ground arith) (ground arith))
                      λ never. cc)
              ])
            ])
          ])
        ])
      ]

  turn-Decides :
      (w : Walk) (late : Bool)
      → IsSafe b start w
      → Tracks w late
      → Decides
          (TurnFollows b (Remains b w.depth late w.roots w.pos))
          (Remains b w.depth late w.roots w.pos)
          (turn b w)
  unfolding turn
  turn-Decides w late safe tracks =
      Decides-reject _ _ _ _ _
        (λ short h.
          let room : w.pos + 4 ≤ b.end = Remains-room b w.depth late w.roots w.pos h in
          ground (arith, ok.end_small))
        λ header.
          let room : w.pos + 4 ≤ b.end = ground (arith, safe.inside, ok.end_small) in
          let (token, read, _) = be32-lt b.p ok.bytes w.pos (omega (arith, ok.struct_inside)) in
          let here : u64 (w.pos + 4) ≡ w.pos + 4 = omega (arith, ok.end_small) in
          Decides-fetch _ _ read (
            dispatch-Decides token (record w { pos = u64 (w.pos + 4) }) late w.pos
              (record {
                inside = omega (arith, here);
                shallow = safe.shallow;
                flags = safe.flags;
                kept = safe.kept;
              })
              (record { last = tracks.last; parents = tracks.parents }) here (room, read))

  walk_loop-Decides :
      (fuel : ℕ) (w : Walk) (late : Bool)
      → b.end - w.pos < fuel
      → IsSafe b start w
      → Tracks w late
      → Decides
          (λ _. Remains b w.depth late w.roots w.pos)
          (Remains b w.depth late w.roots w.pos)
          (walk_loop b fuel w)
  unfolding walk_loop
  walk_loop-Decides zero w late enough safe tracks = absurd (omega arith)
  walk_loop-Decides (suc fuel) w late enough safe tracks =
      Decides-bind _
        (Ensures-Decides (turn b w) (turn-RoundOk b ok start w safe)
          (turn-Decides w late safe tracks))
        (elim [
          | again w' ↦ λ (h, f).
              Decides-same f.same
                (walk_loop-Decides fuel w' f.late (omega (arith, h.0.inside)) h.0 f.tracks)
          | break w' ↦ λ (h, f). accepts f
        ])

  -- From a safe walk in front of the root node, over a structure block inside the blob and
  -- with more rounds than bytes left, the structure loop goes on to its end if the block is a
  -- tree of the grammar from there, and returns early if it is not.
  pub walk_loop-IsTree :
      (fuel : ℕ) (w : Walk)
      → b.end - w.pos < fuel
      → IsSafe b start w
      → w.depth ≡ 0
      → w.roots ≡ 0
      → Decides (λ _. IsTree b w.pos) (IsTree b w.pos) (walk_loop b fuel w)
  unfolding Remains
  walk_loop-IsTree fuel w enough safe outer first =
      let tracks : Tracks w false = record {
        last = λ i e. absurd (omega arith);
        parents = λ i lt. absurd (omega arith);
      } in
      let same : IsTree b w.pos ↔ Remains b w.depth false w.roots w.pos =
        rw (outer, first) ((λ h. h), λ h. h) in
      Decides-same same (walk_loop-Decides fuel w false enough safe tracks)
