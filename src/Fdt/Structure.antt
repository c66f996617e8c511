-- ===== src/Fdt/Structure.antt =====
-- The structure-block loop of `parse_dt` in tools/efi-inventory/core.c, one function for each
-- token.
use muen_orin.Base.{
  ℕ, zero, suc, ◌+◌, ◌-◌, List, Option, none, some, true, not, ◌&&◌, ◌||◌, u32, u64, sub64, sub32,
  ltb, leb, ◌==◌, if◌then◌else◌, load, store, codes,
}
use muen_orin.Status.{unsupported, malformed}
use muen_orin.Fdt.Read.{be32, scan_nul, skip_name, align_down, matches_text}
use muen_orin.Fdt.Result.{DtResult, Parse, ◌>>=◌, ◌>>◌, fetch, pure, reject_if, dt_depth_limit}
use muen_orin.Fdt.Model.{take_model}

abbrev pub fdt_begin_node : ℕ
fdt_begin_node = 1

abbrev pub fdt_end_node : ℕ
fdt_end_node = 2

abbrev pub fdt_prop : ℕ
fdt_prop = 3

abbrev pub fdt_nop : ℕ
fdt_nop = 4

abbrev pub fdt_end : ℕ
fdt_end = 9

-- What the loop reads and does not change: the blob, the end of the block and the strings.
pub record Block : Type 0 where
  pub p : List ℕ
  pub end : ℕ
  pub off_strings : ℕ
  pub size_strings : ℕ

-- The variables of the loop. `has_child` is the array of flags, one for each depth.
pub record Walk : Type 0 where
  pub pos : ℕ
  pub depth : ℕ
  pub roots : ℕ
  pub has_child : List ℕ
  pub result : DtResult

-- After a token the loop goes round, or it breaks.
pub data Turn : Type 0 where
  again : Walk → Turn
  break : Walk → Turn

module _ (b : Block) where
  unfoldable pub begin_node : Walk → Parse Walk
  begin_node w = do
    reject_if (w.depth == 0 && not (w.roots == 0)) w.result malformed "multiple_roots"
    (pos, name_length) ← fetch (skip_name b.p w.pos b.end)
    reject_if (pos == 0) w.result malformed "name_truncated"
    reject_if (w.depth == 0 && not (name_length == 0)) w.result malformed "root_name"
    reject_if (w.depth == dt_depth_limit) w.result unsupported "depth_limit"
    marked ←
        fetch (if w.depth == 0 then some w.has_child else store w.has_child (sub32 w.depth 1) 1)
    cleared ← fetch (store marked w.depth 0)
    pure (record w {
      pos = pos;
      depth = u32 (w.depth + 1);
      roots = if w.depth == 0 then u32 (w.roots + 1) else w.roots;
      has_child = cleared;
    })

  unfoldable pub end_node : Walk → Parse Walk
  end_node w = do
    reject_if (w.depth == 0) w.result malformed "unbalanced_end_node"
    cleared ← fetch (store w.has_child (sub32 w.depth 1) 0)
    pure (record w { depth = sub32 w.depth 1; has_child = cleared })

  -- The test for the root's `model`, and `take_model` if it holds. `n` is the index of the NUL
  -- behind the name.
  unfoldable pub note_model : Walk → ℕ → ℕ → ℕ → ℕ → Option DtResult
  note_model w name n value len =
      if w.depth == 1 && sub64 n name == 5
      then elim (matches_text b.p (b.off_strings + name) (codes "model")) [
        | none ↦ none
        | some same ↦ if same then take_model w.result b.p value len else some w.result
      ]
      else some w.result

  -- The part of the `FDT_PROP` branch behind the two words `len` and `name`; the value of the
  -- property stands at `value`.
  unfoldable pub property_value : Walk → ℕ → ℕ → ℕ → Parse Walk
  property_value w value len name = do
    reject_if (ltb (sub64 b.end value) len) w.result malformed "property_truncated"
    reject_if (leb b.size_strings name) w.result malformed "property_name"
    n ← fetch (scan_nul b.p b.off_strings b.size_strings (suc (b.size_strings - name)) name)
    reject_if (n == b.size_strings) w.result malformed "property_name"
    late ← fetch (load w.has_child (sub32 w.depth 1))
    reject_if (not (late == 0)) w.result malformed "property_after_subnode"
    result ← fetch (note_model w name n value len)
    pure (record w { pos = align_down (u64 (value + len + 3)); result = result })

  unfoldable pub property : Walk → Parse Walk
  property w = do
    reject_if (w.depth == 0) w.result malformed "property_outside_root"
    reject_if (ltb (sub64 b.end w.pos) 8) w.result malformed "property_truncated"
    len ← fetch (be32 b.p w.pos)
    name ← fetch (be32 b.p (w.pos + 4))
    property_value w (u64 (w.pos + 8)) len name

  unfoldable pub finish : Walk → Parse (Unit {0})
  finish w = do
    reject_if (not (w.depth == 0) || w.roots == 0) w.result malformed "unterminated_node"
    reject_if (not (w.pos == b.end)) w.result malformed "trailing_structure"
    pure tt

  -- One token, read at `pos` before `w`'s `pos` was moved past it.
  unfoldable pub dispatch : ℕ → Walk → Parse Turn
  dispatch token w =
      if token == fdt_nop
      then pure (again w)
      else if token == fdt_begin_node
      then (begin_node w >>= λ w'. pure (again w'))
      else if token == fdt_end_node
      then (end_node w >>= λ w'. pure (again w'))
      else if token == fdt_prop
      then (property w >>= λ w'. pure (again w'))
      else if token == fdt_end
      then (finish w >> pure (break w))
      else do reject_if true w.result malformed "token"; pure (break w)

  unfoldable pub turn : Walk → Parse Turn
  turn w = do
    reject_if (ltb (sub64 b.end w.pos) 4) w.result malformed "missing_end"
    token ← fetch (be32 b.p w.pos)
    dispatch token (record w { pos = u64 (w.pos + 4) })

  unfoldable pub walk_loop : ℕ → Walk → Parse Walk
  walk_loop zero w = none
  walk_loop (suc fuel) w =
      turn w >>= λ t. elim t [ again w' ↦ walk_loop fuel w' | break w' ↦ pure w' ]
