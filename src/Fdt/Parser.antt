-- ===== src/Fdt/Parser.antt =====
-- `parse_dt` of tools/efi-inventory/core.c.
use muen_orin.Base.{ℕ, suc, ◌+◌, List, Option, none, some, replicate}
use muen_orin.Status.{observed, unavailable, malformed}
use muen_orin.Fdt.Result.{
  DtResult, Parse, return, next, ◌>>=◌, ◌>>◌, pure, blank, dt_state, dt_depth_limit,
}
use muen_orin.Fdt.Header.{Layout, read_header, rsv_limit, rsv_loop}
use muen_orin.Fdt.Structure.{Block, Walk, walk_loop}

unfoldable pub block_of : List ℕ → Layout → Block
block_of p l = record {
  p = p;
  end = l.off_struct + l.size_struct;
  off_strings = l.off_strings;
  size_strings = l.size_strings;
}

unfoldable pub first_walk : DtResult → Layout → Walk
first_walk r l = record {
  pos = l.off_struct;
  depth = 0;
  roots = 0;
  has_child = replicate dt_depth_limit 0;
  result = record r { model_state = unavailable };
}

-- The part of `parse_dt` behind the header. Each loop has a round for each byte it may read.
unfoldable pub parse_blocks : List ℕ → DtResult → Layout → Parse DtResult
parse_blocks p r l = do
  rsv_loop p r (rsv_limit l) (suc (rsv_limit l)) l.off_rsv
  w ← walk_loop (block_of p l) (suc l.size_struct) (first_walk r l)
  pure (record (w.result) { state = observed; detail = none })

-- A returned value, from an early return or from the end.
abbrev pub value : Parse DtResult → Option DtResult
value none = none
value (some (return r)) = some r
value (some (next r)) = some r

unfoldable pub parse_dt : Option (List ℕ) → ℕ → Option DtResult
parse_dt none available = some (dt_state blank malformed "null")
parse_dt (some p) available = value (read_header p available >>= λ (r, l). parse_blocks p r l)
