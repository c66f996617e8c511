-- ===== src/Fdt/Grammar/Whole.antt =====
-- `parse_dt` of tools/efi-inventory/core.c observes exactly the blobs of the grammar.
use muen_orin.Base.{ℕ, suc, ◌≤◌, ◌≡◌, ◌↔◌, refl, List, none, some, arith, length, IsBytes}
use muen_orin.Status.{observed}
use muen_orin.Fdt.Result.{DtResult, Parse, return, next, ◌>>=◌}
use muen_orin.Fdt.Outcome.{Ensures, fails, goes, Ensures-bind}
use muen_orin.Fdt.Header.{Layout, rsv_limit, read_header}
use muen_orin.Fdt.Structure.{walk_loop}
use muen_orin.Fdt.Opening.{HasHeader, read_header-HasHeader}
use muen_orin.Fdt.Reserve.{rsv_limit_bounds}
use muen_orin.Fdt.Parser.{block_of, first_walk, parse_blocks, value, parse_dt}
use muen_orin.Fdt.Whole.{IsObserved, block_of-IsBlock, first_walk-IsSafe, parse_blocks-IsObserved}
use muen_orin.Fdt.Grammar.{IsTree}
use muen_orin.Fdt.Grammar.Header.{Opens, read_header-Decides}
use muen_orin.Fdt.Grammar.Reserved.{IsReserved, rsv_loop-IsReserved}
use muen_orin.Fdt.Grammar.Accepts.{walk_loop-IsTree}
use muen_orin.Fdt.Grammar.Decides.{
  Decides, refuses, accepts, Decides-bind, Decides-same, Decides-stronger, Ensures-Decides,
}

-- The reservation map and the structure block of a layout are in the grammar.
abbrev pub HasBlocks : List ℕ → Layout → Type 0
HasBlocks p l = IsReserved p (rsv_limit l) l.off_rsv × IsTree (block_of p l) l.off_struct

-- A device tree in the first `available` bytes.
abbrev pub IsDeviceTree : List ℕ → ℕ → Type 0
IsDeviceTree p available = Opens p available (HasBlocks p)

module _ (p : List ℕ) (available : ℕ) (bytes : IsBytes p) (span : available ≤ length p) where
  structure-IsTree :
      (h : DtResult × Layout)
      → HasHeader p available h
      → Decides
          (λ _. IsTree (block_of p h.1) h.1.off_struct)
          (IsTree (block_of p h.1) h.1.off_struct)
          (walk_loop (block_of p h.1) (suc h.1.size_struct) (first_walk h.0 h.1))
  unfolding first_walk
  structure-IsTree h k =
      walk_loop-IsTree (block_of p h.1) (block_of-IsBlock p available bytes span h k) h.0
        (suc h.1.size_struct) (first_walk h.0 h.1) (unfold block_of in omega arith)
        (first_walk-IsSafe p available bytes span h k) refl refl

  parse_blocks-Decides :
      (h : DtResult × Layout)
      → HasHeader p available h
      → Decides (λ _. HasBlocks p h.1) (HasBlocks p h.1) (parse_blocks p h.0 h.1)
  unfolding parse_blocks
  parse_blocks-Decides h k =
      let (low, high) = rsv_limit_bounds available h.1 k.laid_out in
      Decides-bind _
        (Decides-stronger (λ x. x.0)
          (rsv_loop-IsReserved p h.0 (rsv_limit h.1) bytes (omega (arith, k.laid_out.available_max))
            (omega (arith, k.laid_out.limit)) (suc (rsv_limit h.1)) h.1.off_rsv (omega arith) low))
        λ _ reserved.
          Decides-bind _ (Decides-stronger (λ x. x.1) (structure-IsTree h k))
            λ w tree. accepts (reserved, tree)

  -- What the whole parser returns before its value is taken.
  parsed-Decides :
      Decides
        (λ _. IsDeviceTree p available)
        (IsDeviceTree p available)
        (read_header p available >>= λ (r, l). parse_blocks p r l)
  parsed-Decides =
      Decides-bind _
        (Ensures-Decides _ (read_header-HasHeader p available bytes span)
          (read_header-Decides p available (HasBlocks p) bytes span))
        λ h (k, same). Decides-same same (parse_blocks-Decides h k)

  value-Decides :
      (m : Parse DtResult)
      → Ensures (IsObserved p available) m
      → Decides (λ _. IsDeviceTree p available) (IsDeviceTree p available) m
      → ((r : DtResult) × (value m ≡ some r) × (r.state ≡ observed)) ↔ IsDeviceTree p available
  value-Decides none h k = elim h [ ]
  value-Decides (some (return r)) (fails h) (refuses k) = (
    (λ (r', e, seen). let q : r ≡ r' = cc e in absurd (h.not_observed (rw q seen))),
    λ tree. absurd (k tree),
  )
  value-Decides (some (next r)) (goes h) (accepts k) = ((λ _. k), λ _. (r, refl, h.state_is))

  -- On a span of bytes that can be read, `parse_dt` returns an observed result exactly when
  -- the span holds a device tree by the grammar: a header with the magic number, a readable
  -- version and a layout of aligned blocks inside the blob and apart; below the limit of its
  -- space, a reservation map of ranges up to an entry of zeros; and a structure block that is
  -- a tree of nodes, at most 64 deep, with an unnamed root, properties in front of the sub
  -- nodes, and nothing behind the end token.
  pub parse_dt-IsDeviceTree :
      ((r : DtResult) × (parse_dt (some p) available ≡ some r) × (r.state ≡ observed))
      ↔ IsDeviceTree p available
  unfolding parse_dt
  parse_dt-IsDeviceTree =
      value-Decides _
        (Ensures-bind _ (read_header-HasHeader p available bytes span)
          (parse_blocks-IsObserved p available bytes span))
        parsed-Decides
