-- ===== src/Tests/Grammar.antt =====
-- The grammar of device trees at blobs of tools/efi-inventory/fixtures.h.
use muen_orin.Base.{◌≡◌, ◌↔◌, refl, some, arith, length, IsBytes}
use muen_orin.Status.{observed}
use muen_orin.Fdt.Result.{DtResult}
use muen_orin.Fdt.Header.{rsv_loop}
use muen_orin.Fdt.Structure.{walk_loop}
use muen_orin.Fdt.Parser.{parse_dt}
use muen_orin.Fdt.Grammar.{IsTree}
use muen_orin.Fdt.Grammar.Decides.{Decides}
use muen_orin.Fdt.Grammar.Reserved.{IsReserved, rsv_loop-IsReserved}
use muen_orin.Fdt.Grammar.Accepts.{walk_loop-IsTree}
use muen_orin.Fdt.Grammar.Whole.{IsDeviceTree, parse_dt-IsDeviceTree}
use muen_orin.Tests.{are_bytes-IsBytes, fdt_min-IsBytes}
use muen_orin.Tests.Fixtures.Models.{fdt_min, fdt_model}
use muen_orin.Tests.Witness.{probing, root_block, root_walk, root_block-IsBlock, root_walk-IsSafe}

fdt_model-IsBytes : IsBytes fdt_model
fdt_model-IsBytes = are_bytes-IsBytes fdt_model refl

parse_dt-IsDeviceTree_example :
    ((r : DtResult) × (parse_dt (some fdt_model) (length fdt_model) ≡ some r)
      × (r.state ≡ observed))
    ↔ IsDeviceTree fdt_model (length fdt_model)
parse_dt-IsDeviceTree_example =
    parse_dt-IsDeviceTree fdt_model (length fdt_model) fdt_model-IsBytes (omega arith)

walk_loop-IsTree_example :
    Decides (λ _. IsTree root_block 56) (IsTree root_block 56) (walk_loop root_block 17 root_walk)
walk_loop-IsTree_example =
    walk_loop-IsTree root_block root_block-IsBlock probing 17 root_walk (omega arith)
      root_walk-IsSafe refl refl

rsv_loop-IsReserved_example :
    Decides
      (λ _. IsReserved fdt_min 56 40)
      (IsReserved fdt_min 56 40)
      (rsv_loop fdt_min probing 56 57 40)
rsv_loop-IsReserved_example =
    rsv_loop-IsReserved fdt_min probing 56 fdt_min-IsBytes (omega arith) (omega arith) 57 40
      (omega arith) (omega arith)
