-- ===== src/Fdt/Grammar/Follows.antt =====
-- What is known of the walk of the structure loop of tools/efi-inventory/core.c beside the
-- grammar: its flags, and that what remains is decided.
use muen_orin.Base.{ℕ, ◌+◌, ◌<◌, ◌≡◌, ◌↔◌, some, Bool, get_elem?, if◌then◌else◌}
use muen_orin.Fdt.Structure.{Block, Walk}
use muen_orin.Fdt.Grammar.Remains.{Remains}

abbrev pub flag : Bool → ℕ
flag late = if late then 1 else 0

-- The flags of the open nodes: each but the last has a sub node.
pub record Tracks (w : Walk) (late : Bool) : Type 0 where
  pub last : (i : ℕ) → i + 1 ≡ w.depth → get_elem? w.has_child i ≡ some (flag late)
  pub parents : (i : ℕ) → i + 1 < w.depth → get_elem? w.has_child i ≡ some 1

-- `R` holds exactly when the grammar allows what remains from `w`.
pub record Follows (b : Block) (R : Type 0) (w : Walk) : Type 0 where
  pub late : Bool
  pub tracks : Tracks w late
  pub same : R ↔ Remains b w.depth late w.roots w.pos
