-- ===== src/Fdt/Grammar.antt =====
-- The grammar of the structure block that `parse_dt` of tools/efi-inventory/core.c accepts, as
-- trees: what stands between two offsets of the block, independent of the loop that reads it.
use muen_orin.Base.{ℕ, zero, suc, ◌+◌, ◌*◌, ◌/◌, ◌≤◌, ◌<◌, ◌≡◌, some, Bool, true, false}
use muen_orin.Fdt.Read.{be32}
use muen_orin.Fdt.Names.{StopsAt}
use muen_orin.Fdt.Result.{dt_depth_limit}
use muen_orin.Fdt.Structure.{Block, fdt_begin_node, fdt_end_node, fdt_prop, fdt_nop, fdt_end}
pub mod Remains
pub mod Behind
pub mod Decides
pub mod Names
pub mod Follows
pub mod Nodes
pub mod Properties
pub mod Accepts
pub mod Reserved
pub mod Header
pub mod Whole

-- The word at `pos`, inside the block.
abbrev pub IsToken : Block → ℕ → ℕ → Type 0
IsToken b token pos = (pos + 4 ≤ b.end) × (be32 b.p pos ≡ some token)

-- The next multiple of four behind a NUL at `n`.
abbrev pub behind_nul : ℕ → ℕ
behind_nul n = (n + 4) / 4 * 4

-- The name at `pos` ends in a NUL at `n`, and its padding is inside the block.
abbrev pub IsName : Block → ℕ → ℕ → Type 0
IsName b pos n = StopsAt b.p 0 b.end pos n × (n < b.end) × (behind_nul n ≤ b.end)

-- The length, the offset of a name that ends in the strings block, and the value with its padding.
pub record IsProperty (b : Block) (pos next : ℕ) : Type 0 where
  pub len : ℕ
  pub name : ℕ
  pub nul : ℕ
  pub len_read : be32 b.p pos ≡ some len
  pub name_read : be32 b.p (pos + 4) ≡ some name
  pub inside : pos + 8 + len ≤ b.end
  pub named : StopsAt b.p b.off_strings b.size_strings name nul
  pub terminated : nul < b.size_strings
  pub next_is : next ≡ (pos + 8 + len + 3) / 4 * 4

-- The rest of a node of a depth from 1, up to the offset behind its end token. `late` says that
-- a sub node has been met, after which there is no property.
pub data IsBody (b : Block) : ℕ → Bool → ℕ → ℕ → Type 0 where
  close :
      {d : ℕ} {late : Bool} {pos q : ℕ}
      → IsToken b fdt_end_node pos
      → q ≡ pos + 4
      → IsBody b d late pos q
  skip :
      {d : ℕ} {late : Bool} {pos q : ℕ}
      → IsToken b fdt_nop pos
      → IsBody b d late (pos + 4) q
      → IsBody b d late pos q
  field :
      {d : ℕ} {late : Bool} {pos q : ℕ} (next : ℕ)
      → IsToken b fdt_prop pos
      → late ≡ false
      → IsProperty b (pos + 4) next
      → IsBody b d late next q
      → IsBody b d late pos q
  child :
      {d : ℕ} {late : Bool} {pos q : ℕ} (n m : ℕ)
      → IsToken b fdt_begin_node pos
      → IsName b (pos + 4) n
      → d < dt_depth_limit
      → IsBody b (suc d) false (behind_nul n) m
      → IsBody b d true m q
      → IsBody b d late pos q

-- Behind the root node.
pub data IsTail (b : Block) : ℕ → Type 0 where
  finished : {pos : ℕ} → IsToken b fdt_end pos → pos + 4 ≡ b.end → IsTail b pos
  skip_tail : {pos : ℕ} → IsToken b fdt_nop pos → IsTail b (pos + 4) → IsTail b pos

-- The whole block from `pos`: the root node, whose name is empty, and the end token.
pub data IsTree (b : Block) : ℕ → Type 0 where
  root :
      {pos : ℕ} (m : ℕ)
      → IsToken b fdt_begin_node pos
      → IsName b (pos + 4) (pos + 4)
      → IsBody b 1 false (behind_nul (pos + 4)) m
      → IsTail b m
      → IsTree b pos
  skip_head : {pos : ℕ} → IsToken b fdt_nop pos → IsTree b (pos + 4) → IsTree b pos
