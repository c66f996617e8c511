-- ===== src/Fdt/Read.antt =====
-- The reads of tools/efi-inventory/core.c in a device-tree blob: `be32`, `be64`, the scan for a
-- NUL, and `skip_name`. A blob is the list of the bytes that can be read from its start.
use muen_orin.Base.{
  ℕ, zero, suc, ◌+◌, ◌-◌, ◌^◌, List, [], ◌∷◌, Option, none, some, Bool, true, false, bit_and,
  bit_or, ◌>>=◌, load, u32, u64, sub64, ◌<<<◌, ltb, leb, ◌==◌, if◌then◌else◌,
}

-- `be32(p + o)`: the pointer is the blob's start and the offset `o`.
unfoldable pub be32 : List ℕ → ℕ → Option ℕ
be32 p o = do
  a ← load p o
  b ← load p (o + 1)
  c ← load p (o + 2)
  d ← load p (o + 3)
  some (bit_or (bit_or (bit_or (u32 (a <<< 24)) (u32 (b <<< 16))) (u32 (c <<< 8))) d)

unfoldable pub be64 : List ℕ → ℕ → Option ℕ
be64 p o = do hi ← be32 p o; lo ← be32 p (o + 4); some (bit_or (u64 (hi <<< 32)) lo)

-- `x & ~(size_t)3`.
unfoldable pub align_down : ℕ → ℕ
align_down x = bit_and x (2 ^ 64 - 4)

-- `while (pos<end && s[pos]) ++pos`, for `s` at the offset `base`; the final `pos`. The rounds
-- are bounded by the fuel.
unfoldable pub scan_nul : List ℕ → ℕ → ℕ → ℕ → ℕ → Option ℕ
scan_nul p base end zero pos = none
scan_nul p base end (suc fuel) pos = elim (ltb pos end) [
  | true ↦ load p (base + pos) >>= λ c. elim (c == 0) [
    | true ↦ some pos
    | false ↦ scan_nul p base end fuel (pos + 1)
  ]
  | false ↦ some pos
]

-- The offset after the name, or 0, and the value left in `*name_length`, which starts as 0.
unfoldable pub skip_name : List ℕ → ℕ → ℕ → Option (ℕ × ℕ)
skip_name p pos end = scan_nul p 0 end (suc (end - pos)) pos >>= λ nul.
    if leb end nul
    then some (0, 0)
    else let next = align_down (u64 (nul + 4)) in
      some (if leb next end then next else 0, sub64 nul pos)

-- `s[0]==… && s[1]==… && …`, for `s` at an offset: a chain that stops at the first difference.
unfoldable pub matches_text : List ℕ → ℕ → List ℕ → Option Bool
matches_text p o [] = some true
matches_text p o (x ∷ xs) =
    load p o >>= λ c. elim (c == x) [ true ↦ matches_text p (o + 1) xs | false ↦ some false ]
