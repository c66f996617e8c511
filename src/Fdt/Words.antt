-- ===== src/Fdt/Words.antt =====
-- `be32`, `be64` and the alignment of tools/efi-inventory/core.c as arithmetic.
use muen_orin.Base.{
  ℕ, ◌+◌, ◌-◌, ◌*◌, ◌/◌, ◌^◌, ◌≤◌, ◌<◌, ◌≡◌, List, some, arith, length, load, IsBytes, load-byte,
  bit_or, u32, u64,
}
use muen_orin.Base.Bits.{bit_or_add, bit_and_low, bit_and_step}
use muen_orin.Fdt.Read.{be32, be64, align_down}

-- The digits of a big-endian word.
abbrev pub word32 : ℕ → ℕ → ℕ → ℕ → ℕ
word32 a b c d = ((a * 256 + b) * 256 + c) * 256 + d

or_bytes :
    (a b c d : ℕ)
    → a < 256
    → b < 256
    → c < 256
    → d < 256
    → bit_or (bit_or (bit_or (u32 (a * 2 ^ 24)) (u32 (b * 2 ^ 16))) (u32 (c * 2 ^ 8))) d
      ≡ word32 a b c d
or_bytes a b c d ha hb hc hd =
    let ea : u32 (a * 2 ^ 24) ≡ a * 2 ^ 24 = omega arith in
    let eb : u32 (b * 2 ^ 16) ≡ b * 2 ^ 16 = omega arith in
    let ec : u32 (c * 2 ^ 8) ≡ c * 2 ^ 8 = omega arith in
    let two : a * 2 ^ 24 + b * 2 ^ 16 ≡ (a * 256 + b) * 2 ^ 16 = omega arith in
    let three : (a * 256 + b) * 2 ^ 16 + c * 2 ^ 8 ≡ ((a * 256 + b) * 256 + c) * 2 ^ 8 =
      omega arith in
    rw
      (
        ea,
        eb,
        ec,
        bit_or_add 24 a (b * 2 ^ 16) (omega arith),
        two,
        bit_or_add 16 (a * 256 + b) (c * 2 ^ 8) (omega arith),
        three,
        bit_or_add 8 ((a * 256 + b) * 256 + c) d (omega arith),
      )
      (omega arith)

-- Four bytes that can be read one behind the other are read by `be32` as one big-endian
-- number.
pub be32_lem :
    (p : List ℕ) (o a b c d : ℕ)
    → a < 256
    → b < 256
    → c < 256
    → d < 256
    → load p o ≡ some a
    → load p (o + 1) ≡ some b
    → load p (o + 2) ≡ some c
    → load p (o + 3) ≡ some d
    → be32 p o ≡ some (word32 a b c d)
unfolding be32
be32_lem p o a b c d ha hb hc hd ea eb ec ed = rw (ea, eb, ec, ed, or_bytes a b c d ha hb hc hd)

module _ (p : List ℕ) (bytes : IsBytes p) where
  -- A read of four bytes inside the blob succeeds, with a 32-bit value.
  pub be32-lt : (o : ℕ) → o + 4 ≤ length p → (v : ℕ) × (be32 p o ≡ some v) × (v < 2 ^ 32)
  be32-lt o h =
      let (a, ea, ha) = load-byte p o bytes (omega arith) in
      let (b, eb, hb) = load-byte p (o + 1) bytes (omega arith) in
      let (c, ec, hc) = load-byte p (o + 2) bytes (omega arith) in
      let (d, ed, hd) = load-byte p (o + 3) bytes (omega arith) in
      (word32 a b c d, be32_lem p o a b c d ha hb hc hd ea eb ec ed, omega arith)

  pub be64-lt : (o : ℕ) → o + 8 ≤ length p → (v : ℕ) × (be64 p o ≡ some v) × (v < 2 ^ 64)
  unfolding be64
  be64-lt o h =
      let (hi, e, hi-lt) = be32-lt o (omega arith) in
      let (lo, f, lo-lt) = be32-lt (o + 4) (omega arith) in
      let same : u64 (hi * 2 ^ 32) ≡ hi * 2 ^ 32 = omega arith in
      (hi * 2 ^ 32 + lo, rw (e, f, same, bit_or_add 32 hi lo lo-lt), omega arith)

-- On a 64-bit number, the mask of the alignment rounds down to a multiple of four.
pub align_down_lem : (x : ℕ) → x < 2 ^ 64 → align_down x ≡ x / 4 * 4
unfolding align_down
align_down_lem x h = omega (
  arith,
  bit_and_step x (2 ^ 64 - 4),
  bit_and_step (x / 2) (2 ^ 63 - 2),
  bit_and_low 62 (x / 2 / 2),
)
