-- ===== src/Fdt/Header.antt =====
-- The first half of `parse_dt` in tools/efi-inventory/core.c: the header fields, the block layout
-- and the reservation map.
use muen_orin.Base.{
  ℕ, zero, suc, ◌+◌, ◌%◌, List, none, Bool, true, false, not, ◌&&◌, ◌||◌, u64, sub64, sub32, ltb,
  leb, ◌==◌, if◌then◌else◌,
}
use muen_orin.Status.{unsupported, malformed}
use muen_orin.Map.Parser.{range_ok}
use muen_orin.Fdt.Read.{be32, be64}
use muen_orin.Fdt.Result.{DtResult, Parse, ◌>>=◌, ◌>>◌, fetch, pure, reject_if, blank, dt_limit}

abbrev pub fdt_header : ℕ
fdt_header = 40

abbrev pub fdt_magic : ℕ
fdt_magic = 0xd00dfeed

-- The local variables of `parse_dt` that hold the block layout.
pub record Layout : Type 0 where
  pub total : ℕ
  pub off_struct : ℕ
  pub off_strings : ℕ
  pub off_rsv : ℕ
  pub size_strings : ℕ
  pub size_struct : ℕ

unfoldable pub disjoint : ℕ → ℕ → ℕ → ℕ → Bool
disjoint a al b bl = leb (u64 (a + al)) b || leb (u64 (b + bl)) a

-- The tests of the version fields and of `total`.
unfoldable pub check_version : DtResult → ℕ → ℕ → Parse DtResult
check_version r total available = do
  reject_if (ltb r.version 17 || ltb 17 r.last_comp_version || ltb r.version r.last_comp_version) r
      unsupported "version"
  reject_if (ltb dt_limit total) r unsupported "size_limit"
  reject_if (ltb total fdt_header) r malformed "totalsize"
  reject_if (ltb available total) r malformed "totalsize_exceeds_span"
  pure (record r { size = total })

unfoldable pub check_layout : DtResult → Layout → Parse (Unit {0})
check_layout r l = do
  reject_if
      (not (l.off_rsv % 8 == 0) || not (l.off_struct % 4 == 0) || not (l.size_struct % 4 == 0)) r
      malformed "alignment"
  reject_if
      (ltb l.off_rsv fdt_header
        || ltb l.off_struct fdt_header
        || ltb l.off_strings fdt_header
        || ltb l.total l.off_rsv
        || ltb l.total l.off_struct
        || ltb (sub32 l.total l.off_struct) l.size_struct
        || ltb l.total l.off_strings
        || ltb (sub32 l.total l.off_strings) l.size_strings)
      r malformed "block_bounds"
  reject_if
      (not (disjoint l.off_rsv 1 l.off_struct l.size_struct)
        || not (disjoint l.off_rsv 1 l.off_strings l.size_strings)
        || not (disjoint l.off_struct l.size_struct l.off_strings l.size_strings))
      r malformed "block_overlap"
  pure tt

-- The header, up to the overlap test: the result so far and the layout.
unfoldable pub read_header : List ℕ → ℕ → Parse (DtResult × Layout)
read_header p available = do
  reject_if (ltb available fdt_header) blank malformed "header_truncated"
  magic ← fetch (be32 p 0)
  reject_if (not (magic == fdt_magic)) blank malformed "magic"
  total ← fetch (be32 p 4)
  off_struct ← fetch (be32 p 8)
  off_strings ← fetch (be32 p 12)
  off_rsv ← fetch (be32 p 16)
  version ← fetch (be32 p 20)
  last_comp_version ← fetch (be32 p 24)
  r ←
      check_version (record blank { version = version; last_comp_version = last_comp_version })
        total available
  size_strings ← fetch (be32 p 32)
  size_struct ← fetch (be32 p 36)
  let l : Layout = record {
    total = total;
    off_struct = off_struct;
    off_strings = off_strings;
    off_rsv = off_rsv;
    size_strings = size_strings;
    size_struct = size_struct;
  }
  check_layout r l
  pure (r, l)

-- `limit`: the end of the space for the reservation map.
unfoldable pub rsv_limit : Layout → ℕ
rsv_limit l =
    let limit =
      if not (l.size_struct == 0) && ltb l.off_rsv l.off_struct && ltb l.off_struct l.total
      then l.off_struct
      else l.total in
    if not (l.size_strings == 0) && ltb l.off_rsv l.off_strings && ltb l.off_strings limit
    then l.off_strings
    else limit

-- One round of the reservation loop: whether the entry ends the map.
unfoldable pub rsv_round : List ℕ → DtResult → ℕ → ℕ → Parse Bool
rsv_round p r limit rsv = do
  reject_if (ltb (sub64 limit rsv) 16) r malformed "rsvmap_unterminated"
  address ← fetch (be64 p rsv)
  size ← fetch (be64 p (rsv + 8))
  let ends = address == 0 && size == 0
  reject_if (not ends && not (range_ok address size)) r malformed "rsvmap_range"
  pure ends

unfoldable pub rsv_loop : List ℕ → DtResult → ℕ → ℕ → ℕ → Parse (Unit {0})
rsv_loop p r limit zero rsv = none
rsv_loop p r limit (suc fuel) rsv = rsv_round p r limit rsv >>= λ ends. elim ends [
  | true ↦ pure tt
  | false ↦ rsv_loop p r limit fuel (u64 (rsv + 16))
]
