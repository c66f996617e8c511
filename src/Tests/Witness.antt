-- ===== src/Tests/Witness.antt =====
-- The theorems at concrete inputs: the fixtures of tools/efi-inventory/fixtures.h, and small
-- values at the borders of their conditions.
use muen_orin.Base.{
  ℕ, ◌+◌, ◌-◌, ◌*◌, ◌^◌, ◌/◌, ◌≤◌, ◌<◌, ◌≡◌, ◌≢◌, ◌⊎◌, ◌↔◌, inl, refl, [], ◌∷◌, ◌++◌, none, some,
  true, arith, length, take, replicate, codes, leb,
}
use muen_orin.Tests.{
  hi-CanRead, fdt_min, fdt_min-IsBytes, fdt_min-declared, two_descriptors, two_descriptors-IsBytes,
  hi,
}
use muen_orin.Status.{malformed, observed, unavailable}
use muen_orin.Efi.{efi_error, efi_error_bit, efi_error-leb, efi_not_found}
use muen_orin.Fdt.Result.{DtResult, blank}
use muen_orin.Fdt.Read.{be32, align_down, scan_nul}
use muen_orin.Fdt.Words.{be32_lem, align_down_lem, word32}
use muen_orin.Fdt.Names.{scan_nul-StopsAt, StopsAt}
use muen_orin.Fdt.Parser.{parse_dt}
use muen_orin.Fdt.Firmware.{parse_firmware_dt}
use muen_orin.Fdt.Whole.{parse_dt-DtEnds, DtEnds}
use muen_orin.Fdt.Declared.{FirmwareEnds, parse_firmware_dt-FirmwareEnds}
use muen_orin.Fdt.Grammar.Decides.{Decides}
use muen_orin.Fdt.Grammar.Header.{IsHeader, read_header-IsHeader}
use muen_orin.Fdt.Model.{take_model}
use muen_orin.Fdt.Take.{Takes, take_model-Takes}
use muen_orin.Fdt.Header.{Layout, read_header, rsv_limit}
use muen_orin.Fdt.Structure.{Block, Walk, walk_loop}
use muen_orin.Fdt.Safe.{IsBlock, IsSafe}
use muen_orin.Fdt.Walking.{IsClosed, walk_loop-IsClosed}
use muen_orin.Fdt.Layout.{IsLaidOut}
use muen_orin.Fdt.Reserve.{rsv_limit-before}
use muen_orin.Fdt.Opening.{HasHeader}
use muen_orin.Fdt.Outcome.{Ensures}
use muen_orin.Map.Parser.{MapResult, parse_map, map_next_capacity, map_state, range_ok}
use muen_orin.Map.Capacity.{Grows, map_next_capacity_lem}
use muen_orin.Map.Parse.{MapEnds, parse_map-MapEnds}
use muen_orin.Map.Range.{range_ok_iff}
use muen_orin.Observe.Variable.{Policy, parse_var, parse_var-Policy}
use muen_orin.Observe.Level.{NamesLevel, decode_el, decode_el_lem}
use muen_orin.Observe.Vendor.{VendorResult, read_vendor}
use muen_orin.Observe.VendorText.{VendorEnds}
use muen_orin.Observe.VendorLaws.{read_vendor-VendorEnds}
use muen_orin.Writer.Put.{Writer, put, new_writer}
use muen_orin.Writer.Stream.{Shows, put-Shows, new_writer-Received}
use muen_orin.Writer.Emit.{Emits}
use muen_orin.Writer.Escape.{escaped16}
use muen_orin.Writer.Json.{plain, unescape}
use muen_orin.Writer.Text.{escape_text, escaped16-Emits}
use muen_orin.Writer.RoundTrip.{unescape-escape_text, IsPrintable, escape_text-IsPrintable}

parse_dt-DtEnds_example :
    (r : DtResult) × (parse_dt (some fdt_min) 72 ≡ some r) × DtEnds fdt_min 72 r
parse_dt-DtEnds_example = parse_dt-DtEnds fdt_min 72 fdt_min-IsBytes (omega arith)

parse_firmware_dt-FirmwareEnds_example :
    (r : DtResult) × (parse_firmware_dt (some fdt_min) ≡ some r) × FirmwareEnds fdt_min r
parse_firmware_dt-FirmwareEnds_example =
    parse_firmware_dt-FirmwareEnds fdt_min fdt_min-IsBytes (omega arith) fdt_min-declared

read_header-IsHeader_example :
    Ensures (HasHeader fdt_min 72) (read_header fdt_min 72)
    × Decides
        (λ h. IsHeader fdt_min 72 h.1)
        ((l : Layout) × IsHeader fdt_min 72 l)
        (read_header fdt_min 72)
read_header-IsHeader_example = read_header-IsHeader fdt_min 72 fdt_min-IsBytes (omega arith)

scan_nul-StopsAt_example : (n : ℕ) × (scan_nul hi 0 3 4 0 ≡ some n) × StopsAt hi 0 3 0 n
scan_nul-StopsAt_example = scan_nul-StopsAt hi 0 3 (omega arith) 4 0 (omega arith) (omega arith)

be32_lem_example : be32 fdt_min 4 ≡ some (word32 0 0 0 72)
be32_lem_example =
    be32_lem fdt_min 4 0 0 0 72 (omega arith) (omega arith) (omega arith) (omega arith) refl refl
      refl refl

align_down_lem_example : align_down 75 ≡ 75 / 4 * 4
align_down_lem_example = align_down_lem 75 (omega arith)

-- A result before the model is read.
abbrev pub probing : DtResult
probing = record blank { model_state = unavailable }

probing_room : length probing.model ≡ 65
unfolding blank
probing_room = refl

take_model-Takes_example :
    (r : DtResult) × (take_model probing hi 0 3 ≡ some r) × Takes hi 0 probing 3 r
take_model-Takes_example = take_model-Takes hi 0 probing 3 probing_room (omega arith) (omega arith)

parse_map-MapEnds_example :
    (r : MapResult) × (parse_map (some two_descriptors) 80 80 40 1 ≡ some r)
    × MapEnds two_descriptors 80 80 40 1 r
parse_map-MapEnds_example =
    parse_map-MapEnds two_descriptors 80 80 40 1 two_descriptors-IsBytes (omega arith)

map_next_capacity_lem_example :
    (Grows 4096 8192 48
      × (map_next_capacity 4096 8192 48 ≡ (map_state observed none, 8192 + 2 * 48)))
    ⊎ ((¬ (Grows 4096 8192 48))
        × ((map_next_capacity 4096 8192 48).0.state ≢ observed)
        × ((map_next_capacity 4096 8192 48).1 ≡ 0))
map_next_capacity_lem_example = map_next_capacity_lem 4096 8192 48

range_ok_iff_example : (range_ok (2 ^ 64 - 1) 1 ≡ true) ↔ (2 ^ 64 - 1 + 1 < 2 ^ 64)
range_ok_iff_example = range_ok_iff (2 ^ 64 - 1) 1 (omega arith)

parse_var-Policy_example : Policy efi_not_found 0 0 (parse_var efi_not_found 0 0)
parse_var-Policy_example = parse_var-Policy efi_not_found 0 0 (omega arith)

decode_el_lem_example :
    (NamesLevel 8 × (decode_el 8 ≡ record { state = observed; raw = 8; level = 8 / 4 }))
    ⊎ ((¬ NamesLevel 8) × (decode_el 8 ≡ record { state = malformed; raw = 8; level = 0 }))
decode_el_lem_example = decode_el_lem 8 (omega arith)

read_vendor-VendorEnds_example :
    (r : VendorResult) × (read_vendor (some hi) ≡ some r) × VendorEnds hi r
read_vendor-VendorEnds_example = read_vendor-VendorEnds hi hi-CanRead

efi_error-leb_example : efi_error efi_not_found ≡ leb efi_error_bit efi_not_found
efi_error-leb_example = efi_error-leb efi_not_found (omega arith)

-- Two bytes of three are kept beside the NUL.
put-Shows_example :
    (w : Writer) × (put (new_writer 3) (codes "abc") ≡ some w)
    × Shows w ([] ++ codes "abc")
    × (w.capacity ≡ (new_writer 3).capacity)
put-Shows_example = put-Shows (new_writer 3) [] (codes "abc") (new_writer-Received 3 (omega arith))

escaped16-Emits_example : Emits (escaped16 hi 2) (escape_text (take 2 hi))
escaped16-Emits_example = escaped16-Emits hi 2 (omega arith)

unescape-escape_text_example :
    unescape plain (escape_text (0x20ac ∷ 34 ∷ [])) ≡ some (0x20ac ∷ 34 ∷ [])
unescape-escape_text_example =
    unescape-escape_text (0x20ac ∷ 34 ∷ []) (omega arith, (omega arith, tt))

escape_text-IsPrintable_example : IsPrintable (escape_text (0x20ac ∷ 34 ∷ []))
escape_text-IsPrintable_example = escape_text-IsPrintable (0x20ac ∷ 34 ∷ [])

-- The structure block of `fdt_min`.
abbrev pub root_block : Block
root_block = record { p = fdt_min; end = 72; off_strings = 72; size_strings = 0 }

abbrev pub root_walk : Walk
root_walk = record { pos = 56; depth = 0; roots = 0; has_child = replicate 64 0; result = probing }

pub root_block-IsBlock : IsBlock root_block
root_block-IsBlock = record {
  bytes = fdt_min-IsBytes;
  struct_inside = omega arith;
  strings_inside = omega arith;
  end_aligned = refl;
  end_small = omega arith;
  strings_small = omega arith;
}

pub root_walk-IsSafe : IsSafe root_block probing root_walk
unfolding blank
root_walk-IsSafe = record {
  inside = omega arith;
  shallow = omega arith;
  flags = refl;
  kept = record {
    room = probing_room;
    header = record { same_size = refl; same_version = refl; same_comp = refl };
    probed = λ e. cc;
    text = (0, refl);
    short = omega arith;
  };
}

walk_loop-IsClosed_example :
    Ensures (IsClosed root_block probing) (walk_loop root_block 17 root_walk)
walk_loop-IsClosed_example =
    walk_loop-IsClosed root_block root_block-IsBlock probing 17 root_walk (omega arith)
      root_walk-IsSafe

-- The layout of `fdt_min`.
abbrev root_layout : Layout
root_layout = record {
  total = 72;
  off_struct = 56;
  off_strings = 72;
  off_rsv = 40;
  size_strings = 0;
  size_struct = 16;
}

root_layout-IsLaidOut : IsLaidOut 72 root_layout
root_layout-IsLaidOut = record {
  header = omega arith;
  available_max = omega arith;
  limit = omega arith;
  aligned = (refl, refl, refl);
  starts = (omega arith, omega arith, omega arith);
  rsv_inside = omega arith;
  struct_inside = omega arith;
  strings_inside = omega arith;
  rsv_apart = (inl (omega arith), inl (omega arith));
  apart = inl (omega arith);
}

rsv_limit-before_example :
    ((0 < 16) → (40 < 56) → rsv_limit root_layout ≤ 56)
    × ((0 < 0) → (40 < 72) → rsv_limit root_layout ≤ 72)
rsv_limit-before_example = rsv_limit-before 72 root_layout root_layout-IsLaidOut
