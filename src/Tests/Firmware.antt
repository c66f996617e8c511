-- ===== src/Tests/Firmware.antt =====
-- The theorems on tools/efi-inventory/probe.c with a small firmware: one state, a pool with one
-- address, the map of two descriptors, and a console without errors.
use muen_orin.Base.{
  ℕ, zero, suc, subst, ap, ◌≤◌, ◌%◌, ◌≡◌, ◌≢◌, ◌⊎◌, refl, List, [], ◌∷◌, ◌++◌, Option, none, some,
  Bool, true, false, arith, All-append, length, length-append, length-replicate, replicate, codes,
  IsBytes,
}
use muen_orin.Observe.VendorText.{CanRead}
use muen_orin.Probe.Record.{Findings}
use muen_orin.Probe.Main.{SystemTable, VariableReply, secure_boot, setup_mode, variable, observe}
use muen_orin.Probe.Observed.{IsReadableSystem, IsObservation, observe-IsObservation}
use muen_orin.Tests.{
  hi, hi-CanRead, fdt_min, fdt_min-IsBytes, fdt_min-declared, two_descriptors,
  two_descriptors-IsBytes,
}
use muen_orin.Fdt.Read.{be32}
use muen_orin.Fdt.Result.{dt_limit}
use muen_orin.Writer.Emit.{Emits}
use muen_orin.Probe.World.{World, LoadedImage, Opened, BootServices, PoolServices, pool_services}
use muen_orin.Probe.Pool.{MapAcquisition, acquire_map}
use muen_orin.Probe.Ownership.{IsReleased}
use muen_orin.Probe.Attempt.{FillsBuffer}
use muen_orin.Probe.Acquire.{acquire_map-IsReleased}
use muen_orin.Probe.Console.{Output, print}
use muen_orin.Probe.Printed.{Printed, print-Printed}
use muen_orin.Probe.Number.{number, hex, hex_text}
use muen_orin.Probe.Numerals.{IsNumeral, number-Emits, IsHexLiteral, hex-Emits}
use muen_orin.Probe.Search.{dt_guid, guid_equal, ConfigEntry, DtSearch, find_dt}
use muen_orin.Probe.Guids.{guid_equal_lem}
use muen_orin.Probe.Searched.{CanSearch, SearchEnds, find_dt-SearchEnds}

abbrev pub OnlyState : Type 0
OnlyState = Unit {0}

abbrev pub small_pool : PoolServices OnlyState
small_pool = record {
  allocate = λ kind size s. (record { status = 0; buffer = some 4096 }, s);
  free = λ b s. (0, s);
  memory_map = λ capacity b s. (
    record {
      status = 0;
      size = 80;
      stride = 40;
      version = 1;
      contents = two_descriptors ++ replicate capacity 0;
    },
    s,
  );
}

abbrev pub this_image : LoadedImage
this_image = record { has_file_path = true; image_base = 65536; image_size = 4096 }

abbrev pub open_image : ℕ → OnlyState → Opened × OnlyState
open_image image s = (record { status = 0; interface = some this_image }, s)

abbrev pub small_firmware : BootServices OnlyState
small_firmware = record {
  allocate_pool = some small_pool.allocate;
  free_pool = some small_pool.free;
  get_memory_map = some small_pool.memory_map;
  handle_protocol = some open_image;
}

abbrev pub fresh : World OnlyState
fresh = record { firmware = tt; calls = [] }

zeros-IsBytes : (n : ℕ) → IsBytes (replicate n 0)
zeros-IsBytes zero = tt
zeros-IsBytes (suc n) = (omega arith, zeros-IsBytes n)

small_pool-FillsBuffer : FillsBuffer small_pool
small_pool-FillsBuffer capacity b s = (
  All-append _ two_descriptors (replicate capacity 0) two_descriptors-IsBytes
      (zeros-IsBytes capacity),
  omega (
    arith,
    length-append two_descriptors (replicate capacity 0),
    length-replicate {A = ℕ} capacity 0,
  ),
)

small_firmware-fills :
    (pool : PoolServices OnlyState)
    → pool_services OnlyState (some small_firmware) ≡ some pool
    → FillsBuffer pool
small_firmware-fills pool e =
    let same : small_pool ≡ pool =
      ap (λ (m : Option (PoolServices OnlyState)). elim m [ none ↦ small_pool | some x ↦ x ]) e in
    subst FillsBuffer same small_pool-FillsBuffer

acquire_map-IsReleased_example :
    (r : MapAcquisition × World OnlyState) × (acquire_map (some small_firmware) fresh ≡ some r)
    × IsReleased r.1.calls r.0
acquire_map-IsReleased_example =
    acquire_map-IsReleased (some small_firmware) fresh small_firmware-fills refl tt

abbrev quiet : Output OnlyState
quiet chunk s = (0, s)

print-Printed_example :
    (r : ℕ × World OnlyState) × (print (some quiet) (codes "ok") fresh ≡ some r)
    × Printed (codes "ok") [] r.0 r.1.calls
print-Printed_example = print-Printed quiet (codes "ok") fresh tt

number-Emits_example : (text : List ℕ) × Emits (number 1024) text × IsNumeral 1024 text
number-Emits_example = number-Emits 1024 (omega arith)

hex-Emits_example : Emits (hex 255) (hex_text 255) × IsHexLiteral 255 (hex_text 255)
hex-Emits_example = hex-Emits 255 (omega arith)

guid_equal_lem_example :
    (b : Bool) × (guid_equal dt_guid dt_guid ≡ some b)
    × (((b ≡ true) × (dt_guid ≡ dt_guid)) ⊎ ((b ≡ false) × (dt_guid ≢ dt_guid)))
guid_equal_lem_example = guid_equal_lem dt_guid dt_guid refl refl

abbrev tables : List ConfigEntry
tables = record { guid = dt_guid; table = some fdt_min } ∷ []

tables-CanSearch : CanSearch tables 1
tables-CanSearch zero below = (
  record { guid = dt_guid; table = some fdt_min },
  refl,
  refl,
  λ p e.
      let same : fdt_min ≡ p =
        ap (λ (m : Option (List ℕ)). elim m [ none ↦ fdt_min | some x ↦ x ]) e in
      subst
        (λ q.
          IsBytes q
          × (8 ≤ length q)
          × ((total : ℕ) → be32 q 4 ≡ some total → total ≤ dt_limit → total ≤ length q))
        same (fdt_min-IsBytes, omega arith, fdt_min-declared),
)
tables-CanSearch (suc i) below = absurd (omega arith)

given-CanSearch : (entries : List ConfigEntry) → some tables ≡ some entries → CanSearch entries 1
given-CanSearch entries e =
    subst (λ t. CanSearch t 1)
      (ap (λ (m : Option (List ConfigEntry)). elim m [ none ↦ tables | some x ↦ x ]) e)
      tables-CanSearch

find_dt-SearchEnds_example :
    (s : DtSearch) × (find_dt 1 (some tables) ≡ some s) × SearchEnds 1 (some tables) s
find_dt-SearchEnds_example = find_dt-SearchEnds 1 (some tables) given-CanSearch

-- A one for each name of odd length, and so for SetupMode only.
abbrev pub read_variable : List ℕ → OnlyState → VariableReply × OnlyState
read_variable name s = (record { status = 0; size = 1; value = length name % 2 }, s)

-- A machine with this firmware.
abbrev pub machine : SystemTable OnlyState
machine = record {
  revision = 131152;
  firmware_vendor = some hi;
  firmware_revision = 1;
  output_string = some quiet;
  get_variable = some read_variable;
  boot_services = some small_firmware;
  number_of_table_entries = 1;
  configuration_table = some tables;
}

given-CanRead : (text : List ℕ) → some hi ≡ some text → CanRead text
given-CanRead text e =
    subst CanRead (ap (λ (m : Option (List ℕ)). elim m [ none ↦ hi | some x ↦ x ]) e) hi-CanRead

pub machine-IsReadableSystem : IsReadableSystem machine
machine-IsReadableSystem = record {
  fills = small_firmware-fills;
  entries = given-CanSearch;
  vendor = given-CanRead;
}

observe-IsObservation_example :
    (r : Findings × World OnlyState) × (observe machine 1 8 fresh ≡ some r)
    × IsObservation machine 1 8 fresh r.0 r.1
observe-IsObservation_example =
    observe-IsObservation machine 1 8 fresh machine-IsReadableSystem refl tt

-- The two variables are not mixed up.
variables_observed :
    ((variable machine secure_boot fresh).0.value ≡ 0)
    × ((variable machine setup_mode fresh).0.value ≡ 1)
unfolding variable muen_orin.Observe.Variable.parse_var muen_orin.Efi.efi_error
variables_observed = (refl, refl)
