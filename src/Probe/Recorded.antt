-- ===== src/Probe/Recorded.antt =====
-- `build_record` of tools/efi-inventory/probe.c never faults, and its record is printable.
use muen_orin.Base.{
  Is64, IsDetail, false, ◌+◌, codes, [], ◌∷◌, ℕ, ◌≤◌, ◌≡◌, refl, List, some, arith,
}
use muen_orin.Status.{observed, state_eq→eq}
use muen_orin.Map.Parser.{MapResult, reported_descriptors}
use muen_orin.Map.Reasons.{IsPresentable}
use muen_orin.Observe.Level.{ElResult}
use muen_orin.Probe.Pool.{MapAcquisition}
use muen_orin.Probe.Search.{DtSearch}
use muen_orin.Probe.Report.{c_string}
use muen_orin.Probe.Record.{
  listed, omitted, map_field, escaped_string, dt_field, level_field, Findings, build_record, lit,
}
use muen_orin.Writer.Emit.{say-Emits}
use muen_orin.Writer.Escape.{escaped}
use muen_orin.Probe.Json.{Frame, object, value, after, string, digits_end}
use muen_orin.Probe.Says.{
  Says, ◌▸◌, printable_codes-IsPrintable, Says-lit, Says-number, Says-hex, Says-key,
  Says-status_field, Says-or_null, Says-quoted, Says-escaped,
}
use muen_orin.Probe.Reportable.{
  Says-closing, VarOk, VendorOk, ImageOk, Says-var_field, Says-vendor_field, Says-image_field,
  Says-descriptors_loop,
}

pub record MapOk (m : MapAcquisition) : Type 0 where
  pub map : IsPresentable m.map
  pub efi_status : Is64 m.efi_status
  pub attempts : Is64 m.attempts
  pub release_status : Is64 m.release_status

listed-le : (m : MapResult) → listed m ≤ reported_descriptors
listed-le m = ground arith

omitted-Is64 : (count : ℕ) → Is64 count → Is64 (omitted count)
omitted-Is64 count h = ground arith

Says-map_field :
    {st : List Frame}
    → (m : MapAcquisition) → MapOk m
    → Says (after, object ∷ st) (after, object ∷ st) (map_field m)
unfolding map_field
Says-map_field m h =
    Says-status_field "boot_services_map" m.map.state m.map.detail refl h.map.detail
    ▸ Says-key "efi_status" refl
    ▸ Says-hex m.efi_status h.efi_status
    ▸ Says-key "attempts" refl
    ▸ Says-number m.attempts h.attempts
    ▸ Says-key "release_status" refl
    ▸ Says-hex m.release_status h.release_status
    ▸ Says-key "count" refl
    ▸ Says-or_null _ _ (λ _. Says-number m.map.count h.map.count)
    ▸ Says-key "descriptor_stride" refl
    ▸ Says-or_null _ _ (λ _. Says-number m.map.stride h.map.stride)
    ▸ Says-key "descriptor_version" refl
    ▸ Says-or_null _ _ (λ _. Says-number m.map.version h.map.version)
    ▸ Says-key "descriptors" refl
    ▸ Says-lit "[" refl refl
    ▸ Says-descriptors_loop _ m.map.entries h.map.entries (listed m.map) 0
        (omega (arith, listed-le m.map, h.map.room))
    ▸ Says-closing (0 + listed m.map)
    ▸ Says-key "omitted" refl
    ▸ Says-or_null _ _
        (λ _. Says-number (omitted m.map.count) (omitted-Is64 m.map.count h.map.count))
    ▸ Says-lit "}" refl refl

pub record DtOk (s : DtSearch) : Type 0 where
  pub detail : IsDetail s.dt.detail
  pub searched : Is64 s.searched
  pub total : Is64 s.total
  pub size : s.dt.state ≡ observed → Is64 s.dt.size
  pub version : s.dt.state ≡ observed → Is64 s.dt.version
  pub last_comp_version : s.dt.state ≡ observed → Is64 s.dt.last_comp_version
  pub model_length : Is64 s.dt.model_length
  pub model_text : List ℕ
  pub has_nul : c_string s.dt.model ≡ some model_text

Says-escaped_string :
    {st : List Frame} (array text : List ℕ)
    → c_string array ≡ some text
    → Says (string false, st) (string false, st) (escaped_string array)
unfolding escaped_string
Says-escaped_string {st} array text e =
    let k : Says (string false, st) (string false, st) (escaped text) = Says-escaped text in
    record {
      text = k.text;
      emits = record { emit = λ w t h. rw e (k.emits.emit w t h) };
      printable = k.printable;
      reads = k.reads;
    }

Says-dt_field :
    {st : List Frame}
    → (s : DtSearch) → DtOk s
    → Says (after, object ∷ st) (after, object ∷ st) (dt_field s)
unfolding dt_field
Says-dt_field s h =
    Says-status_field "firmware_dt" s.dt.state s.dt.detail refl h.detail
    ▸ Says-key "tables_searched" refl
    ▸ Says-number s.searched h.searched
    ▸ Says-key "tables_total" refl
    ▸ Says-number s.total h.total
    ▸ Says-key "size" refl
    ▸ Says-or_null _ _ (λ ok. Says-number s.dt.size (h.size (state_eq→eq _ _ ok)))
    ▸ Says-key "version" refl
    ▸ Says-or_null _ _ (λ ok. Says-number s.dt.version (h.version (state_eq→eq _ _ ok)))
    ▸ Says-key "last_comp_version" refl
    ▸ Says-or_null _ _
        (λ ok. Says-number s.dt.last_comp_version (h.last_comp_version (state_eq→eq _ _ ok)))
    ▸ Says-status_field "model" _ _ refl tt
    ▸ Says-key "length" refl
    ▸ Says-or_null _ _ (λ _. Says-number s.dt.model_length h.model_length)
    ▸ Says-key "value" refl
    ▸ Says-or_null _ _ (λ _. Says-quoted _ (Says-escaped_string s.dt.model h.model_text h.has_nul))
    ▸ Says-lit "}}" refl refl

pub record LevelOk (el : ElResult) : Type 0 where
  pub raw : Is64 el.raw
  pub level : Is64 el.level

Says-level_field :
    {st : List Frame}
    → (el : ElResult) → LevelOk el
    → Says (after, object ∷ st) (after, object ∷ st) (level_field el)
unfolding level_field
Says-level_field el h =
    Says-status_field "CurrentEL" el.state _ refl tt
    ▸ Says-key "raw" refl
    ▸ Says-hex el.raw h.raw
    ▸ Says-key "reported_level" refl
    ▸ Says-or_null _ _ (λ _. Says-number el.level h.level)
    ▸ Says-lit "}" refl refl

-- Numbers of 64 bits, printable details, and arrays that hold what the record reads of them.
pub record IsReportable (f : Findings) : Type 0 where
  pub vendor : VendorOk f.vendor
  pub firmware_revision : Is64 f.firmware_revision
  pub uefi_revision : Is64 f.uefi_revision
  pub loaded : ImageOk f.loaded
  pub image_status : Is64 f.image_status
  pub acquisition : MapOk f.acquisition
  pub search : DtOk f.search
  pub secure : VarOk f.secure
  pub setup : VarOk f.setup
  pub level : LevelOk f.level

Says-opened : Says (value, []) (after, object ∷ []) (lit "{\"schema\":2")
Says-opened = record {
  text = codes "{\"schema\":2";
  emits = say-Emits (codes "{\"schema\":2");
  printable = printable_codes-IsPrintable (codes "{\"schema\":2") refl;
  reads = (_, refl, digits_end);
}

-- For reportable findings, whose numbers have 64 bits, whose details are printable, with no
-- quote and no backslash, and whose arrays hold what the record reads of them, `build_record`
-- never faults, whatever the room of the writer, and the record is printable ASCII and a JSON
-- text: one value, by an acceptor that is independent of the writer.
pub build_record-Says :
    (f : Findings) → IsReportable f → Says (value, []) (after, []) (build_record f)
unfolding build_record
build_record-Says f h =
    Says-opened
    ▸ Says-key "build" refl
    ▸ Says-lit "\"task004-phase-a-v2\"" refl refl
    ▸ Says-vendor_field f.vendor h.vendor
    ▸ Says-key "firmware_revision" refl
    ▸ Says-number f.firmware_revision h.firmware_revision
    ▸ Says-key "uefi_revision" refl
    ▸ Says-number f.uefi_revision h.uefi_revision
    ▸ Says-image_field f.loaded f.image_status h.loaded h.image_status
    ▸ Says-map_field f.acquisition h.acquisition
    ▸ Says-dt_field f.search h.search
    ▸ Says-var_field "SecureBoot" f.secure refl h.secure
    ▸ Says-var_field "SetupMode" f.setup refl h.setup
    ▸ Says-level_field f.level h.level
    ▸ Says-key "execution_context" refl
    ▸ Says-lit "\"not_established\"" refl refl
    ▸ Says-key "record_truncated" refl
    ▸ Says-lit "false}" refl refl
