-- ===== src/Probe/Record.antt =====
-- `key`, `status_field`, `var_field` and `build_record` of tools/efi-inventory/probe.c: the record
-- as one line of JSON.
use muen_orin.Base.{
  ℕ, zero, suc, ◌+◌, ◌-◌, List, String, Option, none, some, Bool, true, false, ◌&&◌, ◌||◌, ltb,
  ◌==◌, if◌then◌else◌, ◌>>=◌, load, codes,
}
use muen_orin.Status.{
  State, state_name, state_eq, observed, unavailable, unsupported, not_probed, truncated,
}
use muen_orin.Map.Parser.{MapResult, Entry, reported_descriptors}
use muen_orin.Observe.Variable.{VarResult}
use muen_orin.Observe.Level.{ElResult}
use muen_orin.Observe.Vendor.{VendorResult}
use muen_orin.Writer.Emit.{Command, ◌>>◌, say}
use muen_orin.Writer.Escape.{escaped, escaped16}
use muen_orin.Probe.World.{LoadedImage}
use muen_orin.Probe.Number.{number, hex}
use muen_orin.Probe.Pool.{MapAcquisition}
use muen_orin.Probe.Search.{DtSearch}
use muen_orin.Probe.Report.{c_string}

-- `put` of a literal.
abbrev pub lit : String → Command
lit s = say (codes s)

unfoldable pub key : String → Command
key k = lit ",\"" >> lit k >> lit "\":"

abbrev pub detail_field : Option String → Command
detail_field none = lit "null"
detail_field (some d) = lit "\"" >> lit d >> lit "\""

unfoldable pub status_field : String → State → Option String → Command
status_field k s d =
    key k >> lit "{\"status\":\"" >> lit (state_name s) >> lit "\",\"detail\":" >> detail_field d

-- `if (ok) …; else put(w,"null")`.
abbrev pub or_null : Bool → Command → Command
or_null true m = m
or_null false m = lit "null"

unfoldable pub var_field : String → VarResult → Command
var_field k v =
    status_field k v.state v.detail
    >> key "efi_status"
    >> hex v.status
    >> key "value"
    >> or_null (state_eq v.state observed) (number v.value)
    >> lit "}"

-- A text of the record, in quotes.
abbrev pub quoted : Command → Command
quoted m = lit "\"" >> m >> lit "\""

unfoldable pub vendor_field : VendorResult → Command
vendor_field v =
    status_field "firmware_vendor" v.state
      (if state_eq v.state unsupported then some "ucs2_surrogate" else none)
    >> key "units"
    >> number v.units
    >> key "value"
    >> or_null (state_eq v.state observed || state_eq v.state truncated)
        (quoted (escaped16 v.text v.units))
    >> lit "}"

abbrev pub image_values : Option LoadedImage → Command
image_values none = key "base" >> lit "null" >> key "size" >> lit "null"
image_values (some l) = key "base" >> hex l.image_base >> key "size" >> number l.image_size

abbrev pub image_state : Option LoadedImage → State
image_state none = unavailable
image_state (some l) = observed

abbrev pub image_detail : Option LoadedImage → Option String
image_detail none = some "handle_protocol"
image_detail (some l) = none

abbrev pub path_state : Option LoadedImage → State
path_state none = not_probed
path_state (some l) = if l.has_file_path then observed else unavailable

unfoldable pub image_field : Option LoadedImage → ℕ → Command
image_field loaded status =
    status_field "loaded_image" (image_state loaded) (image_detail loaded)
    >> key "efi_status"
    >> hex status
    >> image_values loaded
    >> lit "}"
    >> status_field "device_path" (path_state loaded) none
    >> key "representation"
    >> lit "\"pointer_present_only\"}"

unfoldable pub descriptor_field : ℕ → Entry → Command
descriptor_field i e =
    (if i == 0 then (λ w. some w) else lit ",")
    >> lit "{\"type\":"
    >> number e.kind
    >> key "physical"
    >> hex e.physical
    >> key "pages"
    >> number e.pages
    >> key "attributes"
    >> hex e.attributes
    >> lit "}"

-- The loop from index `i`, with `left` rounds to go.
unfoldable pub descriptors_loop : List Entry → ℕ → ℕ → Command
descriptors_loop entries zero i w = some w
descriptors_loop entries (suc left) i w = load entries i >>= λ e.
    descriptor_field i e w >>= λ w'. descriptors_loop entries left (i + 1) w'

-- The rounds of the loop: `map->state==OBSERVED && i<map->count && i<REPORTED_DESCRIPTORS`.
abbrev pub listed : MapResult → ℕ
listed map =
    if state_eq map.state observed
    then (if ltb map.count reported_descriptors then map.count else reported_descriptors)
    else 0

abbrev pub omitted : ℕ → ℕ
omitted count = if ltb reported_descriptors count then count - reported_descriptors else 0

unfoldable pub map_field : MapAcquisition → Command
map_field m =
    let map = m.map in
    let ok = state_eq map.state observed in
    status_field "boot_services_map" map.state map.detail
    >> key "efi_status"
    >> hex m.efi_status
    >> key "attempts"
    >> number m.attempts
    >> key "release_status"
    >> hex m.release_status
    >> key "count"
    >> or_null ok (number map.count)
    >> key "descriptor_stride"
    >> or_null ok (number map.stride)
    >> key "descriptor_version"
    >> or_null ok (number map.version)
    >> key "descriptors"
    >> lit "["
    >> descriptors_loop map.entries (listed map) 0
    >> lit "]"
    >> key "omitted"
    >> or_null ok (number (omitted map.count))
    >> lit "}"

-- `escaped` of the text in an array.
unfoldable pub escaped_string : List ℕ → Command
escaped_string array w = c_string array >>= λ s. escaped s w

unfoldable pub dt_field : DtSearch → Command
dt_field s =
    let d = s.dt in
    let ok = state_eq d.state observed in
    let has_model = ok && (state_eq d.model_state observed || state_eq d.model_state truncated) in
    status_field "firmware_dt" d.state d.detail
    >> key "tables_searched"
    >> number s.searched
    >> key "tables_total"
    >> number s.total
    >> key "size"
    >> or_null ok (number d.size)
    >> key "version"
    >> or_null ok (number d.version)
    >> key "last_comp_version"
    >> or_null ok (number d.last_comp_version)
    >> status_field "model" (if ok then d.model_state else not_probed) none
    >> key "length"
    >> or_null has_model (number d.model_length)
    >> key "value"
    >> or_null has_model (quoted (escaped_string d.model))
    >> lit "}}"

unfoldable pub level_field : ElResult → Command
level_field el =
    status_field "CurrentEL" el.state none
    >> key "raw"
    >> hex el.raw
    >> key "reported_level"
    >> or_null (state_eq el.state observed) (number el.level)
    >> lit "}"

-- What the record is built from.
pub record Findings : Type 0 where
  pub vendor : VendorResult
  pub firmware_revision : ℕ
  pub uefi_revision : ℕ
  pub loaded : Option LoadedImage
  pub image_status : ℕ
  pub acquisition : MapAcquisition
  pub search : DtSearch
  pub secure : VarResult
  pub setup : VarResult
  pub level : ElResult

-- `build_record`, with the vendor text read.
unfoldable pub build_record : Findings → Command
build_record f =
    lit "{\"schema\":2"
    >> key "build"
    >> lit "\"task004-phase-a-v2\""
    >> vendor_field f.vendor
    >> key "firmware_revision"
    >> number f.firmware_revision
    >> key "uefi_revision"
    >> number f.uefi_revision
    >> image_field f.loaded f.image_status
    >> map_field f.acquisition
    >> dt_field f.search
    >> var_field "SecureBoot" f.secure
    >> var_field "SetupMode" f.setup
    >> level_field f.level
    >> key "execution_context"
    >> lit "\"not_established\""
    >> key "record_truncated"
    >> lit "false}"
