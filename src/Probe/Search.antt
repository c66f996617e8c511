-- ===== src/Probe/Search.antt =====
-- `guid_equal` and `find_dt` of tools/efi-inventory/probe.c. A GUID is the list of its sixteen
-- bytes.
use muen_orin.Base.{
  ℕ, zero, suc, ◌+◌, List, [], ◌∷◌, Option, none, some, Bool, true, false, ltb, ◌==◌, if◌then◌else◌,
  ◌>>=◌, load,
}
use muen_orin.Status.{unavailable, malformed, not_probed}
use muen_orin.Fdt.Result.{DtResult, blank}
use muen_orin.Fdt.Firmware.{parse_firmware_dt}

abbrev pub config_table_limit : ℕ
config_table_limit = 256

-- `sizeof(EFI_GUID)`.
abbrev pub guid_bytes : ℕ
guid_bytes = 16

-- `dt_guid` of efi.h.
abbrev pub dt_guid : List ℕ
dt_guid =
    0xd5 ∷ 0x21 ∷ 0xb6 ∷ 0xb1 ∷ 0x9c ∷ 0xf1 ∷ 0xa5 ∷ 0x41 ∷ 0x83 ∷ 0x0b ∷ 0xd9 ∷ 0x15 ∷ 0x2c ∷ 0x69
    ∷ 0xaa ∷ 0xe0 ∷ []

-- The loop from index `i`, with `left` rounds to go.
unfoldable pub guid_equal_loop : List ℕ → List ℕ → ℕ → ℕ → Option Bool
guid_equal_loop x y zero i = some true
guid_equal_loop x y (suc left) i = load x i >>= λ a.
    load y i >>= λ b. elim (a == b) [ true ↦ guid_equal_loop x y left (i + 1) | false ↦ some false ]

unfoldable pub guid_equal : List ℕ → List ℕ → Option Bool
guid_equal x y = guid_equal_loop x y guid_bytes 0

-- `EFI_CONFIGURATION_TABLE`; `table` is what can be read from its pointer.
pub record ConfigEntry : Type 0 where
  pub guid : List ℕ
  pub table : Option (List ℕ)

pub record DtSearch : Type 0 where
  pub dt : DtResult
  pub searched : ℕ
  pub total : ℕ

-- `DtSearch s={.dt={.state=UNAVAILABLE,…}}`, and `s.total`.
unfoldable pub no_dt : ℕ → DtSearch
no_dt total = record {
  dt = record blank { state = unavailable; detail = some "absent" };
  searched = 0;
  total = total;
}

-- The loop returns from the function, or it has passed all entries.
pub data Found : Type 0 where
  found : DtSearch → Found
  passed : DtSearch → Found

-- The body of the loop at a matching entry.
unfoldable pub take_entry : ConfigEntry → DtSearch → Option DtSearch
take_entry entry s = elim entry.table [
  | none ↦ some (record s { dt = record (s.dt) { state = malformed; detail = some "table_null" } })
  | some p ↦ parse_firmware_dt (some p) >>= λ dt. some (record s { dt = dt })
]

-- The loop from index `i`, with `left` rounds to go.
unfoldable pub find_loop : List ConfigEntry → ℕ → ℕ → DtSearch → Option Found
find_loop entries zero i s = some (passed s)
find_loop entries (suc left) i s = load entries i >>= λ entry.
    guid_equal entry.guid dt_guid >>= λ match. elim match [
      | true ↦ take_entry entry (record s { searched = i + 1 }) >>= λ s'. some (found s')
      | false ↦ find_loop entries left (i + 1) (record s { searched = i + 1 })
    ]

-- `s.total>CONFIG_TABLE_LIMIT ? CONFIG_TABLE_LIMIT : s.total`.
abbrev pub searchable : ℕ → ℕ
searchable total = if ltb config_table_limit total then config_table_limit else total

abbrev pub end_search : Found → DtSearch
end_search (found s) = s
end_search (passed s) =
    if ltb (searchable s.total) s.total
    then record s { dt = record (s.dt) { state = not_probed; detail = some "search_limit" } }
    else s

-- The fields `number_of_table_entries` and `configuration_table` of the system table.
unfoldable pub find_dt : ℕ → Option (List ConfigEntry) → Option DtSearch
find_dt zero table = some (no_dt 0)
find_dt (suc n) none = some (record (no_dt (suc n)) {
  dt = record ((no_dt (suc n)).dt) { state = malformed; detail = some "config_table_null" };
})
find_dt (suc n) (some entries) =
    find_loop entries (searchable (suc n)) 0 (no_dt (suc n)) >>= λ f. some (end_search f)
