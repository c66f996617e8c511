-- ===== src/Probe/Searched.antt =====
-- What `find_dt` of tools/efi-inventory/probe.c finds.
use muen_orin.Base.{
  ℕ, zero, suc, subst, min, ◌+◌, ◌≤◌, ◌<◌, ◌≡◌, ◌≢◌, ◌⊎◌, inl, inr, ◌∙◌, ap, refl, List, Option,
  none, some, Bool-cases, Option-cases, arith, length, load, IsBytes, ltb, ◌==◌, if◌then◌else◌,
  ◌>>=◌,
}
use muen_orin.Status.{unavailable, malformed, not_probed}
use muen_orin.Fdt.Read.{be32}
use muen_orin.Fdt.Result.{DtResult, dt_limit}
use muen_orin.Fdt.Firmware.{parse_firmware_dt}
use muen_orin.Fdt.Declared.{parse_firmware_dt-FirmwareEnds}
use muen_orin.Probe.Guids.{guid_equal_lem}
use muen_orin.Probe.Search.{
  config_table_limit, guid_bytes, dt_guid, ConfigEntry, DtSearch, no_dt, Found, found, passed,
  take_entry, find_loop, searchable, end_search, find_dt,
}

-- A blob that `parse_firmware_dt` can read.
abbrev pub CanParse : List ℕ → Type 0
CanParse p =
    IsBytes p
    × (8 ≤ length p)
    × ((total : ℕ) → be32 p 4 ≡ some total → total ≤ dt_limit → total ≤ length p)

-- The entry at an index.
abbrev pub IsEntry : List ConfigEntry → ℕ → ConfigEntry → Type 0
IsEntry entries i e = load entries i ≡ some e

-- The first `n` entries can be read: each has a GUID of its size, and a device tree is readable.
abbrev pub CanSearch : List ConfigEntry → ℕ → Type 0
CanSearch entries n =
    (i : ℕ)
    → i < n
    → (e : ConfigEntry) × IsEntry entries i e
      × (length e.guid ≡ guid_bytes)
      × ((p : List ℕ) → e.table ≡ some p → CanParse p)

-- No entry from `low` on, in front of `n`, is a device tree.
abbrev pub NoneBelow : List ConfigEntry → ℕ → ℕ → Type 0
NoneBelow entries low n =
    (j : ℕ) → low ≤ j → j < n → (e : ConfigEntry) × IsEntry entries j e × (e.guid ≢ dt_guid)

-- The result at the entry `e`: a null table is malformed, and a table is parsed.
abbrev pub TakesEntry : ConfigEntry → DtResult → Type 0
TakesEntry e dt =
    ((e.table ≡ none) × (dt.state ≡ malformed) × (dt.detail ≡ some "table_null"))
    ⊎ ((p : List ℕ) × (e.table ≡ some p) × (parse_firmware_dt (some p) ≡ some dt))

NoneBelow-next :
    (entries : List ConfigEntry) (i n : ℕ) (e : ConfigEntry)
    → IsEntry entries i e
    → e.guid ≢ dt_guid
    → NoneBelow entries (i + 1) n
    → NoneBelow entries i n
NoneBelow-next entries i n e here other rest j low high = elim (Bool-cases (j == i)) [
  | inl same ↦ let q : j ≡ i = ground arith in rw q (e, here, other)
  | inr later ↦ rest j (ground arith) high
]

module _ (entries : List ConfigEntry) (n : ℕ) (readable : CanSearch entries n) where
  -- The loop from `i` ends at the first entry with the GUID, or behind all.
  pub data Finds (i : ℕ) (s : DtSearch) : Found → Type 0 where
    at :
        (j : ℕ) (e : ConfigEntry) (s' : DtSearch)
        → i ≤ j
        → j < n
        → NoneBelow entries i j
        → IsEntry entries j e
        → e.guid ≡ dt_guid
        → s'.searched ≡ j + 1
        → s'.total ≡ s.total
        → TakesEntry e s'.dt
        → Finds i s (found s')
    nowhere :
        (s' : DtSearch)
        → NoneBelow entries i n
        → s'.searched ≡ (if i == n then s.searched else n)
        → s'.total ≡ s.total
        → s'.dt ≡ s.dt
        → Finds i s (passed s')

  take_entry-TakesEntry :
      (e : ConfigEntry) (s : DtSearch)
      → ((p : List ℕ) → e.table ≡ some p → CanParse p)
      → (s' : DtSearch) × (take_entry e s ≡ some s')
        × (s'.searched ≡ s.searched)
        × (s'.total ≡ s.total)
        × TakesEntry e s'.dt
  unfolding take_entry
  take_entry-TakesEntry e s parses = elim (Option-cases e.table) [
    | inl null ↦ rw null (_, refl, refl, refl, inl (refl, refl, refl))
    | inr (p, there) ↦
        let (bytes, prefix, declared) = parses p there in
        let (dt, ran, _) = parse_firmware_dt-FirmwareEnds p bytes prefix declared in
        (record s { dt = dt }, rw (there, ran) refl, refl, refl, inr (p, there, ran))
  ]

  Finds-next :
      (i : ℕ) (e : ConfigEntry) (s : DtSearch) (f : Found)
      → i < n
      → IsEntry entries i e
      → e.guid ≢ dt_guid
      → Finds (i + 1) (record s { searched = i + 1 }) f
      → Finds i s f
  Finds-next i e s f below here other (at j d s' low high before found-at match count same taken) =
      at j d s' (omega arith) high (NoneBelow-next entries i j e here other before) found-at match
        count same taken
  Finds-next i e s f below here other (nowhere s' rest count same kept) =
      nowhere s' (NoneBelow-next entries i n e here other rest) (ground (arith, count)) same kept

  find_loop-Finds :
      (left i : ℕ) (s : DtSearch)
      → i + left ≡ n
      → (f : Found) × (find_loop entries left i s ≡ some f) × Finds i s f
  unfolding find_loop
  find_loop-Finds zero i s eq =
      (passed s, refl, nowhere s (λ j low high. absurd (omega arith)) (ground arith) refl refl)
  find_loop-Finds (suc left) i s eq =
      let below : i < n = omega arith in
      let (e, here, wide, parses) = readable i below in
      let (b, ran, verdict) = guid_equal_lem e.guid dt_guid wide refl in
      elim verdict [
        | inl (met, match) ↦
            let (s', took, count, same, taken) =
              take_entry-TakesEntry e (record s { searched = i + 1 }) parses in
            (
              found s',
              ground (arith, here, ran, met, took),
              at i e s' (omega arith) below (λ j low high. absurd (omega arith)) here match count
                  same taken,
            )
        | inr (differs, other) ↦
            let (f, rest, finds) =
              find_loop-Finds left (i + 1) (record s { searched = i + 1 }) (omega arith) in
            (f, ground (arith, here, ran, differs, rest), Finds-next i e s f below here other finds)
      ]

-- How a search ends, with `total` entries announced.
pub data SearchEnds (total : ℕ) (table : Option (List ConfigEntry)) (s : DtSearch) : Type 0 where
  empty : total ≡ 0 → s.searched ≡ 0 → s.dt.state ≡ unavailable → SearchEnds total table s
  null_table :
      total ≢ 0 → table ≡ none → s.searched ≡ 0 → s.dt.state ≡ malformed → SearchEnds total table s
  located :
      (entries : List ConfigEntry) (j : ℕ) (e : ConfigEntry)
      → table ≡ some entries
      → j < min total config_table_limit
      → NoneBelow entries 0 j
      → IsEntry entries j e
      → e.guid ≡ dt_guid
      → s.searched ≡ j + 1
      → TakesEntry e s.dt
      → SearchEnds total table s
  absent :
      (entries : List ConfigEntry)
      → table ≡ some entries
      → NoneBelow entries 0 (min total config_table_limit)
      → s.searched ≡ min total config_table_limit
      → ((total ≤ config_table_limit) × (s.dt.state ≡ unavailable))
        ⊎ ((config_table_limit < total) × (s.dt.state ≡ not_probed))
      → SearchEnds total table s

searchable-min : (total : ℕ) → searchable total ≡ min total config_table_limit
searchable-min total = ground arith

no_dt-total : (total : ℕ) → (no_dt total).total ≡ total
unfolding no_dt
no_dt-total total = refl

no_dt-state : (total : ℕ) → (no_dt total).dt.state ≡ unavailable
unfolding no_dt
no_dt-state total = refl

Finds-SearchEnds :
    (entries : List ConfigEntry) (total : ℕ) (readable : CanSearch entries (searchable total))
    (f : Found)
    → 0 < total
    → Finds entries (searchable total) readable 0 (no_dt total) f
    → SearchEnds total (some entries) (end_search f)
Finds-SearchEnds entries total readable f pos
      (at j e s low high before here match count same taken) =
    located entries j e refl (omega (arith, searchable-min total)) before here match count taken
Finds-SearchEnds entries total readable f pos (nowhere s rest count same kept) =
    let size : s.total ≡ total = same ∙ no_dt-total total in
    let all : s.searched ≡ searchable total = ground (arith, count) in
    let state : s.dt.state ≡ unavailable =
      ap (λ (d : DtResult). d.state) kept ∙ no_dt-state total in
    elim (Bool-cases (ltb (searchable total) total)) [
      | inl beyond ↦
          rw (size, beyond)
            (absent entries refl (subst (NoneBelow entries 0) (searchable-min total) rest)
              (all ∙ searchable-min total) (inr (ground arith, refl)))
      | inr inside ↦
          rw (size, inside)
            (absent entries refl (subst (NoneBelow entries 0) (searchable-min total) rest)
              (all ∙ searchable-min total) (inl (ground arith, state)))
    ]

-- When the announced entries, up to the limit, can be read and so can their device trees,
-- `find_dt` returns. With no entry the tree is unavailable, and a null table of entries is
-- malformed. Otherwise the search ends at the first entry with the GUID within the limit,
-- whose table is malformed if it is null and parsed if not, or it has passed all entries
-- within the limit: the tree is then unavailable, or not probed if there are more entries. The
-- number of entries searched is reported.
pub find_dt-SearchEnds :
    (total : ℕ) (table : Option (List ConfigEntry))
    → ((entries : List ConfigEntry) → table ≡ some entries → CanSearch entries (searchable total))
    → (s : DtSearch) × (find_dt total table ≡ some s) × SearchEnds total table s
unfolding find_dt no_dt
find_dt-SearchEnds zero table readable = (_, refl, empty refl refl refl)
find_dt-SearchEnds (suc n) none readable = (_, refl, null_table (omega arith) refl refl refl)
find_dt-SearchEnds (suc n) (some entries) readable =
    let (f, ran, finds) =
      find_loop-Finds entries (searchable (suc n)) (readable entries refl) (searchable (suc n)) 0
        (no_dt (suc n)) (omega arith) in
    (
      end_search f,
      ap (λ m. m >>= λ f. some (end_search f)) ran,
      Finds-SearchEnds entries (suc n) (readable entries refl) f (omega arith) finds,
    )
