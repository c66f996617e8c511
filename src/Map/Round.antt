-- ===== src/Map/Round.antt =====
-- One round of the descriptor loop of `parse_map` in tools/efi-inventory/core.c.
use muen_orin.Base.{
  IsBytes, u64, Option-cases, ltb, ◌==◌, ◌∙◌, Bool-cases, Option, ℕ, ◌+◌, ◌*◌, ◌^◌, ◌≤◌, ◌<◌, ◌≡◌,
  ◌⊎◌, inl, inr, List, none, some, arith, length, u32, get_elem?, set, length-set,
  get_elem?-set_self, get_elem?-set_ne, refl,
}
use muen_orin.Status.{malformed}
use muen_orin.Map.Parser.{
  Descriptor, Entry, entry_of, MapResult, map_state, reported_descriptors, descriptor_bytes, Round,
  go, return, check_descriptor, descriptor_fault, report_entry, parse_round,
}
use muen_orin.Map.Copy.{descriptor_at, descriptor_at-lt, copy_bytes_lem}
use muen_orin.Map.Valid.{IsValid, Holds, IsRefusal}

abbrev Is64 : Descriptor → Type 0
Is64 d = (d.physical < 2 ^ 64) × (d.virtual_address < 2 ^ 64) × (d.pages < 2 ^ 64)

-- The three tests together decide `IsValid`.
descriptor_fault-none : (d : Descriptor) → Is64 d → descriptor_fault d ≡ none → IsValid d
unfolding descriptor_fault
descriptor_fault-none d h e = ground arith

descriptor_fault-IsValid : (d : Descriptor) → Is64 d → IsValid d → descriptor_fault d ≡ none
unfolding descriptor_fault
descriptor_fault-IsValid d h v = ground arith

module _ (p : List ℕ) (stride version : ℕ) where
  module _ (i : ℕ) (r : MapResult) (small : i + 1 < 2 ^ 32) (h : Holds p stride version i r) where
    abbrev next_entry : Entry
    next_entry = entry_of (descriptor_at p (i * stride))

    -- The new entry is listed under its index, and the older ones stay.
    listed_next :
        i < reported_descriptors
        → (j : ℕ) → j < i + 1
        → j < reported_descriptors
        → get_elem? (set r.entries i next_entry) j ≡ some (entry_of (descriptor_at p (j * stride)))
    listed_next room j below reported = elim (Bool-cases (j == i)) [
      | inl same ↦
          let e : j ≡ i = ground arith in
          rw e (get_elem?-set_self r.entries i next_entry (omega (arith, h.room)))
      | inr other ↦
          get_elem?-set_ne r.entries i j next_entry (ground arith)
          ∙ h.listed j (ground arith) reported
    ]

    report_entry-Holds :
        (es : List Entry) × (report_entry r (descriptor_at p (i * stride)) ≡ some es)
        × Holds p stride version (i + 1) (record r { entries = es; count = u32 (r.count + 1) })
    unfolding report_entry
    report_entry-Holds = elim (Bool-cases (ltb i reported_descriptors)) [
      | inl room ↦ (
        set r.entries i next_entry,
        ground (arith, h.room, h.count_is),
        record {
          state_ok = h.state_ok;
          no_detail = h.no_detail;
          count_is = omega (arith, h.count_is);
          stride_is = h.stride_is;
          version_is = h.version_is;
          room = length-set r.entries i next_entry ∙ h.room;
          listed = listed_next (ground arith);
        },
      )
      | inr full ↦ (
        r.entries,
        ground (arith, h.count_is),
        record {
          state_ok = h.state_ok;
          no_detail = h.no_detail;
          count_is = omega (arith, h.count_is);
          stride_is = h.stride_is;
          version_is = h.version_is;
          room = h.room;
          listed = λ j below reported. h.listed j (ground arith) reported;
        },
      )
    ]

  abbrev pub ValidAt : ℕ → Type 0
  ValidAt j = IsValid (descriptor_at p (j * stride))

  -- How a round at index `i` ends.
  abbrev pub RoundEnds : ℕ → Option Round → Type 0
  RoundEnds i m =
      (ValidAt i × ((r : MapResult) × (m ≡ some (go r)) × Holds p stride version (i + 1) r))
      ⊎ ((¬ (ValidAt i)) × ((r : MapResult) × (m ≡ some (return r)) × IsRefusal r))

  pub parse_round_lem :
      (i : ℕ) (r : MapResult)
      → i * stride + descriptor_bytes ≤ length p
      → i * stride < 2 ^ 64
      → parse_round p stride i r ≡ check_descriptor r (descriptor_at p (i * stride))
  unfolding parse_round descriptor_at
  parse_round_lem i r inside index =
      let here : u64 (i * stride) ≡ i * stride = omega arith in
      rw (here, copy_bytes_lem p (i * stride) descriptor_bytes inside)

  pub check_descriptor-RoundEnds :
      (i : ℕ) (r : MapResult)
      → IsBytes p
      → i + 1 < 2 ^ 32
      → Holds p stride version i r
      → RoundEnds i (check_descriptor r (descriptor_at p (i * stride)))
  unfolding check_descriptor
  check_descriptor-RoundEnds i r bytes small h =
      let d = descriptor_at p (i * stride) in
      let is64 : Is64 d = descriptor_at-lt p (i * stride) bytes in
      elim (Option-cases (descriptor_fault d)) [
        | inl fine ↦
            let (es, e, holds) = report_entry-Holds i r small h in
            inl (descriptor_fault-none d is64 fine, (_, rw (fine, check_descriptor, e), holds))
        | inr (detail, bad) ↦ inr (
          (λ v. cc (descriptor_fault-IsValid d is64 v)),
          (map_state malformed (some detail), rw (bad, check_descriptor), (detail, refl)),
        )
      ]
