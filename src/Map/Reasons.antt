-- ===== src/Map/Reasons.antt =====
-- Every refusal of the map parser of tools/efi-inventory/core.c is fit to be put into the record.
use muen_orin.Base.{
  uint64_max, ◌==◌, ◌||◌, not, ℕ, zero, suc, ◌*◌, ◌/◌, ◌%◌, ◌≡◌, inl, inr, refl, List, [], ◌∷◌,
  String, Option, none, some, Bool-cases, arith, length, length-replicate, IsDetail, Is64, All, set,
  replicate, u64, ltb,
}
use muen_orin.Status.{State}
use muen_orin.Efi.{efi_memory_descriptor_version}
use muen_orin.Map.Parser.{
  map_limit, page_bytes, range_ok, Entry, Descriptor, MapResult, reported_descriptors,
  descriptor_bytes, no_entry, map_state, descriptor_fault, argument_fault,
}

pub record EntryOk (e : Entry) : Type 0 where
  pub kind : Is64 e.kind
  pub physical : Is64 e.physical
  pub pages : Is64 e.pages
  pub attributes : Is64 e.attributes

-- A printable detail, numbers of 64 bits, and the entries of the array.
pub record IsPresentable (m : MapResult) : Type 0 where
  pub detail : IsDetail m.detail
  pub count : Is64 m.count
  pub stride : Is64 m.stride
  pub version : Is64 m.version
  pub room : length m.entries ≡ reported_descriptors
  pub entries : All EntryOk m.entries

All-replicate : (n : ℕ) (e : Entry) → EntryOk e → All EntryOk (replicate n e)
All-replicate zero e h = tt
All-replicate (suc n) e h = (h, All-replicate n e h)

pub All-set :
    (es : List Entry) (i : ℕ) (e : Entry) → All EntryOk es → EntryOk e → All EntryOk (set es i e)
All-set [] i e hs h = tt
All-set (x ∷ es) zero e hs h = (h, hs.1)
All-set (x ∷ es) (suc i) e hs h = (hs.0, All-set es i e hs.1 h)

no_entry-EntryOk : EntryOk no_entry
no_entry-EntryOk = record {
  kind = omega arith;
  physical = omega arith;
  pages = omega arith;
  attributes = omega arith;
}

pub map_state-IsPresentable :
    (s : State) (d : Option String) → IsDetail d → IsPresentable (map_state s d)
unfolding map_state
map_state-IsPresentable s d h = record {
  detail = h;
  count = omega arith;
  stride = omega arith;
  version = omega arith;
  room = length-replicate reported_descriptors no_entry;
  entries = All-replicate reported_descriptors no_entry no_entry-EntryOk;
}

-- Each reason of a refusal is printable.
pub descriptor_fault-IsDetail : (d : Descriptor) → IsDetail (descriptor_fault d)
unfolding descriptor_fault
descriptor_fault-IsDetail d = elim (Bool-cases (ltb (uint64_max / page_bytes) d.pages)) [
  | inl bad ↦ rw bad refl
  | inr good ↦
      rw good
        (elim (Bool-cases (
          not (range_ok d.physical (u64 (d.pages * page_bytes)))
          || not (range_ok d.virtual_address (u64 (d.pages * page_bytes))))) [
            | inl bad ↦ rw bad refl
            | inr good ↦ rw good (elim (Bool-cases (not (d.physical % page_bytes == 0))) [
              | inl bad ↦ rw bad refl
              | inr good ↦ rw good (tt)
            ])
          ])
]

-- The detail of a refusal in front of the loop.
abbrev pub fault_detail : Option (State × String) → Option String
fault_detail none = none
fault_detail (some (s, d)) = some d

pub argument_fault-IsDetail :
    (capacity len stride version : ℕ)
    → IsDetail (fault_detail (argument_fault capacity len stride version))
unfolding argument_fault
argument_fault-IsDetail capacity len stride version =
    elim (Bool-cases (capacity == 0 || ltb map_limit capacity)) [
      | inl bad ↦ rw bad refl
      | inr good ↦ rw good (elim (Bool-cases (ltb capacity len)) [
        | inl bad ↦ rw bad refl
        | inr good ↦ rw good (elim (Bool-cases (not (version == efi_memory_descriptor_version))) [
          | inl bad ↦ rw bad refl
          | inr good ↦
              rw good (elim (Bool-cases (ltb stride descriptor_bytes || ltb capacity stride)) [
                | inl bad ↦ rw bad refl
                | inr good ↦ rw good (elim (Bool-cases (len == 0)) [
                  | inl bad ↦ rw bad refl
                  | inr good ↦ rw good (elim (Bool-cases (not (len % stride == 0))) [
                    | inl bad ↦ rw bad refl
                    | inr good ↦ rw good (tt)
                  ])
                ])
              ])
        ])
      ])
    ]
