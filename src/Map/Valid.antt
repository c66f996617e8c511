-- ===== src/Map/Valid.antt =====
-- What `parse_map` of tools/efi-inventory/core.c accepts, stated without its tests.
use muen_orin.Base.{ℕ, ◌+◌, ◌*◌, ◌%◌, ◌^◌, ◌<◌, ◌≡◌, List, String, none, some, length, get_elem?}
use muen_orin.Status.{observed, malformed}
use muen_orin.Map.Parser.{
  Descriptor, entry_of, MapResult, map_state, page_bytes, reported_descriptors,
}
use muen_orin.Map.Copy.{descriptor_at}

-- A descriptor whose physical and virtual ranges end below 2 ^ 64, with an aligned start.
pub record IsValid (d : Descriptor) : Type 0 where
  pub physical_end : d.physical + d.pages * page_bytes < 2 ^ 64
  pub virtual_end : d.virtual_address + d.pages * page_bytes < 2 ^ 64
  pub aligned : d.physical % page_bytes ≡ 0

-- The result so far holds the first `n` descriptors of the map at `p`.
pub record Holds (p : List ℕ) (stride version n : ℕ) (r : MapResult) : Type 0 where
  pub state_ok : r.state ≡ observed
  pub no_detail : r.detail ≡ none
  pub count_is : r.count ≡ n
  pub stride_is : r.stride ≡ stride
  pub version_is : r.version ≡ version
  pub room : length r.entries ≡ reported_descriptors
  pub listed :
      (j : ℕ)
      → j < n
      → j < reported_descriptors
      → get_elem? r.entries j ≡ some (entry_of (descriptor_at p (j * stride)))

-- A refusal: malformed, with a reason, and no descriptor reported.
abbrev pub IsRefusal : MapResult → Type 0
IsRefusal r = (d : String) × (r ≡ map_state malformed (some d))
