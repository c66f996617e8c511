-- ===== src/Map/Parser.antt =====
-- `range_ok`, `map_next_capacity` and `parse_map` of tools/efi-inventory/core.c. A buffer is the
-- list of the bytes that can be read from its start, and a null pointer is `none`.
use muen_orin.Base.{
  ℕ, zero, suc, ◌+◌, ◌*◌, ◌/◌, ◌%◌, ◌≡◌, refl, Bool, not, ◌||◌, String, List, [], ◌∷◌, Option, none,
  some, ltb, leb, ◌==◌, if◌then◌else◌, ◌>>=◌, load, store, take, drop, replicate, u32, u64, sub64,
  uint64_max,
}
use muen_orin.Efi.{efi_memory_descriptor_version}
use muen_orin.Status.{State, observed, unsupported, malformed}

abbrev pub map_limit : ℕ
map_limit = 256 * 1024

abbrev pub page_bytes : ℕ
page_bytes = 4096

abbrev pub reported_descriptors : ℕ
reported_descriptors = 12

-- `sizeof(EFI_MEMORY_DESCRIPTOR)`.
abbrev pub descriptor_bytes : ℕ
descriptor_bytes = 40

-- The fields of `EFI_MEMORY_DESCRIPTOR`; `pad` is never read.
pub record Descriptor : Type 0 where
  pub kind : ℕ
  pub physical : ℕ
  pub virtual_address : ℕ
  pub pages : ℕ
  pub attributes : ℕ

-- An element of `MapResult.entries`; `kind` is the field `type`.
pub record Entry : Type 0 where
  pub kind : ℕ
  pub physical : ℕ
  pub pages : ℕ
  pub attributes : ℕ

pub record MapResult : Type 0 where
  pub state : State
  pub detail : Option String
  pub count : ℕ
  pub stride : ℕ
  pub version : ℕ
  pub entries : List Entry

abbrev pub no_entry : Entry
no_entry = record { kind = 0; physical = 0; pages = 0; attributes = 0 }

-- A result with its other fields zeroed, as by a designated initialiser.
unfoldable pub map_state : State → Option String → MapResult
map_state s detail = record {
  state = s;
  detail = detail;
  count = 0;
  stride = 0;
  version = 0;
  entries = replicate reported_descriptors no_entry;
}

pub map_state-state : (s : State) (detail : Option String) → (map_state s detail).state ≡ s
unfolding map_state
map_state-state s detail = refl

unfoldable pub range_ok : ℕ → ℕ → Bool
range_ok start len = leb len (sub64 uint64_max start)

-- The result, and the value left in `*next`.
unfoldable pub map_next_capacity : ℕ → ℕ → ℕ → MapResult × ℕ
map_next_capacity capacity required stride =
    if ltb stride descriptor_bytes || ltb map_limit stride
    then (map_state malformed (some "too_small_stride"), 0)
    else if leb required capacity
    then (map_state malformed (some "too_small_inconsistent"), 0)
    else if ltb map_limit required || ltb (sub64 map_limit required) (u64 (2 * stride))
    then (map_state unsupported (some "size_limit"), 0)
    else (map_state observed none, u64 (required + u64 (2 * stride)))

-- `for (j = 0; j < n; ++j) t[j] = s[j]`, for `s` at the offset `base` of the buffer.
unfoldable pub copy_bytes : List ℕ → ℕ → ℕ → Option (List ℕ)
copy_bytes p base zero = some []
copy_bytes p base (suc n) = do b ← load p base; rest ← copy_bytes p (base + 1) n; some (b ∷ rest)

-- The little-endian number in a row of bytes: the targets are little-endian.
unfoldable pub little_endian : List ℕ → ℕ
little_endian [] = 0
little_endian (b ∷ bs) = b + 256 * little_endian bs

-- The object `d` after its bytes are copied, by the offsets that efi.h asserts.
unfoldable pub descriptor_of : List ℕ → Descriptor
descriptor_of bytes = record {
  kind = little_endian (take 4 bytes);
  physical = little_endian (take 8 (drop 8 bytes));
  virtual_address = little_endian (take 8 (drop 16 bytes));
  pages = little_endian (take 8 (drop 24 bytes));
  attributes = little_endian (take 8 (drop 32 bytes));
}

abbrev pub entry_of : Descriptor → Entry
entry_of d = record {
  kind = d.kind;
  physical = d.physical;
  pages = d.pages;
  attributes = d.attributes;
}

-- What one round of the loop does: go on with the result so far, or return.
pub data Round : Type 0 where
  go : MapResult → Round
  return : MapResult → Round

-- `if (r.count<REPORTED_DESCRIPTORS) { r.entries[r.count] = … }`.
unfoldable pub report_entry : MapResult → Descriptor → Option (List Entry)
report_entry r d =
    if ltb r.count reported_descriptors
    then store r.entries r.count (entry_of d)
    else some r.entries

-- The three tests on a descriptor, in order: the detail of the first that fails.
unfoldable pub descriptor_fault : Descriptor → Option String
unfolding range_ok
descriptor_fault d =
    if ltb (uint64_max / page_bytes) d.pages
    then some "pages_overflow"
    else let bytes = u64 (d.pages * page_bytes) in
      if not (range_ok d.physical bytes) || not (range_ok d.virtual_address bytes)
      then some "range_overflow"
      else if not (d.physical % page_bytes == 0)
      then some "unaligned_physical"
      else none

unfoldable pub check_descriptor : MapResult → Descriptor → Option Round
check_descriptor r d = elim (descriptor_fault d) [
  | some detail ↦ some (return (map_state malformed (some detail)))
  | none ↦ do
    entries ← report_entry r d
    some (go (record r { entries = entries; count = u32 (r.count + 1) }))
]

-- The body of the loop, at index `i`.
unfoldable pub parse_round : List ℕ → ℕ → ℕ → MapResult → Option Round
parse_round p stride i r = do
  bytes ← copy_bytes p (u64 (i * stride)) descriptor_bytes
  check_descriptor r (descriptor_of bytes)

-- The loop at index `i`, with `left` rounds to go.
unfoldable pub parse_loop : List ℕ → ℕ → ℕ → ℕ → MapResult → Option MapResult
parse_loop p stride zero i r = some r
parse_loop p stride (suc left) i r = parse_round p stride i r >>= λ round. elim round [
  | return r' ↦ some r'
  | go r' ↦ parse_loop p stride left (i + 1) r'
]

-- The tests before the loop, in order, on a buffer that is not null: the state and detail of
-- the first that fails.
unfoldable pub argument_fault : ℕ → ℕ → ℕ → ℕ → Option (State × String)
argument_fault capacity len stride version =
    if capacity == 0 || ltb map_limit capacity
    then some (malformed, "buffer")
    else if ltb capacity len
    then some (malformed, "size_exceeds_buffer")
    else if not (version == efi_memory_descriptor_version)
    then some (unsupported, "descriptor_version")
    else if ltb stride descriptor_bytes || ltb capacity stride
    then some (malformed, "stride")
    else if len == 0
    then some (malformed, "empty")
    else if not (len % stride == 0)
    then some (malformed, "partial_descriptor")
    else none

-- `MapResult r={.state=OBSERVED,.stride=(uint32_t)stride,.version=version}`.
unfoldable pub initial_result : ℕ → ℕ → MapResult
unfolding map_state
initial_result stride version = record (map_state observed none) {
  stride = u32 stride;
  version = version;
}

unfoldable pub parse_map : Option (List ℕ) → ℕ → ℕ → ℕ → ℕ → Option MapResult
parse_map none capacity len stride version = some (map_state malformed (some "buffer"))
parse_map (some p) capacity len stride version = elim (argument_fault capacity len stride version) [
  | some (s, detail) ↦ some (map_state s (some detail))
  | none ↦ parse_loop p stride (len / stride) 0 (initial_result stride version)
]
