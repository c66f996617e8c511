-- ===== src/Map/Presentable.antt =====
-- What every result of `parse_map` in tools/efi-inventory/core.c is fit for: to be put into the
-- record.
use muen_orin.Base.{
  ℕ, zero, suc, ◌+◌, ◌*◌, ◌/◌, ◌<◌, ◌^◌, ◌≡◌, inl, inr, ◌∙◌, subst, List, [], ◌∷◌, Option, none,
  some, Bool-cases, Option-cases, arith, length, length-set, IsBytes, IsDetail, Is64, All, load,
  load-byte, get_elem?-some-lt, set, u32, u64, take, drop, ltb, >>=-eq-some, ◌>>=◌,
}
use muen_orin.Status.{observed, malformed}
use muen_orin.Map.Parser.{
  Entry, Descriptor, MapResult, Round, go, return, reported_descriptors, descriptor_bytes,
  map_state, entry_of, copy_bytes, little_endian, descriptor_of, report_entry, descriptor_fault,
  check_descriptor, parse_round, parse_loop, argument_fault, initial_result, parse_map,
}
use muen_orin.Map.Copy.{little_endian-lt, IsBytes-drop}
use muen_orin.Map.Reasons.{
  All-set, EntryOk, IsPresentable, argument_fault-IsDetail, descriptor_fault-IsDetail, fault_detail,
  map_state-IsPresentable,
}

copy_bytes-IsBytes :
    (p : List ℕ) (base n : ℕ) (bytes : List ℕ)
    → IsBytes p
    → copy_bytes p base n ≡ some bytes
    → IsBytes bytes
unfolding copy_bytes
copy_bytes-IsBytes p base zero bytes h e = let same : [] ≡ bytes = cc e in subst IsBytes same tt
copy_bytes-IsBytes p base (suc n) bytes h e =
    let (b, here, k) = >>=-eq-some (load p base) _ e in
    let (rest, copied, built) = >>=-eq-some (copy_bytes p (base + 1) n) _ k in
    let (b', here', small) = load-byte p base h (get_elem?-some-lt p base here) in
    let same_byte : b' ≡ b = cc (here, here') in
    let same : b ∷ rest ≡ bytes = cc built in
    subst IsBytes same
      (omega (arith, small, same_byte), copy_bytes-IsBytes p (base + 1) n rest h copied)

descriptor_of-EntryOk : (bytes : List ℕ) → IsBytes bytes → EntryOk (entry_of (descriptor_of bytes))
unfolding descriptor_of
descriptor_of-EntryOk bytes h =
    let small : (k : ℕ) → little_endian (take 8 (drop k bytes)) < 256 ^ 8 =
      λ k. little_endian-lt 8 (drop k bytes) (IsBytes-drop k bytes h) in
    record {
      kind = omega (arith, little_endian-lt 4 bytes h);
      physical = small 8;
      pages = small 24;
      attributes = small 32;
    }

abbrev RoundOk : Round → Type 0
RoundOk (go r) = IsPresentable r
RoundOk (return r) = IsPresentable r

report_entry-EntryOk :
    (r : MapResult) (d : Descriptor) (entries : List Entry)
    → IsPresentable r
    → EntryOk (entry_of d)
    → report_entry r d ≡ some entries
    → (length entries ≡ reported_descriptors) × All EntryOk entries
unfolding report_entry
report_entry-EntryOk r d entries h k e = elim (Bool-cases (ltb r.count reported_descriptors)) [
  | inl below ↦
      let same : set r.entries r.count (entry_of d) ≡ entries = ground (arith, e, h.room) in
      subst (λ es. (length es ≡ reported_descriptors) × All EntryOk es) same
        (
          length-set r.entries r.count (entry_of d) ∙ h.room,
          All-set r.entries r.count (entry_of d) h.entries k,
        )
  | inr full ↦
      let same : r.entries ≡ entries = ground (arith, e) in
      subst (λ es. (length es ≡ reported_descriptors) × All EntryOk es) same (h.room, h.entries)
]

check_descriptor-RoundOk :
    (r : MapResult) (d : Descriptor) (round : Round)
    → IsPresentable r
    → EntryOk (entry_of d)
    → check_descriptor r d ≡ some round
    → RoundOk round
unfolding check_descriptor
check_descriptor-RoundOk r d round h k e = elim (Option-cases (descriptor_fault d)) [
  | inr (detail, bad) ↦
      let q : some (return (map_state malformed (some detail))) ≡ some round =
        rw (bad, check_descriptor) at e in
      let same : return (map_state malformed (some detail)) ≡ round = cc q in
      subst RoundOk same (
        map_state-IsPresentable malformed (some detail)
          (subst IsDetail bad (descriptor_fault-IsDetail d)))
  | inl good ↦
      let q : (report_entry r d >>= λ entries.
      some (go (record r { entries = entries; count = u32 (r.count + 1) })))
          ≡ some round =
        rw (good, check_descriptor) at e in
      let (entries, stored, built) = >>=-eq-some (report_entry r d) _ q in
      let same : go (record r { entries = entries; count = u32 (r.count + 1) }) ≡ round =
        cc built in
      let (room, ok) = report_entry-EntryOk r d entries h k stored in
      subst RoundOk same (record {
        detail = h.detail;
        count = omega arith;
        stride = h.stride;
        version = h.version;
        room = room;
        entries = ok;
      })
]

initial_result-IsPresentable :
    (stride version : ℕ) → Is64 version → IsPresentable (initial_result stride version)
unfolding initial_result
initial_result-IsPresentable stride version small =
    let k = map_state-IsPresentable observed none tt in
    record {
      detail = k.detail;
      count = k.count;
      stride = omega arith;
      version = small;
      room = k.room;
      entries = k.entries;
    }

round-IsPresentable :
    (k : MapResult → Option MapResult) (r' : MapResult) (round : Round)
    → RoundOk round
    → ((r : MapResult) → IsPresentable r → k r ≡ some r' → IsPresentable r')
    → elim round [ return r ↦ some r | go r ↦ k r ] ≡ some r'
    → IsPresentable r'
round-IsPresentable k r' (return r) ok later e =
    let same : r ≡ r' = cc e in subst IsPresentable same ok
round-IsPresentable k r' (go r) ok later e = later r ok e

module _ (p : List ℕ) (bytes : IsBytes p) (stride : ℕ) where
  parse_round-RoundOk :
      (i : ℕ) (r : MapResult) (round : Round)
      → IsPresentable r
      → parse_round p stride i r ≡ some round
      → RoundOk round
  unfolding parse_round
  parse_round-RoundOk i r round h e =
      let (copied, ran, checked) =
        >>=-eq-some (copy_bytes p (u64 (i * stride)) descriptor_bytes) _ e in
      check_descriptor-RoundOk r (descriptor_of copied) round h
        (descriptor_of-EntryOk copied (copy_bytes-IsBytes p _ _ copied bytes ran)) checked

  parse_loop-IsPresentable :
      (left i : ℕ) (r r' : MapResult)
      → IsPresentable r
      → parse_loop p stride left i r ≡ some r'
      → IsPresentable r'
  unfolding parse_loop
  parse_loop-IsPresentable zero i r r' h e = let same : r ≡ r' = cc e in subst IsPresentable same h
  parse_loop-IsPresentable (suc left) i r r' h e =
      let (round, ran, rest) = >>=-eq-some (parse_round p stride i r) _ e in
      round-IsPresentable (parse_loop p stride left (i + 1)) r' round
        (parse_round-RoundOk i r round h ran)
        (λ r₁ ok k. parse_loop-IsPresentable left (i + 1) r₁ r' ok k) rest

pub parse_map-IsPresentable :
    (p : List ℕ) (capacity len stride version : ℕ) (r : MapResult)
    → IsBytes p
    → Is64 version
    → parse_map (some p) capacity len stride version ≡ some r
    → IsPresentable r
unfolding parse_map
parse_map-IsPresentable p capacity len stride version r bytes small e =
    elim (Option-cases (argument_fault capacity len stride version)) [
      | inr ((s, detail), bad) ↦
          let q : some (map_state s (some detail)) ≡ some r = rw (bad, parse_map) at e in
          let same : map_state s (some detail) ≡ r = cc q in
          subst IsPresentable same (
            map_state-IsPresentable s (some detail) (
              subst (λ f. IsDetail (fault_detail f)) bad
                (argument_fault-IsDetail capacity len stride version)))
      | inl fine ↦
          let q : parse_loop p stride (len / stride) 0 (initial_result stride version) ≡ some r =
            rw (fine, parse_map) at e in
          parse_loop-IsPresentable p bytes stride (len / stride) 0 (initial_result stride version) r
            (initial_result-IsPresentable stride version small) q
    ]
