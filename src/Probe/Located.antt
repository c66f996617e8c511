-- ===== src/Probe/Located.antt =====
-- What `find_dt` of tools/efi-inventory/probe.c finds is fit for the record.
use muen_orin.Base.{
  ℕ, zero, suc, ◌+◌, ◌≡◌, ◌≢◌, inl, inr, subst, refl, List, [], ◌∷◌, String, Option, none, some,
  Bool, true, false, Bool-cases, Option-cases, ltb, ◌==◌, arith, load, get_elem?, IsDetail, Is64,
  >>=-eq-some, ◌>>=◌,
}
use muen_orin.Status.{State, observed, unavailable, malformed, not_probed}
use muen_orin.Fdt.Result.{DtResult, blank}
use muen_orin.Fdt.Firmware.{parse_firmware_dt}
use muen_orin.Fdt.Presentable.{IsPresentable, parse_firmware_dt-IsPresentable}
use muen_orin.Probe.Search.{
  dt_guid, guid_equal, ConfigEntry, DtSearch, no_dt, Found, found, passed, take_entry, find_loop,
  searchable, end_search, find_dt,
}
use muen_orin.Probe.Searched.{CanParse, CanSearch}
use muen_orin.Probe.Report.{c_string}
use muen_orin.Probe.Recorded.{DtOk}

-- A text that ends in its array can be passed on.
pub c_string-total :
    (array : List ℕ) (n : ℕ)
    → get_elem? array n ≡ some 0
    → (text : List ℕ) × (c_string array ≡ some text)
unfolding c_string
c_string-total [] n nul = absurd (cc nul)
c_string-total (c ∷ array) zero nul = ([], ground (arith, nul))
c_string-total (c ∷ array) (suc n) nul = elim (Bool-cases (c == 0)) [
  | inl here ↦ ([], rw here refl)
  | inr later ↦ let (text, e) = c_string-total array n nul in (c ∷ text, rw (later, e) refl)
]

record SearchOk (s : DtSearch) : Type 0 where
  dt : IsPresentable s.dt
  searched : Is64 s.searched
  total : Is64 s.total

SearchOk-DtOk : (s : DtSearch) → SearchOk s → DtOk s
SearchOk-DtOk s h =
    let (n, nul) = h.dt.text in
    let (text, e) = c_string-total s.dt.model n nul in
    record {
      detail = h.dt.detail;
      searched = h.searched;
      total = h.total;
      size = λ seen. (h.dt.sizes seen).0;
      version = λ seen. (h.dt.sizes seen).1;
      last_comp_version = λ seen. (h.dt.sizes seen).2;
      model_length = h.dt.short;
      model_text = text;
      has_nul = e;
    }

unseen-IsPresentable :
    (r : DtResult) (s : State) (d : String)
    → IsPresentable r
    → s ≢ observed
    → IsDetail (some d)
    → IsPresentable (record r { state = s; detail = some d })
unseen-IsPresentable r s d h ne literal = record {
  detail = literal;
  text = h.text;
  short = h.short;
  sizes = λ e. absurd (ne e);
}

blank-IsPresentable : IsPresentable blank
unfolding blank
blank-IsPresentable = record {
  detail = tt;
  text = (0, refl);
  short = omega arith;
  sizes = λ e. absurd (cc e);
}

no_dt-SearchOk : (total : ℕ) → Is64 total → SearchOk (no_dt total)
unfolding no_dt
no_dt-SearchOk total small = record {
  dt = unseen-IsPresentable blank unavailable "absent" blank-IsPresentable (λ e. cc) refl;
  searched = omega arith;
  total = small;
}

take_entry-SearchOk :
    (entry : ConfigEntry) (s s' : DtSearch)
    → ((p : List ℕ) → entry.table ≡ some p → CanParse p)
    → SearchOk s
    → take_entry entry s ≡ some s'
    → SearchOk s'
unfolding take_entry
take_entry-SearchOk entry s s' parses h e = elim (Option-cases entry.table) [
  | inl null ↦
      let q : some
            (record s { dt = record (s.dt) { state = malformed; detail = some "table_null" } })
          ≡ some s' =
        rw (null, take_entry) at e in
      let same : record s { dt = record (s.dt) { state = malformed; detail = some "table_null" } }
          ≡ s' =
        cc q in
      subst SearchOk same (record {
        dt = unseen-IsPresentable s.dt malformed "table_null" h.dt (λ e. cc) refl;
        searched = h.searched;
        total = h.total;
      })
  | inr (p, there) ↦
      let q : (parse_firmware_dt (some p) >>= λ dt. some (record s { dt = dt })) ≡ some s' =
        rw (there, take_entry) at e in
      let (dt, ran, built) = >>=-eq-some (parse_firmware_dt (some p)) _ q in
      let same : record s { dt = dt } ≡ s' = cc built in
      let (bytes, prefix, declared) = parses p there in
      subst SearchOk same (record {
        dt = parse_firmware_dt-IsPresentable p dt bytes prefix declared ran;
        searched = h.searched;
        total = h.total;
      })
]

abbrev FoundOk : Found → Type 0
FoundOk (found s) = SearchOk s
FoundOk (passed s) = SearchOk s

end_search-SearchOk : (f : Found) → FoundOk f → SearchOk (end_search f)
end_search-SearchOk (found s) h = h
end_search-SearchOk (passed s) h = elim (Bool-cases (ltb (searchable s.total) s.total)) [
  | inl more ↦ rw more (record {
    dt = unseen-IsPresentable s.dt not_probed "search_limit" h.dt (λ e. cc) refl;
    searched = h.searched;
    total = h.total;
  })
  | inr all ↦ rw all h
]

searched-SearchOk :
    (s : DtSearch) (n : ℕ) → SearchOk s → Is64 n → SearchOk (record s { searched = n })
searched-SearchOk s n h small = record { dt = h.dt; searched = small; total = h.total }

module _ (entries : List ConfigEntry) (n : ℕ) (small : Is64 n)
    (readable : CanSearch entries n) where
  matched-FoundOk :
      (match : Bool) (entry : ConfigEntry) (s : DtSearch) (later : Option Found) (f : Found)
      → ((p : List ℕ) → entry.table ≡ some p → CanParse p)
      → SearchOk s
      → (later ≡ some f → FoundOk f)
      → elim match [ true ↦ (take_entry entry s >>= λ s'. some (found s')) | false ↦ later ]
        ≡ some f
      → FoundOk f
  matched-FoundOk false entry s later f parses h rest e = rest e
  matched-FoundOk true entry s later f parses h rest e =
      let (s', took, built) = >>=-eq-some (take_entry entry s) _ e in
      let same : found s' ≡ f = cc built in
      subst FoundOk same (take_entry-SearchOk entry s s' parses h took)

  find_loop-FoundOk :
      (left i : ℕ) (s : DtSearch) (f : Found)
      → i + left ≡ n
      → SearchOk s
      → find_loop entries left i s ≡ some f
      → FoundOk f
  unfolding find_loop
  find_loop-FoundOk zero i s f eq h e = let same : passed s ≡ f = cc e in subst FoundOk same h
  find_loop-FoundOk (suc left) i s f eq h e =
      let (entry, loaded, k) = >>=-eq-some (load entries i) _ e in
      let (match, compared, rest) = >>=-eq-some (guid_equal entry.guid dt_guid) _ k in
      let (entry', loaded', _, parses) = readable i (omega arith) in
      let same : entry' ≡ entry = cc (loaded, loaded') in
      let counted : SearchOk (record s { searched = i + 1 }) =
        searched-SearchOk s (i + 1) h (omega arith) in
      matched-FoundOk match entry (record s { searched = i + 1 })
        (find_loop entries left (i + 1) (record s { searched = i + 1 })) f
        (subst (λ (d : ConfigEntry). (p : List ℕ) → d.table ≡ some p → CanParse p) same parses)
        counted
        (find_loop-FoundOk left (i + 1) (record s { searched = i + 1 }) f (omega arith) counted)
        rest

pub find_dt-DtOk :
    (total : ℕ) (table : Option (List ConfigEntry)) (s : DtSearch)
    → Is64 total
    → ((entries : List ConfigEntry) → table ≡ some entries → CanSearch entries (searchable total))
    → find_dt total table ≡ some s
    → DtOk s
unfolding find_dt
find_dt-DtOk zero table s small readable e =
    let same : no_dt 0 ≡ s = cc e in
    subst DtOk same (SearchOk-DtOk (no_dt 0) (no_dt-SearchOk 0 small))
find_dt-DtOk (suc n) none s small readable e =
    let empty : SearchOk (no_dt (suc n)) = no_dt-SearchOk (suc n) small in
    let same : record (no_dt (suc n)) {
      dt = record ((no_dt (suc n)).dt) { state = malformed; detail = some "config_table_null" };
    }
        ≡ s =
      cc e in
    subst DtOk same (
      SearchOk-DtOk _ (record {
        dt = unseen-IsPresentable _ malformed "config_table_null" empty.dt (λ e. cc) refl;
        searched = empty.searched;
        total = empty.total;
      }))
find_dt-DtOk (suc n) (some entries) s small readable e =
    let (f, ran, built) =
      >>=-eq-some (find_loop entries (searchable (suc n)) 0 (no_dt (suc n))) _ e in
    let same : end_search f ≡ s = cc built in
    let found_ok : FoundOk f =
      find_loop-FoundOk entries (searchable (suc n)) (ground arith) (readable entries refl)
        (searchable (suc n)) 0 (no_dt (suc n)) f (omega arith) (no_dt-SearchOk (suc n) small) ran in
    subst DtOk same (SearchOk-DtOk (end_search f) (end_search-SearchOk f found_ok))
