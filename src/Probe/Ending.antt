-- ===== src/Probe/Ending.antt =====
-- The end of a run of tools/efi-inventory/probe.c: the record is printed whole, or not at all.
use muen_orin.Base.{
  ℕ, suc, ◌≤◌, ◌<◌, ◌≡◌, ◌∙◌, List, [], ◌∷◌, ◌++◌, some, true, false, Bool-cases, ◌⊎◌, inl, inr,
  length, arith, get_elem?, ltb, not, ◌==◌, if◌then◌else◌,
}
use muen_orin.Efi.{efi_success, efi_buffer_too_small}
use muen_orin.Writer.Put.{Writer, new_writer}
use muen_orin.Writer.Stream.{Received, Shows, new_writer-Shows}
use muen_orin.Writer.RoundTrip.{IsPrintable}
use muen_orin.Probe.Console.{Output}
use muen_orin.Probe.Report.{line_end, banner, truncation_marker, c_string, report}
use muen_orin.Probe.Reported.{Gives, whole-Gives, marker-Gives}
use muen_orin.Probe.Record.{Findings, build_record}
use muen_orin.Probe.Recorded.{IsReportable, build_record-Says}
use muen_orin.Probe.Main.{record_capacity}

-- An array that holds a printable text and a NUL behind it.
c_string-printable :
    (array text : List ℕ)
    → IsPrintable text
    → ((i : ℕ) → i < length text → get_elem? array i ≡ get_elem? text i)
    → get_elem? array (length text) ≡ some 0
    → c_string array ≡ some text
unfolding c_string
c_string-printable [] [] h same nul = absurd (cc)
c_string-printable [] (c ∷ text) h same nul = absurd (cc)
c_string-printable (x ∷ array) [] h same nul = ground (arith, nul)
c_string-printable (x ∷ array) (c ∷ text) h same nul =
    let head : some x ≡ some c = same 0 (omega arith) in
    let rest : c_string array ≡ some text =
      c_string-printable array text h.1 (λ i below. same (suc i) (omega arith)) nul in
    ground (arith, head, rest, h.0)

Shows-c_string :
    (w : Writer) (text : List ℕ)
    → Shows w text
    → IsPrintable text
    → length text < w.capacity
    → c_string w.data_bytes ≡ some text
Shows-c_string w text h printable room =
    let all : w.len ≡ length text = omega (arith, h.received.len_is) in
    c_string-printable w.data_bytes text printable
      (λ i below. h.received.prefix i (omega (arith, all))) (rw all at h.nul (omega arith))

-- What is shown and returned for a record of the given text.
abbrev pub EndsWith : {σ : Type 0} → Output σ → ℕ → List ℕ → Writer → Type 0
EndsWith out release_status text w =
    ((length text < record_capacity)
      × Gives out (banner ++ (text ++ (line_end ++ []))) release_status
          (report (some out) release_status w))
    ⊎ ((record_capacity ≤ length text)
        × Gives out (banner ++ (truncation_marker ++ []))
            (if not (release_status == efi_success) then release_status else efi_buffer_too_small)
            (report (some out) release_status w))

record_fits :
    (w : Writer) (text : List ℕ)
    → Received w text
    → w.capacity ≡ record_capacity
    → length text < record_capacity
    → w.is_truncated ≡ false
record_fits w text h size room = h.truncated_is ∙ ground (arith, size)

record_cut :
    (w : Writer) (text : List ℕ)
    → Received w text
    → w.capacity ≡ record_capacity
    → record_capacity ≤ length text
    → w.is_truncated ≡ true
record_cut w text h size long = h.truncated_is ∙ ground (arith, size)

module _ {σ : Type 0} (out : Output σ) (release_status : ℕ) where
  report-EndsWith :
      (w : Writer) (text : List ℕ)
      → Shows w text
      → IsPrintable text
      → w.capacity ≡ record_capacity
      → EndsWith out release_status text w
  report-EndsWith w text h printable size = elim (Bool-cases (ltb (length text) record_capacity)) [
    | inl fits ↦
        let room : length text < record_capacity = ground arith in
        let shown_whole : w.is_truncated ≡ false = record_fits w text h.received size room in
        inl (
          room,
          whole-Gives out release_status w text shown_whole
              (Shows-c_string w text h printable (omega (arith, size))),
        )
    | inr long ↦
        let over : record_capacity ≤ length text = ground arith in
        let shown_cut : w.is_truncated ≡ true = record_cut w text h.received size over in
        inr (over, marker-Gives out release_status w shown_cut)
  ]

  -- For reportable findings, `build_record` returns on an empty record. On a console that has
  -- taken all earlier chunks, the rest of `efi_main` then prints the banner, the whole text of
  -- the record and a line end, in order, and returns the release status, if the text and its
  -- NUL fit; if not, it prints the banner and only the truncation marker, and returns the
  -- release status if it is not a success, and else that the buffer is too small. An error of
  -- the console ends the output, and is returned.
  pub record-EndsWith :
      (f : Findings) (h : IsReportable f)
      → (w : Writer) × (build_record f (new_writer record_capacity) ≡ some w)
        × EndsWith out release_status (build_record-Says f h).text w
  record-EndsWith f h =
      let says = build_record-Says f h in
      let (w, e, shows, size) =
        says.emits.emit (new_writer record_capacity) []
          (new_writer-Shows record_capacity (omega arith)) in
      (w, e, report-EndsWith w says.text shows says.printable size)
