-- ===== src/Probe/Run.antt =====
-- `efi_main` of tools/efi-inventory/probe.c, whole.
use muen_orin.Base.{
  ℕ, ◌≡◌, inl, inr, ltb, refl, arith, Option-cases, List, [], ◌++◌, Option, none, some, All, true,
  false, not, ◌==◌, length, Is64, if◌then◌else◌,
}
use muen_orin.Efi.{efi_success, efi_buffer_too_small, efi_invalid_parameter, efi_unsupported}
use muen_orin.Writer.Put.{Writer}
use muen_orin.Probe.World.{World, holding, nothing}
use muen_orin.Probe.Ownership.{IsSmall}
use muen_orin.Probe.Console.{Output}
use muen_orin.Probe.Printed.{IsTaken}
use muen_orin.Probe.Report.{line_end, banner, truncation_marker, report}
use muen_orin.Probe.Reported.{Outcome}
use muen_orin.Probe.Record.{Findings}
use muen_orin.Probe.Recorded.{IsReportable, build_record-Says}
use muen_orin.Probe.Json.{IsJson}
use muen_orin.Probe.Main.{SystemTable, record_capacity, efi_main}
use muen_orin.Probe.Observed.{IsReadableSystem, IsObservation, observe-IsObservation}
use muen_orin.Probe.Ending.{EndsWith, record-EndsWith}
use muen_orin.Probe.Acquired.{IsQuiet}
use muen_orin.Probe.Fit.{IsWideSystem, observe-IsReportable}

-- What is printed for a record of the given text, and what is returned when it is all printed.
abbrev pub output_of : List ℕ → ℕ → List ℕ × ℕ
output_of text release_status =
    if ltb (length text) record_capacity
    then (banner ++ (text ++ (line_end ++ [])), release_status)
    else (
      banner ++ (truncation_marker ++ []),
      (if not (release_status == efi_success) then release_status else efi_buffer_too_small),
    )

-- The observations have been made, up to the world `seen`, and their record has been printed, up
-- to the first error of the console.
pub record MainEnds {σ : Type 0} (st : SystemTable σ) (image current_el : ℕ) (start : World σ)
    (r : ℕ × World σ) : Type 0 where
  pub findings : Findings
  pub seen : World σ
  pub observed : IsObservation st image current_el start findings seen
  pub quiet : IsQuiet start.calls seen.calls
  pub reportable : IsReportable findings
  pub json : IsJson (build_record-Says findings reportable).text
  pub outcome :
      let printed =
        output_of
          (build_record-Says findings reportable).text
          findings.acquisition.release_status in
      Outcome printed.0 printed.1 seen.calls r.0 r.1.calls

-- The three ways out of the function.
pub data Returns {σ : Type 0} (table : Option (SystemTable σ)) (image current_el : ℕ) (w : World σ)
    (r : ℕ × World σ) : Type 0 where
  no_table : table ≡ none → r ≡ (efi_invalid_parameter, w) → Returns table image current_el w r
  no_console :
      (st : SystemTable σ)
      → table ≡ some st
      → st.output_string ≡ none
      → r ≡ (efi_unsupported, w)
      → Returns table image current_el w r
  ran :
      (st : SystemTable σ) (out : Output σ)
      → table ≡ some st
      → st.output_string ≡ some out
      → MainEnds st image current_el w r
      → Returns table image current_el w r

module _ {σ : Type 0} where
  report-Outcome :
      (out : Output σ) (release_status : ℕ) (text : List ℕ) (written : Writer) (w : World σ)
      → EndsWith out release_status text written
      → All IsTaken w.calls
      → (r : ℕ × World σ) × (report (some out) release_status written w ≡ some r)
        × Outcome
            (output_of text release_status).0
            (output_of text release_status).1
            w.calls
            r.0
            r.1.calls
  report-Outcome out release_status text written w (inl (fits, whole)) taken =
      let small : ltb (length text) record_capacity ≡ true = ground arith in
      rw small (whole.run w taken)
  report-Outcome out release_status text written w (inr (over, marker)) taken =
      let large : ltb (length text) record_capacity ≡ false = ground arith in
      rw large (marker.run w taken)

  module _ (st : SystemTable σ) (image current_el : ℕ) (w : World σ)
      (readable : IsReadableSystem st) (wide : IsWideSystem st) (small : Is64 current_el)
      (idle : holding w.calls ≡ nothing) (sizes : All IsSmall w.calls)
      (taken : All IsTaken w.calls) where
    efi_main-MainEnds :
        (out : Output σ)
        → st.output_string ≡ some out
        → (r : ℕ × World σ) × (efi_main (some st) image current_el w ≡ some r)
          × MainEnds st image current_el w r
    unfolding efi_main
    efi_main-MainEnds out there =
        let (seen, e, observation) =
          observe-IsObservation st image current_el w readable idle sizes in
        let (ok, quiet) =
          observe-IsReportable st wide image current_el w seen readable small taken e in
        let (written, f, ending) =
          record-EndsWith out seen.0.acquisition.release_status seen.0 ok in
        let (r, g, outcome) =
          report-Outcome out seen.0.acquisition.release_status (build_record-Says seen.0 ok).text
            written seen.1 ending quiet.0 in
        (
          r,
          rw (there, e, f) g,
          record {
            findings = seen.0;
            seen = seen.1;
            observed = observation;
            quiet = quiet;
            reportable = ok;
            json = (build_record-Says seen.0 ok).reads;
            outcome = outcome;
          },
        )

    efi_main_table :
        (r : ℕ × World σ) × (efi_main (some st) image current_el w ≡ some r)
        × Returns (some st) image current_el w r
    unfolding efi_main
    efi_main_table = elim (Option-cases st.output_string) [
      | inl missing ↦ ((efi_unsupported, w), rw missing refl, no_console st refl missing refl)
      | inr (out, there) ↦
          let (r, e, ends) = efi_main-MainEnds out there in (r, e, ran st out refl there ends)
    ]

  -- On a table that is null, or that is readable and whose numbers and those its services
  -- leave have 64 bits, with nothing owned before, earlier requests within the limit and all
  -- earlier chunks taken, `efi_main` returns. Without a table the result is an invalid
  -- parameter, without a console it is unsupported, and nothing has been called. Otherwise the
  -- observations are made, with the pool contract kept and nothing printed; their record is
  -- reportable, and a JSON text; and the console gets the banner, the whole record and a line
  -- end, and the release status is returned, or, if the record and its NUL do not fit, the
  -- banner and the truncation marker, and the release status is returned if it is not a
  -- success, and else that the buffer is too small. An error of the console ends the output
  -- and is returned.
  pub efi_main-Returns :
      (table : Option (SystemTable σ)) (image current_el : ℕ) (w : World σ)
      → ((st : SystemTable σ) → table ≡ some st → IsReadableSystem st × IsWideSystem st)
      → Is64 current_el
      → holding w.calls ≡ nothing
      → All IsSmall w.calls
      → All IsTaken w.calls
      → (r : ℕ × World σ) × (efi_main table image current_el w ≡ some r)
        × Returns table image current_el w r
  efi_main-Returns none image current_el w good small idle sizes taken =
      ((efi_invalid_parameter, w), (unfold efi_main in refl), no_table refl refl)
  efi_main-Returns (some st) image current_el w good small idle sizes taken =
      let (readable, wide) = good st refl in
      efi_main_table st image current_el w readable wide small idle sizes taken
