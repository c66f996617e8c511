-- ===== src/Probe/Reported.antt =====
-- The precedence of the results of `efi_main` in tools/efi-inventory/probe.c.
use muen_orin.Base.{
  ℕ, ◌≡◌, ◌∙◌, ap, sym, refl, ◌⊎◌, inl, inr, List, [], ◌∷◌, ◌++◌, Option, some, true, false, All,
  arith, append_assoc, append-nil, not, ◌==◌, if◌then◌else◌, ◌>>=◌,
}
use muen_orin.Efi.{efi_error, efi_success, efi_buffer_too_small}
use muen_orin.Writer.Put.{Writer}
use muen_orin.Probe.World.{Call, shown, World}
use muen_orin.Probe.Console.{Output, print, shown_text}
use muen_orin.Probe.Printed.{Printed, whole, cut, IsTaken, print-Printed}
use muen_orin.Probe.Report.{line_end, banner, truncation_marker, c_string, print_then, report}

-- The console has refused a chunk with the status that is returned, and has got no other since;
-- it has got no more than a prefix of the text.
pub record IsRefused (text : List ℕ) (before : List Call) (status : ℕ) (cs : List Call)
    : Type 0 where
  pub is_error : efi_error status ≡ true
  pub chunk : List ℕ
  pub earlier : List Call
  pub last : cs ≡ shown chunk status ∷ earlier
  pub taken : All IsTaken earlier
  pub rest : List ℕ
  pub prefix : shown_text cs ++ rest ≡ shown_text before ++ text

-- The console has got the text.
pub record IsShown (text : List ℕ) (before cs : List Call) : Type 0 where
  pub taken : All IsTaken cs
  pub all_text : shown_text cs ≡ shown_text before ++ text

-- A row of texts, each printed unless an earlier one was refused, and the result at its end.
pub data Outcome (text : List ℕ) (result : ℕ) (before : List Call) : ℕ → List Call → Type 0 where
  complete : (cs : List Call) → IsShown text before cs → Outcome text result before result cs
  refused :
      (status : ℕ) (cs : List Call)
      → IsRefused text before status cs
      → Outcome text result before status cs

IsRefused-more :
    (text more : List ℕ) (before : List Call) (status : ℕ) (cs : List Call)
    → IsRefused text before status cs
    → IsRefused (text ++ more) before status cs
IsRefused-more text more before status cs h = record {
  is_error = h.is_error;
  chunk = h.chunk;
  earlier = h.earlier;
  last = h.last;
  taken = h.taken;
  rest = h.rest ++ more;
  prefix =
      sym (append_assoc (shown_text cs) h.rest more)
      ∙ ap (λ t. t ++ more) h.prefix
      ∙ append_assoc (shown_text before) text more;
}

Outcome-behind :
    (first text : List ℕ) (result : ℕ) (before middle : List Call) {status : ℕ} {cs : List Call}
    → shown_text middle ≡ shown_text before ++ first
    → Outcome text result middle status cs
    → Outcome (first ++ text) result before status cs
Outcome-behind first text result before middle here (complete cs h) = complete cs (record {
  taken = h.taken;
  all_text = h.all_text ∙ ap (λ t. t ++ text) here ∙ append_assoc (shown_text before) first text;
})
Outcome-behind first text result before middle here (refused status cs h) =
    refused status cs (record {
      is_error = h.is_error;
      chunk = h.chunk;
      earlier = h.earlier;
      last = h.last;
      taken = h.taken;
      rest = h.rest;
      prefix = h.prefix ∙ ap (λ t. t ++ text) here ∙ append_assoc (shown_text before) first text;
    })

Printed-cases :
    (text : List ℕ) (before : List Call) (status : ℕ) (cs : List Call)
    → Printed text before status cs
    → ((status ≡ efi_success) × IsShown text before cs) ⊎ IsRefused text before status cs
Printed-cases text before status cs (whole _ taken all_text) =
    inl (refl, record { taken = taken; all_text = all_text })
Printed-cases text before status cs (cut chunk rest _ earlier taken bounds bad prefix) =
    inr (record {
      is_error = bad;
      chunk = chunk;
      earlier = earlier;
      last = refl;
      taken = taken;
      rest = rest;
      prefix = prefix;
    })

module _ {σ : Type 0} (out : Output σ) where
  -- A part of the function that prints `text` and returns `result`.
  pub record Gives (text : List ℕ) (result : ℕ) (m : World σ → Option (ℕ × World σ)) : Type 0 where
    pub run :
        (w : World σ)
        → All IsTaken w.calls
        → (r : ℕ × World σ) × (m w ≡ some r) × Outcome text result w.calls r.0 r.1.calls

  Gives-end : (result : ℕ) → Gives [] result (λ w. some (result, w))
  Gives-end result = record {
    run = λ w taken. (
      (result, w),
      refl,
      complete w.calls (record { taken = taken; all_text = sym (append-nil (shown_text w.calls)) }),
    );
  }

  module _ (s : List ℕ) (rest : World σ → Option (ℕ × World σ)) (w w' : World σ) (status : ℕ)
      (ran : print (some out) s w ≡ some (status, w')) where
    print_then-stop : efi_error status ≡ true → print_then (some out) s rest w ≡ some (status, w')
    unfolding print_then
    print_then-stop bad = ground (arith, ran, bad)

    print_then-next : efi_error status ≡ false → print_then (some out) s rest w ≡ rest w'
    unfolding print_then
    print_then-next fine = ground (arith, ran, fine)

  success-fine : (status : ℕ) → status ≡ efi_success → efi_error status ≡ false
  unfolding efi_error
  success-fine status e = rw e refl

  print_then-Gives :
      (s text : List ℕ) (result : ℕ) (rest : World σ → Option (ℕ × World σ))
      → Gives text result rest
      → Gives (s ++ text) result (print_then (some out) s rest)
  print_then-Gives s text result rest h = record {
    run = λ w taken.
        let (r, e, printed) = print-Printed out s w taken in
        elim (Printed-cases s w.calls r.0 r.1.calls printed) [
          | inr stopped ↦ (
            r,
            print_then-stop s rest w r.1 r.0 e stopped.is_error,
            refused r.0 r.1.calls (IsRefused-more s text w.calls r.0 r.1.calls stopped),
          )
          | inl (done, seen) ↦
              let (q, ran, outcome) = h.run r.1 seen.taken in
              (
                q,
                print_then-next s rest w r.1 r.0 e (success-fine r.0 done) ∙ ran,
                Outcome-behind s text result w.calls r.1.calls seen.all_text outcome,
              )
        ];
  }

  string_then-Gives :
      (array text more : List ℕ) (result : ℕ) (rest : World σ → Option (ℕ × World σ))
      → c_string array ≡ some text
      → Gives more result rest
      → Gives (text ++ more) result (λ w. c_string array >>= λ s. print_then (some out) s rest w)
  string_then-Gives array text more result rest e h = record {
    run = λ w taken. rw e ((print_then-Gives text more result rest h).run w taken);
  }

  -- A record that fits is printed between the banner and a line end.
  pub whole-Gives :
      (release_status : ℕ) (w : Writer) (text : List ℕ)
      → w.is_truncated ≡ false
      → c_string w.data_bytes ≡ some text
      → Gives
          (banner ++ (text ++ (line_end ++ [])))
          release_status
          (report (some out) release_status w)
  unfolding report
  whole-Gives release_status w text full e = rw full (
      print_then-Gives banner _ _ _ (
        string_then-Gives w.data_bytes text _ _ _ e
          (print_then-Gives line_end _ _ _ (Gives-end _))))

  -- A truncated record is replaced by the marker.
  pub marker-Gives :
      (release_status : ℕ) (w : Writer)
      → w.is_truncated ≡ true
      → Gives
          (banner ++ (truncation_marker ++ []))
          (if not (release_status == efi_success) then release_status else efi_buffer_too_small)
          (report (some out) release_status w)
  unfolding report
  marker-Gives release_status w short =
      rw short
        (print_then-Gives banner _ _ _ (print_then-Gives truncation_marker _ _ _ (Gives-end _)))
