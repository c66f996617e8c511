-- ===== src/Probe/Printed.antt =====
-- The output policy of `print` in tools/efi-inventory/probe.c.
use muen_orin.Base.{
  ℕ, zero, suc, ◌≤◌, ◌<◌, ◌≡◌, ◌∙◌, ap, sym, refl, inl, inr, List, [], ◌∷◌, ◌++◌, Option, some,
  true, false, Bool-cases, All, length, arith, append_assoc, append-nil,
}
use muen_orin.Efi.{efi_error, efi_success}
use muen_orin.Probe.World.{Call, allocated, not_allocated, read_map, freed, shown, World}
use muen_orin.Probe.Console.{chunk_limit, fill_chunk, Output, output, print_loop, print, shown_text}

-- A chunk has units, and no more than the limit.
abbrev pub IsChunk : List ℕ → Type 0
IsChunk c = (0 < length c) × (length c ≤ chunk_limit)

-- The console has taken a chunk without an error.
abbrev pub IsTaken : Call → Type 0
IsTaken (shown chunk status) = IsChunk chunk × (efi_error status ≡ false)
IsTaken (allocated _ _) = Unit {0}
IsTaken (not_allocated _) = Unit {0}
IsTaken (read_map _ _) = Unit {0}
IsTaken (freed _ _) = Unit {0}

-- The whole text is taken, or the output ends at the first error, whose status is returned; up
-- to there the text is shown, in order.
pub data Printed (s : List ℕ) (before : List Call) : ℕ → List Call → Type 0 where
  whole :
      (cs : List Call)
      → All IsTaken cs
      → shown_text cs ≡ shown_text before ++ s
      → Printed s before efi_success cs
  cut :
      (chunk rest : List ℕ) (status : ℕ) (cs : List Call)
      → All IsTaken cs
      → IsChunk chunk
      → efi_error status ≡ true
      → (shown_text cs ++ chunk) ++ rest ≡ shown_text before ++ s
      → Printed s before status (shown chunk status ∷ cs)

fill_chunk-append : (left : ℕ) (s : List ℕ) → (fill_chunk left s).0 ++ (fill_chunk left s).1 ≡ s
unfolding fill_chunk
fill_chunk-append zero s = refl
fill_chunk-append (suc left) [] = refl
fill_chunk-append (suc left) (c ∷ s) = ap (◌∷◌ c) (fill_chunk-append left s)

fill_chunk-length : (left : ℕ) (s : List ℕ) → length (fill_chunk left s).0 ≤ left
unfolding fill_chunk
fill_chunk-length zero s = omega arith
fill_chunk-length (suc left) [] = omega arith
fill_chunk-length (suc left) (c ∷ s) = omega (arith, fill_chunk-length left s)

fill_chunk-rest : (left : ℕ) (s : List ℕ) → length (fill_chunk left s).1 ≤ length s
unfolding fill_chunk
fill_chunk-rest zero s = omega arith
fill_chunk-rest (suc left) [] = omega arith
fill_chunk-rest (suc left) (c ∷ s) = omega (arith, fill_chunk-rest left s)

-- The first chunk of a text that is not empty.
record Chunked (c : ℕ) (s chunk rest : List ℕ) : Type 0 where
  joined : chunk ++ rest ≡ c ∷ s
  bounds : IsChunk chunk
  shorter : length rest ≤ length s

fill_chunk-Chunked :
    (left c : ℕ) (s : List ℕ)
    → suc left ≤ chunk_limit
    → Chunked c s (fill_chunk (suc left) (c ∷ s)).0 (fill_chunk (suc left) (c ∷ s)).1
unfolding fill_chunk
fill_chunk-Chunked left c s h = record {
  joined = ap (◌∷◌ c) (fill_chunk-append left s);
  bounds = (omega arith, omega (arith, fill_chunk-length left s));
  shorter = fill_chunk-rest left s;
}

Printed-next :
    (before : List Call) (chunk rest s : List ℕ) (c status : ℕ) {st : ℕ} {cs : List Call}
    → chunk ++ rest ≡ c ∷ s
    → Printed rest (shown chunk status ∷ before) st cs
    → Printed (c ∷ s) before st cs
Printed-next before chunk rest s c status joined (whole cs taken text) =
    whole cs taken
      (text ∙ append_assoc (shown_text before) chunk rest ∙ ap (◌++◌ (shown_text before)) joined)
Printed-next before chunk rest s c status joined (cut last tail st cs taken bounds bad text) =
    cut last tail st cs taken bounds bad
      (text ∙ append_assoc (shown_text before) chunk rest ∙ ap (◌++◌ (shown_text before)) joined)

module _ {σ : Type 0} (out : Output σ) where
  unfoldable Prints : List ℕ → List Call → Option (ℕ × World σ) → Type 0
  Prints s before m = (r : ℕ × World σ) × (m ≡ some r) × Printed s before r.0 r.1.calls

  print_loop-Prints :
      (fuel : ℕ) (s : List ℕ) (w : World σ)
      → length s < fuel
      → All IsTaken w.calls
      → Prints s w.calls (print_loop out fuel s w)
  unfolding print_loop Prints
  print_loop-Prints zero s w enough taken = absurd (omega arith)
  print_loop-Prints (suc fuel) [] w enough taken =
      (_, refl, whole w.calls taken (sym (append-nil (shown_text w.calls))))
  print_loop-Prints (suc fuel) (c ∷ s) w enough taken =
      let chunk = (fill_chunk chunk_limit (c ∷ s)).0 in
      let rest = (fill_chunk chunk_limit (c ∷ s)).1 in
      let status = (out chunk w.firmware).0 in
      let k : Chunked c s chunk rest = fill_chunk-Chunked 125 c s (omega arith) in
      elim (Bool-cases (efi_error status)) [
        | inl bad ↦
            rw (bad, print_loop)
              (
                _,
                refl,
                cut chunk rest status w.calls taken k.bounds bad (
                    append_assoc (shown_text w.calls) chunk rest
                    ∙ ap (◌++◌ (shown_text w.calls)) k.joined),
              )
        | inr fine ↦
            rw (fine, print_loop)
              (let (r, e, printed) =
                  print_loop-Prints fuel rest (output out chunk w).1 (omega (arith, k.shorter))
                    ((k.bounds, fine), taken) in
                (r, e, Printed-next w.calls chunk rest s c status k.joined printed))
      ]

  -- When the console has taken all earlier chunks, `print` returns. Each chunk has from 1 to
  -- 126 units. Either the console takes the whole text, in order, and the result is a success,
  -- or the output ends at the first error, whose status is the result, with the chunks so far
  -- a prefix of the text.
  pub print-Printed :
      (s : List ℕ) (w : World σ)
      → All IsTaken w.calls
      → (r : ℕ × World σ) × (print (some out) s w ≡ some r) × Printed s w.calls r.0 r.1.calls
  unfolding print Prints
  print-Printed s w taken = print_loop-Prints (suc (length s)) s w (omega arith) taken
