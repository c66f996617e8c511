-- ===== src/Probe/Console.antt =====
-- `print` of tools/efi-inventory/probe.c. A text is the list of the bytes in front of its NUL, and
-- so is what the console is given.
use muen_orin.Base.{ℕ, zero, suc, List, [], ◌∷◌, ◌++◌, Option, none, some, true, false, length}
use muen_orin.Efi.{efi_error, efi_success, efi_unsupported}
use muen_orin.Probe.World.{Call, allocated, not_allocated, read_map, freed, shown, World}

-- The units of a chunk, without its NUL; `buf` holds two more.
abbrev pub chunk_limit : ℕ
chunk_limit = 126

-- The inner loop, with `left` units to go to the limit: what it puts in `buf`, and what of the
-- text it leaves.
unfoldable pub fill_chunk : ℕ → List ℕ → List ℕ × List ℕ
fill_chunk zero s = ([], s)
fill_chunk (suc left) [] = ([], [])
fill_chunk (suc left) (c ∷ s) = let (buf, rest) = fill_chunk left s in (c ∷ buf, rest)

-- `output_string` of the console, on the state of the firmware.
abbrev pub Output : Type 0 → Type 0
Output σ = List ℕ → σ → ℕ × σ

-- One call of the console: its status, and what it leaves.
abbrev pub output : {σ : Type 0} → Output σ → List ℕ → World σ → ℕ × World σ
output out chunk w =
    let (status, firmware) = out chunk w.firmware in
    (status, record { firmware = firmware; calls = shown chunk status ∷ w.calls })

unfoldable pub print_loop : {σ : Type 0} → Output σ → ℕ → List ℕ → World σ → Option (ℕ × World σ)
print_loop out zero s w = none
print_loop out (suc fuel) [] w = some (efi_success, w)
print_loop out (suc fuel) (c ∷ s) w =
    let (chunk, rest) = fill_chunk chunk_limit (c ∷ s) in
    let (status, w') = output out chunk w in
    elim (efi_error status) [ true ↦ some (status, w') | false ↦ print_loop out fuel rest w' ]

-- A missing console or service is `none`. The loop has a round for each byte, and one that ends.
unfoldable pub print : {σ : Type 0} → Option (Output σ) → List ℕ → World σ → Option (ℕ × World σ)
print none s w = some (efi_unsupported, w)
print (some out) s w = print_loop out (suc (length s)) s w

-- What the console has been given.
abbrev pub shown_text : List Call → List ℕ
shown_text [] = []
shown_text (shown chunk status ∷ cs) = shown_text cs ++ chunk
shown_text (allocated _ _ ∷ cs) = shown_text cs
shown_text (not_allocated _ ∷ cs) = shown_text cs
shown_text (read_map _ _ ∷ cs) = shown_text cs
shown_text (freed _ _ ∷ cs) = shown_text cs
