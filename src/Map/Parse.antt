-- ===== src/Map/Parse.antt =====
-- `parse_map` of tools/efi-inventory/core.c, whole.
use muen_orin.Base.{
  IsBytes, ℕ, ◌*◌, ◌/◌, ◌%◌, ◌≤◌, ◌<◌, ◌≡◌, ◌≢◌, refl, ◌⊎◌, inl, inr, List, String, none, some,
  arith, length, min, Option-cases,
}
use muen_orin.Status.{State, observed, malformed}
use muen_orin.Map.Parser.{
  MapResult, map_state, map_limit, descriptor_bytes, parse_map, argument_fault, initial_result,
}
use muen_orin.Map.Valid.{Holds}
use muen_orin.Map.Round.{ValidAt}
use muen_orin.Map.Loop.{Ends, parse_loop-LoopEnds}
use native.Mathlib.Nat.{div-add-mod'}
use muen_orin.Efi.{efi_memory_descriptor_version}

-- The sizes that are accepted, with no descriptor read.
pub record IsSized (capacity len stride version : ℕ) : Type 0 where
  pub capacity_min : 0 < capacity
  pub capacity_max : capacity ≤ map_limit
  pub fits : len ≤ capacity
  pub version_is : version ≡ efi_memory_descriptor_version
  pub stride_min : descriptor_bytes ≤ stride
  pub stride_max : stride ≤ capacity
  pub nonempty : 0 < len
  pub whole : len % stride ≡ 0

-- The maps that are accepted.
pub record IsAccepted (p : List ℕ) (capacity len stride version : ℕ) : Type 0 where
  pub sized : IsSized capacity len stride version
  pub valid : (j : ℕ) → j < len / stride → ValidAt p stride version j

-- A refusal reports no descriptor, only a state other than `observed` and a detail.
abbrev pub IsRejection : MapResult → Type 0
IsRejection r = (s : State) × (detail : String) × (s ≢ observed) × (r ≡ map_state s (some detail))

argument_fault-IsSized :
    (capacity len stride version : ℕ)
    → argument_fault capacity len stride version ≡ none
    → IsSized capacity len stride version
unfolding argument_fault
argument_fault-IsSized capacity len stride version e = ground arith

argument_fault-some :
    (capacity len stride version : ℕ) {f : State × String}
    → argument_fault capacity len stride version ≡ some f
    → (f.0 ≢ observed) × (¬ (IsSized capacity len stride version))
unfolding argument_fault
argument_fault-some capacity len stride version e = ground arith

initial_result-Holds :
    (p : List ℕ) (stride version : ℕ)
    → stride ≤ map_limit
    → Holds p stride version 0 (initial_result stride version)
unfolding initial_result
initial_result-Holds p stride version h = record {
  state_ok = refl;
  no_detail = refl;
  count_is = refl;
  stride_is = omega arith;
  version_is = refl;
  room = refl;
  listed = λ j below. absurd (omega arith);
}

module _ (p : List ℕ) (capacity len stride version : ℕ) where
  -- How a call ends: with the whole map, or with a refusal.
  abbrev pub MapEnds : MapResult → Type 0
  MapEnds r =
      (IsAccepted p capacity len stride version × Holds p stride version (len / stride) r)
      ⊎ ((¬ (IsAccepted p capacity len stride version)) × IsRejection r)

  Ends-MapEnds :
      (r : MapResult)
      → IsSized capacity len stride version
      → Ends p stride version 0 (len / stride) r
      → MapEnds r
  Ends-MapEnds r sized (inl (valid, holds)) =
      inl (record { sized = sized; valid = λ j below. valid j (omega arith) below }, holds)
  Ends-MapEnds r sized (inr ((j, below, invalid), (detail, e))) =
      inr ((λ a. invalid (a.valid j below)), (malformed, detail, (λ q. cc), e))

  -- On a buffer of bytes of which the first `len` can be read, or the first `capacity` if that
  -- is fewer, `parse_map` returns: it reads nothing else and its loop ends. The result is the
  -- whole map, each descriptor counted and the first twelve listed, exactly when the sizes and
  -- all descriptors are accepted, and otherwise a refusal that reports no descriptor.
  pub parse_map-MapEnds :
      IsBytes p
      → min len capacity ≤ length p
      → (r : MapResult) × (parse_map (some p) capacity len stride version ≡ some r) × MapEnds r
  unfolding parse_map
  parse_map-MapEnds bytes readable =
      elim (Option-cases (argument_fault capacity len stride version)) [
        | inl fine ↦
            let sized : IsSized capacity len stride version =
              argument_fault-IsSized capacity len stride version fine in
            let exact : len / stride * stride ≡ len =
              omega (arith, div-add-mod' len stride, sized.whole) in
            let (r, ran, ends) =
              parse_loop-LoopEnds p stride version (len / stride) bytes sized.stride_min
                (omega (arith, exact, sized.fits))
                (omega (arith, exact, sized.fits, sized.capacity_max)) (len / stride) 0
                (initial_result stride version) (omega arith)
                (initial_result-Holds p stride version
                  (omega (arith, sized.stride_max, sized.capacity_max))) in
            (r, rw (fine, parse_map) ran, Ends-MapEnds r sized ends)
        | inr ((s, detail), bad) ↦
            let (other, unsized) = argument_fault-some capacity len stride version bad in
            (
              map_state s (some detail),
              rw (bad, parse_map),
              inr ((λ a. unsized a.sized), (s, detail, other, refl)),
            )
      ]
