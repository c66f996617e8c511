-- ===== src/Map/Loop.antt =====
-- The descriptor loop of `parse_map` in tools/efi-inventory/core.c.
use muen_orin.Base.{
  IsBytes, Bool-cases, ◌==◌, ◌^◌, ℕ, zero, suc, ◌+◌, ◌*◌, ◌≤◌, ◌<◌, ◌≡◌, refl, ◌⊎◌, inl, inr, List,
  Option, some, arith, length,
}
use muen_orin.Map.Parser.{MapResult, map_limit, descriptor_bytes, parse_round, parse_loop}
use muen_orin.Map.Valid.{Holds, IsRefusal}
use muen_orin.Map.Round.{ValidAt, RoundEnds, parse_round_lem, check_descriptor-RoundEnds}

module _ (p : List ℕ) (stride version : ℕ) where
  -- What the loop returns that starts at index `i` and would stop at `n`.
  abbrev pub Ends : ℕ → ℕ → MapResult → Type 0
  Ends i n r =
      ((((j : ℕ) → i ≤ j → j < n → ValidAt p stride version j) × Holds p stride version n r)
        ⊎ (((j : ℕ) × (j < n) × (¬ (ValidAt p stride version j))) × IsRefusal r))

  abbrev pub LoopEnds : ℕ → ℕ → Option MapResult → Type 0
  LoopEnds i n m = (r : MapResult) × (m ≡ some r) × Ends i n r

  module _ (n : ℕ) (bytes : IsBytes p) (stride_min : descriptor_bytes ≤ stride)
      (inside : n * stride ≤ length p) (limit : n * stride ≤ map_limit) where
    in_range : (i : ℕ) → i < n → i * stride + stride ≤ n * stride
    in_range i below = grind arith

    index-small : (i : ℕ) → i < n → i + 1 < 2 ^ 32
    index-small i below = let n-le : n ≤ n * stride = grind arith in omega arith

    extend : {i : ℕ} {r : MapResult} → ValidAt p stride version i → Ends (i + 1) n r → Ends i n r
    extend {i} valid (inl (rest, holds)) = inl (
      (λ j low high. elim (Bool-cases (j == i)) [
        | inl same ↦ let e : j ≡ i = ground arith in rw e valid
        | inr other ↦ rest j (ground arith) high
      ]),
      holds,
    )
    extend valid (inr refused) = inr refused

    pub parse_loop-LoopEnds :
        (left i : ℕ) (r : MapResult)
        → i + left ≡ n
        → Holds p stride version i r
        → LoopEnds i n (parse_loop p stride left i r)
    unfolding parse_loop
    parse_loop-LoopEnds zero i r e h =
        let e' : i ≡ n = omega arith in
        (r, refl, inl ((λ j low high. absurd (omega arith)), rw e' at h))
    parse_loop-LoopEnds (suc left) i r e h =
        let room : i * stride + stride ≤ n * stride = in_range i (omega arith) in
        let round : RoundEnds p stride version i (parse_round p stride i r) =
          rw (parse_round_lem p stride version i r (omega arith) (omega arith)) (
            check_descriptor-RoundEnds p stride version i r bytes (index-small i (omega arith))
              h) in
        elim round [
          | inl (valid, (r', ran, holds)) ↦
              let (out, done, ends) = parse_loop-LoopEnds left (i + 1) r' (omega arith) holds in
              (out, rw (ran, done), extend valid ends)
          | inr (invalid, (r', ran, refusal)) ↦
              (r', rw ran, inr ((i, omega arith, invalid), refusal))
        ]
