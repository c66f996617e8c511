-- ===== src/Pingpong/Telescope.antt =====
-- The sum of `calc_avg` in recipes/demo/pingpong/pingpong.c telescopes; what it is divided by.
use muen_orin.Base.{
  ℕ, zero, suc, ◌+◌, ◌-◌, ◌/◌, ◌^◌, ◌≤◌, ◌<◌, ◌≡◌, ◌≢◌, ◌∙◌, refl, ap, sym, List, some, load,
  length, get_elem?-All, u64, sub64, All, arith,
}
use muen_orin.Pingpong.Ticks.{array_size, sum_loop, over_count, calc_avg}

-- The elements are 64-bit numbers.
abbrev pub AreWords : List ℕ → Type 0
AreWords = All (λ v. v < 2 ^ 64)

-- One round of the loop, when `avg` is the difference to the first element so far.
telescope :
    (x y z : ℕ) → x < 2 ^ 64 → y < 2 ^ 64 → z < 2 ^ 64 → u64 (sub64 y x + sub64 z y) ≡ sub64 z x
telescope x y z hx hy hz = omega arith

module _ (array : List ℕ) (words : AreWords array) (first : ℕ) (small : first < 2 ^ 64) where
  sum_loop-step :
      (left i x y avg : ℕ)
      → load array i ≡ some y
      → load array (i - 1) ≡ some x
      → sum_loop array (suc left) i avg ≡ sum_loop array left (i + 1) (u64 (avg + sub64 y x))
  unfolding sum_loop
  sum_loop-step left i x y avg e f = rw (e, f) refl

  -- From index `i`, with the element before it read.
  sum_loop_lem :
      (left i x last : ℕ)
      → i + suc left ≤ length array
      → load array i ≡ some x
      → x < 2 ^ 64
      → load array (i + left) ≡ some last
      → sum_loop array left (i + 1) (sub64 x first) ≡ some (sub64 last first)
  sum_loop_lem zero i x last h e lt f =
      let same : i + 0 ≡ i = omega arith in
      let q : some x ≡ some last = sym e ∙ ap (load array) (sym same) ∙ f in
      let r : x ≡ last = cc q in rw r (unfold sum_loop in refl)
  sum_loop_lem (suc left) i x last h e lt f =
      let (y, g, y-lt) = get_elem?-All (λ v. v < 2 ^ 64) array (i + 1) words (omega arith) in
      let back : i + 1 - 1 ≡ i = omega arith in
      let ahead : i + 1 + left ≡ i + suc left = omega arith in
      sum_loop-step left (i + 1) x y (sub64 x first) g (ap (load array) back ∙ e)
      ∙ ap (sum_loop array left (i + 1 + 1)) (telescope first x y small lt y-lt)
      ∙ sum_loop_lem left (i + 1) y last (omega arith) g y-lt (ap (load array) ahead ∙ f)

-- The first and the last reading.
pub record Ends (array : List ℕ) : Type 0 where
  pub first : ℕ
  pub last : ℕ
  pub first_read : load array 0 ≡ some first
  pub last_read : load array (array_size - 1) ≡ some last
  pub first_small : first < 2 ^ 64
  pub last_small : last < 2 ^ 64

-- The ticks between them, modulo the counter's width.
abbrev pub elapsed : {array : List ℕ} → Ends array → ℕ
elapsed e = sub64 e.last e.first

pub ends_of : (array : List ℕ) → AreWords array → length array ≡ array_size → Ends array
ends_of array words size =
    let (first, e, small) = get_elem?-All (λ v. v < 2 ^ 64) array 0 words (omega arith) in
    let (last, f, small') = get_elem?-All (λ v. v < 2 ^ 64) array 199 words (omega arith) in
    record {
      first = first;
      last = last;
      first_read = e;
      last_read = f;
      first_small = small;
      last_small = small';
    }

-- On 200 readings of 64 bits, `calc_avg` returns: it reads nothing else. Its sum of
-- differences is the ticks from the first to the last reading, modulo 2 ^ 64, and it returns a
-- 200th of them, rounded down, less 1, modulo 2 ^ 64.
pub calc_avg_lem :
    (array : List ℕ)
    → AreWords array
    → length array ≡ array_size
    → (e : Ends array) → calc_avg array ≡ some (over_count (elapsed e))
unfolding calc_avg
calc_avg_lem array words size e =
    let nothing : sub64 e.first e.first ≡ 0 = omega (arith, e.first_small) in
    let sum : sum_loop array 199 1 0 ≡ some (elapsed e) =
      ap (sum_loop array 199 1) (sym nothing)
      ∙ sum_loop_lem array words e.first e.first_small 199 0 e.first e.last (omega (arith, size))
          e.first_read e.first_small e.last_read in
    rw sum refl

-- The quotient that the macro gives is never the one that it is named for.
over_count-ne : (d : ℕ) → d < 2 ^ 64 → over_count d ≢ d / (array_size - 1)
over_count-ne d h e = omega arith

-- On 200 readings of 64 bits, `calc_avg` never returns the mean of the 199 differences, that
-- is, a 199th, rounded down, of the ticks from the first to the last reading.
pub calc_avg-mean :
    (array : List ℕ)
    → AreWords array
    → length array ≡ array_size
    → (e : Ends array) → calc_avg array ≢ some (elapsed e / (array_size - 1))
calc_avg-mean array words size e q =
    let same : some (over_count (elapsed e)) ≡ some (elapsed e / (array_size - 1)) =
      sym (calc_avg_lem array words size e) ∙ q in
    over_count-ne (elapsed e) (omega arith) (cc same)
