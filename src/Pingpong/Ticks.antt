-- ===== src/Pingpong/Ticks.antt =====
-- `rdtsc`, `trap`, `calc_avg`, `tsc_native`, `tsc_trapped` and `main` of
-- recipes/demo/pingpong/pingpong.c. The counter and the trap instruction are parameters: functions
-- on the state of the machine.
use muen_orin.Base.{
  ℕ, zero, suc, ◌+◌, ◌-◌, ◌/◌, List, Option, some, ◌>>=◌, load, store, replicate, u64, sub64,
  bit_or, ◌<<<◌,
}

abbrev pub array_size : ℕ
array_size = 200

-- The loop of `calc_avg` from index `i`, with `left` rounds to go.
unfoldable pub sum_loop : List ℕ → ℕ → ℕ → ℕ → Option ℕ
sum_loop array zero i avg = some avg
sum_loop array (suc left) i avg = load array i >>= λ x.
    load array (i - 1) >>= λ y. sum_loop array left (i + 1) (u64 (avg + sub64 x y))

-- `avg / MEASUREMENT_COUNT`, where the macro stands for `ARRAY_SIZE - 1` without parentheses.
abbrev pub over_count : ℕ → ℕ
over_count avg = sub64 (avg / array_size) 1

unfoldable pub calc_avg : List ℕ → Option ℕ
calc_avg array = sum_loop array (array_size - 1) 1 0 >>= λ avg. some (over_count avg)

-- What the instruction leaves in the two registers.
pub record Ticks : Type 0 where
  pub lo : ℕ
  pub hi : ℕ

-- The processor: the time-stamp counter, and the instruction that traps.
pub record Processor (σ : Type 0) : Type 0 where
  pub counter : σ → Ticks × σ
  pub trap : σ → σ

abbrev pub ticks_value : Ticks → ℕ
ticks_value t = bit_or (u64 (t.hi <<< 32)) t.lo

module _ {σ : Type 0} (cpu : Processor σ) where
  abbrev pub rdtsc : σ → ℕ × σ
  rdtsc s = let (t, s') = cpu.counter s in (ticks_value t, s')

  abbrev pub rdtsc_trap : σ → ℕ × σ
  rdtsc_trap s = let (v, s') = rdtsc s in (v, cpu.trap s')

-- The loop that fills `val`, with the body of `tsc_native` or of `tsc_trapped`.
unfoldable pub fill_loop : {σ : Type 0} → (σ → ℕ × σ) → ℕ → ℕ → List ℕ → σ → Option (List ℕ × σ)
fill_loop body zero i val s = some (val, s)
fill_loop body (suc left) i val s =
    let (v, s') = body s in store val i v >>= λ val'. fill_loop body left (i + 1) val' s'

-- `val` is not initialised in C; every element is written before it is read.
unfoldable pub measure : {σ : Type 0} → (σ → ℕ × σ) → σ → Option (ℕ × σ)
measure body s = fill_loop body array_size 0 (replicate array_size 0) s >>= λ (val, s').
    calc_avg val >>= λ avg. some (avg, s')

module _ {σ : Type 0} (cpu : Processor σ) where
  abbrev pub tsc_native : σ → Option (ℕ × σ)
  tsc_native s = measure (rdtsc cpu) s

  abbrev pub tsc_trapped : σ → Option (ℕ × σ)
  tsc_trapped s = measure (rdtsc_trap cpu) s

  -- The two numbers that `main` prints.
  unfoldable pub main : σ → Option ((ℕ × ℕ) × σ)
  main s = tsc_native s >>= λ (native, s₁).
      tsc_trapped s₁ >>= λ (trapped, s₂). some ((native, sub64 trapped native), s₂)
