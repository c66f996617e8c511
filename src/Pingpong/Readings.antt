-- ===== src/Pingpong/Readings.antt =====
-- What `tsc_native`, `tsc_trapped` and `main` of recipes/demo/pingpong/pingpong.c compute from the
-- readings of the counter.
use muen_orin.Base.{
  ℕ, zero, suc, ◌+◌, ◌/◌, ◌^◌, ◌≤◌, ◌<◌, ◌≡◌, ◌∙◌, refl, ap, List, some, store_lem, length,
  length-set, length-replicate, get_elem?, get_elem?-set_self, get_elem?-set_ne, All-get_elem?, set,
  replicate, u64, sub64, ◌<<<◌, arith,
}
use muen_orin.Base.Bits.{bit_or_add}
use muen_orin.Pingpong.Ticks.{
  array_size, over_count, Processor, rdtsc, rdtsc_trap, fill_loop, measure, main,
}
use muen_orin.Pingpong.Telescope.{AreWords, Ends, elapsed, calc_avg_lem}

module _ {σ : Type 0} (body : σ → ℕ × σ) where
  -- The state behind `n` rounds.
  abbrev pub after_rounds : ℕ → σ → σ
  after_rounds zero s = s
  after_rounds (suc n) s = after_rounds n (body s).1

  -- The reading of a round, counted from 0.
  abbrev pub reading : ℕ → σ → ℕ
  reading n s = (body (after_rounds n s)).0

  -- `val` holds the readings of the rounds from `i` on.
  record IsFilled (i left : ℕ) (s : σ) (old val : List ℕ) : Type 0 where
    size : length val ≡ length old
    before : (j : ℕ) → j < i → get_elem? val j ≡ get_elem? old j
    filled : (j : ℕ) → j < left → get_elem? val (i + j) ≡ some (reading j s)

  IsFilled-next :
      (i left : ℕ) (s : σ) (old val : List ℕ)
      → i < length old
      → IsFilled (i + 1) left (body s).1 (set old i (body s).0) val
      → IsFilled i (suc left) s old val
  IsFilled-next i left s old val room h = record {
    size = h.size ∙ length-set old i (body s).0;
    before =
        λ j below. h.before j (omega arith) ∙ get_elem?-set_ne old i j (body s).0 (omega arith);
    filled = filled;
  }
    where
      filled : (j : ℕ) → j < suc left → get_elem? val (i + j) ≡ some (reading j s)
      filled zero below =
          let here : i + 0 ≡ i = omega arith in
          ap (get_elem? val) here
          ∙ h.before i (omega arith)
          ∙ get_elem?-set_self old i (body s).0 room
      filled (suc j) below =
          let there : i + suc j ≡ i + 1 + j = omega arith in
          ap (get_elem? val) there ∙ h.filled j (omega arith)

  fill_loop-IsFilled :
      (left i : ℕ) (old : List ℕ) (s : σ)
      → i + left ≤ length old
      → (val : List ℕ) × (fill_loop body left i old s ≡ some (val, after_rounds left s))
        × IsFilled i left s old val
  unfolding fill_loop
  fill_loop-IsFilled zero i old s room = (
    old,
    refl,
    record { size = refl; before = λ j h. refl; filled = λ j h. absurd (omega arith) },
  )
  fill_loop-IsFilled (suc left) i old s room =
      let (val, e, h) =
        fill_loop-IsFilled left (i + 1) (set old i (body s).0) (body s).1
          (omega (arith, length-set old i (body s).0)) in
      (
        val,
        rw (store_lem old i (body s).0 (omega arith)) e,
        IsFilled-next i left s old val (omega arith) h,
      )

  measure-filled :
      (s s' : σ) (val : List ℕ)
      → fill_loop body array_size 0 (replicate array_size 0) s ≡ some (val, s')
      → AreWords val
      → length val ≡ array_size
      → (e : Ends val) → measure body s ≡ some (over_count (elapsed e), s')
  unfolding measure
  measure-filled s s' val ran words size e = rw (ran, calc_avg_lem val words size e) refl

  filled-Ends :
      (s : σ) (old val : List ℕ)
      → ((s : σ) → (body s).0 < 2 ^ 64)
      → IsFilled 0 array_size s old val
      → (e : Ends val) × (e.first ≡ reading 0 s) × (e.last ≡ reading 199 s)
  filled-Ends s old val words h = (
    record {
      first = reading 0 s;
      last = reading 199 s;
      first_read = h.filled 0 (omega arith);
      last_read = h.filled 199 (omega arith);
      first_small = words s;
      last_small = words (after_rounds 199 s);
    },
    refl,
    refl,
  )

  filled-AreWords :
      (n : ℕ) (s : σ) (old val : List ℕ)
      → ((s : σ) → (body s).0 < 2 ^ 64)
      → length old ≡ n
      → IsFilled 0 n s old val
      → AreWords val
  filled-AreWords n s old val words size h = All-get_elem? _ val (λ i below.
      let start : i ≡ 0 + i = omega arith in
      (
        reading i s,
        ap (get_elem? val) start ∙ h.filled i (omega (arith, h.size, size)),
        words (after_rounds i s),
      ))

  -- A measurement is made of its first and its last reading.
  pub measure_lem :
      ((s : σ) → (body s).0 < 2 ^ 64)
      → (s : σ)
      → measure body s
        ≡ some (over_count (sub64 (reading 199 s) (reading 0 s)), after_rounds array_size s)
  measure_lem words s =
      let size : length {A = ℕ} (replicate array_size 0) ≡ array_size =
        length-replicate {A = ℕ} array_size 0 in
      let (val, e, h) =
        fill_loop-IsFilled array_size 0 (replicate array_size 0) s (omega (arith, size)) in
      let (ends, first, last) = filled-Ends s (replicate array_size 0) val words h in
      measure-filled s (after_rounds array_size s) val e
        (filled-AreWords array_size s (replicate array_size 0) val words size h) (h.size ∙ size)
        ends
      ∙ ap (λ d. some (over_count d, after_rounds array_size s)) (cc (first, last))

module _ {σ : Type 0} (cpu : Processor σ) where
  -- The registers have 32 bits.
  abbrev pub HasRegisters : Type 0
  HasRegisters = (s : σ) → ((cpu.counter s).0.lo < 2 ^ 32) × ((cpu.counter s).0.hi < 2 ^ 32)

  rdtsc-lt : HasRegisters → (s : σ) → (rdtsc cpu s).0 < 2 ^ 64
  rdtsc-lt regs s =
      let t = (cpu.counter s).0 in
      let wide : u64 (t.hi <<< 32) ≡ t.hi <<< 32 = omega (arith, regs s) in
      rw (wide, bit_or_add 32 t.hi t.lo (regs s).0) (omega (arith, regs s))

  -- The ticks from the first to the last reading of the two measurements of `main`.
  abbrev pub native_ticks : σ → ℕ
  native_ticks s = sub64 (reading (rdtsc cpu) 199 s) (reading (rdtsc cpu) 0 s)

  abbrev pub trapped_ticks : σ → ℕ
  trapped_ticks s =
      let s' = after_rounds (rdtsc cpu) array_size s in
      sub64 (reading (rdtsc_trap cpu) 199 s') (reading (rdtsc_trap cpu) 0 s')

  over_count-difference :
      (a b : ℕ)
      → a < 2 ^ 64
      → b < 2 ^ 64
      → sub64 (over_count a) (over_count b) ≡ sub64 (a / array_size) (b / array_size)
  over_count-difference a b ha hb = omega arith

  -- On a counter with two 32-bit registers, `main` returns. Its first number is `calc_avg` of
  -- the ticks between the first and the last of the first 200 readings, and in the second, the
  -- 200th of the trapped ticks less the 200th of the native ticks, the 1 that each measurement
  -- loses cancels.
  pub main_lem :
      HasRegisters
      → (s : σ)
      → (s' : σ) × (main cpu s
          ≡ some (
            (
              over_count (native_ticks s),
              sub64 (trapped_ticks s / array_size) (native_ticks s / array_size),
            ),
            s',
          ))
  unfolding main
  main_lem regs s =
      let native = measure_lem (rdtsc cpu) (rdtsc-lt regs) s in
      let trapped =
        measure_lem (rdtsc_trap cpu) (rdtsc-lt regs) (after_rounds (rdtsc cpu) array_size s) in
      rw (native, trapped)
        (
          _,
          ap
              (λ d. some (
                (over_count (native_ticks s), d),
                after_rounds (rdtsc_trap cpu) array_size (after_rounds (rdtsc cpu) array_size s),
              ))
              (over_count-difference (trapped_ticks s) (native_ticks s) (omega arith)
                (omega arith)),
        )
