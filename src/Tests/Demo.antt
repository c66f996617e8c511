-- ===== src/Tests/Demo.antt =====
-- The ping-pong demo on a counter that ticks steadily, and `memcpy` and `memset` on small arrays.
use muen_orin.Base.{
  ℕ, zero, suc, ◌+◌, ◌/◌, ◌%◌, ◌-◌, ◌^◌, ◌<◌, ◌≡◌, ◌≢◌, refl, List, [], ◌∷◌, some, load, length,
  sub64, arith,
}
use muen_orin.Base.Written.{IsWritten}
use muen_orin.Freestanding.{memcpy, memcpy-IsWritten, memset, memset-IsWritten}
use muen_orin.Pingpong.Ticks.{
  Processor, array_size, over_count, sum_loop, calc_avg, measure, fill_loop, main,
}
use muen_orin.Pingpong.Telescope.{AreWords, Ends, elapsed, ends_of, calc_avg_lem, calc_avg-mean}
use muen_orin.Pingpong.Readings.{native_ticks, trapped_ticks, main_lem}

-- The counter moves by 30 with each reading and by 1000 with each trap.
abbrev pub clock : Processor ℕ
clock = record {
  counter = λ s. (record { lo = s % 2 ^ 32; hi = s / 2 ^ 32 % 2 ^ 32 }, s + 30);
  trap = λ s. s + 1000;
}

-- Readings that are 30 apart, from `x` on.
abbrev pub steady : ℕ → ℕ → List ℕ
steady zero x = []
steady (suc n) x = x % 2 ^ 64 ∷ steady n (x + 30)

steady-AreWords : (n x : ℕ) → AreWords (steady n x)
steady-AreWords zero x = tt
steady-AreWords (suc n) x = (omega arith, steady-AreWords n (x + 30))

length-steady : (n x : ℕ) → length (steady n x) ≡ n
length-steady zero x = refl
length-steady (suc n) x = omega (arith, length-steady n (x + 30))

-- The counter wraps around between the first and the last of these readings.
abbrev wrapping : List ℕ
wrapping = steady 200 (2 ^ 64 - 100)

wrapping_ends : Ends wrapping
wrapping_ends =
    ends_of wrapping (steady-AreWords 200 (2 ^ 64 - 100)) (length-steady 200 (2 ^ 64 - 100))

-- 199 steps of 30 are 5970 ticks; 5970 / 200 - 1 is 28, not the mean of 30.
calc_avg_run : calc_avg (steady 200 (2 ^ 64 - 100)) ≡ some 28
unfolding calc_avg sum_loop
calc_avg_run = refl

main_run : main clock 5 ≡ some ((28, 995), 212005)
unfolding main measure fill_loop calc_avg sum_loop
main_run = refl

calc_avg_lem_example : calc_avg wrapping ≡ some (over_count (elapsed wrapping_ends))
calc_avg_lem_example =
    calc_avg_lem wrapping (steady-AreWords 200 (2 ^ 64 - 100)) (length-steady 200 (2 ^ 64 - 100))
      wrapping_ends

calc_avg-mean_example : calc_avg wrapping ≢ some (elapsed wrapping_ends / (array_size - 1))
calc_avg-mean_example =
    calc_avg-mean wrapping (steady-AreWords 200 (2 ^ 64 - 100)) (length-steady 200 (2 ^ 64 - 100))
      wrapping_ends

clock-registers : (s : ℕ) → (s % 2 ^ 32 < 2 ^ 32) × (s / 2 ^ 32 % 2 ^ 32 < 2 ^ 32)
clock-registers s = (omega arith, omega arith)

main_lem_example :
    (s' : ℕ) × (main clock 5
      ≡ some (
        (
          over_count (native_ticks clock 5),
          sub64 (trapped_ticks clock 5 / 200) (native_ticks clock 5 / 200),
        ),
        s',
      ))
main_lem_example = main_lem clock clock-registers 5

memcpy-IsWritten_example :
    (d : List ℕ) × (memcpy (0 ∷ 0 ∷ 9 ∷ []) (1 ∷ 2 ∷ []) 2 ≡ some d)
    × IsWritten (load (1 ∷ 2 ∷ [])) 0 2 (0 ∷ 0 ∷ 9 ∷ []) d
memcpy-IsWritten_example =
    memcpy-IsWritten (0 ∷ 0 ∷ 9 ∷ []) (1 ∷ 2 ∷ []) 2 (omega arith) (omega arith)

memset-IsWritten_example :
    (d : List ℕ) × (memset (1 ∷ 2 ∷ 9 ∷ []) 511 2 ≡ some d)
    × IsWritten (λ _. some (511 % 256)) 0 2 (1 ∷ 2 ∷ 9 ∷ []) d
memset-IsWritten_example = memset-IsWritten (1 ∷ 2 ∷ 9 ∷ []) 511 2 (omega arith)
