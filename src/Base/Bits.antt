-- ===== src/Base/Bits.antt =====
-- Masks as arithmetic, from the digit recursion that the native operations stand for.
use Prim.Native.Nat.{
  ℕ, zero, suc, ◌+◌, ◌*◌, ◌/◌, ◌%◌, ◌-◌, ◌≤◌, ◌<◌, ◌^◌, min, max, bit_and, bit_or, digits,
  bit_and-bitwise, bit_or-bitwise,
}
use mathlib.Core.Path.{◌≡◌, refl, sym, ap}
use native.Mathlib.Nat.{pow-suc, pow-succ', one-le-pow, div-add-mod, div-div-eq-div-mul}
use native.Mathlib.Omega.{arith}

-- Digits: the recursion runs on a bound of the first number, and any bound will do.
module _ (rest : ℕ → ℕ) (join : ℕ → ℕ → ℕ) where
  digits-bound :
      (x y bound other : ℕ)
      → x ≤ bound
      → x ≤ other
      → digits rest join bound x y ≡ digits rest join other x y
  digits-bound x y zero zero low high = refl
  digits-bound zero y (suc bound) zero low high = refl
  digits-bound zero y zero (suc other) low high = refl
  digits-bound zero y (suc bound) (suc other) low high = refl
  digits-bound (suc x) y (suc bound) zero low high = elim high [ ]
  digits-bound (suc x) y zero (suc other) low high = elim low [ ]
  digits-bound (suc x) y (suc bound) (suc other) low high =
      ap (λ d. d * 2 + join (suc x % 2) (y % 2))
        (digits-bound (suc x / 2) (y / 2) bound other (omega arith) (omega arith))

pub bit_and_step : (x y : ℕ) → bit_and x y ≡ bit_and (x / 2) (y / 2) * 2 + min (x % 2) (y % 2)
bit_and_step zero y = omega (arith, bit_and-bitwise 0 y, bit_and-bitwise 0 (y / 2))
bit_and_step (suc x) y =
    let tail = digits-bound (λ _. zero) min (suc x / 2) (y / 2) x (suc x / 2) in
    omega (
      arith,
      tail (omega arith) (omega arith),
      bit_and-bitwise (suc x) y,
      bit_and-bitwise (suc x / 2) (y / 2),
    )

bit_or_step : (x y : ℕ) → bit_or x y ≡ bit_or (x / 2) (y / 2) * 2 + max (x % 2) (y % 2)
bit_or_step zero y = omega (arith, bit_or-bitwise 0 y, bit_or-bitwise 0 (y / 2))
bit_or_step (suc x) y =
    let tail = digits-bound (λ d. d) max (suc x / 2) (y / 2) x (suc x / 2) in
    omega (
      arith,
      tail (omega arith) (omega arith),
      bit_or-bitwise (suc x) y,
      bit_or-bitwise (suc x / 2) (y / 2),
    )

-- Induction by halves.
module _ (P : ℕ → Type 0) (base : P 0) (step : (x : ℕ) → P (x / 2) → P x) where
  by_halves_below : (bound x : ℕ) → x ≤ bound → P x
  by_halves_below zero zero h = base
  by_halves_below zero (suc x) h = elim h [ ]
  by_halves_below (suc bound) zero h = base
  by_halves_below (suc bound) (suc x) h =
      step (suc x) (by_halves_below bound (suc x / 2) (omega arith))

  by_halves : (x : ℕ) → P x
  by_halves x = by_halves_below x x (omega arith)

pub bit_and-zero : (x : ℕ) → bit_and x 0 ≡ 0
bit_and-zero = by_halves (λ x. bit_and x 0 ≡ 0) refl λ x half. omega (arith, bit_and_step x 0)

bit_or-zero : (x : ℕ) → bit_or x 0 ≡ x
bit_or-zero = by_halves (λ x. bit_or x 0 ≡ x) refl λ x half. omega (arith, bit_or_step x 0)

two_pow_half : (k : ℕ) → 2 ^ suc k / 2 ≡ 2 ^ k
two_pow_half k = omega (arith, pow-suc 2 k)

div-two_pow-suc : (k a : ℕ) → a / 2 ^ suc k ≡ a / 2 / 2 ^ k
div-two_pow-suc k a = rw (pow-succ' 2 k) (sym (div-div-eq-div-mul a 2 (2 ^ k)))

-- A mask of one bit reads that bit.
pub bit_and_two_pow : (k a : ℕ) → bit_and a (2 ^ k) ≡ a / 2 ^ k % 2 * 2 ^ k
bit_and_two_pow zero a = omega (arith, bit_and_step a 1, bit_and-zero (a / 2))
bit_and_two_pow (suc k) a =
    rw (div-two_pow-suc k a, bit_and_step, two_pow_half k, bit_and_two_pow k (a / 2), pow-suc 2 k)
      (omega arith)

-- Disjoint fields: a number shifted by `k` and one of `k` bits.
pub bit_or_add : (k q r : ℕ) → r < 2 ^ k → bit_or (q * 2 ^ k) r ≡ q * 2 ^ k + r
bit_or_add zero q r h = let e : r ≡ 0 = omega arith in rw e (omega (arith, bit_or-zero (q * 1)))
bit_or_add (suc k) q r h =
    let double : q * 2 ^ suc k ≡ 2 * (q * 2 ^ k) = rw (pow-suc 2 k) (omega arith) in
    let half : q * 2 ^ suc k / 2 ≡ q * 2 ^ k = omega (arith, double) in
    let small : r / 2 < 2 ^ k = omega (arith, pow-suc 2 k) in
    rw (bit_or_step, half, bit_or_add k q (r / 2) small) (omega (arith, double))

mod-two_pow-suc : (k a : ℕ) → a % 2 ^ suc k ≡ a / 2 % 2 ^ k * 2 + a % 2
mod-two_pow-suc k a =
    let q = a / 2 / 2 ^ k in
    let whole : 2 ^ suc k * (a / 2 ^ suc k) ≡ 2 * (2 ^ k * q) =
      rw (div-two_pow-suc k a, pow-suc 2 k) (omega arith) in
    omega (arith, div-add-mod a (2 ^ suc k), div-add-mod (a / 2) (2 ^ k), whole)

-- The low `k` bits.
pub bit_and_low : (k a : ℕ) → bit_and a (2 ^ k - 1) ≡ a % 2 ^ k
bit_and_low zero a = omega (arith, bit_and-zero a)
bit_and_low (suc k) a =
    let pos : 1 ≤ 2 ^ k = one-le-pow k 2 (omega arith) in
    let half : (2 ^ suc k - 1) / 2 ≡ 2 ^ k - 1 = omega (arith, pow-suc 2 k) in
    let odd : (2 ^ suc k - 1) % 2 ≡ 1 = omega (arith, pow-suc 2 k) in
    rw (bit_and_step, half, odd, bit_and_low k (a / 2), mod-two_pow-suc k a) (omega arith)
