-- ===== src/Base/Written.antt =====
-- Arrays after a loop that writes the elements of a range in order.
use Prim.Native.Nat.{ℕ, ◌+◌, ◌≤◌, ◌<◌}
use mathlib.Core.Path.{◌≡◌, refl, sym, ◌∙◌}
use mathlib.Core.Logic.{◌⊎◌, inl, inr}
use mathlib.Core.List.{List}
use mathlib.Core.Option.{Option, some}
use native.Mathlib.Omega.{arith}
use muen_orin.Base.Tests.{◌==◌, Bool-cases}
use muen_orin.Base.Lists.{length, get_elem?, set, length-set, get_elem?-set_self, get_elem?-set_ne}

-- `d'` is `d` with the elements from `lo` to `hi` as `f` gives them.
pub record IsWritten (f : ℕ → Option ℕ) (lo hi : ℕ) (d d' : List ℕ) : Type 0 where
  pub size : length d' ≡ length d
  pub inside : (j : ℕ) → lo ≤ j → j < hi → get_elem? d' j ≡ f j
  pub outside : (j : ℕ) → (j < lo) ⊎ (hi ≤ j) → get_elem? d' j ≡ get_elem? d j

pub IsWritten-none : (f : ℕ → Option ℕ) (i hi : ℕ) (d : List ℕ) → i ≡ hi → IsWritten f i hi d d
IsWritten-none f i hi d e = record {
  size = refl;
  inside = λ j low high. absurd (omega arith);
  outside = λ j out. refl;
}

pub IsWritten-next :
    (f : ℕ → Option ℕ) (i hi c : ℕ) (d d' : List ℕ)
    → i < hi
    → i < length d
    → f i ≡ some c
    → IsWritten f (i + 1) hi (set d i c) d'
    → IsWritten f i hi d d'
IsWritten-next f i hi c d d' below room e k = record {
  size = k.size ∙ length-set d i c;
  inside = λ j low high. elim (Bool-cases (j == i)) [
    | inl same ↦
        let q : j ≡ i = ground arith in
        rw q (k.outside i (inl (omega arith)) ∙ get_elem?-set_self d i c room ∙ sym e)
    | inr other ↦ k.inside j (ground arith) high
  ];
  outside = λ j out. k.outside j (ground arith) ∙ get_elem?-set_ne d i j c (ground arith);
}
