-- ===== src/Base/Memory.antt =====
-- Memory accesses. A computation that returns `none` has read or written outside the object
-- that it was given, or has run out of the fuel of a loop; theorems rule both out.
use Prim.Native.Nat.{ℕ, ◌<◌}
use mathlib.Core.Path.{◌≡◌, refl}
use mathlib.Core.List.{List}
use mathlib.Core.Option.{Option, none, some}
use native.Mathlib.Omega.{arith}
use muen_orin.Base.Tests.{ltb, if◌then◌else◌}
use muen_orin.Base.Lists.{All, length, get_elem?, set, get_elem?-All}

infixl 5 ◌>>=◌
abbrev pub ◌>>=◌ {ℓ κ} : {A : Type ℓ} {B : Type κ} → Option A → (A → Option B) → Option B
none >>= f = none
some a >>= f = f a

module _ {ℓ} {A : Type ℓ} where
  -- `p[i]`, where the object at `p` holds the list's elements.
  abbrev pub load : List A → ℕ → Option A
  load xs i = get_elem? xs i

  -- `p[i] = v`.
  abbrev pub store : List A → ℕ → A → Option (List A)
  store xs i v = if ltb i (length xs) then some (set xs i v) else none

  pub store_lem : (xs : List A) (i : ℕ) (v : A) → i < length xs → store xs i v ≡ some (set xs i v)
  store_lem xs i v h = ground arith

  -- A computation that neither faults nor runs out of fuel.
  abbrev pub Defined : Option A → Type ℓ
  Defined m = (a : A) × (m ≡ some a)

pub >>=-eq-some {ℓ κ} :
    {A : Type ℓ} {B : Type κ} (m : Option A) (f : A → Option B) {b : B}
    → (m >>= f) ≡ some b
    → (a : A) × (m ≡ some a) × (f a ≡ some b)
>>=-eq-some none f h = cc
>>=-eq-some (some a) f h = (a, refl, h)

-- The contents of a buffer.
abbrev pub IsBytes : List ℕ → Type 0
IsBytes = All (λ b. b < 256)

pub load-byte :
    (p : List ℕ) (i : ℕ) → IsBytes p → i < length p → (b : ℕ) × (load p i ≡ some b) × (b < 256)
load-byte p i bytes h = get_elem?-All (λ b. b < 256) p i bytes h
