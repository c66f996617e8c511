-- ===== src/Freestanding.antt =====
-- `memcpy` and `memset` of tools/efi-inventory/core.c, which the image brings along since it links
-- no C library. The two objects of `memcpy` do not overlap.
use muen_orin.Base.{
  ℕ, zero, suc, ◌+◌, ◌%◌, ◌≤◌, ◌≡◌, refl, List, Option, some, ◌>>=◌, load, store, store_lem, set,
  length, length-set, get_elem?-lt, u8, arith,
}
use muen_orin.Base.Written.{IsWritten, IsWritten-none, IsWritten-next}

-- The loops from index `i`, with `left` rounds to go.
unfoldable pub memcpy_loop : List ℕ → ℕ → ℕ → List ℕ → Option (List ℕ)
memcpy_loop s zero i d = some d
memcpy_loop s (suc left) i d = load s i >>= λ b. store d i b >>= λ d'. memcpy_loop s left (i + 1) d'

unfoldable pub memcpy : List ℕ → List ℕ → ℕ → Option (List ℕ)
memcpy dst src n = memcpy_loop src n 0 dst

unfoldable pub memset_loop : ℕ → ℕ → ℕ → List ℕ → Option (List ℕ)
memset_loop value zero i d = some d
memset_loop value (suc left) i d = store d i (u8 value) >>= λ d'. memset_loop value left (i + 1) d'

unfoldable pub memset : List ℕ → ℕ → ℕ → Option (List ℕ)
memset dst value n = memset_loop value n 0 dst

memcpy_loop-IsWritten :
    (s : List ℕ) (left i hi : ℕ) (d : List ℕ)
    → i + left ≡ hi
    → hi ≤ length s
    → hi ≤ length d
    → (d' : List ℕ) × (memcpy_loop s left i d ≡ some d') × IsWritten (load s) i hi d d'
unfolding memcpy_loop
memcpy_loop-IsWritten s zero i hi d e hs hd =
    (d, refl, IsWritten-none (load s) i hi d (omega arith))
memcpy_loop-IsWritten s (suc left) i hi d e hs hd =
    let (c, f) = get_elem?-lt s i (omega arith) in
    let (d', ran, k) =
      memcpy_loop-IsWritten s left (i + 1) hi (set d i c) (omega arith) hs
        (omega (arith, length-set d i c)) in
    (
      d',
      rw (f, store_lem d i c (omega arith)) ran,
      IsWritten-next (load s) i hi c d d' (omega arith) (omega arith) f k,
    )

memset_loop-IsWritten :
    (value left i hi : ℕ) (d : List ℕ)
    → i + left ≡ hi
    → hi ≤ length d
    → (d' : List ℕ) × (memset_loop value left i d ≡ some d')
      × IsWritten (λ _. some (value % 256)) i hi d d'
unfolding memset_loop
memset_loop-IsWritten value zero i hi d e hd = (d, refl, IsWritten-none _ i hi d (omega arith))
memset_loop-IsWritten value (suc left) i hi d e hd =
    let (d', ran, k) =
      memset_loop-IsWritten value left (i + 1) hi (set d i (u8 value)) (omega arith)
        (omega (arith, length-set d i (u8 value))) in
    (
      d',
      rw (store_lem d i (u8 value) (omega arith)) ran,
      IsWritten-next _ i hi (u8 value) d d' (omega arith) (omega arith) refl k,
    )

-- When both objects have at least `n` bytes, `memcpy` accesses nothing outside them and
-- returns. The first `n` bytes of the target are then those of the source, and all others are
-- as they were.
pub memcpy-IsWritten :
    (dst src : List ℕ) (n : ℕ)
    → n ≤ length dst
    → n ≤ length src
    → (d : List ℕ) × (memcpy dst src n ≡ some d) × IsWritten (load src) 0 n dst d
unfolding memcpy
memcpy-IsWritten dst src n room more = memcpy_loop-IsWritten src n 0 n dst (omega arith) more room

-- When the object has at least `n` bytes, `memset` writes nothing outside it and returns. Its
-- first `n` bytes are then the value modulo 256, and all others are as they were.
pub memset-IsWritten :
    (dst : List ℕ) (value n : ℕ)
    → n ≤ length dst
    → (d : List ℕ) × (memset dst value n ≡ some d) × IsWritten (λ _. some (value % 256)) 0 n dst d
unfolding memset
memset-IsWritten dst value n room = memset_loop-IsWritten value n 0 n dst (omega arith) room
