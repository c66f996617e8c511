-- ===== src/Map/Copy.antt =====
-- The descriptor copy of `parse_map` in tools/efi-inventory/core.c, and the numbers read from it.
use muen_orin.Base.{
  ℕ, zero, suc, ◌+◌, ◌≤◌, ◌<◌, ◌^◌, ◌≡◌, refl, List, [], ◌∷◌, some, length, take, drop, load,
  IsBytes, arith,
}
use native.Mathlib.Nat.{one-le-pow, pow-suc}
use muen_orin.Map.Parser.{copy_bytes, little_endian, Descriptor, descriptor_of, descriptor_bytes}

drop-load :
    (p : List ℕ) (base : ℕ)
    → base < length p
    → (x : ℕ) × (load p base ≡ some x) × (drop base p ≡ x ∷ drop (base + 1) p)
drop-load [] base h = elim h [ ]
drop-load (x ∷ p) zero h = (x, refl, refl)
drop-load (x ∷ p) (suc base) h =
    let (y, e, f) = drop-load p base (omega arith) in (y, e, ground (arith, f))

-- Inside the buffer the copy succeeds and gives the buffer's bytes.
pub copy_bytes_lem :
    (p : List ℕ) (base n : ℕ)
    → base + n ≤ length p
    → copy_bytes p base n ≡ some (take n (drop base p))
unfolding copy_bytes
copy_bytes_lem p base zero h = refl
copy_bytes_lem p base (suc n) h =
    let (x, e, f) = drop-load p base (omega arith) in
    ground (arith, e, f, copy_bytes_lem p (base + 1) n (omega arith))

IsBytes-take : (n : ℕ) (xs : List ℕ) → IsBytes xs → IsBytes (take n xs)
IsBytes-take zero xs h = tt
IsBytes-take (suc n) [] h = tt
IsBytes-take (suc n) (x ∷ xs) h = (h.0, IsBytes-take n xs h.1)

pub IsBytes-drop : (n : ℕ) (xs : List ℕ) → IsBytes xs → IsBytes (drop n xs)
IsBytes-drop zero xs h = h
IsBytes-drop (suc n) [] h = tt
IsBytes-drop (suc n) (x ∷ xs) h = IsBytes-drop n xs h.1

-- Eight bytes make a number below 2 ^ 64, and so for every width.
pub little_endian-lt : (n : ℕ) (xs : List ℕ) → IsBytes xs → little_endian (take n xs) < 256 ^ n
unfolding little_endian
little_endian-lt zero xs h = omega arith
little_endian-lt (suc n) [] h = one-le-pow (suc n) 256 (omega arith)
little_endian-lt (suc n) (x ∷ xs) h = omega (arith, pow-suc 256 n, little_endian-lt n xs h.1)

-- The descriptor at an offset has 64-bit addresses and page count.
unfoldable pub descriptor_at : List ℕ → ℕ → Descriptor
descriptor_at p base = descriptor_of (take descriptor_bytes (drop base p))

pub descriptor_at-lt :
    (p : List ℕ) (base : ℕ)
    → IsBytes p
    → let d = descriptor_at p base in
      (d.physical < 2 ^ 64) × (d.virtual_address < 2 ^ 64) × (d.pages < 2 ^ 64)
unfolding descriptor_at descriptor_of
descriptor_at-lt p base h =
    let bytes : List ℕ = take descriptor_bytes (drop base p) in
    let small : (k : ℕ) → little_endian (take 8 (drop k bytes)) < 256 ^ 8 = λ k.
      little_endian-lt 8 (drop k bytes)
        (IsBytes-drop k bytes (IsBytes-take descriptor_bytes _ (IsBytes-drop base p h))) in
    (small 8, small 16, small 24)
