-- ===== src/Fdt/Names.antt =====
-- `skip_name` of tools/efi-inventory/core.c and the scan for a NUL.
use muen_orin.Base.{
  ℕ, zero, suc, ◌+◌, ◌-◌, ◌*◌, ◌/◌, ◌^◌, ◌≤◌, ◌<◌, ◌∙◌, sub64, if◌then◌else◌, ◌≡◌, ◌≢◌, ◌⊎◌, inl,
  inr, refl, List, [], ◌∷◌, some, true, false, Bool, Bool-cases, arith, length, load, ltb, leb,
  ◌==◌, u64, get_elem?-lt,
}
use muen_orin.Fdt.Read.{scan_nul, skip_name, matches_text, align_down}
use muen_orin.Fdt.Words.{align_down_lem}

-- Where the scan stops: at the first NUL from `pos`, or at `end`.
pub record StopsAt (p : List ℕ) (base end pos n : ℕ) : Type 0 where
  pub low : pos ≤ n
  pub high : n ≤ end
  pub stop : (n ≡ end) ⊎ (load p (base + n) ≡ some 0)
  pub nonzero : (i : ℕ) → pos ≤ i → i < n → load p (base + i) ≢ some 0

module _ (p : List ℕ) (base end : ℕ) where
  scan_nul-end : (fuel pos : ℕ) → end ≤ pos → scan_nul p base end (suc fuel) pos ≡ some pos
  unfolding scan_nul
  scan_nul-end fuel pos h = ground arith

  scan_nul-stop :
      (fuel pos : ℕ) → load p (base + pos) ≡ some 0 → scan_nul p base end (suc fuel) pos ≡ some pos
  unfolding scan_nul
  scan_nul-stop fuel pos e = ground (arith, e)

  scan_nul-next :
      (fuel pos c : ℕ)
      → pos < end
      → load p (base + pos) ≡ some c
      → c ≢ 0
      → scan_nul p base end (suc fuel) pos ≡ scan_nul p base end fuel (pos + 1)
  unfolding scan_nul
  scan_nul-next fuel pos c h e ne = ground (arith, e)

  StopsAt-here :
      (pos : ℕ)
      → pos ≤ end
      → (pos ≡ end) ⊎ (load p (base + pos) ≡ some 0)
      → StopsAt p base end pos pos
  StopsAt-here pos h stop = record {
    low = omega arith;
    high = h;
    stop = stop;
    nonzero = λ i a b. absurd (omega arith);
  }

  StopsAt-next :
      (pos c n : ℕ)
      → load p (base + pos) ≡ some c
      → c ≢ 0
      → StopsAt p base end (pos + 1) n
      → StopsAt p base end pos n
  StopsAt-next pos c n e ne s = record {
    low = omega (arith, s.low);
    high = s.high;
    stop = s.stop;
    nonzero = λ i a b z. elim (Bool-cases (i == pos)) [
      | inl same ↦ let q : i ≡ pos = ground arith in ground (arith, e, rw q at z)
      | inr later ↦ s.nonzero i (ground arith) b z
    ];
  }

  -- In a range inside the blob, with more rounds than bytes left, the scan for a NUL ends at
  -- the first NUL from its start, or at the end of the range if there is none.
  pub scan_nul-StopsAt :
      base + end ≤ length p
      → (fuel pos : ℕ) → pos ≤ end
      → end - pos < fuel
      → (n : ℕ) × (scan_nul p base end fuel pos ≡ some n) × StopsAt p base end pos n
  scan_nul-StopsAt inside zero pos h f = absurd (omega arith)
  scan_nul-StopsAt inside (suc fuel) pos h f = elim (Bool-cases (ltb pos end)) [
    | inr over ↦
        let e : pos ≡ end = ground arith in
        (pos, scan_nul-end fuel pos (omega arith), StopsAt-here pos h (inl e))
    | inl more ↦
        let below : pos < end = ground arith in
        let (c, e) = get_elem?-lt p (base + pos) (omega arith) in
        elim (Bool-cases (c == 0)) [
          | inl nul ↦
              let e' : load p (base + pos) ≡ some 0 = ground (arith, e) in
              (pos, scan_nul-stop fuel pos e', StopsAt-here pos h (inr e'))
          | inr other ↦
              let ne : c ≢ 0 = ground arith in
              let (n, ran, s) =
                scan_nul-StopsAt inside fuel (pos + 1) (omega arith) (omega arith) in
              (n, scan_nul-next fuel pos c below e ne ∙ ran, StopsAt-next pos c n e ne s)
        ]
  ]

module _ (p : List ℕ) (base end pos : ℕ) where
  pub StopsAt-le :
      (n n' : ℕ) → StopsAt p base end pos n → StopsAt p base end pos n' → n' < end → n ≤ n'
  StopsAt-le n n' s s' more = elim (Bool-cases (ltb n' n)) [
    | inr before ↦ ground arith
    | inl after ↦ elim s'.stop [
      | inl end ↦ absurd (omega arith)
      | inr nul ↦ absurd (s.nonzero n' s'.low (ground arith) nul)
    ]
  ]

  -- There is one first NUL.
  pub StopsAt-unique :
      (n n' : ℕ)
      → StopsAt p base end pos n
      → n < end
      → StopsAt p base end pos n'
      → n' < end
      → n ≡ n'
  StopsAt-unique n n' s more s' more' =
      omega (arith, StopsAt-le n n' s s' more', StopsAt-le n' n s' s more)

-- The outcome of `skip_name`: 0, or a later offset inside the block.
abbrev pub Skips : ℕ → ℕ → ℕ → Type 0
Skips pos end next = (next ≡ 0) ⊎ ((pos < next) × (next ≤ end))

skip_name_lem :
    (p : List ℕ) (pos end n : ℕ)
    → scan_nul p 0 end (suc (end - pos)) pos ≡ some n
    → end < 2 ^ 32
    → StopsAt p 0 end pos n
    → (r : ℕ × ℕ) × (skip_name p pos end ≡ some r) × Skips pos end r.0
unfolding skip_name
skip_name_lem p pos end n ran small s = elim (Bool-cases (leb end n)) [
  | inl over ↦ ((0, 0), rw (ran, over), inl refl)
  | inr more ↦
      let next = align_down (u64 (n + 4)) in
      let below : n < end = ground arith in
      let wrapped : u64 (n + 4) ≡ n + 4 = omega arith in
      let aligned : next ≡ (n + 4) / 4 * 4 = rw wrapped (align_down_lem (n + 4) (omega arith)) in
      (
        (if leb next end then next else 0, sub64 n pos),
        rw (ran, more),
        ground (arith, aligned, s.low),
      )
]

pub skip_name-Skips :
    (p : List ℕ) (pos end : ℕ)
    → end ≤ length p
    → end < 2 ^ 32
    → pos ≤ end
    → (r : ℕ × ℕ) × (skip_name p pos end ≡ some r) × Skips pos end r.0
skip_name-Skips p pos end inside small h =
    let (n, ran, s) =
      scan_nul-StopsAt p 0 end (omega arith) (suc (end - pos)) pos h (omega arith) in
    skip_name_lem p pos end n ran small s

matches_text-step :
    (p : List ℕ) (o x : ℕ) (xs : List ℕ) (c : ℕ) (b : Bool)
    → load p o ≡ some c
    → matches_text p (o + 1) xs ≡ some b
    → (r : Bool) × (matches_text p o (x ∷ xs) ≡ some r)
unfolding matches_text
matches_text-step p o x xs c b e f = elim (Bool-cases (c == x)) [
  | inl same ↦ (b, ground (arith, e, f, same))
  | inr other ↦ (false, ground (arith, e, other))
]

-- A comparison with a text that fits in the blob has an answer.
pub matches_text-total :
    (p : List ℕ) (o : ℕ) (xs : List ℕ)
    → o + length xs ≤ length p
    → (b : Bool) × (matches_text p o xs ≡ some b)
unfolding matches_text
matches_text-total p o [] h = (true, refl)
matches_text-total p o (x ∷ xs) h =
    let (c, e) = get_elem?-lt p o (omega arith) in
    let (b, f) = matches_text-total p (o + 1) xs (omega arith) in matches_text-step p o x xs c b e f
