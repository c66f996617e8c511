-- ===== src/Probe/Guids.antt =====
-- `guid_equal` of tools/efi-inventory/probe.c compares GUIDs.
use muen_orin.Base.{
  ℕ, zero, suc, sym, ◌+◌, ◌≤◌, ◌<◌, ◌≡◌, ◌≢◌, ◌⊎◌, inl, inr, ◌∙◌, ap, refl, List, [], ◌∷◌, some,
  Bool, true, false, Bool-cases, arith, length, get_elem?, get_elem?-lt, ◌==◌,
}
use muen_orin.Probe.Search.{guid_bytes, guid_equal_loop, guid_equal}

-- Two texts of `n` elements are equal when they are at each index.
list-ext :
    (n : ℕ) (x y : List ℕ)
    → length x ≡ n
    → length y ≡ n
    → ((j : ℕ) → j < n → get_elem? x j ≡ get_elem? y j)
    → x ≡ y
list-ext zero [] [] ex ey h = refl
list-ext zero (a ∷ x) y ex ey h = absurd (omega arith)
list-ext zero [] (b ∷ y) ex ey h = absurd (omega arith)
list-ext (suc n) [] y ex ey h = absurd (omega arith)
list-ext (suc n) (a ∷ x) [] ex ey h = absurd (omega arith)
list-ext (suc n) (a ∷ x) (b ∷ y) ex ey h =
    let head : some a ≡ some b = h 0 (omega arith) in
    let tail : x ≡ y =
      list-ext n x y (omega arith) (omega arith) (λ j below. h (suc j) (omega arith)) in
    cc (head, tail)

module _ (x y : List ℕ) (ex : length x ≡ guid_bytes) (ey : length y ≡ guid_bytes) where
  -- The verdict on the bytes from `i`.
  abbrev Compared : ℕ → Bool → Type 0
  Compared i b =
      ((b ≡ true) × ((j : ℕ) → i ≤ j → j < guid_bytes → get_elem? x j ≡ get_elem? y j))
      ⊎ ((b ≡ false) × (x ≢ y))

  guid_equal_loop-Compared :
      (left i : ℕ)
      → i + left ≡ guid_bytes
      → (b : Bool) × (guid_equal_loop x y left i ≡ some b) × Compared i b
  unfolding guid_equal_loop
  guid_equal_loop-Compared zero i e = (true, refl, inl (refl, λ j low high. absurd (omega arith)))
  guid_equal_loop-Compared (suc left) i e =
      let (a, ea) = get_elem?-lt x i (omega (arith, ex)) in
      let (c, ec) = get_elem?-lt y i (omega (arith, ey)) in
      elim (Bool-cases (a == c)) [
        | inl same ↦
            let here : a ≡ c = ground arith in
            let (b, ran, verdict) = guid_equal_loop-Compared left (i + 1) (omega arith) in
            (
              b,
              ground (arith, ea, ec, same, ran),
              elim verdict [
                | inl (met, rest) ↦ inl (
                  met,
                  λ j low high. elim (Bool-cases (j == i)) [
                    | inl at ↦ let q : j ≡ i = ground arith in rw q (ea ∙ ap some here ∙ sym ec)
                    | inr later ↦ rest j (ground arith) high
                  ],
                )
                | inr unmet ↦ inr unmet
              ],
            )
        | inr other ↦ (
          false,
          ground (arith, ea, ec, other),
          inr (
            refl,
            λ q.
                let e' : some a ≡ some c = sym ea ∙ ap (λ t. get_elem? t i) q ∙ ec in
                ground (arith, e', other),
          ),
        )
      ]

  -- On two GUIDs of sixteen bytes, `guid_equal` returns, and holds exactly when the GUIDs are
  -- equal.
  pub guid_equal_lem :
      (b : Bool) × (guid_equal x y ≡ some b) × (((b ≡ true) × (x ≡ y)) ⊎ ((b ≡ false) × (x ≢ y)))
  unfolding guid_equal
  guid_equal_lem =
      let (b, ran, verdict) = guid_equal_loop-Compared guid_bytes 0 (omega arith) in
      (
        b,
        ran,
        elim verdict [
          | inl (met, all) ↦
              inl (met, list-ext guid_bytes x y ex ey λ j below. all j (omega arith) below)
          | inr unmet ↦ inr unmet
        ],
      )
