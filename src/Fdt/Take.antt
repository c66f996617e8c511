-- ===== src/Fdt/Take.antt =====
-- `take_model` of tools/efi-inventory/core.c, on every branch.
use muen_orin.Base.{
  ℕ, zero, suc, ◌+◌, ◌-◌, ◌≤◌, ◌<◌, ◌^◌, ◌≡◌, ◌≢◌, ◌⊎◌, inl, inr, ◌∙◌, ap, subst, sym, refl, List,
  some, Bool, true, false, Bool-cases, arith, length, load, set, get_elem?-lt, sub32, leb, ◌==◌,
  not, ◌||◌,
}
use muen_orin.Status.{state_eq, state_eq→eq, state_eq→ne, unavailable, unsupported, malformed}
use muen_orin.Fdt.Result.{DtResult}
use muen_orin.Fdt.Model.{is_ascii_text, set_model, is_unterminated, take_model}
use muen_orin.Fdt.Outcome.{HasRoom}
use muen_orin.Fdt.Copy.{HoldsText, set_model-HoldsText}

module _ (p : List ℕ) (v : ℕ) where
  -- A byte of an ASCII text that is not a NUL.
  abbrev pub IsLetter : ℕ → Type 0
  IsLetter i = (c : ℕ) × (load p (v + i) ≡ some c) × (0 < c) × (c < 0x80)

  is_ascii_text-next :
      (left i c : ℕ)
      → load p (v + i) ≡ some c
      → 0 < c
      → c < 0x80
      → is_ascii_text p v (suc left) i ≡ is_ascii_text p v left (i + 1)
  unfolding is_ascii_text
  is_ascii_text-next left i c e pos ascii = ground (arith, e)

  is_ascii_text-stop :
      (left i c : ℕ)
      → load p (v + i) ≡ some c
      → (c == 0 || leb 0x80 c) ≡ true
      → is_ascii_text p v (suc left) i ≡ some false
  unfolding is_ascii_text
  is_ascii_text-stop left i c e bad = ground (arith, e, bad)

  not-IsLetter :
      (i c : ℕ) → load p (v + i) ≡ some c → (c == 0 || leb 0x80 c) ≡ true → ¬ (IsLetter i)
  not-IsLetter i c e bad (d, f, pos, ascii) = ground (arith, e, f)

  -- The verdict of the loop on the bytes from `i` to `hi`.
  abbrev Verdict : ℕ → ℕ → Bool → Type 0
  Verdict i hi b =
      ((b ≡ true) × ((j : ℕ) → i ≤ j → j < hi → IsLetter j))
      ⊎ ((b ≡ false) × ((j : ℕ) × (j < hi) × (¬ (IsLetter j))))

  Verdict-next : (i hi : ℕ) (b : Bool) → IsLetter i → Verdict (i + 1) hi b → Verdict i hi b
  Verdict-next i hi b here (inl (e, rest)) = inl (
    e,
    λ j low high. elim (Bool-cases (j == i)) [
      | inl same ↦ let q : j ≡ i = ground arith in subst IsLetter (sym q) here
      | inr other ↦ rest j (ground arith) high
    ],
  )
  Verdict-next i hi b here (inr found) = inr found

  is_ascii_text-Verdict :
      (left i hi : ℕ)
      → i + left ≡ hi
      → v + hi ≤ length p
      → (b : Bool) × (is_ascii_text p v left i ≡ some b) × Verdict i hi b
  is_ascii_text-Verdict zero i hi e h =
      (true, (unfold is_ascii_text in refl), inl (refl, λ j low high. absurd (omega arith)))
  is_ascii_text-Verdict (suc left) i hi e h =
      let (c, f) = get_elem?-lt p (v + i) (omega arith) in
      elim (Bool-cases (c == 0 || leb 0x80 c)) [
        | inl bad ↦ (
          false,
          is_ascii_text-stop left i c f bad,
          inr (refl, (i, omega arith, not-IsLetter i c f bad)),
        )
        | inr good ↦
            let (b, g, verdict) = is_ascii_text-Verdict left (i + 1) hi (omega arith) h in
            let pos : 0 < c = ground arith in
            let ascii : c < 0x80 = ground arith in
            (
              b,
              is_ascii_text-next left i c f pos ascii ∙ g,
              Verdict-next i hi b (c, f, pos, ascii) verdict,
            )
      ]

  -- The value ends in a NUL.
  abbrev pub IsTerminated : ℕ → Type 0
  IsTerminated len = (0 < len) × (load p (v + (len - 1)) ≡ some 0)

  abbrev Ending : ℕ → Bool → Type 0
  Ending len b = ((b ≡ true) × (¬ (IsTerminated len))) ⊎ ((b ≡ false) × IsTerminated len)

  Ending-of_last :
      (len c : ℕ) → 0 < len → load p (v + (len - 1)) ≡ some c → Ending len (not (c == 0))
  Ending-of_last len zero pos e = inr (refl, (pos, e))
  Ending-of_last len (suc c) pos e = inl (ground arith, λ t. ground (arith, e, t.1))

  is_unterminated-Ending :
      (len : ℕ)
      → len < 2 ^ 32
      → v + len ≤ length p
      → (b : Bool) × (is_unterminated p v len ≡ some b) × Ending len b
  unfolding is_unterminated
  is_unterminated-Ending zero small h = (true, refl, inl (refl, λ t. absurd (omega arith)))
  is_unterminated-Ending (suc n) small h =
      let last : sub32 (suc n) 1 ≡ suc n - 1 = omega arith in
      let (c, e) = get_elem?-lt p (v + (suc n - 1)) (omega arith) in
      (not (c == 0), ground (arith, last, e), Ending-of_last (suc n) c (omega arith) e)

  -- What `take_model` does with a value of `len` bytes, by the four cases of the contract.
  pub data Takes (r : DtResult) (len : ℕ) : DtResult → Type 0 where
    repeated :
        r.model_state ≢ unavailable
        → Takes r len
            (record r { model_state = malformed; model_length = 0; model = set r.model 0 0 })
    unterminated :
        r.model_state ≡ unavailable
        → ¬ (IsTerminated len)
        → Takes r len (record r { model_state = malformed })
    not_text :
        r.model_state ≡ unavailable
        → IsTerminated len
        → (j : ℕ) → j < len - 1
        → ¬ (IsLetter j)
        → Takes r len (record r { model_state = unsupported })
    text :
        {r' : DtResult}
        → r.model_state ≡ unavailable
        → IsTerminated len
        → ((j : ℕ) → j < len - 1 → IsLetter j)
        → HoldsText p v (len - 1) r r'
        → Takes r len r'

  module _ (r : DtResult) (len : ℕ) where
    take_model-repeated :
        state_eq r.model_state unavailable ≡ false
        → take_model r p v len
          ≡ some (record r { model_state = malformed; model_length = 0; model = set r.model 0 0 })
    unfolding take_model
    take_model-repeated e = ground (arith, e)

    module _ (first : state_eq r.model_state unavailable ≡ true) where
      take_model-unterminated :
          is_unterminated p v len ≡ some true
          → take_model r p v len ≡ some (record r { model_state = malformed })
      unfolding take_model
      take_model-unterminated e = ground (arith, first, e)

      take_model-not_text :
          is_unterminated p v len ≡ some false
          → is_ascii_text p v (sub32 len 1) 0 ≡ some false
          → take_model r p v len ≡ some (record r { model_state = unsupported })
      unfolding take_model
      take_model-not_text e f = ground (arith, first, e, f)

      take_model-text :
          is_unterminated p v len ≡ some false
          → is_ascii_text p v (sub32 len 1) 0 ≡ some true
          → take_model r p v len ≡ set_model r p v (sub32 len 1)
      unfolding take_model
      take_model-text e f = ground (arith, first, e, f)

  taken_first :
      (r : DtResult) (len : ℕ)
      → HasRoom r
      → len < 2 ^ 32
      → v + len ≤ length p
      → state_eq r.model_state unavailable ≡ true
      → r.model_state ≡ unavailable
      → (r' : DtResult) × (take_model r p v len ≡ some r') × Takes r len r'
  taken_first r len room small h first e =
      let (bad, f, ending) = is_unterminated-Ending len small h in
      elim ending [
        | inl (wrong, not-ended) ↦
            (_, take_model-unterminated r len first (f ∙ ap some wrong), unterminated e not-ended)
        | inr (right, ended) ↦
            let last : sub32 len 1 ≡ len - 1 = omega (arith, ended.0) in
            let (ascii, g, verdict) =
              is_ascii_text-Verdict (sub32 len 1) 0 (len - 1) (omega (arith, last))
                (omega (arith, ended.0)) in
            elim verdict [
              | inl (fine, letters) ↦
                  let (r', set, holds) = set_model-HoldsText p v r (len - 1) room (omega arith) in
                  (
                    r',
                    take_model-text r len first (f ∙ ap some right) (g ∙ ap some fine)
                        ∙ ap (set_model r p v) last
                        ∙ set,
                    text e ended (λ j below. letters j (omega arith) below) holds,
                  )
              | inr (odd, (j, below, other)) ↦ (
                _,
                take_model-not_text r len first (f ∙ ap some right) (g ∙ ap some odd),
                not_text e ended j below other,
              )
            ]
      ]

  -- On a model array of its size and a 32-bit value inside the blob, `take_model` returns: it
  -- reads only the value and writes only the model array. A second model is malformed, so is
  -- one that does not end in a NUL, a value with another NUL or a byte from 0x80 is
  -- unsupported, and a text is copied with a NUL behind it, its first 64 bytes if it is
  -- longer.
  pub take_model-Takes :
      (r : DtResult) (len : ℕ)
      → HasRoom r
      → len < 2 ^ 32
      → v + len ≤ length p
      → (r' : DtResult) × (take_model r p v len ≡ some r') × Takes r len r'
  take_model-Takes r len room small h = elim (Bool-cases (state_eq r.model_state unavailable)) [
    | inr again ↦ (_, take_model-repeated r len again, repeated (state_eq→ne _ _ again))
    | inl first ↦ taken_first r len room small h first (state_eq→eq _ _ first)
  ]
