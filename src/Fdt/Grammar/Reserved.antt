-- ===== src/Fdt/Grammar/Reserved.antt =====
-- The grammar of the reservation map that `parse_dt` of tools/efi-inventory/core.c accepts, and
-- that its loop decides it.
use muen_orin.Base.{
  ℕ, zero, suc, ◌+◌, ◌-◌, ◌^◌, ◌≤◌, ◌<◌, ◌≡◌, ◌≢◌, ◌⊎◌, ◌↔◌, inl, inr, ◌∙◌, ap, List, some, Bool,
  true, false, Bool-cases, not, ◌&&◌, arith, length, u64, ◌==◌, IsBytes,
}
use muen_orin.Map.Range.{range_ok_iff}
use muen_orin.Map.Parser.{range_ok}
use muen_orin.Fdt.Read.{be64}
use muen_orin.Fdt.Words.{be64-lt}
use muen_orin.Fdt.Result.{DtResult}
use muen_orin.Fdt.Header.{rsv_round, rsv_loop}
use muen_orin.Fdt.Grammar.Decides.{
  Decides, accepts, Decides-reject, Decides-fetch, Decides-bind, Decides-same,
}

-- The map from `rsv` on, below `limit`: entries whose ranges are below 2 ^ 64, up to one of zeros.
pub data IsReserved (p : List ℕ) (limit : ℕ) : ℕ → Type 0 where
  ended :
      {rsv : ℕ}
      → rsv + 16 ≤ limit
      → be64 p rsv ≡ some 0
      → be64 p (rsv + 8) ≡ some 0
      → IsReserved p limit rsv
  entry :
      {rsv : ℕ} (address size : ℕ)
      → rsv + 16 ≤ limit
      → be64 p rsv ≡ some address
      → be64 p (rsv + 8) ≡ some size
      → (address ≢ 0) ⊎ (size ≢ 0)
      → address + size < 2 ^ 64
      → IsReserved p limit (rsv + 16)
      → IsReserved p limit rsv

module _ (p : List ℕ) (limit : ℕ) where
  -- What the entry at `rsv` leaves of the map.
  abbrev AfterEntry : ℕ → ℕ → ℕ → Type 0
  AfterEntry address size rsv =
      ((address ≡ 0) × (size ≡ 0))
      ⊎ (((address ≢ 0) ⊎ (size ≢ 0)) × (address + size < 2 ^ 64) × IsReserved p limit (rsv + 16))

  IsReserved-room : {rsv : ℕ} → IsReserved p limit rsv → rsv + 16 ≤ limit
  IsReserved-room (ended room e f) = room
  IsReserved-room (entry address size room e f some_entry range h) = room

  IsReserved-entry :
      (address size : ℕ) {rsv : ℕ}
      → be64 p rsv ≡ some address
      → be64 p (rsv + 8) ≡ some size
      → IsReserved p limit rsv
      → AfterEntry address size rsv
  IsReserved-entry address size e f (ended room e' f') = inl (cc (e, e'), cc (f, f'))
  IsReserved-entry address size e f (entry address' size' room e' f' some_entry range h) =
      let q : address' ≡ address = cc (e, e') in
      let q' : size' ≡ size = cc (f, f') in
      inr (ground (arith, some_entry, q, q'), ground (arith, range, q, q'), h)

  abbrev ends_map : ℕ → ℕ → Bool
  ends_map address size = address == 0 && size == 0

  range_refused :
      (address size rsv : ℕ)
      → address < 2 ^ 64
      → (not (ends_map address size) && not (range_ok address size)) ≡ true
      → ¬ AfterEntry address size rsv
  range_refused address size rsv lt bad (inl (z, z')) = ground arith
  range_refused address size rsv lt bad (inr (some_entry, below, rest)) =
      let ok : range_ok address size ≡ true = (range_ok_iff address size lt).1 below in
      ground (arith, ok)

  -- A round ends the map, or its entry is a range.
  abbrev RoundFollows : ℕ → Bool → Type 0
  RoundFollows rsv true = IsReserved p limit rsv
  RoundFollows rsv false = IsReserved p limit rsv ↔ IsReserved p limit (rsv + 16)

  range_taken :
      (address size rsv : ℕ)
      → address < 2 ^ 64
      → rsv + 16 ≤ limit
      → be64 p rsv ≡ some address
      → be64 p (rsv + 8) ≡ some size
      → (not (ends_map address size) && not (range_ok address size)) ≡ false
      → RoundFollows rsv (ends_map address size)
  range_taken address size rsv lt room e f good = elim (Bool-cases (ends_map address size)) [
    | inl ends ↦
        let z : address ≡ 0 = ground arith in
        let z' : size ≡ 0 = ground arith in rw ends (ended room (e ∙ ap some z) (f ∙ ap some z'))
    | inr going ↦
        let ok : range_ok address size ≡ true = ground arith in
        let below = (range_ok_iff address size lt).0 ok in
        let some_entry : (address ≢ 0) ⊎ (size ≢ 0) = ground arith in
        rw going (
          (λ k. elim (IsReserved-entry address size e f k) [
            | inl (z, z') ↦ absurd (ground arith)
            | inr (_, _, rest) ↦ rest
          ]),
          entry address size room e f some_entry below,
        )
  ]

module _ (p : List ℕ) (r : DtResult) (limit : ℕ) (bytes : IsBytes p) (inside : limit ≤ length p)
    (small : limit < 2 ^ 32) where
  rsv_round-Decides :
      (rsv : ℕ)
      → rsv ≤ limit
      → Decides
          (λ ends. (rsv + 16 ≤ limit) × RoundFollows p limit rsv ends)
          (IsReserved p limit rsv)
          (rsv_round p r limit rsv)
  unfolding rsv_round
  rsv_round-Decides rsv h =
      Decides-reject _ _ _ _ _ (λ short k. ground (arith, IsReserved-room p limit k))
        λ entry_left.
          let room : rsv + 16 ≤ limit = ground arith in
          let (address, e, address-lt) = be64-lt p bytes rsv (omega arith) in
          let (size, f, _) = be64-lt p bytes (rsv + 8) (omega arith) in
          Decides-fetch _ _ e (
            Decides-fetch _ _ f (
              Decides-reject _ _ _ _ _
                (λ bad k.
                  range_refused p limit address size rsv address-lt bad
                    (IsReserved-entry p limit address size e f k))
                λ good.
                  accepts (room, range_taken p limit address size rsv address-lt room e f good)))

  -- In a space inside the blob, with more rounds than bytes left, the reservation loop goes on
  -- to its end if entries whose ranges end below 2 ^ 64 lead to an entry of zeros inside the
  -- space, and returns early if not.
  pub rsv_loop-IsReserved :
      (fuel rsv : ℕ)
      → limit - rsv < fuel
      → rsv ≤ limit
      → Decides (λ _. IsReserved p limit rsv) (IsReserved p limit rsv) (rsv_loop p r limit fuel rsv)
  unfolding rsv_loop
  rsv_loop-IsReserved zero rsv enough h = absurd (omega arith)
  rsv_loop-IsReserved (suc fuel) rsv enough h = Decides-bind _ (rsv_round-Decides rsv h) (elim [
    | true ↦ λ (room, k). accepts k
    | false ↦ λ (room, same).
        let there : u64 (rsv + 16) ≡ rsv + 16 = omega arith in
        Decides-same same (rw there (rsv_loop-IsReserved fuel (rsv + 16) (omega arith) room))
  ])
