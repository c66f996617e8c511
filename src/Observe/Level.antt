-- ===== src/Observe/Level.antt =====
-- `decode_el` of tools/efi-inventory/core.c, with `ElResult` of core.h.
use muen_orin.Base.{
  ℕ, ◌+◌, ◌-◌, ◌*◌, ◌/◌, ◌%◌, ◌^◌, ◌<◌, ◌≡◌, refl, ◌⊎◌, true, false, inl, inr, Bool-cases, not,
  ◌&&◌, ◌==◌, bit_and, ◌>>>◌, if◌then◌else◌, arith,
}
use muen_orin.Base.Bits.{bit_and_step, bit_and_low}
use muen_orin.Status.{State, observed, malformed}

pub record ElResult : Type 0 where
  pub state : State
  pub raw : ℕ
  pub level : ℕ

-- `~UINT64_C(0xc)`.
abbrev pub reserved_bits : ℕ
reserved_bits = 2 ^ 64 - 1 - 0xc

unfoldable pub decode_el : ℕ → ElResult
decode_el raw =
    if bit_and raw reserved_bits == 0 && not (bit_and (raw >>> 2) 3 == 0)
    then record { state = observed; raw = raw; level = bit_and (raw >>> 2) 3 }
    else record { state = malformed; raw = raw; level = 0 }

reserved_lem : (raw : ℕ) → raw < 2 ^ 64 → bit_and raw reserved_bits ≡ raw / 16 * 16 + raw % 4
reserved_lem raw h = omega (
  arith,
  bit_and_step raw reserved_bits,
  bit_and_step (raw / 2) ((2 ^ 64 - 1 - 0xc) / 2),
  bit_and_step (raw / 2 / 2) ((2 ^ 64 - 1 - 0xc) / 4),
  bit_and_step (raw / 2 / 2 / 2) ((2 ^ 64 - 1 - 0xc) / 8),
  bit_and_low 60 (raw / 2 / 2 / 2 / 2),
)

-- The values of CurrentEL that name an exception level other than EL0.
abbrev pub NamesLevel : ℕ → Type 0
NamesLevel raw = (raw ≡ 4) ⊎ (raw ≡ 8) ⊎ (raw ≡ 12)

accepted-NamesLevel :
    (raw : ℕ)
    → raw < 2 ^ 64
    → (bit_and raw reserved_bits == 0 && not (bit_and (raw >>> 2) 3 == 0)) ≡ true
    → NamesLevel raw
accepted-NamesLevel raw h e = ground (arith, reserved_lem raw h, bit_and_low 2 (raw >>> 2), e)

refused-NamesLevel :
    (raw : ℕ)
    → raw < 2 ^ 64
    → (bit_and raw reserved_bits == 0 && not (bit_and (raw >>> 2) 3 == 0)) ≡ false
    → ¬ NamesLevel raw
refused-NamesLevel raw h e k = ground (arith, reserved_lem raw h, bit_and_low 2 (raw >>> 2), e, k)

-- On a 64-bit value, `decode_el` keeps the raw value. On 4, 8 and 12 it is observed, with a
-- quarter of the value as its level; on every other value it is malformed, with level 0.
pub decode_el_lem :
    (raw : ℕ)
    → raw < 2 ^ 64
    → (NamesLevel raw × (decode_el raw ≡ record { state = observed; raw = raw; level = raw / 4 }))
      ⊎ ((¬ NamesLevel raw) × (decode_el raw ≡ record { state = malformed; raw = raw; level = 0 }))
unfolding decode_el
decode_el_lem raw h =
    elim (Bool-cases (bit_and raw reserved_bits == 0 && not (bit_and (raw >>> 2) 3 == 0))) [
      | inl e ↦
          let names : NamesLevel raw = accepted-NamesLevel raw h e in
          let level : bit_and (raw >>> 2) 3 ≡ raw / 4 =
            ground (arith, bit_and_low 2 (raw >>> 2), names) in
          rw (e, level) (inl (names, refl))
      | inr e ↦ rw e (inr (refused-NamesLevel raw h e, refl))
    ]
