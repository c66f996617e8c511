-- ===== src/Fdt/Grammar/Names.antt =====
-- `skip_name` of tools/efi-inventory/core.c decides whether there is a name in the grammar.
use muen_orin.Base.{
  ℕ, suc, ◌+◌, ◌-◌, ◌≤◌, ◌<◌, ◌≡◌, ◌⊎◌, inl, inr, refl, some, Bool-cases, arith, u64, sub64, leb,
}
use muen_orin.Fdt.Read.{scan_nul, skip_name, align_down}
use muen_orin.Fdt.Words.{align_down_lem}
use muen_orin.Fdt.Names.{StopsAt, StopsAt-le, StopsAt-unique, scan_nul-StopsAt}
use muen_orin.Fdt.Structure.{Block}
use muen_orin.Fdt.Safe.{IsBlock}
use muen_orin.Fdt.Grammar.{IsName, behind_nul}

pub IsName-unique : (b : Block) (pos : ℕ) {n n' : ℕ} → IsName b pos n → IsName b pos n' → n ≡ n'
IsName-unique b pos name name' = StopsAt-unique b.p 0 b.end pos _ _ name.0 name.1 name'.0 name'.1

-- `skip_name` finds the name, or there is none.
abbrev pub FindsName : Block → ℕ → Type 0
FindsName b pos =
    ((n : ℕ) × IsName b pos n × (skip_name b.p pos b.end ≡ some (behind_nul n, sub64 n pos)))
    ⊎ ((k : ℕ) × (skip_name b.p pos b.end ≡ some (0, k)) × ((n : ℕ) → ¬ IsName b pos n))

module _ (b : Block) (ok : IsBlock b) (pos : ℕ) where
  scanned-FindsName :
      (n : ℕ)
      → scan_nul b.p 0 b.end (suc (b.end - pos)) pos ≡ some n
      → StopsAt b.p 0 b.end pos n
      → FindsName b pos
  unfolding skip_name
  scanned-FindsName n ran s = elim (Bool-cases (leb b.end n)) [
    | inl over ↦ inr (
      0,
      rw (ran, over) refl,
      λ n' name. absurd (ground (arith, StopsAt-le b.p 0 b.end pos n n' s name.0 name.1)),
    )
    | inr more ↦
        let below : n < b.end = ground arith in
        let next : align_down (u64 (n + 4)) ≡ behind_nul n =
          let wrapped : u64 (n + 4) ≡ n + 4 = omega (arith, ok.end_small) in
          rw wrapped (align_down_lem (n + 4) (omega (arith, ok.end_small))) in
        elim (Bool-cases (leb (behind_nul n) b.end)) [
          | inl inside ↦ inl (n, (s, below, ground arith), rw (ran, more, next, inside) refl)
          | inr outside ↦ inr (
            sub64 n pos,
            rw (ran, more, next, outside) refl,
            λ n' name.
                let q : n ≡ n' = StopsAt-unique b.p 0 b.end pos n n' s below name.0 name.1 in
                absurd (ground (arith, q, name.2)),
          )
        ]
  ]

  pub skip_name-FindsName : pos ≤ b.end → FindsName b pos
  skip_name-FindsName inside =
      let (n, ran, s) =
        scan_nul-StopsAt b.p 0 b.end (omega (arith, ok.struct_inside)) (suc (b.end - pos)) pos
          inside (omega arith) in
      scanned-FindsName n ran s
