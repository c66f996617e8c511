-- ===== src/Fdt/Grammar/Behind.antt =====
-- What a property and the beginning of a node leave of the structure block of `parse_dt` in
-- tools/efi-inventory/core.c.
use muen_orin.Base.{ℕ, zero, suc, ◌+◌, ◌<◌, ◌≡◌, ◌↔◌, refl, subst, Bool, true, false, arith}
use muen_orin.Fdt.Result.{dt_depth_limit}
use muen_orin.Fdt.Structure.{Block, fdt_begin_node, fdt_prop}
use muen_orin.Fdt.Grammar.{
  IsToken, IsName, IsProperty, IsBody, close, skip, field, child, IsTree, root, skip_head,
  behind_nul,
}
use muen_orin.Fdt.Grammar.Remains.{Remains, clash, no-IsTree, no-IsTail}

module _ (b : Block) where
  pub IsProperty-unique :
      {pos next next' : ℕ} → IsProperty b pos next → IsProperty b pos next' → next ≡ next'
  IsProperty-unique p p' =
      let e = p.len_read in
      let f = p'.len_read in
      let same : p.len ≡ p'.len = cc (e, f) in rw (p.next_is, p'.next_is, same) refl

  IsBody-field :
      {d : ℕ} {late : Bool} {pos q : ℕ}
      → IsToken b fdt_prop pos
      → IsBody b d late pos q
      → (next : ℕ) × (late ≡ false) × IsProperty b (pos + 4) next × IsBody b d late next q
  IsBody-field t (close t' e) = clash b _ _ _ t t' (λ e. omega arith)
  IsBody-field t (skip t' h) = clash b _ _ _ t t' (λ e. omega arith)
  IsBody-field t (field next t' early p h) = (next, early, p, h)
  IsBody-field t (child n m t' name d h k) = clash b _ _ _ t t' (λ e. omega arith)

  -- Behind a property token.
  abbrev pub AfterField : ℕ → Bool → ℕ → ℕ → Type 0
  AfterField d late roots start =
      (next : ℕ) × (0 < d) × (late ≡ false) × IsProperty b start next × Remains b d late roots next

  pub Remains-prop :
      (d : ℕ) (late : Bool) (roots pos : ℕ)
      → IsToken b fdt_prop pos
      → Remains b d late roots pos ↔ AfterField d late roots (pos + 4)
  unfolding Remains
  Remains-prop zero late zero pos t = (
    λ h. absurd (no-IsTree b _ pos t (λ e. omega arith) (λ e. omega arith) h),
    λ (next, deep, early, p, k). absurd (omega arith),
  )
  Remains-prop zero late (suc roots) pos t = (
    λ h. absurd (no-IsTail b _ pos t (λ e. omega arith) (λ e. omega arith) h),
    λ (next, deep, early, p, k). absurd (omega arith),
  )
  Remains-prop (suc d) late roots pos t = (
    (λ (m, h, k).
        let (next, early, p, rest) = IsBody-field t h in
        (next, omega arith, early, p, (m, rest, k))),
    λ (next, deep, early, p, (m, rest, k)). (m, field next t early p rest, k),
  )

  IsBody-child :
      {d : ℕ} {late : Bool} {pos q : ℕ}
      → IsToken b fdt_begin_node pos
      → IsBody b d late pos q
      → (n m : ℕ) × IsName b (pos + 4) n
        × (d < dt_depth_limit)
        × IsBody b (suc d) false (behind_nul n) m
        × IsBody b d true m q
  IsBody-child t (close t' e) = clash b _ _ _ t t' (λ e. omega arith)
  IsBody-child t (skip t' h) = clash b _ _ _ t t' (λ e. omega arith)
  IsBody-child t (field next t' early p h) = clash b _ _ _ t t' (λ e. omega arith)
  IsBody-child t (child n m t' name d h k) = (n, m, name, d, h, k)

  -- The number of root nodes that a node of the depth is counted to.
  abbrev pub roots_with : ℕ → ℕ → ℕ
  roots_with zero roots = 1
  roots_with (suc d) roots = roots

  -- Behind the token that begins a node: the root node is the first and has no name.
  abbrev pub AfterName : ℕ → ℕ → ℕ → Type 0
  AfterName d roots start =
      (n : ℕ) × IsName b start n
      × (d < dt_depth_limit)
      × (d ≡ 0 → roots ≡ 0)
      × (d ≡ 0 → n ≡ start)
      × Remains b (suc d) false (roots_with d roots) (behind_nul n)

  pub Remains-begin_node :
      (d : ℕ) (late : Bool) (roots pos : ℕ)
      → IsToken b fdt_begin_node pos
      → Remains b d late roots pos ↔ AfterName d roots (pos + 4)
  unfolding Remains
  Remains-begin_node zero late zero pos t = (ahead, back)
    where
      ahead : IsTree b pos → AfterName 0 0 (pos + 4)
      ahead (root m t' name h k) = (pos + 4, name, omega arith, (λ _. refl), (λ _. refl), (m, h, k))
      ahead (skip_head t' h) = clash b _ _ _ t t' (λ e. omega arith)

      back : AfterName 0 0 (pos + 4) → IsTree b pos
      back (n, name, small, single, empty, (m, h, k)) =
          let same = empty refl in
          root m t (subst (IsName b (pos + 4)) same name)
            (subst (λ n. IsBody b 1 false (behind_nul n) m) same h) k
  Remains-begin_node zero late (suc roots) pos t = (
    λ h. absurd (no-IsTail b _ pos t (λ e. omega arith) (λ e. omega arith) h),
    λ (n, name, small, single, empty, k). absurd (omega (arith, single refl)),
  )
  Remains-begin_node (suc d) late roots pos t = (
    (λ (q, h, rest).
        let (n, m, name, small, h', k) = IsBody-child t h in
        (
          n,
          name,
          small,
          (λ e. absurd (omega arith)),
          (λ e. absurd (omega arith)),
          (m, h', (q, k, rest)),
        )),
    λ (n, name, small, single, empty, (m, h', (q, k, rest))).
        (q, child n m t name small h' k, rest),
  )
