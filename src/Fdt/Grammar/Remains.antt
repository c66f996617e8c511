-- ===== src/Fdt/Grammar/Remains.antt =====
-- What the structure loop of tools/efi-inventory/core.c still has to read, and what each token
-- leaves of it.
use muen_orin.Base.{ℕ, zero, suc, ◌+◌, ◌≤◌, ◌≡◌, ◌≢◌, ◌↔◌, refl, subst, Bool, true, arith}
use muen_orin.Fdt.Structure.{Block, fdt_begin_node, fdt_end_node, fdt_prop, fdt_nop, fdt_end}
use muen_orin.Fdt.Grammar.{
  IsToken, IsBody, close, skip, field, child, IsTail, finished, skip_tail, IsTree, root, skip_head,
}

-- In front of the root node its tree, behind it the tail, and inside a node the rest of it and
-- then of its parents, which have a sub node.
unfoldable pub Remains : Block → ℕ → Bool → ℕ → ℕ → Type 0
Remains b zero late zero pos = IsTree b pos
Remains b zero late (suc roots) pos = IsTail b pos
Remains b (suc d) late roots pos = (m : ℕ) × IsBody b (suc d) late pos m × Remains b d true roots m

module _ (b : Block) where
  same_token : (v v' pos : ℕ) → IsToken b v pos → IsToken b v' pos → v ≡ v'
  same_token v v' pos t t' = let e = t.1 in let f = t'.1 in cc (e, f)

  -- Another token than the one that is there.
  pub clash : {R : Type 0} (v v' pos : ℕ) → IsToken b v pos → IsToken b v' pos → v ≢ v' → R
  clash v v' pos t t' ne = absurd (ne (same_token v v' pos t t'))

  pub no-IsTree : (v pos : ℕ) → IsToken b v pos → v ≢ fdt_begin_node → v ≢ fdt_nop → ¬ IsTree b pos
  no-IsTree v pos t ne ne' (root m t' name h k) = clash _ _ _ t t' ne
  no-IsTree v pos t ne ne' (skip_head t' h) = clash _ _ _ t t' ne'

  pub no-IsTail : (v pos : ℕ) → IsToken b v pos → v ≢ fdt_end → v ≢ fdt_nop → ¬ IsTail b pos
  no-IsTail v pos t ne ne' (finished t' e) = clash _ _ _ t t' ne
  no-IsTail v pos t ne ne' (skip_tail t' h) = clash _ _ _ t t' ne'

  IsBody-skip :
      {d : ℕ} {late : Bool} {pos q : ℕ}
      → IsToken b fdt_nop pos
      → IsBody b d late pos q
      → IsBody b d late (pos + 4) q
  IsBody-skip t (close t' e) = clash _ _ _ t t' (λ e. omega arith)
  IsBody-skip t (skip t' h) = h
  IsBody-skip t (field next t' early p h) = clash _ _ _ t t' (λ e. omega arith)
  IsBody-skip t (child n m t' name d h k) = clash _ _ _ t t' (λ e. omega arith)

  pub Remains-nop :
      (d : ℕ) (late : Bool) (roots pos : ℕ)
      → IsToken b fdt_nop pos
      → Remains b d late roots pos ↔ Remains b d late roots (pos + 4)
  unfolding Remains
  Remains-nop zero late zero pos t = (ahead, skip_head t)
    where
      ahead : IsTree b pos → IsTree b (pos + 4)
      ahead (root m t' name h k) = clash _ _ _ t t' (λ e. omega arith)
      ahead (skip_head t' h) = h
  Remains-nop zero late (suc roots) pos t = (ahead, skip_tail t)
    where
      ahead : IsTail b pos → IsTail b (pos + 4)
      ahead (finished t' e) = clash _ _ _ t t' (λ e. omega arith)
      ahead (skip_tail t' h) = h
  Remains-nop (suc d) late roots pos t =
      ((λ (m, h, k). (m, IsBody-skip t h, k)), (λ (m, h, k). (m, skip t h, k)))

  IsBody-close :
      {d : ℕ} {late : Bool} {pos q : ℕ}
      → IsToken b fdt_end_node pos
      → IsBody b d late pos q
      → q ≡ pos + 4
  IsBody-close t (close t' e) = e
  IsBody-close t (skip t' h) = clash _ _ _ t t' (λ e. omega arith)
  IsBody-close t (field next t' early p h) = clash _ _ _ t t' (λ e. omega arith)
  IsBody-close t (child n m t' name d h k) = clash _ _ _ t t' (λ e. omega arith)

  pub Remains-end_node :
      (d : ℕ) (late : Bool) (roots pos : ℕ)
      → IsToken b fdt_end_node pos
      → Remains b (suc d) late roots pos ↔ Remains b d true roots (pos + 4)
  unfolding Remains
  Remains-end_node d late roots pos t = (
    (λ (m, h, k). subst (λ m. Remains b d true roots m) (IsBody-close t h) k),
    (λ k. (pos + 4, close t refl, k)),
  )

  pub not-Remains-end_node :
      (late : Bool) (roots pos : ℕ) → IsToken b fdt_end_node pos → ¬ Remains b 0 late roots pos
  unfolding Remains
  not-Remains-end_node late zero pos t h = no-IsTree _ pos t (λ e. omega arith) (λ e. omega arith) h
  not-Remains-end_node late (suc roots) pos t h =
      no-IsTail _ pos t (λ e. omega arith) (λ e. omega arith) h

  IsBody-token :
      {d : ℕ} {late : Bool} {pos q : ℕ} (v : ℕ)
      → IsToken b v pos
      → v ≢ fdt_begin_node
      → v ≢ fdt_end_node
      → v ≢ fdt_prop
      → v ≢ fdt_nop
      → ¬ IsBody b d late pos q
  IsBody-token v t begin end prop nop (close t' e) = clash _ _ _ t t' end
  IsBody-token v t begin end prop nop (skip t' h) = clash _ _ _ t t' nop
  IsBody-token v t begin end prop nop (field next t' early p h) = clash _ _ _ t t' prop
  IsBody-token v t begin end prop nop (child n m t' name d h k) = clash _ _ _ t t' begin

  pub Remains-end :
      (d : ℕ) (late : Bool) (roots pos : ℕ)
      → IsToken b fdt_end pos
      → Remains b d late roots pos ↔ ((d ≡ 0) × (roots ≢ 0) × (pos + 4 ≡ b.end))
  unfolding Remains
  Remains-end zero late zero pos t = (
    (λ h. absurd (no-IsTree _ pos t (λ e. omega arith) (λ e. omega arith) h)),
    λ (z, ne, e). absurd (ne refl),
  )
  Remains-end zero late (suc roots) pos t = (ahead, λ (z, ne, e). finished t e)
    where
      ahead : IsTail b pos → (◌≡◌ {A = ℕ} 0 0) × (suc roots ≢ 0) × (pos + 4 ≡ b.end)
      ahead (finished t' e) = (refl, (λ e. omega arith), e)
      ahead (skip_tail t' h) = clash _ _ _ t t' (λ e. omega arith)
  Remains-end (suc d) late roots pos t = (
    (λ (m, h, k). absurd (
        IsBody-token _ t (λ e. omega arith) (λ e. omega arith) (λ e. omega arith) (λ e. omega arith)
          h)),
    λ (z, ne, e). absurd (omega arith),
  )

  -- Nothing begins with another token.
  pub not-Remains :
      (d : ℕ) (late : Bool) (roots v pos : ℕ)
      → IsToken b v pos
      → v ≢ fdt_begin_node
      → v ≢ fdt_end_node
      → v ≢ fdt_prop
      → v ≢ fdt_nop
      → v ≢ fdt_end
      → ¬ Remains b d late roots pos
  unfolding Remains
  not-Remains zero late zero v pos t begin end prop nop last h = no-IsTree v pos t begin nop h
  not-Remains zero late (suc roots) v pos t begin end prop nop last h = no-IsTail v pos t last nop h
  not-Remains (suc d) late roots v pos t begin end prop nop last (m, h, k) =
      IsBody-token v t begin end prop nop h

  IsBody-room : {d : ℕ} {late : Bool} {pos q : ℕ} → IsBody b d late pos q → pos + 4 ≤ b.end
  IsBody-room (close t e) = t.0
  IsBody-room (skip t h) = t.0
  IsBody-room (field next t early p h) = t.0
  IsBody-room (child n m t name d h k) = t.0

  -- What remains has a token.
  pub Remains-room :
      (d : ℕ) (late : Bool) (roots pos : ℕ) → Remains b d late roots pos → pos + 4 ≤ b.end
  unfolding Remains
  Remains-room zero late zero pos (root m t name h k) = t.0
  Remains-room zero late zero pos (skip_head t h) = t.0
  Remains-room zero late (suc roots) pos (finished t e) = t.0
  Remains-room zero late (suc roots) pos (skip_tail t h) = t.0
  Remains-room (suc d) late roots pos (m, h, k) = IsBody-room h
