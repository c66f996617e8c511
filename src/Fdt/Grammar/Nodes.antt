-- ===== src/Fdt/Grammar/Nodes.antt =====
-- The tokens of a node in the structure loop of tools/efi-inventory/core.c, and the end token,
-- decide whether what remains is in the grammar.
use muen_orin.Base.{
  ℕ, zero, suc, ◌+◌, ◌<◌, ◌≡◌, ◌↔◌, inl, inr, ◌∙◌, refl, subst, List, some, Bool, true, false,
  Bool-cases, arith, length, store, store_lem, set, length-set, get_elem?, get_elem?-set_self,
  get_elem?-set_ne, u32, sub32, ◌==◌, if◌then◌else◌,
}
use muen_orin.Fdt.Result.{DtResult, dt_depth_limit}
use muen_orin.Fdt.Structure.{
  Block, Walk, begin_node, end_node, finish, fdt_begin_node, fdt_end_node, fdt_end,
}
use muen_orin.Fdt.Safe.{IsBlock, IsSafe}
use muen_orin.Fdt.Grammar.{IsToken, IsName, behind_nul}
use muen_orin.Fdt.Grammar.Remains.{Remains, Remains-end_node, not-Remains-end_node, Remains-end}
use muen_orin.Fdt.Grammar.Behind.{roots_with, AfterName, Remains-begin_node}
use muen_orin.Fdt.Grammar.Names.{IsName-unique, skip_name-FindsName}
use muen_orin.Fdt.Grammar.Follows.{Tracks, Follows}
use muen_orin.Fdt.Grammar.Decides.{Decides, accepts, Decides-reject, Decides-fetch}

positive : (n : ℕ) → 0 < n → (d : ℕ) × (n ≡ suc d)
positive zero h = absurd (omega arith)
positive (suc d) h = (d, refl)

roots_with_lem :
    (b : Block) (d roots : ℕ)
    → (d ≡ 0 → roots ≡ 0)
    → (if d == 0 then u32 (roots + 1) else roots) ≡ roots_with b d roots
roots_with_lem b zero roots single = omega (arith, single refl)
roots_with_lem b (suc d) roots single = ground arith

-- The walk stands behind the token at `pos`.
module _ (b : Block) (ok : IsBlock b) (start : DtResult) (w : Walk) (safe : IsSafe b start w)
    (late : Bool) (tracks : Tracks w late) (pos : ℕ) (here : w.pos ≡ pos + 4) where
  abbrev pub Rest : Type 0
  Rest = Remains b w.depth late w.roots pos

  ended-Tracks :
      0 < w.depth
      → Tracks
          (record w { depth = sub32 w.depth 1; has_child = set w.has_child (sub32 w.depth 1) 0 })
          true
  ended-Tracks inner = record {
    last = λ i e.
        get_elem?-set_ne w.has_child (sub32 w.depth 1) i 0 (ground arith)
        ∙ tracks.parents i (ground (arith, safe.shallow));
    parents = λ i lt.
        get_elem?-set_ne w.has_child (sub32 w.depth 1) i 0 (ground arith)
        ∙ tracks.parents i (ground (arith, safe.shallow));
  }

  pub end_node-Decides : IsToken b fdt_end_node pos → Decides (Follows b Rest) Rest (end_node b w)
  unfolding end_node
  end_node-Decides t =
      Decides-reject _ _ _ _ _
        (λ outer h.
          let e : w.depth ≡ 0 = ground arith in
          not-Remains-end_node b late w.roots pos t (subst (λ d. Remains b d late w.roots pos) e h))
        λ inner.
          let open_node : 0 < w.depth = ground arith in
          let (d, e) = positive w.depth open_node in
          let below : sub32 w.depth 1 < length w.has_child =
            ground (arith, safe.shallow, safe.flags) in
          let back : sub32 w.depth 1 ≡ d = omega (arith, safe.shallow) in
          Decides-fetch _ _ (store_lem w.has_child (sub32 w.depth 1) 0 below) (
            accepts (record {
              late = true;
              tracks = ended-Tracks open_node;
              same = rw (back, e, here) (Remains-end_node b d late w.roots pos t);
            }))

  pub finish-Decides : IsToken b fdt_end pos → Decides (λ _. Rest) Rest (finish b w)
  unfolding finish
  finish-Decides t =
      let ends = Remains-end b w.depth late w.roots pos t in
      Decides-reject _ _ _ _ _ (λ opened h. let (z, some_root, at_end) = ends.0 h in ground arith)
        λ closed.
          Decides-reject _ _ _ _ _
            (λ more h. let (z, some_root, at_end) = ends.0 h in ground (arith, here))
            λ at_end. accepts (ends.1 (ground (arith, here)))

  -- The flags of the open nodes are set, that of the new node is cleared.
  begun-Tracks :
      (m : List ℕ) (next roots : ℕ)
      → w.depth < dt_depth_limit
      → length m ≡ dt_depth_limit
      → ((i : ℕ) → i < w.depth → get_elem? m i ≡ some 1)
      → Tracks
          (record w {
            pos = next;
            depth = u32 (w.depth + 1);
            roots = roots;
            has_child = set m w.depth 0;
          })
          false
  begun-Tracks m next roots shallow size open_nodes = record {
    last = λ i e.
        let same : i ≡ w.depth = omega (arith, shallow) in
        rw same (get_elem?-set_self m w.depth 0 (omega arith));
    parents = λ i lt. get_elem?-set_ne m w.depth i 0 (omega arith) ∙ open_nodes i (omega arith);
  }

  marked-Tracks :
      (m : List ℕ) × ((if w.depth == 0
          then some w.has_child
          else store w.has_child (sub32 w.depth 1) 1)
        ≡ some m)
      × (length m ≡ dt_depth_limit)
      × ((i : ℕ) → i < w.depth → get_elem? m i ≡ some 1)
  marked-Tracks = elim (Bool-cases (w.depth == 0)) [
    | inl outer ↦ (w.has_child, rw outer refl, safe.flags, λ i lt. absurd (ground arith))
    | inr inner ↦
        let parent = sub32 w.depth 1 in
        let below : parent < length w.has_child = ground (arith, safe.shallow, safe.flags) in
        (
          set w.has_child parent 1,
          rw (inner, store_lem w.has_child parent 1 below) refl,
          length-set w.has_child parent 1 ∙ safe.flags,
          λ i lt. elim (Bool-cases (i == parent)) [
            | inl same ↦
                let q : i ≡ parent = ground arith in
                rw q (get_elem?-set_self w.has_child parent 1 below)
            | inr other ↦
                get_elem?-set_ne w.has_child parent i 1 (ground arith)
                ∙ tracks.parents i (ground (arith, safe.shallow))
          ],
        )
  ]

  begins : IsToken b fdt_begin_node pos → Rest ↔ AfterName b w.depth w.roots w.pos
  begins t = rw here (Remains-begin_node b w.depth late w.roots pos t)

  -- The name is in the grammar, and there is room for the node.
  begun-Follows :
      (n roots : ℕ) (m : List ℕ)
      → IsToken b fdt_begin_node pos
      → IsName b w.pos n
      → w.depth < dt_depth_limit
      → (w.depth ≡ 0 → w.roots ≡ 0)
      → (w.depth ≡ 0 → n ≡ w.pos)
      → roots ≡ roots_with b w.depth w.roots
      → Tracks
          (record w { pos = behind_nul n; depth = u32 (w.depth + 1); roots = roots; has_child = m })
          false
      → Follows b Rest
          (record w { pos = behind_nul n; depth = u32 (w.depth + 1); roots = roots; has_child = m })
  begun-Follows n roots m t name shallow single empty counted follows =
      let deeper : u32 (w.depth + 1) ≡ suc w.depth = omega (arith, shallow) in
      record {
        late = false;
        tracks = follows;
        same =
            rw (deeper, counted)
              (
                (λ h.
                    let (n', name', _, _, _, k) = (begins t).0 h in
                    subst
                      (λ n.
                        Remains b (suc w.depth) false (roots_with b w.depth w.roots) (behind_nul n))
                      (IsName-unique b w.pos name' name) k),
                λ k. (begins t).1 (n, name, shallow, single, empty, k),
              );
      }

  pub begin_node-Decides :
      IsToken b fdt_begin_node pos → Decides (Follows b Rest) Rest (begin_node b w)
  unfolding begin_node
  begin_node-Decides t =
      Decides-reject _ _ _ _ _
        (λ many h.
          let (n, name, small, single, empty, k) = (begins t).0 h in ground (arith, single))
        λ first. elim (skip_name-FindsName b ok w.pos safe.inside) [
          | inr (k, e, no_name) ↦ Decides-fetch _ _ e (
              Decides-reject _ _ _ _ _
                (λ missing h. let (n, name, _, _, _, k) = (begins t).0 h in no_name n name)
                λ never. absurd cc)
          | inl (n, name, e) ↦ Decides-fetch _ _ e (
              Decides-reject _ _ _ _ _ (λ missing h. ground arith)
                λ found.
                  Decides-reject _ _ _ _ _
                    (λ named h.
                      let (n', name', _, _, empty, k) = (begins t).0 h in
                      let q : n ≡ n' = IsName-unique b w.pos name name' in ground (arith, empty))
                    λ unnamed.
                      Decides-reject _ _ _ _ _
                        (λ deep h. let (n', _, shallow, _, _, k) = (begins t).0 h in ground arith)
                        λ depth_left.
                          let (m, marked, size, open_nodes) = marked-Tracks in
                          let shallow : w.depth < dt_depth_limit = ground (arith, safe.shallow) in
                          let below : w.depth < length m = omega (arith, size) in
                          let single : w.depth ≡ 0 → w.roots ≡ 0 = λ z. ground arith in
                          let roots = if w.depth == 0 then u32 (w.roots + 1) else w.roots in
                          Decides-fetch _ _ marked (
                            Decides-fetch _ _ (store_lem m w.depth 0 below) (
                              accepts (
                                begun-Follows n roots (set m w.depth 0) t name shallow single
                                  (λ z. ground (arith, name.0.low))
                                  (roots_with_lem b w.depth w.roots single)
                                  (begun-Tracks m (behind_nul n) roots shallow size open_nodes)))))
        ]
