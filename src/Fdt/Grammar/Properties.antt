-- ===== src/Fdt/Grammar/Properties.antt =====
-- The `FDT_PROP` branch of the structure loop of tools/efi-inventory/core.c decides whether what
-- remains is in the grammar.
use muen_orin.Base.{
  ℕ, suc, ◌+◌, ◌-◌, ◌*◌, ◌/◌, ◌^◌, ◌≤◌, ◌<◌, ◌≡◌, ◌≢◌, ◌↔◌, refl, subst, some, Bool, true, false,
  not, arith, load, u64, sub32, ◌==◌,
}
use muen_orin.Fdt.Read.{be32, align_down}
use muen_orin.Fdt.Words.{be32-lt, align_down_lem}
use muen_orin.Fdt.Names.{StopsAt, StopsAt-le, scan_nul-StopsAt}
use muen_orin.Fdt.Result.{DtResult}
use muen_orin.Fdt.Structure.{Block, Walk, property_value, property, fdt_prop}
use muen_orin.Fdt.Safe.{IsBlock, IsSafe, note_model-total}
use muen_orin.Fdt.Grammar.{IsToken, IsProperty}
use muen_orin.Fdt.Grammar.Remains.{Remains}
use muen_orin.Fdt.Grammar.Behind.{AfterField, IsProperty-unique, Remains-prop}
use muen_orin.Fdt.Grammar.Follows.{flag, Tracks, Follows}
use muen_orin.Fdt.Grammar.Decides.{Decides, accepts, Decides-reject, Decides-fetch}

flag_early : (late : Bool) → not (flag late == 0) ≡ false → late ≡ false
flag_early true e = ground arith
flag_early false e = refl

flag_late : (late : Bool) → not (flag late == 0) ≡ true → late ≢ false
flag_late true e f = cc
flag_late false e f = ground arith

behind_value :
    (pos len end : ℕ)
    → pos + 8 + len ≤ end
    → end < 2 ^ 32
    → align_down (u64 (u64 (pos + 8) + len + 3)) ≡ (pos + 8 + len + 3) / 4 * 4
behind_value pos len end inside small =
    let same : u64 (u64 (pos + 8) + len + 3) ≡ pos + 8 + len + 3 = omega arith in
    rw same (align_down_lem (pos + 8 + len + 3) (omega arith))

-- What the grammar says of a property whose two words are known.
record HasWords (b : Block) (pos len name : ℕ) : Type 0 where
  nul : ℕ
  inside : pos + 8 + len ≤ b.end
  named : StopsAt b.p b.off_strings b.size_strings name nul
  terminated : nul < b.size_strings

IsProperty-HasWords :
    (b : Block) (pos next len name : ℕ)
    → IsProperty b pos next
    → be32 b.p pos ≡ some len
    → be32 b.p (pos + 4) ≡ some name
    → HasWords b pos len name
IsProperty-HasWords b pos next len name p e f =
    let len-read = p.len_read in
    let name-read = p.name_read in
    let same : p.len ≡ len = cc (e, len-read) in
    let same' : p.name ≡ name = cc (f, name-read) in
    record {
      nul = p.nul;
      inside = omega (arith, p.inside, same);
      named = subst (λ n. StopsAt b.p b.off_strings b.size_strings n p.nul) same' p.named;
      terminated = p.terminated;
    }

module _ (b : Block) (ok : IsBlock b) (start : DtResult) (w : Walk) (safe : IsSafe b start w)
    (late : Bool) (tracks : Tracks w late) (pos : ℕ) (here : w.pos ≡ pos + 4)
    (t : IsToken b fdt_prop pos) where
  abbrev Rest : Type 0
  Rest = Remains b w.depth late w.roots pos

  fields : Rest ↔ AfterField b w.depth late w.roots w.pos
  fields = rw here (Remains-prop b w.depth late w.roots pos t)

  last_flag : 0 < w.depth → load w.has_child (sub32 w.depth 1) ≡ some (flag late)
  last_flag inner = tracks.last (sub32 w.depth 1) (omega (arith, safe.shallow))

  noted-Follows :
      (next : ℕ) (r : DtResult)
      → 0 < w.depth
      → late ≡ false
      → IsProperty b w.pos next
      → Follows b Rest (record w { pos = next; result = r })
  noted-Follows next r inner early p = record {
    late = late;
    tracks = record { last = tracks.last; parents = tracks.parents };
    same = (
      (λ h.
          let (next', _, _, p', k) = fields.0 h in
          subst (λ q. Remains b w.depth late w.roots q) (IsProperty-unique b p' p) k),
      λ k. fields.1 (next, inner, early, p, k),
    );
  }

  module _ (len name : ℕ) (len-read : be32 b.p w.pos ≡ some len)
      (name-read : be32 b.p (w.pos + 4) ≡ some name) (len-lt : len < 2 ^ 32)
      (name-lt : name < 2 ^ 32) (inner : 0 < w.depth) (room : w.pos + 8 ≤ b.end) where
    words : Rest → HasWords b w.pos len name
    words h =
        let (next, _, _, p, _) = fields.0 h in
        IsProperty-HasWords b w.pos next len name p len-read name-read

    property_value-Decides :
        Decides (Follows b Rest) Rest (property_value b w (u64 (w.pos + 8)) len name)
    unfolding property_value
    property_value-Decides =
        let value : u64 (w.pos + 8) ≡ w.pos + 8 = omega (arith, ok.end_small) in
        Decides-reject _ _ _ _ _ (λ large h. ground (arith, (words h).inside, ok.end_small, value))
          λ fits.
            let whole : w.pos + 8 + len ≤ b.end = ground (arith, ok.end_small, value) in
            Decides-reject _ _ _ _ _
              (λ outside h. let s = (words h).named in ground (arith, s.low, (words h).terminated))
              λ named.
                let (n, scanned, stops) =
                  scan_nul-StopsAt b.p b.off_strings b.size_strings ok.strings_inside
                    (suc (b.size_strings - name)) name (ground arith) (omega arith) in
                Decides-fetch _ _ scanned (
                  Decides-reject _ _ _ _ _
                    (λ open_name h.
                      let s = words h in
                      let q : n ≤ s.nul =
                        StopsAt-le b.p b.off_strings b.size_strings name n s.nul stops s.named
                          s.terminated in
                      ground (arith, s.terminated))
                    λ ended. Decides-fetch _ _ (last_flag inner) (
                      Decides-reject _ _ _ _ _
                        (λ after_child h.
                          let (_, _, early, _, _) = fields.0 h in flag_late late after_child early)
                        λ before_child.
                          let (r, noted, _) =
                            note_model-total b ok start w safe name n (u64 (w.pos + 8)) len
                              stops.low stops.high len-lt (omega (arith, ok.struct_inside)) in
                          Decides-fetch _ _ noted (
                            accepts (
                              noted-Follows (align_down (u64 (u64 (w.pos + 8) + len + 3))) r inner
                                (flag_early late before_child)
                                (record {
                                  len = len;
                                  name = name;
                                  nul = n;
                                  len_read = len-read;
                                  name_read = name-read;
                                  inside = whole;
                                  named = stops;
                                  terminated = ground (arith, stops.high);
                                  next_is = behind_value w.pos len b.end whole ok.end_small;
                                })))))

  pub property-Decides : Decides (Follows b Rest) Rest (property b w)
  unfolding property
  property-Decides =
      Decides-reject _ _ _ _ _ (λ outer h. let (_, inner, _, _, _) = fields.0 h in ground arith)
        λ inner.
          Decides-reject _ _ _ _ _
            (λ short h. let (_, _, _, p, _) = fields.0 h in ground (arith, p.inside, ok.end_small))
            λ header.
              let room : w.pos + 8 ≤ b.end = ground (arith, safe.inside, ok.end_small) in
              let (len, len-read, len-lt) =
                be32-lt b.p ok.bytes w.pos (omega (arith, ok.struct_inside)) in
              let (name, name-read, name-lt) =
                be32-lt b.p ok.bytes (w.pos + 4) (omega (arith, ok.struct_inside)) in
              Decides-fetch _ _ len-read (
                Decides-fetch _ _ name-read (
                  property_value-Decides len name len-read name-read len-lt name-lt (ground arith)
                    room))
