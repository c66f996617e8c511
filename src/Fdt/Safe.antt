-- ===== src/Fdt/Safe.antt =====
-- The structure-block loop of tools/efi-inventory/core.c stays inside the blob and inside its own
-- array of flags: the invariant, kept by each token.
use muen_orin.Base.{
  refl, ℕ, suc, ◌+◌, ◌-◌, ◌*◌, ◌/◌, ◌%◌, ◌^◌, ◌≤◌, ◌<◌, ◌≡◌, ◌≢◌, inl, inr, ◌∙◌, List, some,
  Bool-cases, arith, length, store, store_lem, set, length-set, get_elem?-lt, sub32, sub64, u64,
  ◌==◌, ◌&&◌, codes, IsBytes, if◌then◌else◌,
}
use muen_orin.Status.{not_probed, observed, unsupported, malformed}
use muen_orin.Fdt.Read.{align_down}
use muen_orin.Fdt.Words.{be32-lt, align_down_lem}
use muen_orin.Fdt.Names.{skip_name-Skips, scan_nul-StopsAt, matches_text-total}
use muen_orin.Fdt.Result.{DtResult, dt_depth_limit}
use muen_orin.Fdt.Outcome.{
  HasRoom, HasText, SameHeader, Ensures, goes, Ensures-reject, Ensures-fetch,
}
use muen_orin.Fdt.Take.{take_model-Takes, Takes}
use muen_orin.Fdt.Taken.{Takes-keeps, Takes-SameHeader, Takes-probed, Takes-HasText, Takes-length}
use muen_orin.Fdt.Structure.{
  Block, Walk, begin_node, end_node, note_model, property_value, property, finish,
}

-- A structure block and a strings block inside the blob.
pub record IsBlock (b : Block) : Type 0 where
  pub bytes : IsBytes b.p
  pub struct_inside : b.end ≤ length b.p
  pub strings_inside : b.off_strings + b.size_strings ≤ length b.p
  pub end_aligned : b.end % 4 ≡ 0
  pub end_small : b.end < 2 ^ 32
  pub strings_small : b.size_strings < 2 ^ 32

-- The header's fields are kept, the model array has its size, and the model counts as probed.
pub record IsKept (start r : DtResult) : Type 0 where
  pub room : HasRoom r
  pub header : SameHeader start r
  pub probed : r.model_state ≢ not_probed
  pub text : HasText r
  pub short : r.model_length < 2 ^ 64

-- `start` is the result before the loop.
pub record IsSafe (b : Block) (start : DtResult) (w : Walk) : Type 0 where
  pub inside : w.pos ≤ b.end
  pub shallow : w.depth ≤ dt_depth_limit
  pub flags : length w.has_child ≡ dt_depth_limit
  pub kept : IsKept start w.result

-- A token leaves the walk safe and does not go back.
abbrev pub Advances : Block → DtResult → Walk → Walk → Type 0
Advances b start w w' = IsSafe b start w' × (w.pos ≤ w'.pos)

pub malformed-ne : malformed ≢ observed
malformed-ne e = cc

pub unsupported-ne : unsupported ≢ observed
unsupported-ne e = cc

module _ (b : Block) (ok : IsBlock b) (start : DtResult) (w : Walk) (safe : IsSafe b start w) where
  pub end_node-Advances : Ensures (Advances b start w) (end_node b w)
  unfolding end_node
  end_node-Advances = Ensures-reject _ _ _ _ _ safe.kept.room malformed-ne refl λ inner.
      let below : sub32 w.depth 1 < length w.has_child = ground (arith, safe.shallow, safe.flags) in
      Ensures-fetch _ _ (store_lem w.has_child (sub32 w.depth 1) 0 below) (
        goes (
          record {
            inside = safe.inside;
            shallow = ground (arith, safe.shallow);
            flags = length-set w.has_child (sub32 w.depth 1) 0 ∙ safe.flags;
            kept = safe.kept;
          },
          omega arith,
        ))

  -- The flag of the parent is set, where there is a parent.
  marked-total :
      (m : List ℕ) × ((if w.depth == 0
          then some w.has_child
          else store w.has_child (sub32 w.depth 1) 1)
        ≡ some m)
      × (length m ≡ dt_depth_limit)
  marked-total = elim (Bool-cases (w.depth == 0)) [
    | inl root ↦ (w.has_child, rw root, safe.flags)
    | inr inner ↦
        let below : sub32 w.depth 1 < length w.has_child =
          ground (arith, safe.shallow, safe.flags) in
        (
          set w.has_child (sub32 w.depth 1) 1,
          rw (inner, store_lem w.has_child (sub32 w.depth 1) 1 below),
          length-set w.has_child (sub32 w.depth 1) 1 ∙ safe.flags,
        )
  ]

  pub begin_node-Advances : Ensures (Advances b start w) (begin_node b w)
  unfolding begin_node
  begin_node-Advances = Ensures-reject _ _ _ _ _ safe.kept.room malformed-ne refl λ single.
      let (r, skipped, skips) =
        skip_name-Skips b.p w.pos b.end ok.struct_inside ok.end_small safe.inside in
      Ensures-fetch _ _ skipped (
        Ensures-reject _ _ _ _ _ safe.kept.room malformed-ne refl λ found.
          Ensures-reject _ _ _ _ _ safe.kept.room malformed-ne refl λ unnamed.
            Ensures-reject _ _ _ _ _ safe.kept.room unsupported-ne refl λ depth_left.
              let (m, marked, size) = marked-total in
              let below : w.depth < length m = ground (arith, size, safe.shallow) in
              Ensures-fetch _ _ marked (
                Ensures-fetch _ _ (store_lem m w.depth 0 below) (
                  goes (
                    record {
                      inside = ground (arith, skips);
                      shallow = ground (arith, safe.shallow);
                      flags = length-set m w.depth 0 ∙ size;
                      kept = safe.kept;
                    },
                    ground (arith, skips),
                  ))))

  IsKept-Takes :
      (value len : ℕ) {r : DtResult}
      → len < 2 ^ 32
      → Takes b.p value w.result len r
      → IsKept start r
  IsKept-Takes value len small takes =
      let same = Takes-SameHeader b.p value w.result len takes in
      record {
        room = Takes-keeps b.p value w.result len safe.kept.room takes;
        header = record {
          same_size = same.same_size ∙ safe.kept.header.same_size;
          same_version = same.same_version ∙ safe.kept.header.same_version;
          same_comp = same.same_comp ∙ safe.kept.header.same_comp;
        };
        probed = Takes-probed b.p value w.result len takes;
        text = Takes-HasText b.p value w.result len safe.kept.room safe.kept.text takes;
        short = Takes-length b.p value w.result len safe.kept.short (omega arith) takes;
      }

  pub note_model-total :
      (name n value len : ℕ)
      → name ≤ n
      → n ≤ b.size_strings
      → len < 2 ^ 32
      → value + len ≤ length b.p
      → (r : DtResult) × (note_model b w name n value len ≡ some r) × IsKept start r
  unfolding note_model
  note_model-total name n value len low high small inside =
      elim (Bool-cases (w.depth == 1 && sub64 n name == 5)) [
        | inr other ↦ (w.result, rw other, safe.kept)
        | inl five ↦
            let at : b.off_strings + name + 5 ≤ length b.p =
              ground (arith, ok.strings_inside, ok.strings_small) in
            let (same, e) = matches_text-total b.p (b.off_strings + name) (codes "model") at in
            elim (Bool-cases same) [
              | inr differs ↦ (w.result, ground (arith, five, e, differs), safe.kept)
              | inl is-model ↦
                  let (r, taken, takes) =
                    take_model-Takes b.p value w.result len safe.kept.room small inside in
                  (r, ground (arith, five, e, is-model, taken), IsKept-Takes value len small takes)
            ]
      ]

  property_value-Advances :
      (value len name : ℕ)
      → w.pos ≤ value
      → value ≤ b.end
      → len < 2 ^ 32
      → name < 2 ^ 32
      → 0 < w.depth
      → Ensures (Advances b start w) (property_value b w value len name)
  unfolding property_value
  property_value-Advances value len name later inside len-lt name-lt inner =
      Ensures-reject _ _ _ _ _ safe.kept.room malformed-ne refl λ fits.
        let whole : value + len ≤ b.end = ground (arith, ok.end_small) in
        Ensures-reject _ _ _ _ _ safe.kept.room malformed-ne refl λ named.
          let (n, scanned, stops) =
            scan_nul-StopsAt b.p b.off_strings b.size_strings ok.strings_inside
              (suc (b.size_strings - name)) name (ground arith) (omega arith) in
          Ensures-fetch _ _ scanned (
            Ensures-reject _ _ _ _ _ safe.kept.room malformed-ne refl λ ended.
              let (late, flag) =
                get_elem?-lt w.has_child (sub32 w.depth 1)
                  (omega (arith, safe.shallow, safe.flags)) in
              Ensures-fetch _ _ flag (
                Ensures-reject _ _ _ _ _ safe.kept.room malformed-ne refl λ early.
                  let (r, noted, kept) =
                    note_model-total name n value len stops.low stops.high len-lt
                      (omega (arith, ok.struct_inside)) in
                  let next : align_down (u64 (value + len + 3)) ≡ u64 (value + len + 3) / 4 * 4 =
                    align_down_lem (u64 (value + len + 3)) (omega arith) in
                  Ensures-fetch _ _ noted (
                    goes (
                      record {
                        inside = omega (arith, next, ok.end_aligned, ok.end_small);
                        shallow = safe.shallow;
                        flags = safe.flags;
                        kept = kept;
                      },
                      omega (arith, next, ok.end_small),
                    ))))

  pub property-Advances : Ensures (Advances b start w) (property b w)
  unfolding property
  property-Advances = Ensures-reject _ _ _ _ _ safe.kept.room malformed-ne refl λ inner.
      Ensures-reject _ _ _ _ _ safe.kept.room malformed-ne refl λ header.
        let room : w.pos + 8 ≤ b.end = ground (arith, safe.inside, ok.end_small) in
        let (len, len-read, len-lt) =
          be32-lt b.p ok.bytes w.pos (omega (arith, ok.struct_inside)) in
        let (name, name-read, name-lt) =
          be32-lt b.p ok.bytes (w.pos + 4) (omega (arith, ok.struct_inside)) in
        Ensures-fetch _ _ len-read (
          Ensures-fetch _ _ name-read (
            property_value-Advances (u64 (w.pos + 8)) len name (omega (arith, ok.end_small))
              (omega (arith, ok.end_small)) len-lt name-lt (ground arith)))

  pub finish-Ensures :
      Ensures (λ (_ : Unit {0}). (w.depth ≡ 0) × (w.roots ≢ 0) × (w.pos ≡ b.end)) (finish b w)
  unfolding finish
  finish-Ensures = Ensures-reject _ _ _ _ _ safe.kept.room malformed-ne refl λ closed.
      Ensures-reject _ _ _ _ _ safe.kept.room malformed-ne refl λ at_end. goes (ground arith)
