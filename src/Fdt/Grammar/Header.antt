-- ===== src/Fdt/Grammar/Header.antt =====
-- The header that `parse_dt` of tools/efi-inventory/core.c accepts, and that its tests decide it.
use muen_orin.Base.{
  ℕ, ◌^◌, ◌≤◌, ◌<◌, ◌≡◌, ◌↔◌, inl, inr, ◌∙◌, ap, subst, List, some, true, false, Bool-cases, arith,
  length, ltb, IsBytes,
}
use muen_orin.Fdt.Read.{be32}
use muen_orin.Fdt.Result.{DtResult, dt_limit}
use muen_orin.Fdt.Outcome.{Ensures}
use muen_orin.Fdt.Header.{
  Layout, fdt_header, fdt_magic, disjoint, check_version, check_layout, read_header,
}
use muen_orin.Fdt.Layout.{Apart, Is32, IsLaidOut, out_of_bounds, check_layout-IsLaidOut}
use muen_orin.Fdt.Opening.{
  FieldRead, FieldsRead, fields_of, blank-HasRoom, check_version-HasVersion, HasHeader,
  read_header-HasHeader,
}
use muen_orin.Fdt.Grammar.Decides.{
  Decides, accepts, Decides-reject, Decides-fetch, Decides-bind, Ensures-Decides, Decides-weaker,
  Decides-stronger,
}

-- The words of the header hold the layout, of blocks that are aligned, inside the blob and apart,
-- and a readable version.
pub record IsHeader (p : List ℕ) (available : ℕ) (l : Layout) : Type 0 where
  pub version : ℕ
  pub comp : ℕ
  pub magic : be32 p 0 ≡ some fdt_magic
  pub total_read : be32 p 4 ≡ some l.total
  pub off_struct_read : be32 p 8 ≡ some l.off_struct
  pub off_strings_read : be32 p 12 ≡ some l.off_strings
  pub off_rsv_read : be32 p 16 ≡ some l.off_rsv
  pub version_read : be32 p 20 ≡ some version
  pub comp_read : be32 p 24 ≡ some comp
  pub size_strings_read : be32 p 32 ≡ some l.size_strings
  pub size_struct_read : be32 p 36 ≡ some l.size_struct
  pub readable : (17 ≤ version) × (comp ≤ 17) × (comp ≤ version)
  pub laid_out : IsLaidOut available l

abbrev layout_of : {p : List ℕ} → FieldsRead p → Layout
layout_of w = record {
  total = w.total.word;
  off_struct = w.off_struct.word;
  off_strings = w.off_strings.word;
  off_rsv = w.off_rsv.word;
  size_strings = w.size_strings.word;
  size_struct = w.size_struct.word;
}

abbrev IsReadableAs : ℕ → ℕ → Type 0
IsReadableAs version comp = (17 ≤ version) × (comp ≤ 17) × (comp ≤ version)

same_word : {p : List ℕ} {o v : ℕ} (f : FieldRead p o) → be32 p o ≡ some v → v ≡ f.word
same_word f e = let e' = f.read in cc (e, e')

IsHeader-layout :
    {p : List ℕ} {available : ℕ} {l : Layout} (w : FieldsRead p)
    → IsHeader p available l
    → l ≡ layout_of w
IsHeader-layout w h = cc (
  same_word w.total h.total_read,
  same_word w.off_struct h.off_struct_read,
  same_word w.off_strings h.off_strings_read,
  same_word w.off_rsv h.off_rsv_read,
  same_word w.size_strings h.size_strings_read,
  same_word w.size_struct h.size_struct_read,
)

disjoint_lem :
    (a al b bl : ℕ)
    → a < 2 ^ 32
    → al < 2 ^ 32
    → b < 2 ^ 32
    → bl < 2 ^ 32
    → Apart a al b bl
    → disjoint a al b bl ≡ true
unfolding disjoint
disjoint_lem a al b bl ha hal hb hbl e = ground arith

IsLaidOut-bounds :
    (available : ℕ) (l : Layout) → Is32 l → IsLaidOut available l → out_of_bounds l ≡ false
IsLaidOut-bounds available l small h =
    ground (arith, h.starts, h.rsv_inside, h.struct_inside, h.strings_inside)

module _ {R : Type 0} (available : ℕ) where
  check_version-Decides :
      (r : DtResult) (total : ℕ)
      → (R
          → IsReadableAs r.version r.last_comp_version
            × (fdt_header ≤ total)
            × (total ≤ dt_limit)
            × (total ≤ available))
      → Decides (λ _. Unit {0}) R (check_version r total available)
  unfolding check_version
  check_version-Decides r total ok =
      Decides-reject _ _ _ _ _ (λ bad h. let k = (ok h).0 in ground arith)
        λ versions.
          Decides-reject _ _ _ _ _ (λ bad h. let k = (ok h).2 in ground arith)
            λ limit.
              Decides-reject _ _ _ _ _ (λ bad h. let k = (ok h).1 in ground arith)
                λ header.
                  Decides-reject _ _ _ _ _ (λ bad h. let k = (ok h).3 in ground arith)
                    λ fits. accepts tt

  check_layout-Decides :
      (r : DtResult) (l : Layout)
      → Is32 l
      → (R → IsLaidOut available l)
      → Decides (λ _. Unit {0}) R (check_layout r l)
  unfolding check_layout
  check_layout-Decides r l small ok =
      Decides-reject _ _ _ _ _ (λ bad h. let k = (ok h).aligned in ground arith)
        λ aligned.
          Decides-reject _ _ _ _ _
            (λ bad h. let k = IsLaidOut-bounds available l small (ok h) in cc)
            λ bounded.
              Decides-reject _ _ _ _ _
                (λ bad h.
                  let k = ok h in
                  let e =
                    disjoint_lem _ _ _ _ small.3 (omega arith) small.1 small.5 k.rsv_apart.0 in
                  let f =
                    disjoint_lem _ _ _ _ small.3 (omega arith) small.2 small.4 k.rsv_apart.1 in
                  let g = disjoint_lem _ _ _ _ small.1 small.5 small.2 small.4 k.apart in
                  ground (arith, e, f, g))
                λ apart. accepts tt

module _ (p : List ℕ) (available : ℕ) (Q : Layout → Type 0) where
  -- A header whose layout satisfies the condition.
  abbrev pub Opens : Type 0
  Opens = (l : Layout) × IsHeader p available l × Q l

  Opens-IsLaidOut : (w : FieldsRead p) → Opens → IsLaidOut available (layout_of w)
  Opens-IsLaidOut w (l, h, _) = subst (IsLaidOut available) (IsHeader-layout w h) h.laid_out

  Opens-version :
      (w : FieldsRead p)
      → Opens
      → IsReadableAs w.version.word w.comp.word
        × (fdt_header ≤ w.total.word)
        × (w.total.word ≤ dt_limit)
        × (w.total.word ≤ available)
  Opens-version w (l, h, q) =
      let v : h.version ≡ w.version.word = same_word w.version h.version_read in
      let c : h.comp ≡ w.comp.word = same_word w.comp h.comp_read in
      let k = Opens-IsLaidOut w (l, h, q) in
      (ground (arith, h.readable), k.header, k.limit, k.available_max)

  opened :
      (w : FieldsRead p)
      → w.magic.word ≡ fdt_magic
      → IsReadableAs w.version.word w.comp.word
      → IsLaidOut available (layout_of w)
      → IsHeader p available (layout_of w)
  opened w matches readable laid_out = record {
    version = w.version.word;
    comp = w.comp.word;
    magic = w.magic.read ∙ ap some matches;
    total_read = w.total.read;
    off_struct_read = w.off_struct.read;
    off_strings_read = w.off_strings.read;
    off_rsv_read = w.off_rsv.read;
    version_read = w.version.read;
    comp_read = w.comp.read;
    size_strings_read = w.size_strings.read;
    size_struct_read = w.size_struct.read;
    readable = readable;
    laid_out = laid_out;
  }

  read_short-Decides :
      ltb available fdt_header ≡ true → Decides (λ h. Opens ↔ Q h.1) Opens (read_header p available)
  unfolding read_header
  read_short-Decides short =
      Decides-reject _ _ _ _ _
        (λ _ (l, h, _). ground (arith, h.laid_out.header, h.laid_out.available_max)) λ long. cc

  read_long-Decides : FieldsRead p → Decides (λ h. Opens ↔ Q h.1) Opens (read_header p available)
  unfolding read_header
  read_long-Decides w =
      let small : Is32 (layout_of w) = (
        w.total.small, w.off_struct.small, w.off_strings.small, w.off_rsv.small,
        w.size_strings.small, w.size_struct.small,
      ) in
      Decides-reject _ _ _ _ _
        (λ short (l, h, _). ground (arith, h.laid_out.header, h.laid_out.available_max))
        λ _. Decides-fetch _ _ w.magic.read (
          Decides-reject _ _ _ _ _ (λ other (l, h, _). ground (arith, same_word w.magic h.magic))
            λ matches. Decides-fetch _ _ w.total.read (
              Decides-fetch _ _ w.off_struct.read (
                Decides-fetch _ _ w.off_strings.read (
                  Decides-fetch _ _ w.off_rsv.read (
                    Decides-fetch _ _ w.version.read (
                      Decides-fetch _ _ w.comp.read (
                        Decides-bind _
                          (Ensures-Decides _
                            (check_version-HasVersion _ w.total.word available blank-HasRoom)
                            (check_version-Decides available _ w.total.word (Opens-version w)))
                          λ r (v, _). Decides-fetch _ _ w.size_strings.read (
                            Decides-fetch _ _ w.size_struct.read (
                              Decides-bind _
                                (Ensures-Decides _
                                  (check_layout-IsLaidOut available r (layout_of w) v.room small
                                    v.header v.fits v.limit)
                                  (check_layout-Decides available r (layout_of w) small
                                    (Opens-IsLaidOut w)))
                                λ _ (laid_out, _). accepts (
                                  (λ (l, h, q). subst Q (IsHeader-layout w h) q),
                                  λ q. (
                                    layout_of w,
                                    opened w (ground arith)
                                        (ground (
                                          arith, v.readable.version_min, v.readable.comp_max,
                                          v.readable.ordered, v.version_is, v.comp_is,
                                        ))
                                        laid_out,
                                    q,
                                  ),
                                ))))))))))

  pub read_header-Decides :
      IsBytes p
      → available ≤ length p
      → Decides (λ h. Opens ↔ Q h.1) Opens (read_header p available)
  read_header-Decides bytes span = elim (Bool-cases (ltb available fdt_header)) [
    | inl short ↦ read_short-Decides short
    | inr long ↦ read_long-Decides (fields_of p bytes (ground arith))
  ]

HasHeader-IsHeader :
    (p : List ℕ) (available : ℕ) (h : DtResult × Layout)
    → HasHeader p available h
    → IsHeader p available h.1
HasHeader-IsHeader p available h k = record {
  version = h.0.version;
  comp = h.0.last_comp_version;
  magic = k.magic;
  total_read = k.fields.total_read;
  off_struct_read = k.fields.off_struct_read;
  off_strings_read = k.fields.off_strings_read;
  off_rsv_read = k.fields.off_rsv_read;
  version_read = k.version_read;
  comp_read = k.comp_read;
  size_strings_read = k.fields.size_strings_read;
  size_struct_read = k.fields.size_struct_read;
  readable = (k.readable.version_min, k.readable.comp_max, k.readable.ordered);
  laid_out = k.laid_out;
}

-- On a span of bytes that can be read, the header is read inside the span. It is accepted
-- exactly when it has the magic number, a readable version, and words at their offsets that
-- hold a layout of aligned blocks inside the blob and apart. An accepted header yields that
-- layout, the size and the versions that its words hold; a refusal has a detail and no model.
pub read_header-IsHeader :
    (p : List ℕ) (available : ℕ)
    → IsBytes p
    → available ≤ length p
    → Ensures (HasHeader p available) (read_header p available)
      × Decides
          (λ h. IsHeader p available h.1)
          ((l : Layout) × IsHeader p available l)
          (read_header p available)
read_header-IsHeader p available bytes span =
    let known = read_header-HasHeader p available bytes span in
    (
      known,
      Decides-stronger (λ (l, h). (l, h, tt))
          (Decides-weaker (λ h k. HasHeader-IsHeader p available h k.0)
            (Ensures-Decides _ known (read_header-Decides p available (λ _. Unit {0}) bytes span))),
    )
