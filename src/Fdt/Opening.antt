-- ===== src/Fdt/Opening.antt =====
-- `read_header` and the reservation loop: the first half of `parse_dt` in
-- tools/efi-inventory/core.c reads inside the blob and ends.
use muen_orin.Base.{
  get_elem?, ℕ, ◌+◌, ◌^◌, ◌≤◌, ◌<◌, ◌≡◌, inl, inr, refl, ◌∙◌, ap, sym, List, some, true, false,
  Bool-cases, arith, length, ltb, IsBytes,
}
use muen_orin.Status.{malformed}
use muen_orin.Fdt.Read.{be32}
use muen_orin.Fdt.Words.{be32-lt}
use muen_orin.Fdt.Result.{DtResult, blank, ◌>>=◌, reject_if, dt_limit}
use muen_orin.Fdt.Outcome.{
  HasRoom, HasText, dt_state-IsFailure, fails, Ensures, goes, Ensures-bind, Ensures-reject,
  Ensures-fetch,
}
use muen_orin.Fdt.Header.{Layout, fdt_header, fdt_magic, check_version, read_header}
use muen_orin.Fdt.Safe.{malformed-ne, unsupported-ne}
use muen_orin.Fdt.Layout.{IsLaidOut, Is32, check_layout-IsLaidOut}

pub blank-HasRoom : HasRoom blank
unfolding blank
blank-HasRoom = refl

pub blank-HasText : HasText blank
unfolding blank
blank-HasText = (0, refl)

blank-length : blank.model_length ≡ 0
unfolding blank
blank-length = refl

-- The versions that a reader of version 17 may interpret.
pub record IsReadable (r : DtResult) : Type 0 where
  pub version_min : 17 ≤ r.version
  pub comp_max : r.last_comp_version ≤ 17
  pub ordered : r.last_comp_version ≤ r.version

pub record HasVersion (available total : ℕ) (r r' : DtResult) : Type 0 where
  pub readable : IsReadable r'
  pub size_is : r'.size ≡ total
  pub room : HasRoom r'
  pub model_is : (r'.model ≡ r.model) × (r'.model_length ≡ r.model_length)
  pub version_is : r'.version ≡ r.version
  pub comp_is : r'.last_comp_version ≡ r.last_comp_version
  pub header : fdt_header ≤ total
  pub limit : total ≤ dt_limit
  pub fits : total ≤ available

pub check_version-HasVersion :
    (r : DtResult) (total available : ℕ)
    → HasRoom r
    → Ensures (HasVersion available total r) (check_version r total available)
unfolding check_version
check_version-HasVersion r total available room =
    Ensures-reject _ _ _ _ _ room unsupported-ne refl λ versions.
      Ensures-reject _ _ _ _ _ room unsupported-ne refl λ limit.
        Ensures-reject _ _ _ _ _ room malformed-ne refl λ header.
          Ensures-reject _ _ _ _ _ room malformed-ne refl λ fits. goes (record {
            readable = ground arith;
            size_is = refl;
            room = room;
            model_is = (refl, refl);
            version_is = refl;
            comp_is = refl;
            header = ground arith;
            limit = ground arith;
            fits = ground arith;
          })

-- The words of the header hold the layout.
pub record IsLayoutOf (p : List ℕ) (l : Layout) : Type 0 where
  pub total_read : be32 p 4 ≡ some l.total
  pub off_struct_read : be32 p 8 ≡ some l.off_struct
  pub off_strings_read : be32 p 12 ≡ some l.off_strings
  pub off_rsv_read : be32 p 16 ≡ some l.off_rsv
  pub size_strings_read : be32 p 32 ≡ some l.size_strings
  pub size_struct_read : be32 p 36 ≡ some l.size_struct

-- What is known of an accepted header.
pub record HasHeader (p : List ℕ) (available : ℕ) (h : DtResult × Layout) : Type 0 where
  pub magic : be32 p 0 ≡ some fdt_magic
  pub fields : IsLayoutOf p h.1
  pub version_read : be32 p 20 ≡ some h.0.version
  pub comp_read : be32 p 24 ≡ some h.0.last_comp_version
  pub readable : IsReadable h.0
  pub size_is : h.0.size ≡ h.1.total
  pub room : HasRoom h.0
  pub text : HasText h.0
  pub no_model : h.0.model_length ≡ 0
  pub laid_out : IsLaidOut available h.1
  pub small : Is32 h.1

-- A word of the header.
pub record FieldRead (p : List ℕ) (o : ℕ) : Type 0 where
  pub word : ℕ
  pub read : be32 p o ≡ some word
  pub small : word < 2 ^ 32

field_at : (p : List ℕ) (o : ℕ) → IsBytes p → o + 4 ≤ length p → FieldRead p o
field_at p o bytes h =
    let (v, e, lt) = be32-lt p bytes o h in record { word = v; read = e; small = lt }

-- The ten words of a header that is inside the blob; the eighth, the boot CPU, is not read.
pub record FieldsRead (p : List ℕ) : Type 0 where
  pub magic : FieldRead p 0
  pub total : FieldRead p 4
  pub off_struct : FieldRead p 8
  pub off_strings : FieldRead p 12
  pub off_rsv : FieldRead p 16
  pub version : FieldRead p 20
  pub comp : FieldRead p 24
  pub size_strings : FieldRead p 32
  pub size_struct : FieldRead p 36

pub fields_of : (p : List ℕ) → IsBytes p → fdt_header ≤ length p → FieldsRead p
fields_of p bytes h = record {
  magic = field_at p 0 bytes (omega arith);
  total = field_at p 4 bytes (omega arith);
  off_struct = field_at p 8 bytes (omega arith);
  off_strings = field_at p 12 bytes (omega arith);
  off_rsv = field_at p 16 bytes (omega arith);
  version = field_at p 20 bytes (omega arith);
  comp = field_at p 24 bytes (omega arith);
  size_strings = field_at p 32 bytes (omega arith);
  size_struct = field_at p 36 bytes (omega arith);
}

module _ (p : List ℕ) (available : ℕ) where
  -- With less than a header nothing is read.
  read_short-Ensures :
      ltb available fdt_header ≡ true → Ensures (HasHeader p available) (read_header p available)
  unfolding read_header ◌>>=◌ reject_if
  read_short-Ensures short = rw short (
      fails (dt_state-IsFailure blank malformed "header_truncated" blank-HasRoom malformed-ne refl))

  read_long-HasHeader :
      FieldsRead p
      → ltb available fdt_header ≡ false
      → Ensures (HasHeader p available) (read_header p available)
  unfolding read_header
  read_long-HasHeader w long =
      let small : (w.total.word < 2 ^ 32)
          × (w.off_struct.word < 2 ^ 32)
          × (w.off_strings.word < 2 ^ 32)
          × (w.off_rsv.word < 2 ^ 32)
          × (w.size_strings.word < 2 ^ 32)
          × (w.size_struct.word < 2 ^ 32) =
        (
          w.total.small, w.off_struct.small, w.off_strings.small, w.off_rsv.small,
          w.size_strings.small, w.size_struct.small,
        ) in
      Ensures-reject _ _ _ _ _ blank-HasRoom malformed-ne refl λ _. Ensures-fetch _ _ w.magic.read (
        Ensures-reject _ _ _ _ _ blank-HasRoom malformed-ne refl λ matches.
          Ensures-fetch _ _ w.total.read (
            Ensures-fetch _ _ w.off_struct.read (
              Ensures-fetch _ _ w.off_strings.read (
                Ensures-fetch _ _ w.off_rsv.read (
                  Ensures-fetch _ _ w.version.read (
                    Ensures-fetch _ _ w.comp.read (
                      Ensures-bind _
                        (check_version-HasVersion _ w.total.word available blank-HasRoom)
                        λ r v. Ensures-fetch _ _ w.size_strings.read (
                          Ensures-fetch _ _ w.size_struct.read (
                            Ensures-bind _
                              (check_layout-IsLaidOut available r _ v.room small v.header v.fits
                                v.limit)
                              λ _ laid_out. goes (record {
                                magic = w.magic.read ∙ ap some (ground arith);
                                fields = record {
                                  total_read = w.total.read;
                                  off_struct_read = w.off_struct.read;
                                  off_strings_read = w.off_strings.read;
                                  off_rsv_read = w.off_rsv.read;
                                  size_strings_read = w.size_strings.read;
                                  size_struct_read = w.size_struct.read;
                                };
                                version_read = w.version.read ∙ ap some (sym v.version_is);
                                comp_read = w.comp.read ∙ ap some (sym v.comp_is);
                                readable = v.readable;
                                size_is = v.size_is;
                                room = v.room;
                                text = (
                                  blank-HasText.0,
                                  ap (λ m. get_elem? m blank-HasText.0) v.model_is.0
                                      ∙ blank-HasText.1,
                                );
                                no_model = v.model_is.1 ∙ blank-length;
                                laid_out = laid_out;
                                small = small;
                              }))))))))))

  -- On a span of bytes that can be read, the header is read inside the span. It is refused
  -- with a detail and no model, or it has the magic number, a readable version, the fields
  -- that the words at their offsets hold, and blocks that are laid out.
  pub read_header-HasHeader :
      IsBytes p → available ≤ length p → Ensures (HasHeader p available) (read_header p available)
  read_header-HasHeader bytes span = elim (Bool-cases (ltb available fdt_header)) [
    | inl short ↦ read_short-Ensures short
    | inr long ↦ read_long-HasHeader (fields_of p bytes (ground arith)) long
  ]
