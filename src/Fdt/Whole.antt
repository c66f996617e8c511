-- ===== src/Fdt/Whole.antt =====
-- `parse_dt` of tools/efi-inventory/core.c, whole.
use muen_orin.Base.{
  ◌^◌, ◌<◌, ℕ, suc, ◌≤◌, ◌≡◌, ◌≢◌, ◌⊎◌, inl, inr, refl, List, none, some, arith, length,
  length-replicate, IsBytes,
}
use muen_orin.Status.{observed, not_probed}
use muen_orin.Fdt.Read.{be32}
use muen_orin.Fdt.Result.{DtResult, Parse, return, next, dt_depth_limit}
use muen_orin.Fdt.Outcome.{IsFailure, HasRoom, HasText, Ensures, fails, goes, Ensures-bind}
use muen_orin.Fdt.Header.{Layout, fdt_magic, rsv_limit}
use muen_orin.Fdt.Structure.{Walk}
use muen_orin.Fdt.Safe.{IsBlock, IsSafe, IsKept}
use muen_orin.Fdt.Walking.{walk_loop-IsClosed}
use muen_orin.Fdt.Layout.{IsLaidOut}
use muen_orin.Fdt.Opening.{HasHeader, IsLayoutOf, IsReadable, read_header-HasHeader}
use muen_orin.Fdt.Reserve.{rsv_limit_bounds, rsv_loop-Ensures}
use muen_orin.Fdt.Parser.{block_of, first_walk, parse_blocks, value, parse_dt}

-- A result that reports a valid blob: its fields are those of the header, whose blocks lie in
-- the blob, and its model has been looked for.
pub record IsObserved (p : List ℕ) (available : ℕ) (r : DtResult) : Type 0 where
  pub state_is : r.state ≡ observed
  pub no_detail : r.detail ≡ none
  pub layout : Layout
  pub fields : IsLayoutOf p layout
  pub laid_out : IsLaidOut available layout
  pub magic : be32 p 0 ≡ some fdt_magic
  pub size_read : be32 p 4 ≡ some r.size
  pub version_read : be32 p 20 ≡ some r.version
  pub comp_read : be32 p 24 ≡ some r.last_comp_version
  pub readable : IsReadable r
  pub room : HasRoom r
  pub text : HasText r
  pub short : r.model_length < 2 ^ 64
  pub probed : r.model_state ≢ not_probed

-- How the parser ends.
abbrev pub DtEnds : List ℕ → ℕ → DtResult → Type 0
DtEnds p available r = IsFailure r ⊎ IsObserved p available r

module _ (p : List ℕ) (available : ℕ) (bytes : IsBytes p) (span : available ≤ length p) where
  pub block_of-IsBlock :
      (h : DtResult × Layout) → HasHeader p available h → IsBlock (block_of p h.1)
  unfolding block_of
  block_of-IsBlock h k = record {
    bytes = bytes;
    struct_inside = omega (arith, k.laid_out.struct_inside, k.laid_out.available_max);
    strings_inside = omega (arith, k.laid_out.strings_inside, k.laid_out.available_max);
    end_aligned = omega (arith, k.laid_out.aligned);
    end_small = omega (arith, k.laid_out.struct_inside, k.laid_out.limit);
    strings_small = omega (arith, k.laid_out.strings_inside, k.laid_out.limit);
  }

  pub first_walk-IsSafe :
      (h : DtResult × Layout)
      → HasHeader p available h
      → IsSafe (block_of p h.1) (h.0) (first_walk h.0 h.1)
  unfolding block_of first_walk
  first_walk-IsSafe h k = record {
    inside = omega arith;
    shallow = omega arith;
    flags = length-replicate {A = ℕ} dt_depth_limit 0;
    kept = record {
      room = k.room;
      header = record { same_size = refl; same_version = refl; same_comp = refl };
      probed = λ e. cc;
      text = k.text;
      short = omega (arith, k.no_model);
    };
  }

  IsObserved-of_walk :
      (h : DtResult × Layout) (w : Walk)
      → HasHeader p available h
      → IsKept h.0 w.result
      → IsObserved p available (record (w.result) { state = observed; detail = none })
  IsObserved-of_walk h w k kept = record {
    state_is = refl;
    no_detail = refl;
    layout = h.1;
    fields = k.fields;
    laid_out = k.laid_out;
    magic = k.magic;
    size_read = ground (arith, k.fields.total_read, k.size_is, kept.header.same_size);
    version_read = ground (arith, k.version_read, kept.header.same_version);
    comp_read = ground (arith, k.comp_read, kept.header.same_comp);
    readable = ground (arith, k.readable, kept.header.same_version, kept.header.same_comp);
    room = kept.room;
    text = kept.text;
    short = kept.short;
    probed = kept.probed;
  }

  pub parse_blocks-IsObserved :
      (h : DtResult × Layout)
      → HasHeader p available h
      → Ensures (IsObserved p available) (parse_blocks p h.0 h.1)
  unfolding parse_blocks
  parse_blocks-IsObserved h k =
      let (low, high) = rsv_limit_bounds available h.1 k.laid_out in
      Ensures-bind _
        (rsv_loop-Ensures p h.0 (rsv_limit h.1) bytes k.room
          (omega (arith, k.laid_out.available_max)) (omega (arith, k.laid_out.limit))
          (suc (rsv_limit h.1)) h.1.off_rsv (omega arith) low)
        λ _ _.
          Ensures-bind _
            (walk_loop-IsClosed (block_of p h.1) (block_of-IsBlock h k) h.0 (suc h.1.size_struct)
              (first_walk h.0 h.1) (unfold block_of first_walk in omega arith)
              (first_walk-IsSafe h k))
            λ w closed. goes (IsObserved-of_walk h w k closed.safe.kept)

  value-DtEnds :
      (m : Parse DtResult)
      → Ensures (IsObserved p available) m
      → (r : DtResult) × (value m ≡ some r) × DtEnds p available r
  value-DtEnds none h = elim h [ ]
  value-DtEnds (some (return r)) (fails h) = (r, refl, inl h)
  value-DtEnds (some (next r)) (goes h) = (r, refl, inr h)

  -- On a span of bytes that can be read, `parse_dt` returns: it reads nothing else, writes
  -- only inside its arrays, and its loops end. The result is a failure with a detail and no
  -- model, or it is observed and reports the size and versions of the header of a blob of a
  -- readable version. The blocks at the offsets and of the sizes that the header holds are
  -- then inside the blob, aligned and apart, and the blob is inside the span.
  pub parse_dt-DtEnds :
      (r : DtResult) × (parse_dt (some p) available ≡ some r) × DtEnds p available r
  unfolding parse_dt
  parse_dt-DtEnds =
      value-DtEnds _
        (Ensures-bind _ (read_header-HasHeader p available bytes span) parse_blocks-IsObserved)
