-- ===== src/Tests/Blobs.antt =====
-- `parse_dt` on the blobs of tools/efi-inventory/fixtures.h reports what tests.c expects of it.
use muen_orin.Base.{ℕ, ◌≡◌, refl, List, [], ◌∷◌, Option, none, some, String, length}
use muen_orin.Status.{State, observed, unavailable, unsupported, malformed, not_probed, truncated}
use muen_orin.Fdt.Result.{DtResult}
use muen_orin.Fdt.Parser.{parse_dt}
use muen_orin.Tests.Fixtures.Models.{
  fdt_min, fdt_v16, fdt_model, fdt_leading_nop, fdt_model_64, fdt_model_long, fdt_model_escape,
  fdt_model_nonascii, fdt_model_list,
}
use muen_orin.Tests.Fixtures.Depths.{fdt_depth_64, fdt_depth_65}

-- The state, the detail, and the state and full length of the model.
abbrev Report : Type 0
Report = Option (State × Option String × State × ℕ)

abbrev dt_report : Option DtResult → Report
dt_report none = none
dt_report (some r) = some (r.state, r.detail, r.model_state, r.model_length)

abbrev reports : List (List ℕ) → List Report
reports [] = []
reports (p ∷ ps) = dt_report (parse_dt (some p) (length p)) ∷ reports ps

blobs_reported :
    reports (
      fdt_min ∷ fdt_v16 ∷ fdt_model ∷ fdt_leading_nop ∷ fdt_model_64 ∷ fdt_model_long
      ∷ fdt_model_escape ∷ fdt_model_nonascii ∷ fdt_model_list ∷ fdt_depth_64 ∷ fdt_depth_65 ∷ [])
    ≡ some (observed, none, unavailable, 0)
      ∷ some (unsupported, some "version", not_probed, 0)
      ∷ some (observed, none, observed, 19)
      ∷ some (observed, none, observed, 19)
      ∷ some (observed, none, observed, 64)
      ∷ some (observed, none, truncated, 100)
      ∷ some (observed, none, observed, 13)
      ∷ some (observed, none, unsupported, 0)
      ∷ some (observed, none, unsupported, 0)
      ∷ some (observed, none, unavailable, 0)
      ∷ some (unsupported, some "depth_limit", not_probed, 0)
      ∷ []
unfolding parse_dt muen_orin.Fdt.Result.◌>>=◌ muen_orin.Fdt.Header.read_header
    muen_orin.Fdt.Result.reject_if muen_orin.Fdt.Result.fetch muen_orin.Fdt.Read.be32
    muen_orin.Fdt.Header.check_version muen_orin.Fdt.Header.check_layout
    muen_orin.Fdt.Header.disjoint muen_orin.Fdt.Parser.parse_blocks muen_orin.Fdt.Header.rsv_loop
    muen_orin.Fdt.Header.rsv_round muen_orin.Fdt.Header.rsv_limit muen_orin.Fdt.Read.be64
    muen_orin.Fdt.Structure.walk_loop muen_orin.Fdt.Structure.turn muen_orin.Fdt.Parser.block_of
    muen_orin.Fdt.Parser.first_walk muen_orin.Fdt.Model.copy_model muen_orin.Fdt.Model.is_ascii_text
    muen_orin.Fdt.Model.is_unterminated muen_orin.Fdt.Model.set_model muen_orin.Fdt.Model.take_model
    muen_orin.Fdt.Read.align_down muen_orin.Fdt.Read.matches_text muen_orin.Fdt.Read.scan_nul
    muen_orin.Fdt.Read.skip_name muen_orin.Fdt.Result.blank muen_orin.Fdt.Result.dt_state
    muen_orin.Fdt.Structure.begin_node muen_orin.Fdt.Structure.dispatch
    muen_orin.Fdt.Structure.end_node muen_orin.Fdt.Structure.finish
    muen_orin.Fdt.Structure.note_model muen_orin.Fdt.Structure.property
    muen_orin.Fdt.Structure.property_value muen_orin.Map.Parser.range_ok
blobs_reported = refl

short_blob :
    dt_report (parse_dt (some fdt_min) 39)
    ≡ some (malformed, some "header_truncated", not_probed, 0)
unfolding parse_dt muen_orin.Fdt.Result.◌>>=◌ muen_orin.Fdt.Header.read_header
    muen_orin.Fdt.Result.reject_if muen_orin.Fdt.Result.fetch muen_orin.Fdt.Read.be32
    muen_orin.Fdt.Header.check_version muen_orin.Fdt.Header.check_layout
    muen_orin.Fdt.Header.disjoint muen_orin.Fdt.Parser.parse_blocks muen_orin.Fdt.Header.rsv_loop
    muen_orin.Fdt.Header.rsv_round muen_orin.Fdt.Header.rsv_limit muen_orin.Fdt.Read.be64
    muen_orin.Fdt.Structure.walk_loop muen_orin.Fdt.Structure.turn muen_orin.Fdt.Parser.block_of
    muen_orin.Fdt.Parser.first_walk muen_orin.Fdt.Model.copy_model muen_orin.Fdt.Model.is_ascii_text
    muen_orin.Fdt.Model.is_unterminated muen_orin.Fdt.Model.set_model muen_orin.Fdt.Model.take_model
    muen_orin.Fdt.Read.align_down muen_orin.Fdt.Read.matches_text muen_orin.Fdt.Read.scan_nul
    muen_orin.Fdt.Read.skip_name muen_orin.Fdt.Result.blank muen_orin.Fdt.Result.dt_state
    muen_orin.Fdt.Structure.begin_node muen_orin.Fdt.Structure.dispatch
    muen_orin.Fdt.Structure.end_node muen_orin.Fdt.Structure.finish
    muen_orin.Fdt.Structure.note_model muen_orin.Fdt.Structure.property
    muen_orin.Fdt.Structure.property_value muen_orin.Map.Parser.range_ok
short_blob = refl
