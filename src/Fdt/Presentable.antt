-- ===== src/Fdt/Presentable.antt =====
-- What every result of `parse_firmware_dt` in tools/efi-inventory/core.c is fit for: to be put into
-- the record.
use muen_orin.Base.{
  ℕ, ◌+◌, ◌≤◌, ◌<◌, ◌^◌, ◌≡◌, inl, inr, sym, subst, List, some, arith, length, IsBytes, IsDetail,
}
use muen_orin.Status.{observed}
use muen_orin.Fdt.Read.{be32}
use muen_orin.Fdt.Words.{be32-lt}
use muen_orin.Fdt.Result.{DtResult, dt_limit}
use muen_orin.Fdt.Outcome.{IsFailure, HasText}
use muen_orin.Fdt.Whole.{IsObserved}
use muen_orin.Fdt.Declared.{
  other_magic, over_limit, no_header, parsed, parse_firmware_dt-FirmwareEnds,
}
use muen_orin.Fdt.Firmware.{parse_firmware_dt}

-- A printable detail, a model text that ends, and numbers of 64 bits where they are reported.
pub record IsPresentable (r : DtResult) : Type 0 where
  pub detail : IsDetail r.detail
  pub text : HasText r
  pub short : r.model_length < 2 ^ 64
  pub sizes :
      r.state ≡ observed → (r.size < 2 ^ 64) × (r.version < 2 ^ 64) × (r.last_comp_version < 2 ^ 64)

failure-IsPresentable : (r : DtResult) → IsFailure r → IsPresentable r
failure-IsPresentable r h = record {
  detail = h.detail;
  text = (0, h.no_text);
  short = omega (arith, h.no_length);
  sizes = λ e. absurd (h.not_observed e);
}

word-lt : (p : List ℕ) (o v : ℕ) → IsBytes p → o + 4 ≤ length p → be32 p o ≡ some v → v < 2 ^ 64
word-lt p o v bytes room e =
    let (v', e', lt) = be32-lt p bytes o room in
    let same : v ≡ v' = cc (e, e') in omega (arith, lt, same)

observed-IsPresentable :
    (p : List ℕ) (available : ℕ) (r : DtResult)
    → IsBytes p
    → available ≤ length p
    → IsObserved p available r
    → IsPresentable r
observed-IsPresentable p available r bytes span h =
    let room : 40 ≤ length p = omega (arith, h.laid_out.header, h.laid_out.available_max) in
    record {
      detail = subst IsDetail (sym h.no_detail) tt;
      text = h.text;
      short = h.short;
      sizes = λ _. (
        word-lt p 4 r.size bytes (omega arith) h.size_read,
        word-lt p 20 r.version bytes (omega arith) h.version_read,
        word-lt p 24 r.last_comp_version bytes (omega arith) h.comp_read,
      );
    }

pub parse_firmware_dt-IsPresentable :
    (p : List ℕ) (r : DtResult)
    → IsBytes p
    → 8 ≤ length p
    → ((total : ℕ) → be32 p 4 ≡ some total → total ≤ dt_limit → total ≤ length p)
    → parse_firmware_dt (some p) ≡ some r
    → IsPresentable r
parse_firmware_dt-IsPresentable p r bytes prefix declared ran =
    let (r', ran', ends) = parse_firmware_dt-FirmwareEnds p bytes prefix declared in
    let same : r' ≡ r = cc (ran, ran') in
    subst IsPresentable same (elim ends [
      | other_magic _ _ _ k ↦ failure-IsPresentable r' k.failure
      | over_limit _ _ _ _ k ↦ failure-IsPresentable r' k.failure
      | no_header _ _ _ _ k ↦ failure-IsPresentable r' k.failure
      | parsed total _ read _ limit _ (inl failed) ↦ failure-IsPresentable r' failed
      | parsed total _ read _ limit _ (inr seen) ↦
          observed-IsPresentable p total r' bytes (declared total read limit) seen
    ])
