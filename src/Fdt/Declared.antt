-- ===== src/Fdt/Declared.antt =====
-- `parse_firmware_dt` of tools/efi-inventory/core.c: the tests in front of `parse_dt`, on a blob
-- whose header declares its size.
use muen_orin.Base.{
  ℕ, ◌≤◌, ◌<◌, ◌≡◌, ◌≢◌, inl, inr, refl, List, some, Bool-cases, arith, length, ltb, ◌==◌, ◌∙◌, ap,
  IsBytes, String, IsLiteral,
}
use muen_orin.Status.{State, observed, unsupported, malformed}
use muen_orin.Fdt.Read.{be32}
use muen_orin.Fdt.Words.{be32-lt}
use muen_orin.Fdt.Result.{DtResult, blank, dt_limit}
use muen_orin.Fdt.Outcome.{IsFailure}
use muen_orin.Fdt.Header.{fdt_magic, fdt_header}
use muen_orin.Fdt.Parser.{parse_dt}
use muen_orin.Fdt.Firmware.{parse_firmware_dt}
use muen_orin.Fdt.Whole.{DtEnds, parse_dt-DtEnds}

-- A blob that is refused before it is parsed.
pub record IsRefused (s : State) (d : String) (r : DtResult) : Type 0 where
  pub state_is : r.state ≡ s
  pub detail_is : r.detail ≡ some d
  pub failure : IsFailure r

blank-IsRefused :
    (s : State) (d : String)
    → s ≢ observed
    → IsLiteral d
    → IsRefused s d (record blank { state = s; detail = some d })
unfolding blank
blank-IsRefused s d ne literal = record {
  state_is = refl;
  detail_is = refl;
  failure = record {
    not_observed = ne;
    reason = (d, refl);
    detail = literal;
    no_model = refl;
    no_length = refl;
    no_text = refl;
  };
}

-- By the first two words of the blob. No two classes meet.
pub data FirmwareEnds (p : List ℕ) (r : DtResult) : Type 0 where
  other_magic :
      (magic : ℕ)
      → be32 p 0 ≡ some magic
      → magic ≢ fdt_magic
      → IsRefused malformed "magic" r
      → FirmwareEnds p r
  over_limit :
      (total : ℕ)
      → be32 p 0 ≡ some fdt_magic
      → be32 p 4 ≡ some total
      → dt_limit < total
      → IsRefused unsupported "size_limit" r
      → FirmwareEnds p r
  no_header :
      (total : ℕ)
      → be32 p 0 ≡ some fdt_magic
      → be32 p 4 ≡ some total
      → total < fdt_header
      → IsRefused malformed "totalsize" r
      → FirmwareEnds p r
  parsed :
      (total : ℕ)
      → be32 p 0 ≡ some fdt_magic
      → be32 p 4 ≡ some total
      → fdt_header ≤ total
      → total ≤ dt_limit
      → parse_dt (some p) total ≡ some r
      → DtEnds p total r
      → FirmwareEnds p r

-- With eight readable bytes, and the declared total readable if it is within the limit,
-- `parse_firmware_dt` returns. A blob without the magic number is malformed, one whose
-- declared total is over the limit is unsupported, and one whose total is less than a header
-- is malformed, each with its detail and no model. On every other blob the result is that of
-- `parse_dt` on a span of the declared total.
pub parse_firmware_dt-FirmwareEnds :
    (p : List ℕ)
    → IsBytes p
    → 8 ≤ length p
    → ((total : ℕ) → be32 p 4 ≡ some total → total ≤ dt_limit → total ≤ length p)
    → (r : DtResult) × (parse_firmware_dt (some p) ≡ some r) × FirmwareEnds p r
unfolding parse_firmware_dt blank
parse_firmware_dt-FirmwareEnds p bytes prefix declared =
    let (magic, e, _) = be32-lt p bytes 0 (omega arith) in
    let (total, f, _) = be32-lt p bytes 4 (omega arith) in
    elim (Bool-cases (magic == fdt_magic)) [
      | inr other ↦ (
        record blank { detail = some "magic" },
        ground (arith, e, other),
        other_magic magic e (ground arith) (blank-IsRefused malformed "magic" (λ q. cc) refl),
      )
      | inl same ↦
          let found : be32 p 0 ≡ some fdt_magic = e ∙ ap some (ground arith) in
          elim (Bool-cases (ltb dt_limit total)) [
            | inl large ↦ (
              record blank { state = unsupported; detail = some "size_limit" },
              ground (arith, e, f, same, large),
              over_limit total found f (ground arith)
                  (blank-IsRefused unsupported "size_limit" (λ q. cc) refl),
            )
            | inr small ↦ elim (Bool-cases (ltb total fdt_header)) [
              | inl short ↦ (
                record blank { detail = some "totalsize" },
                ground (arith, e, f, same, small, short),
                no_header total found f (ground arith)
                    (blank-IsRefused malformed "totalsize" (λ q. cc) refl),
              )
              | inr whole ↦
                  let limit : total ≤ dt_limit = ground arith in
                  let (r, ran, ends) = parse_dt-DtEnds p total bytes (declared total f limit) in
                  (
                    r,
                    ground (arith, e, f, same, small, whole, ran),
                    parsed total found f (ground arith) limit ran ends,
                  )
            ]
          ]
    ]
