-- ===== src/Fdt/Firmware.antt =====
-- `parse_firmware_dt` of tools/efi-inventory/core.c: a blob with no length from the caller.
use muen_orin.Base.{ℕ, List, Option, none, some, not, ltb, ◌==◌, if◌then◌else◌, ◌>>=◌}
use muen_orin.Status.{unsupported}
use muen_orin.Fdt.Read.{be32}
use muen_orin.Fdt.Result.{DtResult, blank, dt_limit}
use muen_orin.Fdt.Header.{fdt_header, fdt_magic}
use muen_orin.Fdt.Parser.{parse_dt}

unfoldable pub parse_firmware_dt : Option (List ℕ) → Option DtResult
parse_firmware_dt none = some (record blank { detail = some "null" })
parse_firmware_dt (some p) = be32 p 0 >>= λ magic.
    if not (magic == fdt_magic)
    then some (record blank { detail = some "magic" })
    else be32 p 4 >>= λ total.
        if ltb dt_limit total
        then some (record blank { state = unsupported; detail = some "size_limit" })
        else if ltb total fdt_header
        then some (record blank { detail = some "totalsize" })
        else parse_dt (some p) total
