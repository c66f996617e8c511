-- ===== src/Tests/Run.antt =====
-- `efi_main` of tools/efi-inventory/probe.c on the machine of the small firmware.
use muen_orin.Base.{ℕ, ◌≡◌, refl, subst, some, arith, Is64}
use muen_orin.Probe.World.{World}
use muen_orin.Probe.Main.{SystemTable, efi_main}
use muen_orin.Probe.Observed.{IsReadableSystem}
use muen_orin.Probe.Noted.{IsWide}
use muen_orin.Probe.Reportable.{ImageOk}
use muen_orin.Probe.Fit.{IsWideSystem}
use muen_orin.Probe.Run.{Returns, efi_main-Returns}
use muen_orin.Tests.Firmware.{
  open_image, read_variable, OnlyState, small_pool, small_firmware, fresh, machine,
  machine-IsReadableSystem,
}

small_pool-IsWide : IsWide small_pool
small_pool-IsWide = record {
  allocate = λ kind size s. omega arith;
  free = λ b s. omega arith;
  memory_map = λ capacity b s. (omega arith, omega arith);
}

machine-IsWideSystem : IsWideSystem machine
machine-IsWideSystem = record {
  revision = omega arith;
  firmware_revision = omega arith;
  entries = omega arith;
  pool =
      λ pool there. let same : small_pool ≡ pool = cc there in subst IsWide same small_pool-IsWide;
  variable = λ service there name s.
      let same : read_variable ≡ service = cc there in
      subst (λ f. Is64 (f name s).0.status) same (omega arith);
  image = λ bs service there found image s.
      let same_bs : small_firmware ≡ bs = cc there in
      let same : open_image ≡ service = cc (same_bs, found) in
      subst (λ f. Is64 (f image s).0.status × ImageOk (f image s).0.interface) same
        (omega arith, (omega arith, omega arith));
}

machine-ok :
    (st : SystemTable OnlyState) → some machine ≡ some st → IsReadableSystem st × IsWideSystem st
machine-ok st e =
    let same : machine ≡ st = cc e in
    subst (λ st. IsReadableSystem st × IsWideSystem st) same
      (machine-IsReadableSystem, machine-IsWideSystem)

efi_main-Returns_example :
    (r : ℕ × World OnlyState) × (efi_main (some machine) 1 8 fresh ≡ some r)
    × Returns (some machine) 1 8 fresh r
efi_main-Returns_example =
    efi_main-Returns (some machine) 1 8 fresh machine-ok (omega arith) refl tt tt
