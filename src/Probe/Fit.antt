-- ===== src/Probe/Fit.antt =====
-- The observations of `efi_main` in tools/efi-inventory/probe.c are fit for the record.
use muen_orin.Base.{
  ℕ, ◌≡◌, inl, inr, sym, ◌∙◌, subst, refl, List, replicate, Option, none, some, All, Bool, true,
  false, Bool-cases, Option-cases, not, ◌&&◌, ◌==◌, bit_and, ◌>>>◌, arith, get_elem?-some-lt, Is64,
  >>=-eq-some,
}
use muen_orin.Base.Bits.{bit_and_low}
use muen_orin.Efi.{efi_error}
use muen_orin.Status.{unavailable}
use muen_orin.Observe.Variable.{
  VarResult, Policy, absent, large, no_service, error, warning, wrong_size, wrong_value, valid,
  parse_var-Policy,
}
use muen_orin.Observe.Level.{reserved_bits, decode_el}
use muen_orin.Observe.Vendor.{VendorResult, read_vendor}
use muen_orin.Observe.VendorText.{CanRead, VendorEnds, refused, reported}
use muen_orin.Observe.VendorLaws.{read_vendor-VendorEnds}
use muen_orin.Probe.World.{
  Call, World, BootServices, PoolServices, LoadedImage, Opened, pool_services,
}
use muen_orin.Probe.Pool.{MapAcquisition, acquire_map}
use muen_orin.Probe.Search.{DtSearch, find_dt}
use muen_orin.Probe.Printed.{IsTaken}
use muen_orin.Probe.Record.{Findings}
use muen_orin.Probe.Reportable.{VarOk, VendorOk, ImageOk}
use muen_orin.Probe.Recorded.{MapOk, DtOk, LevelOk, IsReportable}
use muen_orin.Probe.Noted.{IsWide}
use muen_orin.Probe.Acquired.{IsQuiet, acquire_map-MapOk}
use muen_orin.Probe.Located.{find_dt-DtOk}
use muen_orin.Probe.Main.{
  SystemTable, VariableReply, secure_boot, setup_mode, variable, loaded_image, observe,
}
use muen_orin.Probe.Observed.{IsReadableSystem, loaded_image-calls, variable-calls}

Policy-VarOk : {s size v : ℕ} {r : VarResult} → Is64 s → Policy s size v r → VarOk r
Policy-VarOk small (absent _) = record { detail = refl; status = small; value = omega arith }
Policy-VarOk small (large _) = record { detail = refl; status = small; value = omega arith }
Policy-VarOk small (no_service _) = record { detail = refl; status = small; value = omega arith }
Policy-VarOk small (error _ _ _ _) = record { detail = refl; status = small; value = omega arith }
Policy-VarOk small (warning _ _) = record { detail = refl; status = small; value = omega arith }
Policy-VarOk small (wrong_size _ _) = record { detail = refl; status = small; value = omega arith }
Policy-VarOk small (wrong_value _ _ _) = record {
  detail = refl;
  status = small;
  value = omega arith;
}
Policy-VarOk small (valid _ _ le) = record { detail = tt; status = small; value = omega arith }

decode_el-LevelOk : (raw : ℕ) → Is64 raw → LevelOk (decode_el raw)
unfolding decode_el
decode_el-LevelOk raw small =
    elim (Bool-cases (bit_and raw reserved_bits == 0 && not (bit_and (raw >>> 2) 3 == 0))) [
      | inl e ↦ rw e (record { raw = small; level = omega (arith, bit_and_low 2 (raw >>> 2)) })
      | inr e ↦ rw e (record { raw = small; level = omega arith })
    ]

VendorEnds-VendorOk : {text : List ℕ} {r : VendorResult} → VendorEnds text r → VendorOk r
VendorEnds-VendorOk (refused n c _ _ _ _ _ none_left nul) = record {
  units = omega (arith, none_left);
  room = omega (arith, none_left);
}
VendorEnds-VendorOk {r = r} (reported n le _ units _ nul _) = record {
  units = omega (arith, le, units);
  room = omega (arith, units, get_elem?-some-lt r.text n nul);
}

read_vendor-VendorOk :
    (text : Option (List ℕ)) (r : VendorResult)
    → ((t : List ℕ) → text ≡ some t → CanRead t)
    → read_vendor text ≡ some r
    → VendorOk r
unfolding read_vendor
read_vendor-VendorOk none r readable e =
    let blank_vendor : VendorResult = record {
      state = unavailable;
      units = 0;
      text = replicate 65 0;
    } in
    let same : blank_vendor ≡ r = cc e in
    subst VendorOk same (record { units = omega arith; room = omega arith })
read_vendor-VendorOk (some t) r readable e =
    let (r', e', ends) = read_vendor-VendorEnds t (readable t refl) in
    let same : r' ≡ r = cc (e, e') in subst VendorOk same (VendorEnds-VendorOk ends)

-- The numbers of the system table and those that its services leave have 64 bits.
pub record IsWideSystem {σ : Type 0} (st : SystemTable σ) : Type 0 where
  pub revision : Is64 st.revision
  pub firmware_revision : Is64 st.firmware_revision
  pub entries : Is64 st.number_of_table_entries
  pub pool : (pool : PoolServices σ) → pool_services σ st.boot_services ≡ some pool → IsWide pool
  pub variable :
      (service : List ℕ → σ → VariableReply × σ)
      → st.get_variable ≡ some service
      → (name : List ℕ) (s : σ) → Is64 (service name s).0.status
  pub image :
      (bs : BootServices σ) (service : ℕ → σ → Opened × σ)
      → st.boot_services ≡ some bs
      → bs.handle_protocol ≡ some service
      → (image : ℕ) (s : σ)
      → Is64 (service image s).0.status × ImageOk (service image s).0.interface

opened-ImageOk :
    (failed : Bool) (l : Option LoadedImage)
    → ImageOk l
    → ImageOk (elim failed [ true ↦ none | false ↦ l ])
opened-ImageOk true l h = tt
opened-ImageOk false l h = h

module _ {σ : Type 0} (st : SystemTable σ) (wide : IsWideSystem st) where
  variable-VarOk : (name : List ℕ) (w : World σ) → VarOk (variable st name w).0
  unfolding variable
  variable-VarOk name w = elim (Option-cases st.get_variable) [
    | inl missing ↦ rw missing (record { detail = refl; status = omega arith; value = omega arith })
    | inr (service, there) ↦
        let small = wide.variable service there name w.firmware in
        rw there (Policy-VarOk small (parse_var-Policy _ _ _ small))
  ]

  -- The status and the image, on a table that is known.
  loaded_image-ImageOk :
      (bs : Option (BootServices σ)) (image : ℕ) (w : World σ)
      → st.boot_services ≡ bs
      → Is64 (loaded_image bs image w).0.0 × ImageOk (loaded_image bs image w).0.1
  loaded_image-ImageOk none image w e = (omega arith, tt)
  loaded_image-ImageOk (some bs) image w e = elim (Option-cases bs.handle_protocol) [
    | inl missing ↦ rw missing (omega arith, tt)
    | inr (service, there) ↦
        let (small, ok) = wide.image bs service e there image w.firmware in
        rw there (small, opened-ImageOk (efi_error (service image w.firmware).0.status) _ ok)
  ]

  -- What `observe` returns, from its parts.
  abbrev gathered :
      (ℕ × Option LoadedImage)
      → ℕ
      → MapAcquisition
      → DtSearch
      → VendorResult
      → World σ
      → Findings × World σ
  gathered opened current_el acquisition search vendor w =
      let (secure, w₃) = variable st secure_boot w in
      let (setup, w₄) = variable st setup_mode w₃ in
      (
        record {
          vendor = vendor;
          firmware_revision = st.firmware_revision;
          uefi_revision = st.revision;
          loaded = opened.1;
          image_status = opened.0;
          acquisition = acquisition;
          search = search;
          secure = secure;
          setup = setup;
          level = decode_el current_el;
        },
        w₄,
      )

  abbrev RunOk : List Call → Findings × World σ → Type 0
  RunOk before r = IsReportable r.0 × IsQuiet before r.1.calls

  gathered-RunOk :
      (opened : ℕ × Option LoadedImage) (current_el : ℕ) (acquisition : MapAcquisition)
      (search : DtSearch) (vendor : VendorResult) (w : World σ) (before : List Call)
      → Is64 opened.0 × ImageOk opened.1
      → Is64 current_el
      → MapOk acquisition
      → DtOk search
      → VendorOk vendor
      → IsQuiet before w.calls
      → RunOk before (gathered opened current_el acquisition search vendor w)
  gathered-RunOk opened current_el acquisition search vendor w before image small map_ok dt_ok
        vendor_ok quiet =
      let same : (variable st setup_mode (variable st secure_boot w).1).1.calls ≡ w.calls =
        variable-calls st setup_mode (variable st secure_boot w).1
        ∙ variable-calls st secure_boot w in
      (
        record {
          vendor = vendor_ok;
          firmware_revision = wide.firmware_revision;
          uefi_revision = wide.revision;
          loaded = image.1;
          image_status = image.0;
          acquisition = map_ok;
          search = dt_ok;
          secure = variable-VarOk secure_boot w;
          setup = variable-VarOk setup_mode (variable st secure_boot w).1;
          level = decode_el-LevelOk current_el small;
        },
        subst (IsQuiet before) (sym same) quiet,
      )

  pub observe-IsReportable :
      (image current_el : ℕ) (w : World σ) (r : Findings × World σ)
      → IsReadableSystem st
      → Is64 current_el
      → All IsTaken w.calls
      → observe st image current_el w ≡ some r
      → RunOk w.calls r
  unfolding observe
  observe-IsReportable image current_el w r readable small taken e =
      let opened = loaded_image st.boot_services image w in
      let kept : opened.1.calls ≡ w.calls = loaded_image-calls st.boot_services image w in
      let (acquired, a, e₁) = >>=-eq-some (acquire_map st.boot_services opened.1) _ e in
      let (search, b, e₂) =
        >>=-eq-some (find_dt st.number_of_table_entries st.configuration_table) _ e₁ in
      let (vendor, c, built) = >>=-eq-some (read_vendor st.firmware_vendor) _ e₂ in
      let (map_ok, quiet) =
        acquire_map-MapOk st.boot_services opened.1 acquired
          (λ pool there. (wide.pool pool there, readable.fills pool there))
          (subst (All IsTaken) (sym kept) taken) a in
      let same : gathered opened.0 current_el acquired.0 search vendor acquired.1 ≡ r = cc built in
      subst (RunOk w.calls) same (
        gathered-RunOk opened.0 current_el acquired.0 search vendor acquired.1 w.calls
          (loaded_image-ImageOk st.boot_services image w refl) small map_ok
          (find_dt-DtOk st.number_of_table_entries st.configuration_table search wide.entries
            readable.entries b)
          (read_vendor-VendorOk st.firmware_vendor vendor readable.vendor c)
          (subst (λ before. IsQuiet before acquired.1.calls) kept quiet))
