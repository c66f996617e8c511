-- ===== src/Probe/Main.antt =====
-- `variable` and `efi_main` of tools/efi-inventory/probe.c.
use muen_orin.Base.{ℕ, List, Option, none, some, true, false, codes, ◌>>=◌}
use muen_orin.Efi.{efi_error, efi_invalid_parameter, efi_unsupported}
use muen_orin.Status.{unavailable}
use muen_orin.Observe.Variable.{VarResult, var_result, parse_var}
use muen_orin.Observe.Level.{decode_el}
use muen_orin.Observe.Vendor.{read_vendor}
use muen_orin.Writer.Put.{new_writer}
use muen_orin.Probe.World.{World, BootServices, LoadedImage}
use muen_orin.Probe.Console.{Output}
use muen_orin.Probe.Pool.{acquire_map}
use muen_orin.Probe.Search.{ConfigEntry, find_dt}
use muen_orin.Probe.Record.{Findings, build_record}
use muen_orin.Probe.Report.{report}

abbrev pub record_capacity : ℕ
record_capacity = 4096

abbrev pub secure_boot : List ℕ
secure_boot = codes "SecureBoot"

abbrev pub setup_mode : List ℕ
setup_mode = codes "SetupMode"

-- What `get_variable` leaves: its status, and its outputs, the size and the byte.
pub record VariableReply : Type 0 where
  pub status : ℕ
  pub size : ℕ
  pub value : ℕ

-- The fields of the system table that are read; `get_variable` is `none` without the runtime
-- services too. The GUID of the variables is always the global one.
pub record SystemTable (σ : Type 0) : Type 0 where
  pub revision : ℕ
  pub firmware_vendor : Option (List ℕ)
  pub firmware_revision : ℕ
  pub output_string : Option (Output σ)
  pub get_variable : Option (List ℕ → σ → VariableReply × σ)
  pub boot_services : Option (BootServices σ)
  pub number_of_table_entries : ℕ
  pub configuration_table : Option (List ConfigEntry)

module _ {σ : Type 0} where
  unfoldable pub variable : SystemTable σ → List ℕ → World σ → VarResult × World σ
  variable st name w = elim st.get_variable [
    | none ↦ (var_result unavailable "service_missing" 0, w)
    | some service ↦
        let (reply, firmware) = service name w.firmware in
        (parse_var reply.status reply.size reply.value, record w { firmware = firmware })
  ]

  -- `image_status` and `loaded`.
  abbrev pub loaded_image :
      Option (BootServices σ) → ℕ → World σ → (ℕ × Option LoadedImage) × World σ
  loaded_image none image w = ((efi_unsupported, none), w)
  loaded_image (some bs) image w = elim bs.handle_protocol [
    | none ↦ ((efi_unsupported, none), w)
    | some service ↦
        let (opened, firmware) = service image w.firmware in
        (
          (
            opened.status,
            elim (efi_error opened.status) [ true ↦ none | false ↦ opened.interface ],
          ),
          record w { firmware = firmware },
        )
  ]

  -- The observations, in the order of the code; `current_el` is what `probe_current_el` reads.
  unfoldable pub observe : SystemTable σ → ℕ → ℕ → World σ → Option (Findings × World σ)
  observe st image current_el w =
      let ((image_status, loaded), w₁) = loaded_image st.boot_services image w in
      acquire_map st.boot_services w₁ >>= λ (acquisition, w₂).
      find_dt st.number_of_table_entries st.configuration_table >>= λ search.
      let (secure, w₃) = variable st secure_boot w₂ in
      let (setup, w₄) = variable st setup_mode w₃ in
      read_vendor st.firmware_vendor >>= λ vendor. some (
        record {
          vendor = vendor;
          firmware_revision = st.firmware_revision;
          uefi_revision = st.revision;
          loaded = loaded;
          image_status = image_status;
          acquisition = acquisition;
          search = search;
          secure = secure;
          setup = setup;
          level = decode_el current_el;
        },
        w₄,
      )

  unfoldable pub efi_main : Option (SystemTable σ) → ℕ → ℕ → World σ → Option (ℕ × World σ)
  efi_main none image current_el w = some (efi_invalid_parameter, w)
  efi_main (some st) image current_el w = elim st.output_string [
    | none ↦ some (efi_unsupported, w)
    | some out ↦ observe st image current_el w >>= λ (found, w').
        build_record found (new_writer record_capacity) >>= λ written.
        report (some out) found.acquisition.release_status written w'
  ]
