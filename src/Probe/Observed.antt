-- ===== src/Probe/Observed.antt =====
-- The observations of `efi_main` in tools/efi-inventory/probe.c, all together.
use muen_orin.Base.{
  ℕ, codes, ◌≡◌, ◌∙◌, ap, subst, sym, refl, List, Option, none, some, All, Option-cases, inl, inr,
}
use muen_orin.Observe.Level.{decode_el}
use muen_orin.Observe.Vendor.{VendorResult, read_vendor}
use muen_orin.Observe.VendorText.{CanRead}
use muen_orin.Observe.VendorLaws.{read_vendor-VendorEnds}
use muen_orin.Probe.World.{World, BootServices, PoolServices, pool_services, holding, nothing}
use muen_orin.Probe.Ownership.{IsSmall, IsReleased}
use muen_orin.Probe.Attempt.{FillsBuffer}
use muen_orin.Probe.Acquire.{acquire_map-IsReleased}
use muen_orin.Probe.Search.{ConfigEntry, searchable}
use muen_orin.Probe.Searched.{CanSearch, SearchEnds, find_dt-SearchEnds}
use muen_orin.Probe.Record.{Findings}
use muen_orin.Probe.Pool.{acquire_map}
use muen_orin.Probe.Answers.{VariableEnds, ImageEnds, variable-VariableEnds, loaded_image-ImageEnds}
use muen_orin.Probe.Main.{SystemTable, secure_boot, setup_mode, variable, loaded_image, observe}

-- What is assumed of the machine: the map service fills its buffer, and the entries, the device
-- tree and the vendor text can be read.
pub record IsReadableSystem {σ : Type 0} (st : SystemTable σ) : Type 0 where
  pub fills :
      (pool : PoolServices σ) → pool_services σ st.boot_services ≡ some pool → FillsBuffer pool
  pub entries :
      (es : List ConfigEntry)
      → st.configuration_table ≡ some es
      → CanSearch es (searchable st.number_of_table_entries)
  pub vendor : (text : List ℕ) → st.firmware_vendor ≡ some text → CanRead text

-- Each finding is the result of its observation, in the order of the code: `opened` is the world
-- behind the call for the image, `mapped` behind the acquisition of the map, `between` the state of
-- the firmware between the two variables, and `end` the world behind them.
pub record IsObservation {σ : Type 0} (st : SystemTable σ) (image current_el : ℕ) (start : World σ)
    (f : Findings) (end : World σ) : Type 0 where
  pub opened : World σ
  pub mapped : World σ
  pub between : σ
  pub loaded :
      ImageEnds st.boot_services image start.firmware opened.firmware f.image_status f.loaded
  pub silent : opened.calls ≡ start.calls
  pub acquired : acquire_map st.boot_services opened ≡ some (f.acquisition, mapped)
  pub secure : VariableEnds st (codes "SecureBoot") mapped.firmware between f.secure
  pub setup : VariableEnds st (codes "SetupMode") between end.firmware f.setup
  pub last_calls : end.calls ≡ mapped.calls
  pub released : IsReleased end.calls f.acquisition
  pub searched : SearchEnds st.number_of_table_entries st.configuration_table f.search
  pub vendor : read_vendor st.firmware_vendor ≡ some f.vendor
  pub level : f.level ≡ decode_el current_el
  pub firmware_revision : f.firmware_revision ≡ st.firmware_revision
  pub uefi_revision : f.uefi_revision ≡ st.revision

read_vendor-total :
    (text : Option (List ℕ))
    → ((t : List ℕ) → text ≡ some t → CanRead t)
    → (r : VendorResult) × (read_vendor text ≡ some r)
unfolding read_vendor
read_vendor-total none readable = (_, refl)
read_vendor-total (some t) readable =
    let (r, e, _) = read_vendor-VendorEnds t (readable t refl) in (r, e)

module _ {σ : Type 0} where
  pub loaded_image-calls :
      (bs : Option (BootServices σ)) (image : ℕ) (w : World σ)
      → (loaded_image bs image w).1.calls ≡ w.calls
  loaded_image-calls none image w = refl
  loaded_image-calls (some bs) image w = elim (Option-cases bs.handle_protocol) [
    | inl missing ↦ rw missing refl
    | inr (service, there) ↦ rw there refl
  ]

  pub variable-calls :
      (st : SystemTable σ) (name : List ℕ) (w : World σ) → (variable st name w).1.calls ≡ w.calls
  unfolding variable
  variable-calls st name w = elim (Option-cases st.get_variable) [
    | inl missing ↦ rw missing refl
    | inr (service, there) ↦ rw there refl
  ]

  -- On a system whose map service fills its buffer, and whose entries, device trees and vendor
  -- text can be read, with nothing owned before and earlier requests within the limit, the
  -- observations of `efi_main` return. The calls keep the ownership contract of the map up to
  -- the end of the observations, the search of the device tree ends as `find_dt` does, and the
  -- vendor text, the exception level and the two revisions are those of the system. The image
  -- is opened by its handle before the map is acquired, and kept exactly when the status is no
  -- error. SecureBoot is read behind the map and SetupMode behind SecureBoot, each by its
  -- name, and the answer is the argument of `parse_var`. Without its service the image is
  -- unsupported and a variable unavailable, and nothing is called.
  pub observe-IsObservation :
      (st : SystemTable σ) (image current_el : ℕ) (w : World σ)
      → IsReadableSystem st
      → holding w.calls ≡ nothing
      → All IsSmall w.calls
      → (r : Findings × World σ) × (observe st image current_el w ≡ some r)
        × IsObservation st image current_el w r.0 r.1
  unfolding observe
  observe-IsObservation st image current_el w readable idle small =
      let opened = loaded_image st.boot_services image w in
      let kept : opened.1.calls ≡ w.calls = loaded_image-calls st.boot_services image w in
      let (acquired, e, released) =
        acquire_map-IsReleased st.boot_services opened.1 readable.fills (ap holding kept ∙ idle)
          (subst (All IsSmall) (sym kept) small) in
      let (search, f, searched) =
        find_dt-SearchEnds st.number_of_table_entries st.configuration_table readable.entries in
      let (vendor, g) = read_vendor-total st.firmware_vendor readable.vendor in
      let after_secure = (variable st secure_boot acquired.1).1 in
      let same_calls : (variable st setup_mode after_secure).1.calls ≡ acquired.1.calls =
        variable-calls st setup_mode after_secure ∙ variable-calls st secure_boot acquired.1 in
      rw (e, f, g)
        (
          _,
          refl,
          record {
            opened = opened.1;
            mapped = acquired.1;
            between = after_secure.firmware;
            loaded = loaded_image-ImageEnds st.boot_services image w;
            silent = kept;
            acquired = e;
            secure = variable-VariableEnds st secure_boot acquired.1;
            setup = variable-VariableEnds st setup_mode after_secure;
            last_calls = same_calls;
            released = subst (λ c. IsReleased c acquired.0) (sym same_calls) released;
            searched = searched;
            vendor = g;
            level = refl;
            firmware_revision = refl;
            uefi_revision = refl;
          },
        )
