-- ===== src/Probe/Answers.antt =====
-- What `variable` and the image part of `efi_main` in tools/efi-inventory/probe.c make of the
-- answers of the firmware.
use muen_orin.Base.{
  ℕ, ◌≡◌, refl, ap, sym, List, Option, none, some, Bool, true, false, Bool-cases, Option-cases, inl,
  inr,
}
use muen_orin.Efi.{efi_error, efi_unsupported}
use muen_orin.Status.{unavailable}
use muen_orin.Observe.Variable.{VarResult, var_result, parse_var}
use muen_orin.Probe.World.{World, BootServices, LoadedImage, Opened}
use muen_orin.Probe.Main.{SystemTable, VariableReply, variable, loaded_image}

-- A variable is read from its service by its name, in the state `s` of the firmware, which is `s'`
-- behind the call; without the service it is unavailable, and nothing is called.
pub data VariableEnds {σ : Type 0} (st : SystemTable σ) (name : List ℕ) (s s' : σ) (v : VarResult)
    : Type 0 where
  no_service :
      st.get_variable ≡ none
      → s' ≡ s
      → v ≡ var_result unavailable "service_missing" 0
      → VariableEnds st name s s' v
  answered :
      (service : List ℕ → σ → VariableReply × σ) (reply : VariableReply)
      → st.get_variable ≡ some service
      → service name s ≡ (reply, s')
      → v ≡ parse_var reply.status reply.size reply.value
      → VariableEnds st name s s' v

-- The image is opened by its handle; the interface is kept exactly when the status is no error.
pub data ImageEnds {σ : Type 0} (bs : Option (BootServices σ)) (image : ℕ) (s s' : σ) (status : ℕ)
    (loaded : Option LoadedImage) : Type 0 where
  no_services :
      bs ≡ none
      → s' ≡ s
      → status ≡ efi_unsupported
      → loaded ≡ none
      → ImageEnds bs image s s' status loaded
  no_protocol :
      (b : BootServices σ)
      → bs ≡ some b
      → b.handle_protocol ≡ none
      → s' ≡ s
      → status ≡ efi_unsupported
      → loaded ≡ none
      → ImageEnds bs image s s' status loaded
  failed :
      (b : BootServices σ) (service : ℕ → σ → Opened × σ) (reply : Opened)
      → bs ≡ some b
      → b.handle_protocol ≡ some service
      → service image s ≡ (reply, s')
      → efi_error reply.status ≡ true
      → status ≡ reply.status
      → loaded ≡ none
      → ImageEnds bs image s s' status loaded
  opened :
      (b : BootServices σ) (service : ℕ → σ → Opened × σ) (reply : Opened)
      → bs ≡ some b
      → b.handle_protocol ≡ some service
      → service image s ≡ (reply, s')
      → efi_error reply.status ≡ false
      → status ≡ reply.status
      → loaded ≡ reply.interface
      → ImageEnds bs image s s' status loaded

module _ {σ : Type 0} where
  variable-missing :
      (st : SystemTable σ) (name : List ℕ) (w : World σ)
      → st.get_variable ≡ none
      → variable st name w ≡ (var_result unavailable "service_missing" 0, w)
  unfolding variable
  variable-missing st name w missing = rw missing refl

  variable-answered :
      (st : SystemTable σ) (name : List ℕ) (w : World σ) (service : List ℕ → σ → VariableReply × σ)
      → st.get_variable ≡ some service
      → let (reply, s') = service name w.firmware in
        variable st name w
        ≡ (parse_var reply.status reply.size reply.value, record w { firmware = s' })
  unfolding variable
  variable-answered st name w service there = rw there refl

  pub variable-VariableEnds :
      (st : SystemTable σ) (name : List ℕ) (w : World σ)
      → VariableEnds st name w.firmware (variable st name w).1.firmware (variable st name w).0
  variable-VariableEnds st name w = elim (Option-cases st.get_variable) [
    | inl missing ↦
        let e = variable-missing st name w missing in
        no_service missing (ap (λ r. r.1.firmware) e) (ap (λ r. r.0) e)
    | inr (service, there) ↦
        let e = variable-answered st name w service there in
        answered service (service name w.firmware).0 there
          (ap (λ r. ((service name w.firmware).0, r.1.firmware)) (sym e)) (ap (λ r. r.0) e)
  ]

  module _ (b : BootServices σ) (image : ℕ) (w : World σ) where
    loaded_image-missing :
        b.handle_protocol ≡ none → loaded_image (some b) image w ≡ ((efi_unsupported, none), w)
    loaded_image-missing missing = rw missing refl

    loaded_image-answered :
        (service : ℕ → σ → Opened × σ) (bad : Bool)
        → b.handle_protocol ≡ some service
        → efi_error (service image w.firmware).0.status ≡ bad
        → let (reply, s') = service image w.firmware in
          loaded_image (some b) image w ≡ (
            (reply.status, elim bad [ true ↦ none | false ↦ reply.interface ]),
            record w { firmware = s' },
          )
    loaded_image-answered service bad there e = rw (there, e) refl

  pub loaded_image-ImageEnds :
      (bs : Option (BootServices σ)) (image : ℕ) (w : World σ)
      → ImageEnds bs image w.firmware
          (loaded_image bs image w).1.firmware
          (loaded_image bs image w).0.0
          (loaded_image bs image w).0.1
  loaded_image-ImageEnds none image w = no_services refl refl refl refl
  loaded_image-ImageEnds (some b) image w = elim (Option-cases b.handle_protocol) [
    | inl missing ↦
        let e = loaded_image-missing b image w missing in
        no_protocol b refl missing (ap (λ r. r.1.firmware) e) (ap (λ r. r.0.0) e)
          (ap (λ r. r.0.1) e)
    | inr (service, there) ↦
        let reply = (service image w.firmware).0 in
        elim (Bool-cases (efi_error reply.status)) [
          | inl bad ↦
              let e = loaded_image-answered b image w service true there bad in
              failed b service reply refl there (ap (λ r. (reply, r.1.firmware)) (sym e)) bad
                (ap (λ r. r.0.0) e) (ap (λ r. r.0.1) e)
          | inr fine ↦
              let e = loaded_image-answered b image w service false there fine in
              opened b service reply refl there (ap (λ r. (reply, r.1.firmware)) (sym e)) fine
                (ap (λ r. r.0.0) e) (ap (λ r. r.0.1) e)
        ]
  ]
