-- ===== src/Probe/Pool.antt =====
-- `release`, `map_fail` and `acquire_map` of tools/efi-inventory/probe.c.
use muen_orin.Base.{
  ℕ, zero, suc, ◌+◌, ◌∷◌, String, Option, none, some, true, false, not, ◌==◌, ◌&&◌, u32,
  if◌then◌else◌, ◌>>=◌,
}
use muen_orin.Efi.{efi_error, efi_success, efi_buffer_too_small, efi_loader_data}
use muen_orin.Status.{State, state_eq, observed, unavailable, unsupported, malformed, not_probed}
use muen_orin.Map.Parser.{MapResult, map_state, map_next_capacity, parse_map}
use muen_orin.Probe.World.{
  allocated, not_allocated, read_map, freed, MapReply, World, BootServices, PoolServices,
  pool_services,
}

abbrev pub map_initial : ℕ
map_initial = 4096

abbrev pub map_attempts : ℕ
map_attempts = 5

pub record MapAcquisition : Type 0 where
  pub map : MapResult
  pub efi_status : ℕ
  pub release_status : ℕ
  pub attempts : ℕ
  pub releases : ℕ

unfoldable pub map_fail : State → String → MapResult
map_fail s d = map_state s (some d)

-- `MapAcquisition a={.map={.state=UNAVAILABLE,.detail="service_missing"}}`.
abbrev pub no_services : MapAcquisition
no_services = record {
  map = map_state unavailable (some "service_missing");
  efi_status = 0;
  release_status = 0;
  attempts = 0;
  releases = 0;
}

-- `if (s!=EFI_SUCCESS && a->release_status==EFI_SUCCESS) a->release_status=s`, and the count.
unfoldable pub note_release : ℕ → MapAcquisition → MapAcquisition
note_release s a = record a {
  releases = u32 (a.releases + 1);
  release_status =
      if not (s == efi_success) && a.release_status == efi_success then s else a.release_status;
}

-- The map for an answer other than `EFI_BUFFER_TOO_SMALL`.
unfoldable pub final_map : ℕ → MapReply → Option MapResult
final_map capacity reply =
    if efi_error reply.status
    then some (map_fail unavailable "efi_error")
    else if not (reply.status == efi_success)
    then some (map_fail unsupported "warning_status")
    else parse_map (some reply.contents) capacity reply.size reply.stride reply.version

module _ {σ : Type 0} (bs : PoolServices σ) where
  -- The status of the release, and what it leaves.
  abbrev pub release : ℕ → MapAcquisition → World σ → ℕ × (MapAcquisition × World σ)
  release b a w =
      let (s, firmware) = bs.free b w.firmware in
      (s, (note_release s a, record { firmware = firmware; calls = freed b s ∷ w.calls }))

  -- The rest of a round behind `get_memory_map`: the end of the loop, or the next capacity.
  pub data Attempt : Type 0 where
    ends : MapAcquisition → World σ → Attempt
    grows : ℕ → MapAcquisition → World σ → Attempt

  unfoldable pub grow_map : ℕ → ℕ → MapReply → MapAcquisition → World σ → Attempt
  grow_map capacity b reply a w =
      let (grow, next) = map_next_capacity capacity reply.size reply.stride in
      let (s, (a', w')) = release b a w in
      if not (s == efi_success)
      then ends (record a' { map = map_fail not_probed "release_failed" }) w'
      else if not (state_eq grow.state observed)
      then ends (record a' { map = grow }) w'
      else grows next a' w'

  unfoldable pub end_map : ℕ → ℕ → MapReply → MapAcquisition → World σ → Option Attempt
  end_map capacity b reply a w = final_map capacity reply >>= λ map.
      let (s, (a', w')) = release b (record a { map = map }) w in some (ends a' w')

  unfoldable pub use_buffer : ℕ → ℕ → MapAcquisition → World σ → Option Attempt
  use_buffer capacity b a w =
      let (reply, firmware) = bs.memory_map capacity b w.firmware in
      let w' : World σ = record { firmware = firmware; calls = read_map capacity b ∷ w.calls } in
      let a' = record a { efi_status = reply.status } in
      if reply.status == efi_buffer_too_small
      then some (grow_map capacity b reply a' w')
      else end_map capacity b reply a' w'

  -- A round of the loop behind the test of the attempts.
  unfoldable pub attempt : ℕ → MapAcquisition → World σ → Option Attempt
  attempt capacity a w =
      let (allocation, firmware) = bs.allocate efi_loader_data capacity w.firmware in
      let a' = record a { attempts = u32 (a.attempts + 1) } in
      let w' : World σ = record { firmware = firmware; calls = not_allocated capacity ∷ w.calls } in
      if efi_error allocation.status
      then some (
          ends
            (record a' {
              efi_status = allocation.status;
              map = map_fail unavailable "allocation_failed";
            })
            w')
      else elim allocation.buffer [
        | none ↦ some (ends (record a' { map = map_fail malformed "allocation_null" }) w')
        | some b ↦
            use_buffer capacity b a'
              (record { firmware = firmware; calls = allocated capacity b ∷ w.calls })
      ]

  unfoldable pub acquire_loop : ℕ → ℕ → MapAcquisition → World σ → Option (MapAcquisition × World σ)
  acquire_loop zero capacity a w = none
  acquire_loop (suc fuel) capacity a w = elim (a.attempts == map_attempts) [
    | true ↦ some (record a { map = map_fail unsupported "retry_limit" }, w)
    | false ↦ attempt capacity a w >>= λ t. elim t [
      | ends a' w' ↦ some (a', w')
      | grows next a' w' ↦ acquire_loop fuel next a' w'
    ]
  ]

-- At most `map_attempts` rounds, and one that ends at the limit.
unfoldable pub acquire_map :
    {σ : Type 0} → Option (BootServices σ) → World σ → Option (MapAcquisition × World σ)
acquire_map {σ} bs w = elim (pool_services σ bs) [
  | none ↦ some (no_services, w)
  | some pool ↦ acquire_loop pool (suc map_attempts) map_initial no_services w
]
