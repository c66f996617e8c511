-- ===== src/Probe/Attempt.antt =====
-- A round of `acquire_map` of tools/efi-inventory/probe.c keeps the ownership contract.
use muen_orin.Base.{
  ℕ, ◌+◌, ◌≤◌, ◌<◌, ◌≡◌, ◌≢◌, inl, inr, refl, ap, ◌∙◌, sym, List, ◌∷◌, String, Option, some,
  Bool-cases, Option-cases, arith, All, IsBytes, length, ◌==◌, u32,
}
use muen_orin.Efi.{efi_error, efi_success, efi_buffer_too_small, efi_loader_data}
use muen_orin.Status.{
  State, state_eq, state_eq→eq, state_eq→ne, observed, unavailable, unsupported, malformed,
  not_probed,
}
use muen_orin.Map.Parser.{MapResult, map_state-state, map_limit, map_next_capacity}
use muen_orin.Map.Capacity.{Grows, map_next_capacity-observed, map_next_capacity-Grows}
use muen_orin.Map.Parse.{MapEnds, parse_map-MapEnds}
use muen_orin.Probe.World.{Call, not_allocated, MapReply, World, PoolServices, holds, holding}
use muen_orin.Probe.Pool.{
  MapAcquisition, map_attempts, note_release, map_fail, final_map, Attempt, ends, grows, grow_map,
  end_map, use_buffer, attempt,
}
use muen_orin.Probe.Ownership.{
  IsSmall, IsSound, IsReleased, IsReady, not-IsSound, holding-freed, holding-read,
  note_release-attempts, note_release-status, note_release-IsReleased,
}

module _ {σ : Type 0} (bs : PoolServices σ) where
  -- `get_memory_map` leaves bytes in the buffer, of which `capacity` can be read: the size that
  -- `allocate_pool` was asked for.
  abbrev pub FillsBuffer : Type 0
  FillsBuffer =
      (capacity b : ℕ) (s : σ)
      → IsBytes (bs.memory_map capacity b s).0.contents
        × (capacity ≤ length (bs.memory_map capacity b s).0.contents)

  -- A round of `n` attempts so far.
  abbrev pub AttemptOk : ℕ → Attempt bs → Type 0
  AttemptOk n (ends a w) = IsReleased w.calls a
  AttemptOk n (grows next a w) = IsReady next w.calls a × (a.attempts ≡ n)

  module _ (capacity b : ℕ) (reply : MapReply) (a : MapAcquisition) (w : World σ)
      (held : holding w.calls ≡ holds b) (clean : a.release_status ≡ efi_success)
      (small : All IsSmall w.calls) (few : a.attempts ≤ map_attempts) where
    grown_room :
        (map_next_capacity capacity reply.size reply.stride).0.state ≡ observed
        → (0 < (map_next_capacity capacity reply.size reply.stride).1)
          × ((map_next_capacity capacity reply.size reply.stride).1 ≤ map_limit)
    grown_room e =
        let g : Grows capacity reply.size reply.stride = map_next_capacity-observed _ _ _ e in
        rw (map_next_capacity-Grows _ _ _ g) (omega (arith, g.larger), g.fits)

    refused-IsSound :
        (map_next_capacity capacity reply.size reply.stride).0.state ≢ observed
        → IsSound (map_next_capacity capacity reply.size reply.stride).0
    refused-IsSound ne e = absurd (ne e)

    grow_map-AttemptOk : AttemptOk a.attempts (grow_map bs capacity b reply a w)
    unfolding grow_map
    grow_map-AttemptOk =
        let status = (bs.free b w.firmware).0 in
        elim (Bool-cases (status == efi_success)) [
          | inr failed ↦ rw failed (
              note_release-IsReleased b status w.calls a (map_fail not_probed "release_failed") held
                clean small few (not-IsSound not_probed "release_failed" λ e. cc))
          | inl done ↦
              rw done
                (elim (Bool-cases (
                  state_eq (map_next_capacity capacity reply.size reply.stride).0.state observed)) [
                    | inr refused ↦ rw refused (
                        note_release-IsReleased b status w.calls a
                          (map_next_capacity capacity reply.size reply.stride).0 held clean small
                          few (refused-IsSound (state_eq→ne _ _ refused)))
                    | inl fine ↦ rw fine (
                      record {
                        idle = holding-freed b status w.calls held (ground arith);
                        clean = note_release-status status a clean ∙ ground arith;
                        small = (tt, small);
                        room = grown_room (state_eq→eq _ _ fine);
                        few = omega (arith, few, note_release-attempts status a);
                      },
                      note_release-attempts status a,
                    )
                  ])
        ]

  MapEnds-IsSound :
      (p : List ℕ) (capacity len stride version : ℕ) (r : MapResult)
      → MapEnds p capacity len stride version r
      → IsSound r
  MapEnds-IsSound p capacity len stride version r (inl (accepted, listed)) e =
      (p, capacity, len, stride, version, accepted, listed)
  MapEnds-IsSound p capacity len stride version r (inr (_, (s, d, ne, refused))) e =
      absurd
        (ne (sym (map_state-state s (some d)) ∙ ap (λ (m : MapResult). m.state) (sym refused) ∙ e))

  final_map-IsSound :
      (capacity : ℕ) (reply : MapReply)
      → IsBytes reply.contents
      → capacity ≤ length reply.contents
      → (m : MapResult) × (final_map capacity reply ≡ some m) × IsSound m
  unfolding final_map
  final_map-IsSound capacity reply bytes room = elim (Bool-cases (efi_error reply.status)) [
    | inl bad ↦ (map_fail unavailable "efi_error", rw bad refl, not-IsSound _ _ λ e. cc)
    | inr fine ↦ elim (Bool-cases (reply.status == efi_success)) [
      | inr warned ↦
          (map_fail unsupported "warning_status", rw (fine, warned) refl, not-IsSound _ _ λ e. cc)
      | inl done ↦
          let (m, e, how) =
            parse_map-MapEnds reply.contents capacity reply.size reply.stride reply.version bytes
              (omega (arith, room)) in
          (m, rw (fine, done) e, MapEnds-IsSound _ _ _ _ _ m how)
    ]
  ]

  -- A round that is no attempt to grow.
  abbrev pub AttemptRuns : ℕ → Option (Attempt bs) → Type 0
  AttemptRuns n m = (t : Attempt bs) × (m ≡ some t) × AttemptOk n t

  end_map-AttemptRuns :
      (capacity b : ℕ) (reply : MapReply) (a : MapAcquisition) (w : World σ)
      → holding w.calls ≡ holds b
      → a.release_status ≡ efi_success
      → All IsSmall w.calls
      → a.attempts ≤ map_attempts
      → IsBytes reply.contents
      → capacity ≤ length reply.contents
      → AttemptRuns a.attempts (end_map bs capacity b reply a w)
  unfolding end_map note_release
  end_map-AttemptRuns capacity b reply a w held clean small few bytes room =
      let (m, e, sound) = final_map-IsSound capacity reply bytes room in
      rw e (
        _,
        refl,
        note_release-IsReleased b (bs.free b w.firmware).0 w.calls a m held clean small few sound,
      )

  module _ (fills : FillsBuffer) where
    use_buffer-AttemptRuns :
        (capacity b : ℕ) (a : MapAcquisition) (w : World σ)
        → holding w.calls ≡ holds b
        → a.release_status ≡ efi_success
        → All IsSmall w.calls
        → capacity ≤ map_limit
        → a.attempts ≤ map_attempts
        → AttemptRuns a.attempts (use_buffer bs capacity b a w)
    unfolding use_buffer
    use_buffer-AttemptRuns capacity b a w held clean small room few =
        let reply = (bs.memory_map capacity b w.firmware).0 in
        let (bytes, wide) = fills capacity b w.firmware in
        elim (Bool-cases (reply.status == efi_buffer_too_small)) [
          | inl short ↦ rw short (
            _,
            refl,
            grow_map-AttemptOk capacity b reply _ _ (holding-read b 0 w.calls held capacity) clean
                (room, small) few,
          )
          | inr other ↦ rw other (
              end_map-AttemptRuns capacity b reply _ _ (holding-read b 0 w.calls held capacity)
                clean (room, small) few bytes wide)
        ]

    no_buffer-IsReleased :
        (capacity : ℕ) (calls : List Call) (a : MapAcquisition) (status : ℕ) (st : State)
        (d : String)
        → IsReady capacity calls a
        → a.attempts < map_attempts
        → st ≢ observed
        → IsReleased
            (not_allocated capacity ∷ calls)
            (record a { attempts = u32 (a.attempts + 1); efi_status = status; map = map_fail st d })
    no_buffer-IsReleased capacity calls a status st d ready more ne = record {
      owned = inl ((rw ready.idle refl), ready.clean);
      small = (ready.room.1, ready.small);
      few = omega (arith, more);
      sound = not-IsSound st d ne;
    }

    pub attempt-AttemptRuns :
        (capacity : ℕ) (a : MapAcquisition) (w : World σ)
        → IsReady capacity w.calls a
        → a.attempts < map_attempts
        → AttemptRuns (u32 (a.attempts + 1)) (attempt bs capacity a w)
    unfolding attempt
    attempt-AttemptRuns capacity a w ready more =
        let allocation = (bs.allocate efi_loader_data capacity w.firmware).0 in
        elim (Bool-cases (efi_error allocation.status)) [
          | inl bad ↦ rw bad (
            _,
            refl,
            no_buffer-IsReleased capacity w.calls a allocation.status unavailable
                "allocation_failed" ready more λ e. cc,
          )
          | inr fine ↦ rw fine (elim (Option-cases allocation.buffer) [
            | inl null ↦ rw null (
              _,
              refl,
              no_buffer-IsReleased capacity w.calls a a.efi_status malformed "allocation_null" ready
                  more λ e. cc,
            )
            | inr (b, given) ↦ rw given (
                use_buffer-AttemptRuns capacity b _ _ (rw ready.idle refl) ready.clean
                  (ready.room.1, ready.small) ready.room.1 (omega (arith, more)))
          ])
        ]
