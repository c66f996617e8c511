-- ===== src/Probe/Acquired.antt =====
-- What `acquire_map` of tools/efi-inventory/probe.c leaves is fit for the record.
use muen_orin.Base.{
  List, All, ℕ, zero, suc, ◌+◌, ◌≡◌, inl, inr, subst, refl, ◌∷◌, Option, some, Bool-cases,
  Option-cases, ◌==◌, arith, IsBytes, Is64, u32, >>=-eq-some, ◌>>=◌,
}
use muen_orin.Efi.{efi_error, efi_success, efi_buffer_too_small, efi_loader_data}
use muen_orin.Status.{state_eq, observed, unavailable, unsupported, malformed, not_probed}
use muen_orin.Map.Parser.{map_next_capacity}
use muen_orin.Probe.Console.{shown_text}
use muen_orin.Probe.Printed.{IsTaken}
use muen_orin.Probe.World.{
  Call, MapReply, World, BootServices, PoolServices, pool_services, allocated, not_allocated,
  read_map, freed,
}
use muen_orin.Probe.Pool.{
  map_attempts, map_initial, MapAcquisition, map_fail, no_services, note_release, final_map,
  Attempt, ends, grows, grow_map, end_map, use_buffer, attempt, acquire_loop, acquire_map,
}
use muen_orin.Probe.Attempt.{FillsBuffer}
use muen_orin.Probe.Recorded.{MapOk}
use muen_orin.Probe.Noted.{
  IsWide, final_map-IsPresentable, map_fail-IsPresentable, map_next_capacity-IsPresentable,
  no_services-MapOk, note_release-MapOk, with_map-MapOk,
}

-- The console has been left alone since `before`.
abbrev pub IsQuiet : List Call → List Call → Type 0
IsQuiet before calls = All IsTaken calls × (shown_text calls ≡ shown_text before)

module _ {σ : Type 0} (bs : PoolServices σ) (wide : IsWide bs) (fills : FillsBuffer bs)
    (before : List Call) where
  abbrev AttemptOk : Attempt bs → Type 0
  AttemptOk (ends a w) = MapOk a × IsQuiet before w.calls
  AttemptOk (grows next a w) = MapOk a × IsQuiet before w.calls

  grow_map-AttemptOk :
      (capacity b : ℕ) (reply : MapReply) (a : MapAcquisition) (w : World σ)
      → MapOk a
      → IsQuiet before w.calls
      → AttemptOk (grow_map bs capacity b reply a w)
  unfolding grow_map
  grow_map-AttemptOk capacity b reply a w h quiet =
      let s = (bs.free b w.firmware).0 in
      let noted : MapOk (note_release s a) = note_release-MapOk s a (wide.free b w.firmware) h in
      let grow = (map_next_capacity capacity reply.size reply.stride).0 in
      elim (Bool-cases (s == efi_success)) [
        | inr kept ↦ rw kept (
          with_map-MapOk (note_release s a) _ noted
              (map_fail-IsPresentable not_probed "release_failed" refl),
          ((tt, quiet.0), quiet.1),
        )
        | inl released ↦ rw released (elim (Bool-cases (state_eq grow.state observed)) [
          | inr refused ↦ rw refused (
            with_map-MapOk (note_release s a) grow noted
                (map_next_capacity-IsPresentable capacity reply.size reply.stride),
            ((tt, quiet.0), quiet.1),
          )
          | inl growing ↦ rw growing (noted, ((tt, quiet.0), quiet.1))
        ])
      ]

  end_map-AttemptOk :
      (capacity b : ℕ) (reply : MapReply) (a : MapAcquisition) (w : World σ) (t : Attempt bs)
      → IsBytes reply.contents
      → Is64 reply.version
      → MapOk a
      → IsQuiet before w.calls
      → end_map bs capacity b reply a w ≡ some t
      → AttemptOk t
  unfolding end_map
  end_map-AttemptOk capacity b reply a w t bytes small h quiet e =
      let (m, final, built) = >>=-eq-some (final_map capacity reply) _ e in
      let s = (bs.free b w.firmware).0 in
      let ok : MapOk (note_release s (record a { map = m })) =
        note_release-MapOk s _ (wide.free b w.firmware)
          (with_map-MapOk a m h (final_map-IsPresentable capacity reply m bytes small final)) in
      let same : ends (note_release s (record a { map = m }))
            (record { firmware = (bs.free b w.firmware).1; calls = freed b s ∷ w.calls })
          ≡ t =
        cc built in
      subst AttemptOk same (ok, ((tt, quiet.0), quiet.1))

  use_buffer-AttemptOk :
      (capacity b : ℕ) (a : MapAcquisition) (w : World σ) (t : Attempt bs)
      → MapOk a
      → IsQuiet before w.calls
      → use_buffer bs capacity b a w ≡ some t
      → AttemptOk t
  unfolding use_buffer
  use_buffer-AttemptOk capacity b a w t h quiet e =
      let answer = bs.memory_map capacity b w.firmware in
      let reply = answer.0 in
      let (status, version) = wide.memory_map capacity b w.firmware in
      let a' : MapAcquisition = record a { efi_status = reply.status } in
      let w' : World σ = record { firmware = answer.1; calls = read_map capacity b ∷ w.calls } in
      let ok : MapOk a' = record {
        map = h.map;
        efi_status = status;
        attempts = h.attempts;
        release_status = h.release_status;
      } in
      elim (Bool-cases (reply.status == efi_buffer_too_small)) [
        | inl short ↦
            let q : some (grow_map bs capacity b reply a' w') ≡ some t =
              rw (short, use_buffer) at e in
            let same : grow_map bs capacity b reply a' w' ≡ t = cc q in
            subst AttemptOk same
              (grow_map-AttemptOk capacity b reply a' w' ok ((tt, quiet.0), quiet.1))
        | inr other ↦
            let q : end_map bs capacity b reply a' w' ≡ some t = rw (other, use_buffer) at e in
            end_map-AttemptOk capacity b reply a' w' t (fills capacity b w.firmware).0 version ok
              ((tt, quiet.0), quiet.1) q
      ]

  attempt-AttemptOk :
      (capacity : ℕ) (a : MapAcquisition) (w : World σ) (t : Attempt bs)
      → MapOk a
      → IsQuiet before w.calls
      → attempt bs capacity a w ≡ some t
      → AttemptOk t
  unfolding attempt
  attempt-AttemptOk capacity a w t h quiet e =
      let answer = bs.allocate efi_loader_data capacity w.firmware in
      let a' : MapAcquisition = record a { attempts = u32 (a.attempts + 1) } in
      let w' : World σ = record { firmware = answer.1; calls = not_allocated capacity ∷ w.calls } in
      let ok : MapOk a' = record {
        map = h.map;
        efi_status = h.efi_status;
        attempts = omega arith;
        release_status = h.release_status;
      } in
      elim (Bool-cases (efi_error answer.0.status)) [
        | inl bad ↦
            let failed : MapAcquisition = record a' {
              efi_status = answer.0.status;
              map = map_fail unavailable "allocation_failed";
            } in
            let q : some (ends failed w') ≡ some t = rw (bad, attempt) at e in
            let same : ends failed w' ≡ t = cc q in
            let failed_ok : MapOk failed = record {
              map = map_fail-IsPresentable unavailable "allocation_failed" refl;
              efi_status = wide.allocate efi_loader_data capacity w.firmware;
              attempts = ok.attempts;
              release_status = ok.release_status;
            } in
            subst AttemptOk same (failed_ok, ((tt, quiet.0), quiet.1))
        | inr fine ↦ elim (Option-cases answer.0.buffer) [
          | inl null ↦
              let q : some (ends (record a' { map = map_fail malformed "allocation_null" }) w')
                  ≡ some t =
                rw (fine, null, attempt) at e in
              let same : ends (record a' { map = map_fail malformed "allocation_null" }) w' ≡ t =
                cc q in
              subst AttemptOk same (
                with_map-MapOk a' _ ok (map_fail-IsPresentable malformed "allocation_null" refl),
                ((tt, quiet.0), quiet.1),
              )
          | inr (b, there) ↦
              let w'' : World σ = record {
                firmware = answer.1;
                calls = allocated capacity b ∷ w.calls;
              } in
              let q : use_buffer bs capacity b a' w'' ≡ some t = rw (fine, there, attempt) at e in
              use_buffer-AttemptOk capacity b a' w'' t ok ((tt, quiet.0), quiet.1) q
        ]
      ]

  abbrev RunOk : MapAcquisition × World σ → Type 0
  RunOk r = MapOk r.0 × IsQuiet before r.1.calls

  attempted-RunOk :
      (next_round : ℕ → MapAcquisition → World σ → Option (MapAcquisition × World σ))
      (t : Attempt bs) (r : MapAcquisition × World σ)
      → AttemptOk t
      → ((capacity : ℕ) (a : MapAcquisition) (w : World σ)
          → MapOk a
          → IsQuiet before w.calls
          → next_round capacity a w ≡ some r
          → RunOk r)
      → elim t [ ends a w ↦ some (a, w) | grows next a w ↦ next_round next a w ] ≡ some r
      → RunOk r
  attempted-RunOk next_round (ends a w) r ok later e =
      let same : (a, w) ≡ r = cc e in subst RunOk same ok
  attempted-RunOk next_round (grows next a w) r ok later e = later next a w ok.0 ok.1 e

  acquire_loop-RunOk :
      (fuel capacity : ℕ) (a : MapAcquisition) (w : World σ) (r : MapAcquisition × World σ)
      → MapOk a
      → IsQuiet before w.calls
      → acquire_loop bs fuel capacity a w ≡ some r
      → RunOk r
  unfolding acquire_loop
  acquire_loop-RunOk zero capacity a w r h quiet e = absurd (cc e)
  acquire_loop-RunOk (suc fuel) capacity a w r h quiet e =
      elim (Bool-cases (a.attempts == map_attempts)) [
        | inl over ↦
            let q : some (record a { map = map_fail unsupported "retry_limit" }, w) ≡ some r =
              rw (over, acquire_loop) at e in
            let same : (record a { map = map_fail unsupported "retry_limit" }, w) ≡ r = cc q in
            subst RunOk same
              (with_map-MapOk a _ h (map_fail-IsPresentable unsupported "retry_limit" refl), quiet)
        | inr left ↦
            let q : (attempt bs capacity a w >>= λ t. elim t [
              | ends a w ↦ some (a, w)
              | grows next a w ↦ acquire_loop bs fuel next a w
            ])
                ≡ some r =
              rw (left, acquire_loop) at e in
            let (t, ran, rest) = >>=-eq-some (attempt bs capacity a w) _ q in
            attempted-RunOk (acquire_loop bs fuel) t r
              (attempt-AttemptOk capacity a w t h quiet ran)
              (λ next a w ok still k. acquire_loop-RunOk fuel next a w r ok still k) rest
      ]

pub acquire_map-MapOk :
    {σ : Type 0} (bs : Option (BootServices σ)) (w : World σ) (r : MapAcquisition × World σ)
    → ((pool : PoolServices σ) → pool_services σ bs ≡ some pool → IsWide pool × FillsBuffer pool)
    → All IsTaken w.calls
    → acquire_map bs w ≡ some r
    → MapOk r.0 × IsQuiet w.calls r.1.calls
unfolding acquire_map
acquire_map-MapOk {σ} bs w r good taken e = elim (Option-cases (pool_services σ bs)) [
  | inl missing ↦
      let q : some (no_services, w) ≡ some r = rw (missing, acquire_map) at e in
      let same : (no_services, w) ≡ r = cc q in
      subst (λ (r : MapAcquisition × World σ). MapOk r.0 × IsQuiet w.calls r.1.calls) same
        (no_services-MapOk, (taken, refl))
  | inr (pool, there) ↦
      let (wide, fills) = good pool there in
      let q : acquire_loop pool (suc map_attempts) map_initial no_services w ≡ some r =
        rw (there, acquire_map) at e in
      acquire_loop-RunOk pool wide fills w.calls (suc map_attempts) map_initial no_services w r
        no_services-MapOk (taken, refl) q
]
