-- ===== src/Probe/Noted.antt =====
-- What a step of `acquire_map` of tools/efi-inventory/probe.c notes is fit for the record.
use muen_orin.Base.{
  ℕ, ◌*◌, ◌≡◌, inl, inr, subst, refl, String, none, some, Bool-cases, ◌==◌, ◌||◌, ltb, leb, arith,
  IsBytes, IsDetail, Is64, u64, sub64,
}
use muen_orin.Efi.{efi_error, efi_success}
use muen_orin.Status.{State, observed, unavailable, unsupported, malformed}
use muen_orin.Map.Parser.{MapResult, map_limit, descriptor_bytes, map_next_capacity, parse_map}
use muen_orin.Map.Reasons.{IsPresentable, map_state-IsPresentable}
use muen_orin.Map.Presentable.{parse_map-IsPresentable}
use muen_orin.Probe.World.{MapReply, PoolServices}
use muen_orin.Probe.Pool.{MapAcquisition, map_fail, no_services, note_release, final_map}
use muen_orin.Probe.Recorded.{MapOk}

-- The statuses and numbers that the services leave have 64 bits.
pub record IsWide {σ : Type 0} (bs : PoolServices σ) : Type 0 where
  pub allocate : (kind size : ℕ) (s : σ) → Is64 (bs.allocate kind size s).0.status
  pub free : (b : ℕ) (s : σ) → Is64 (bs.free b s).0
  pub memory_map :
      (capacity b : ℕ) (s : σ)
      → Is64 (bs.memory_map capacity b s).0.status × Is64 (bs.memory_map capacity b s).0.version

pub map_next_capacity-IsPresentable :
    (capacity required stride : ℕ) → IsPresentable (map_next_capacity capacity required stride).0
unfolding map_next_capacity
map_next_capacity-IsPresentable capacity required stride =
    elim (Bool-cases (ltb stride descriptor_bytes || ltb map_limit stride)) [
      | inl bad ↦ rw bad (map_state-IsPresentable malformed (some "too_small_stride") refl)
      | inr good ↦ rw good (elim (Bool-cases (leb required capacity)) [
        | inl bad ↦ rw bad (map_state-IsPresentable malformed (some "too_small_inconsistent") refl)
        | inr good ↦
            rw good
              (elim (Bool-cases
                (ltb map_limit required || ltb (sub64 map_limit required) (u64 (2 * stride)))) [
                  | inl bad ↦ rw bad (map_state-IsPresentable unsupported (some "size_limit") refl)
                  | inr good ↦ rw good (map_state-IsPresentable observed none tt)
                ])
      ])
    ]

pub map_fail-IsPresentable :
    (s : State) (d : String) → IsDetail (some d) → IsPresentable (map_fail s d)
unfolding map_fail
map_fail-IsPresentable s d h = map_state-IsPresentable s (some d) h

pub final_map-IsPresentable :
    (capacity : ℕ) (reply : MapReply) (m : MapResult)
    → IsBytes reply.contents
    → Is64 reply.version
    → final_map capacity reply ≡ some m
    → IsPresentable m
unfolding final_map
final_map-IsPresentable capacity reply m bytes small e =
    elim (Bool-cases (efi_error reply.status)) [
      | inl bad ↦
          let q : some (map_fail unavailable "efi_error") ≡ some m = rw (bad, final_map) at e in
          let same : map_fail unavailable "efi_error" ≡ m = cc q in
          subst IsPresentable same (map_fail-IsPresentable unavailable "efi_error" refl)
      | inr fine ↦ elim (Bool-cases (reply.status == efi_success)) [
        | inr warning ↦
            let q : some (map_fail unsupported "warning_status") ≡ some m =
              rw (fine, warning, final_map) at e in
            let same : map_fail unsupported "warning_status" ≡ m = cc q in
            subst IsPresentable same (map_fail-IsPresentable unsupported "warning_status" refl)
        | inl done ↦
            let q : parse_map (some reply.contents) capacity reply.size reply.stride reply.version
                ≡ some m =
              rw (fine, done, final_map) at e in
            parse_map-IsPresentable reply.contents capacity reply.size reply.stride reply.version m
              bytes small q
      ]
    ]

pub with_map-MapOk :
    (a : MapAcquisition) (m : MapResult) → MapOk a → IsPresentable m → MapOk (record a { map = m })
with_map-MapOk a m h k = record {
  map = k;
  efi_status = h.efi_status;
  attempts = h.attempts;
  release_status = h.release_status;
}

pub note_release-MapOk : (s : ℕ) (a : MapAcquisition) → Is64 s → MapOk a → MapOk (note_release s a)
unfolding note_release
note_release-MapOk s a small h = record {
  map = h.map;
  efi_status = h.efi_status;
  attempts = h.attempts;
  release_status = ground (arith, h.release_status);
}

pub no_services-MapOk : MapOk no_services
no_services-MapOk = record {
  map = map_state-IsPresentable unavailable (some "service_missing") refl;
  efi_status = omega arith;
  attempts = omega arith;
  release_status = omega arith;
}
