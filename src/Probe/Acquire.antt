-- ===== src/Probe/Acquire.antt =====
-- The loop of `acquire_map` of tools/efi-inventory/probe.c, and the whole function.
use muen_orin.Base.{
  ℕ, zero, suc, ◌+◌, ◌-◌, ◌<◌, ◌≡◌, inl, inr, refl, Option, some, Bool-cases, Option-cases, arith,
  All, ◌==◌, u32,
}
use muen_orin.Status.{unavailable, unsupported}
use muen_orin.Probe.World.{World, BootServices, PoolServices, pool_services, nothing, holding}
use muen_orin.Probe.Pool.{
  MapAcquisition, map_attempts, map_initial, no_services, map_fail, Attempt, ends, grows,
  acquire_loop, acquire_map,
}
use muen_orin.Probe.Ownership.{IsSmall, IsReleased, IsReady, not-IsSound}
use muen_orin.Probe.Attempt.{FillsBuffer, AttemptOk, attempt-AttemptRuns}

module _ {σ : Type 0} (bs : PoolServices σ) where
  module _ (fills : FillsBuffer bs) where
    unfoldable AcquireRuns : Option (MapAcquisition × World σ) → Type 0
    AcquireRuns m = (r : MapAcquisition × World σ) × (m ≡ some r) × IsReleased r.1.calls r.0

    turn-AcquireRuns :
        (k : ℕ → MapAcquisition → World σ → Option (MapAcquisition × World σ)) (n : ℕ)
        (t : Attempt bs)
        → AttemptOk bs n t
        → ((next : ℕ) (a : MapAcquisition) (w : World σ)
            → IsReady next w.calls a
            → a.attempts ≡ n
            → AcquireRuns (k next a w))
        → AcquireRuns (elim t [ ends a w ↦ some (a, w) | grows next a w ↦ k next a w ])
    unfolding AcquireRuns
    turn-AcquireRuns k n (ends a w) ok rest = (_, refl, ok)
    turn-AcquireRuns k n (grows next a w) ok rest = rest next a w ok.0 ok.1

    acquire_loop-AcquireRuns :
        (fuel capacity : ℕ) (a : MapAcquisition) (w : World σ)
        → IsReady capacity w.calls a
        → map_attempts - a.attempts < fuel
        → AcquireRuns (acquire_loop bs fuel capacity a w)
    unfolding acquire_loop AcquireRuns
    acquire_loop-AcquireRuns zero capacity a w ready enough = absurd (omega arith)
    acquire_loop-AcquireRuns (suc fuel) capacity a w ready enough =
        elim (Bool-cases (a.attempts == map_attempts)) [
          | inl last ↦
              rw (last, acquire_loop)
                (
                  _,
                  refl,
                  record {
                    owned = inl (ready.idle, ready.clean);
                    small = ready.small;
                    few = ready.few;
                    sound = not-IsSound unsupported "retry_limit" λ e. cc;
                  },
                )
          | inr more ↦
              let below : a.attempts < map_attempts = ground (arith, ready.few) in
              let (t, e, ok) = attempt-AttemptRuns bs fills capacity a w ready below in
              rw (more, acquire_loop, e)
                (turn-AcquireRuns (acquire_loop bs fuel) (u32 (a.attempts + 1)) t ok
                  λ next a' w' ready' count.
                    acquire_loop-AcquireRuns fuel next a' w' ready' (omega (arith, below)))
        ]

-- When `get_memory_map` leaves bytes in a buffer of the size asked for, nothing is owned
-- before, and earlier requests are within the limit, `acquire_map` returns after at most five
-- attempts. Each request is for at most the limit. Every buffer that is allocated is freed
-- exactly once before the next is allocated, no pool call follows a release that failed, and
-- the release status is a success exactly when none failed. A map that is reported as observed
-- is a whole map that `parse_map` accepts.
pub acquire_map-IsReleased :
    {σ : Type 0} (bs : Option (BootServices σ)) (w : World σ)
    → ((pool : PoolServices σ) → pool_services σ bs ≡ some pool → FillsBuffer pool)
    → holding w.calls ≡ nothing
    → All IsSmall w.calls
    → (r : MapAcquisition × World σ) × (acquire_map bs w ≡ some r) × IsReleased r.1.calls r.0
unfolding acquire_map AcquireRuns map_fail
acquire_map-IsReleased {σ} bs w fills idle small = elim (Option-cases (pool_services σ bs)) [
  | inl missing ↦
      rw (missing, acquire_map)
        (
          _,
          refl,
          record {
            owned = inl (idle, refl);
            small = small;
            few = omega arith;
            sound = not-IsSound unavailable "service_missing" λ e. cc;
          },
        )
  | inr (pool, there) ↦
      rw (there, acquire_map)
        (acquire_loop-AcquireRuns pool (fills pool there) (suc map_attempts) map_initial no_services
          w
          (record {
            idle = idle;
            clean = refl;
            small = small;
            room = (omega arith, omega arith);
            few = omega arith;
          })
          (omega arith))
]
