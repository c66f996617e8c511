-- ===== src/Probe/Ownership.antt =====
-- The ownership contract of tools/efi-inventory/probe.c: what `acquire_map` allocates it frees.
use muen_orin.Base.{
  ℕ, ◌/◌, ◌≤◌, ◌<◌, ◌≡◌, ◌≢◌, ◌⊎◌, inl, inr, refl, ◌∙◌, sym, List, ◌∷◌, String, true, false,
  Bool-cases, arith, All, ◌==◌,
}
use muen_orin.Efi.{efi_success}
use muen_orin.Status.{State, observed}
use muen_orin.Map.Parser.{MapResult, map_state, map_limit}
use muen_orin.Map.Valid.{Holds}
use muen_orin.Map.Parse.{IsAccepted}
use muen_orin.Probe.World.{
  Call, allocated, not_allocated, read_map, freed, shown, nothing, holds, leaked, holding,
}
use muen_orin.Probe.Pool.{MapAcquisition, map_attempts, note_release, map_fail}

-- A call asks for a buffer of at most the limit.
abbrev pub IsSmall : Call → Type 0
IsSmall (allocated size b) = size ≤ map_limit
IsSmall (not_allocated size) = size ≤ map_limit
IsSmall (read_map size b) = size ≤ map_limit
IsSmall (freed b status) = Unit {0}
IsSmall (shown chunk status) = Unit {0}

-- An observed map is a whole map that `parse_map` accepts, in some buffer.
abbrev pub IsSound : MapResult → Type 0
IsSound r =
    r.state ≡ observed
    → (p : List ℕ) × (capacity : ℕ) × (len : ℕ) × (stride : ℕ) × (version : ℕ) × IsAccepted p
        capacity len stride version
      × Holds p stride version (len / stride) r

-- How the acquisition ends: nothing is owned, or only a buffer whose release failed, which the
-- status tells.
pub record IsReleased (calls : List Call) (a : MapAcquisition) : Type 0 where
  pub owned :
      ((holding calls ≡ nothing) × (a.release_status ≡ efi_success))
      ⊎ ((holding calls ≡ leaked) × (a.release_status ≢ efi_success))
  pub small : All IsSmall calls
  pub few : a.attempts ≤ map_attempts
  pub sound : IsSound a.map

-- The state at the head of the loop.
pub record IsReady (capacity : ℕ) (calls : List Call) (a : MapAcquisition) : Type 0 where
  pub idle : holding calls ≡ nothing
  pub clean : a.release_status ≡ efi_success
  pub small : All IsSmall calls
  pub room : (0 < capacity) × (capacity ≤ map_limit)
  pub few : a.attempts ≤ map_attempts

pub not-IsSound : (s : State) (d : String) → s ≢ observed → IsSound (map_fail s d)
unfolding map_fail map_state
not-IsSound s d ne e = absurd (ne e)

module _ (b status : ℕ) (calls : List Call) (h : holding calls ≡ holds b) where
  same : (b == b) ≡ true
  same = ground arith

  pub holding-freed : status ≡ efi_success → holding (freed b status ∷ calls) ≡ nothing
  holding-freed e = rw (h, same, e) refl

  holding-leaked : status ≢ efi_success → holding (freed b status ∷ calls) ≡ leaked
  holding-leaked ne =
      let other : (status == efi_success) ≡ false = ground arith in rw (h, same, other) refl

  pub holding-read : (size : ℕ) → holding (read_map size b ∷ calls) ≡ holds b
  holding-read size = rw (h, same) refl

pub note_release-attempts :
    (status : ℕ) (a : MapAcquisition) → (note_release status a).attempts ≡ a.attempts
unfolding note_release
note_release-attempts status a = refl

pub note_release-status :
    (status : ℕ) (a : MapAcquisition)
    → a.release_status ≡ efi_success
    → (note_release status a).release_status ≡ status
unfolding note_release
note_release-status status a clean = ground (arith, clean)

-- Behind the release.
pub note_release-IsReleased :
    (b status : ℕ) (calls : List Call) (a : MapAcquisition) (map : MapResult)
    → holding calls ≡ holds b
    → a.release_status ≡ efi_success
    → All IsSmall calls
    → a.attempts ≤ map_attempts
    → IsSound map
    → IsReleased (freed b status ∷ calls) (record (note_release status a) { map = map })
note_release-IsReleased b status calls a map h clean small few sound = record {
  owned = elim (Bool-cases (status == efi_success)) [
    | inl done ↦
        let e : status ≡ efi_success = ground arith in
        inl (holding-freed b status calls h e, note_release-status status a clean ∙ e)
    | inr failed ↦
        let ne : status ≢ efi_success = ground arith in
        inr (
          holding-leaked b status calls h ne,
          λ e. ne (sym (note_release-status status a clean) ∙ e),
        )
  ];
  small = (tt, small);
  few = omega (arith, few, note_release-attempts status a);
  sound = sound;
}
