-- ===== src/Probe/World.antt =====
-- The services of the boot services table that tools/efi-inventory/probe.c calls,
-- and the record of the calls to the pool and to the console.
-- The firmware is a parameter: its state is `σ`, and each service is a function on it. The calls
-- are recorded, the last one first. A pointer is a number, and a null pointer is `none`.
use muen_orin.Base.{ℕ, List, [], ◌∷◌, Option, some, Bool, ◌==◌, if◌then◌else◌, ◌>>=◌}
use muen_orin.Efi.{efi_success}

pub data Call : Type 0 where
  allocated : ℕ → ℕ → Call
  not_allocated : ℕ → Call
  read_map : ℕ → ℕ → Call
  freed : ℕ → ℕ → Call
  shown : List ℕ → ℕ → Call

-- What `allocate_pool` leaves: its status, and the buffer that it stores.
pub record Allocation : Type 0 where
  pub status : ℕ
  pub buffer : Option ℕ

-- What `get_memory_map` leaves: its status, its outputs, and the bytes that can be read from the
-- buffer behind the call.
pub record MapReply : Type 0 where
  pub status : ℕ
  pub size : ℕ
  pub stride : ℕ
  pub version : ℕ
  pub contents : List ℕ

-- What is read of `EFI_LOADED_IMAGE`.
pub record LoadedImage : Type 0 where
  pub has_file_path : Bool
  pub image_base : ℕ
  pub image_size : ℕ

-- What `handle_protocol` leaves: its status, and the interface that it stores.
pub record Opened : Type 0 where
  pub status : ℕ
  pub interface : Option LoadedImage

module _ (σ : Type 0) where
  pub record World : Type 0 where
    pub firmware : σ
    pub calls : List Call

  -- The fields of the boot services table that are called; a missing service is `none`.
  pub record BootServices : Type 0 where
    pub allocate_pool : Option (ℕ → ℕ → σ → Allocation × σ)
    pub free_pool : Option (ℕ → σ → ℕ × σ)
    pub get_memory_map : Option (ℕ → ℕ → σ → MapReply × σ)
    pub handle_protocol : Option (ℕ → σ → Opened × σ)

  -- The three services, all there.
  pub record PoolServices : Type 0 where
    pub allocate : ℕ → ℕ → σ → Allocation × σ
    pub free : ℕ → σ → ℕ × σ
    pub memory_map : ℕ → ℕ → σ → MapReply × σ

  -- `!bs || !bs->allocate_pool || !bs->free_pool || !bs->get_memory_map`, the other way round.
  abbrev pub pool_services : Option BootServices → Option PoolServices
  pool_services bs = bs >>= λ b. b.allocate_pool >>= λ allocate. b.free_pool >>= λ free.
      b.get_memory_map >>= λ memory_map.
      some (record { allocate = allocate; free = free; memory_map = memory_map })

-- Who owns what after the calls: nothing, one buffer, a buffer whose release failed, or a call
-- has broken the rules: a second buffer, a call with a buffer that is not owned, or a pool call
-- behind a failed release.
pub data Holding : Type 0 where
  nothing : Holding
  holds : ℕ → Holding
  leaked : Holding
  broken : Holding

abbrev pub after : Holding → Call → Holding
after nothing (allocated size b) = holds b
after nothing (not_allocated size) = nothing
after nothing (read_map size b) = broken
after nothing (freed b status) = broken
after nothing (shown chunk status) = nothing
after (holds b) (allocated size c) = broken
after (holds b) (not_allocated size) = broken
after (holds b) (read_map size c) = if b == c then holds b else broken
after (holds b) (freed c status) =
    if b == c then (if status == efi_success then nothing else leaked) else broken
after (holds b) (shown chunk status) = holds b
after leaked (allocated size b) = broken
after leaked (not_allocated size) = broken
after leaked (read_map size b) = broken
after leaked (freed b status) = broken
after leaked (shown chunk status) = leaked
after broken c = broken

abbrev pub holding : List Call → Holding
holding [] = nothing
holding (c ∷ cs) = after (holding cs) c
