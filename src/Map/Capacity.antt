-- ===== src/Map/Capacity.antt =====
-- `map_next_capacity` of tools/efi-inventory/core.c: the growth of the map buffer.
use muen_orin.Base.{ℕ, ◌+◌, ◌*◌, ◌≤◌, ◌<◌, ◌≡◌, ◌≢◌, ◌⊎◌, inl, inr, ap, ◌∙◌, none, some, arith}
use muen_orin.Status.{State-cases, observed, malformed, unsupported}
use muen_orin.Map.Parser.{
  MapResult, map_next_capacity, map_state, map_state-state, map_limit, descriptor_bytes,
}

-- The responses to which the buffer grows, in plain arithmetic.
pub record Grows (capacity required stride : ℕ) : Type 0 where
  pub stride_min : descriptor_bytes ≤ stride
  pub stride_max : stride ≤ map_limit
  pub larger : capacity < required
  pub fits : required + 2 * stride ≤ map_limit

module _ (capacity required stride : ℕ) where
  pub map_next_capacity-Grows :
      Grows capacity required stride
      → map_next_capacity capacity required stride
        ≡ (map_state observed none, required + 2 * stride)
  unfolding map_next_capacity
  map_next_capacity-Grows h = ground arith

  pub map_next_capacity-observed :
      (map_next_capacity capacity required stride).0.state ≡ observed
      → Grows capacity required stride
  unfolding map_next_capacity
  map_next_capacity-observed e = ground (
    arith,
    map_state-state malformed (some "too_small_stride"),
    map_state-state malformed (some "too_small_inconsistent"),
    map_state-state unsupported (some "size_limit"),
  )

  pub map_next_capacity-refused :
      (map_next_capacity capacity required stride).0.state ≢ observed
      → (map_next_capacity capacity required stride).1 ≡ 0
  unfolding map_next_capacity
  map_next_capacity-refused e = ground (arith, map_state-state observed none)

  -- The buffer grows exactly when the stride is at least a descriptor and at most the limit,
  -- the required size exceeds the capacity, and two strides of slack fit in the limit: then to
  -- the required size with the slack. Otherwise the call is refused and the next capacity is
  -- 0.
  pub map_next_capacity_lem :
      (Grows capacity required stride
        × (map_next_capacity capacity required stride
            ≡ (map_state observed none, required + 2 * stride)))
      ⊎ ((¬ (Grows capacity required stride))
          × ((map_next_capacity capacity required stride).0.state ≢ observed)
          × ((map_next_capacity capacity required stride).1 ≡ 0))
  map_next_capacity_lem = elim (State-cases (map_next_capacity capacity required stride).0.state) [
    | inl e ↦
        let g : Grows capacity required stride = map_next_capacity-observed e in
        inl (g, map_next_capacity-Grows g)
    | inr ne ↦ inr (
      (λ g. ne (
          ap (λ (x : MapResult × ℕ). x.0.state) (map_next_capacity-Grows g)
          ∙ map_state-state observed none)),
      ne,
      map_next_capacity-refused ne,
    )
  ]
