-- ===== src/Writer/Stream.antt =====
-- The writer of tools/efi-inventory/core.c refines a bounded stream: what it holds after a row of
-- puts is determined by the bytes put, one behind the other.
use muen_orin.Base.{
  replicate, zero, suc, get_elem?-append_left, get_elem?-append_here, take-eq, take-min, ℕ, ◌+◌,
  ◌-◌, ◌<◌, ◌^◌, ◌≡◌, ◌∙◌, refl, sym, ap, inl, inr, min, List, [], ◌∷◌, ◌++◌, some, true,
  Bool-cases, store_lem, u64, ltb, ◌==◌, length, get_elem?, set, length-set, length-append,
  length-replicate, get_elem?-set_self, get_elem?-set_ne, append_assoc, append-nil, take, arith,
  subst,
}
use muen_orin.Writer.Put.{Writer, put_byte, put_loop, terminate, put, new_writer}

-- The writer has received the bytes `t`: it holds as many as there is room for beside a NUL,
-- and says whether any is missing.
pub record Received (w : Writer) (t : List ℕ) : Type 0 where
  pub size : length w.data_bytes ≡ w.capacity
  pub small : w.capacity < 2 ^ 64
  pub len_is : w.len ≡ min (length t) (w.capacity - 1)
  pub prefix : (i : ℕ) → i < w.len → get_elem? w.data_bytes i ≡ get_elem? t i
  pub truncated_is : w.is_truncated ≡ ltb (w.capacity - 1) (length t)

-- It also ends in a NUL.
pub record Shows (w : Writer) (t : List ℕ) : Type 0 where
  pub received : Received w t
  pub nul : 0 < w.capacity → get_elem? w.data_bytes w.len ≡ some 0

prefix_next :
    (w : Writer) (t : List ℕ) (c : ℕ)
    → Received w t
    → w.len ≡ length t
    → w.len + 1 < w.capacity
    → (i : ℕ) → i < w.len + 1
    → get_elem? (set w.data_bytes w.len c) i ≡ get_elem? (t ++ (c ∷ [])) i
prefix_next w t c h here below i low = elim (Bool-cases (i == w.len)) [
  | inl last ↦
      let e : i ≡ w.len = ground arith in
      subst (λ k. get_elem? (set w.data_bytes w.len c) k ≡ get_elem? (t ++ (c ∷ [])) k) (sym e)
        (get_elem?-set_self w.data_bytes w.len c (omega (arith, h.size))
          ∙ sym (
              subst (λ k. get_elem? (t ++ (c ∷ [])) k ≡ some c) (sym here)
                (get_elem?-append_here t [] c)))
  | inr earlier ↦
      get_elem?-set_ne w.data_bytes w.len i c (ground arith)
      ∙ h.prefix i (ground arith)
      ∙ sym (get_elem?-append_left t (c ∷ []) i (ground arith))
]

put_byte-Received :
    (w : Writer) (t : List ℕ) (c : ℕ)
    → Received w t
    → (w' : Writer) × (put_byte w c ≡ some w')
      × Received w' (t ++ (c ∷ []))
      × (w'.capacity ≡ w.capacity)
unfolding put_byte
put_byte-Received w t c h = elim (Bool-cases (ltb (u64 (w.len + 1)) w.capacity)) [
  | inl room ↦
      let below : w.len + 1 < w.capacity = ground (arith, h.len_is, h.small) in
      let here : w.len ≡ length t = omega (arith, h.len_is) in
      (
        record w { data_bytes = set w.data_bytes w.len c; len = u64 (w.len + 1) },
        rw (room, store_lem w.data_bytes w.len c (omega (arith, h.size))),
        record {
          size = length-set w.data_bytes w.len c ∙ h.size;
          small = h.small;
          len_is = omega (arith, length-append t (c ∷ []), h.small);
          prefix = λ i low. prefix_next w t c h here below i (omega (arith, h.small));
          truncated_is = h.truncated_is ∙ ground (arith, length-append t (c ∷ []));
        },
        refl,
      )
  | inr full ↦ (
    record w { is_truncated = true },
    rw full,
    record {
      size = h.size;
      small = h.small;
      len_is = ground (arith, length-append t (c ∷ []), h.small, h.len_is);
      prefix = λ i below.
          h.prefix i below ∙ sym (get_elem?-append_left t (c ∷ []) i (omega (arith, h.len_is)));
      truncated_is = ground (arith, length-append t (c ∷ []), h.len_is, h.small);
    },
    refl,
  )
]

put_loop-Received :
    (s t : List ℕ) (w : Writer)
    → Received w t
    → (w' : Writer) × (put_loop w s ≡ some w') × Received w' (t ++ s) × (w'.capacity ≡ w.capacity)
unfolding put_loop
put_loop-Received [] t w h = (w, refl, rw (append-nil t) h, refl)
put_loop-Received (c ∷ s) t w h =
    let (w₁, e, h₁, same₁) = put_byte-Received w t c h in
    let (w₂, f, h₂, same₂) = put_loop-Received s (t ++ (c ∷ [])) w₁ h₁ in
    (w₂, rw e f, rw (append_assoc t (c ∷ []) s) at h₂, same₂ ∙ same₁)

terminate-Shows :
    (w : Writer) (t : List ℕ)
    → Received w t
    → (w' : Writer) × (terminate w ≡ some w') × Shows w' t × (w'.capacity ≡ w.capacity)
unfolding terminate
terminate-Shows w t h = elim (Bool-cases (w.capacity == 0)) [
  | inl none-left ↦
      (w, rw none-left, record { received = h; nul = λ pos. absurd (ground arith) }, refl)
  | inr room ↦
      let below : w.len < length w.data_bytes = ground (arith, h.len_is, h.size) in
      (
        record w { data_bytes = set w.data_bytes w.len 0 },
        rw (room, store_lem w.data_bytes w.len 0 below),
        record {
          received = record {
            size = length-set w.data_bytes w.len 0 ∙ h.size;
            small = h.small;
            len_is = h.len_is;
            prefix =
                λ i low. get_elem?-set_ne w.data_bytes w.len i 0 (omega arith) ∙ h.prefix i low;
            truncated_is = h.truncated_is;
          };
          nul = λ pos. get_elem?-set_self w.data_bytes w.len 0 below;
        },
        refl,
      )
]

-- For a writer that has received the bytes `t`, a put writes inside the array, whatever the
-- text and the room left. After it the writer shows all bytes put so far, cut behind the last
-- that fits beside the NUL, its flag is set exactly when some were cut, and its capacity is
-- the same.
pub put-Shows :
    (w : Writer) (t s : List ℕ)
    → Received w t
    → (w' : Writer) × (put w s ≡ some w') × Shows w' (t ++ s) × (w'.capacity ≡ w.capacity)
unfolding put
put-Shows w t s h =
    let (w₁, e, h₁, same₁) = put_loop-Received s t w h in
    let (w₂, f, h₂, same₂) = terminate-Shows w₁ (t ++ s) h₁ in (w₂, rw e f, h₂, same₂ ∙ same₁)

pub new_writer-Received : (capacity : ℕ) → capacity < 2 ^ 64 → Received (new_writer capacity) []
new_writer-Received capacity small = record {
  size = length-replicate {A = ℕ} capacity 0;
  small = small;
  len_is = omega arith;
  prefix = λ i below. absurd (omega arith);
  truncated_is = ground arith;
}

get_elem?-replicate : (n i : ℕ) → i < n → get_elem? {A = ℕ} (replicate n 0) i ≡ some 0
get_elem?-replicate zero i h = absurd (omega arith)
get_elem?-replicate (suc n) zero h = refl
get_elem?-replicate (suc n) (suc i) h = get_elem?-replicate n i (omega arith)

pub new_writer-Shows : (capacity : ℕ) → capacity < 2 ^ 64 → Shows (new_writer capacity) []
new_writer-Shows capacity small = record {
  received = new_writer-Received capacity small;
  nul = λ pos. get_elem?-replicate capacity 0 pos;
}

-- The bytes in front of the NUL are those received, cut to the room.
pub Received-text :
    (w : Writer) (t : List ℕ) → Received w t → take w.len w.data_bytes ≡ take (w.capacity - 1) t
Received-text w t h =
    take-eq w.len w.data_bytes t (omega (arith, h.len_is, h.size)) (omega (arith, h.len_is))
      h.prefix
    ∙ ap (λ n. take n t) h.len_is
    ∙ take-min (w.capacity - 1) t
