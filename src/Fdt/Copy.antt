-- ===== src/Fdt/Copy.antt =====
-- The copy of the text in `take_model` of tools/efi-inventory/core.c.
use muen_orin.Base.{
  ℕ, zero, suc, min, subst, get_elem?, get_elem?-set_self, get_elem?-set_ne, ◌+◌, ◌≤◌, ◌<◌, ◌≡◌,
  ◌∙◌, refl, List, some, arith, length, load, store, store_lem, set, length-set, get_elem?-lt, ltb,
  if◌then◌else◌,
}
use muen_orin.Base.Written.{IsWritten, IsWritten-none, IsWritten-next}
use muen_orin.Status.{truncated, observed}
use muen_orin.Fdt.Result.{DtResult, dt_model_limit}
use muen_orin.Fdt.Model.{copy_model, set_model}
use muen_orin.Fdt.Outcome.{HasRoom, SameHeader}

-- `m` is `model` with the bytes from `lo` to `hi` copied from the value at `v`.
abbrev pub IsCopy : List ℕ → ℕ → ℕ → ℕ → List ℕ → List ℕ → Type 0
IsCopy p v lo hi model m = IsWritten (λ j. load p (v + j)) lo hi model m

module _ (p : List ℕ) (v : ℕ) where
  copy_model-IsCopy :
      (left i hi : ℕ) (model : List ℕ)
      → i + left ≡ hi
      → v + hi ≤ length p
      → hi ≤ length model
      → (m : List ℕ) × (copy_model p v left i model ≡ some m) × IsCopy p v i hi model m
  unfolding copy_model
  copy_model-IsCopy zero i hi model eq h k =
      (model, refl, IsWritten-none _ i hi model (omega arith))
  copy_model-IsCopy (suc left) i hi model eq h k =
      let (c, e) = get_elem?-lt p (v + i) (omega arith) in
      let (m, f, copy) =
        copy_model-IsCopy left (i + 1) hi (set model i c) (omega arith) h
          (omega (arith, length-set model i c)) in
      (m, ground (arith, e, f), IsWritten-next _ i hi c model m (omega arith) (omega arith) e copy)

  -- The model array holds `n` bytes of text at most 64 of which are kept, and a NUL.
  pub record HoldsText (n : ℕ) (r r' : DtResult) : Type 0 where
    pub room : HasRoom r'
    pub text : (j : ℕ) → j < min n dt_model_limit → get_elem? r'.model j ≡ load p (v + j)
    pub nul : get_elem? r'.model (min n dt_model_limit) ≡ some 0
    pub full_length : r'.model_length ≡ n
    pub status : r'.model_state ≡ (if ltb dt_model_limit n then truncated else observed)
    pub same_header : SameHeader r r'

  module _ (r : DtResult) (n kept : ℕ) (copied : List ℕ) (room : HasRoom r)
      (is_min : kept ≡ min n dt_model_limit) (copy : IsCopy p v 0 kept r.model copied) where
    abbrev with_text : DtResult
    with_text = record r {
      model = set copied kept 0;
      model_length = n;
      model_state = if ltb dt_model_limit n then truncated else observed;
    }

    with_text-HoldsText : HoldsText n r with_text
    with_text-HoldsText = record {
      room = length-set copied kept 0 ∙ copy.size ∙ room;
      text = λ j below.
          get_elem?-set_ne copied kept j 0 (omega arith)
          ∙ copy.inside j (omega arith) (omega arith);
      nul =
          subst (λ k. get_elem? (set copied kept 0) k ≡ some 0) is_min
            (get_elem?-set_self copied kept 0 (omega (arith, copy.size)));
      full_length = refl;
      status = refl;
      same_header = record { same_size = refl; same_version = refl; same_comp = refl };
    }

  pub set_model-HoldsText :
      (r : DtResult) (n : ℕ)
      → HasRoom r
      → v + n ≤ length p
      → (r' : DtResult) × (set_model r p v n ≡ some r') × HoldsText n r r'
  unfolding set_model
  set_model-HoldsText r n room h =
      let kept : ℕ = if ltb dt_model_limit n then dt_model_limit else n in
      let is_min : kept ≡ min n dt_model_limit = ground arith in
      let (copied, e, copy) =
        copy_model-IsCopy kept 0 kept r.model (omega arith) (omega (arith, is_min))
          (omega (arith, is_min)) in
      let stored : store copied kept 0 ≡ some (set copied kept 0) =
        store_lem copied kept 0 (omega (arith, is_min, copy.size)) in
      (
        with_text r n kept copied room is_min copy,
        rw (e, stored),
        with_text-HoldsText r n kept copied room is_min copy,
      )
