-- ===== src/Fdt/Taken.antt =====
-- What `take_model` of tools/efi-inventory/core.c keeps of a result, and its room.
use muen_orin.Base.{get_elem?-set_self, ℕ, ◌<◌, ◌^◌, ◌≢◌, ◌∙◌, refl, List, arith, length-set}
use muen_orin.Status.{not_probed}
use muen_orin.Fdt.Result.{DtResult}
use muen_orin.Fdt.Outcome.{HasRoom, HasText, SameHeader}
use muen_orin.Fdt.Take.{Takes, repeated, unterminated, not_text, text}

module _ (p : List ℕ) (v : ℕ) where
  pub Takes-SameHeader :
      (r : DtResult) (len : ℕ) {r' : DtResult} → Takes p v r len r' → SameHeader r r'
  Takes-SameHeader r len (repeated _) = record {
    same_size = refl;
    same_version = refl;
    same_comp = refl;
  }
  Takes-SameHeader r len (unterminated _ _) = record {
    same_size = refl;
    same_version = refl;
    same_comp = refl;
  }
  Takes-SameHeader r len (not_text _ _ _ _ _) = record {
    same_size = refl;
    same_version = refl;
    same_comp = refl;
  }
  Takes-SameHeader r len (text _ _ _ holds) = holds.same_header

  pub Takes-keeps :
      (r : DtResult) (len : ℕ) {r' : DtResult} → HasRoom r → Takes p v r len r' → HasRoom r'
  Takes-keeps r len room (repeated _) = length-set r.model 0 0 ∙ room
  Takes-keeps r len room (unterminated _ _) = room
  Takes-keeps r len room (not_text _ _ _ _ _) = room
  Takes-keeps r len room (text _ _ _ holds) = holds.room

  pub Takes-HasText :
      (r : DtResult) (len : ℕ) {r' : DtResult}
      → HasRoom r
      → HasText r
      → Takes p v r len r'
      → HasText r'
  Takes-HasText r len room shown (repeated _) =
      (0, get_elem?-set_self r.model 0 0 (omega (arith, room)))
  Takes-HasText r len room shown (unterminated _ _) = shown
  Takes-HasText r len room shown (not_text _ _ _ _ _) = shown
  Takes-HasText r len room _ (text _ _ _ holds) = (_, holds.nul)

  pub Takes-length :
      (r : DtResult) (len : ℕ) {r' : DtResult}
      → r.model_length < 2 ^ 64
      → len < 2 ^ 64
      → Takes p v r len r'
      → r'.model_length < 2 ^ 64
  Takes-length r len small room (repeated _) = omega arith
  Takes-length r len small room (unterminated _ _) = small
  Takes-length r len small room (not_text _ _ _ _ _) = small
  Takes-length r len small room (text _ _ _ holds) = omega (arith, holds.full_length)

  pub Takes-probed :
      (r : DtResult) (len : ℕ) {r' : DtResult} → Takes p v r len r' → r'.model_state ≢ not_probed
  Takes-probed r len (repeated _) e = cc
  Takes-probed r len (unterminated _ _) e = cc
  Takes-probed r len (not_text _ _ _ _ _) e = cc
  Takes-probed r len (text _ _ _ holds) e = ground (arith, holds.status, e)
