-- ===== src/Fdt/Outcome.antt =====
-- How the parser of tools/efi-inventory/core.c ends: rules for its early returns.
use muen_orin.Base.{
  ℕ, IsLiteral, IsDetail, ◌+◌, ◌≡◌, ◌≢◌, refl, Option, some, String, Bool, true, false, length,
  get_elem?, arith, get_elem?-set_self,
}
use muen_orin.Status.{State, observed, not_probed}
use muen_orin.Fdt.Result.{
  DtResult, return, next, Parse, ◌>>=◌, ◌>>◌, fetch, reject_if, dt_state, dt_model_limit,
}

-- A result that reports a failure, and no model.
pub record IsFailure (r : DtResult) : Type 0 where
  pub not_observed : r.state ≢ observed
  pub reason : (d : String) × (r.detail ≡ some d)
  pub detail : IsDetail r.detail
  pub no_model : r.model_state ≡ not_probed
  pub no_length : r.model_length ≡ 0
  pub no_text : get_elem? r.model 0 ≡ some 0

-- The array of the model has its size.
abbrev pub HasRoom : DtResult → Type 0
HasRoom r = length r.model ≡ dt_model_limit + 1

-- The text in the array of the model ends.
abbrev pub HasText : DtResult → Type 0
HasText r = (n : ℕ) × (get_elem? r.model n ≡ some 0)

-- The fields that are read from the header are the same.
pub record SameHeader (r r' : DtResult) : Type 0 where
  pub same_size : r'.size ≡ r.size
  pub same_version : r'.version ≡ r.version
  pub same_comp : r'.last_comp_version ≡ r.last_comp_version

pub dt_state-IsFailure :
    (r : DtResult) (s : State) (detail : String)
    → HasRoom r
    → s ≢ observed
    → IsLiteral detail
    → IsFailure (dt_state r s detail)
unfolding dt_state
dt_state-IsFailure r s detail room ne literal = record {
  not_observed = ne;
  reason = (detail, refl);
  detail = literal;
  no_model = refl;
  no_length = refl;
  no_text = get_elem?-set_self r.model 0 0 (omega arith);
}

-- The parser returns: with a failure, or going on with a value that satisfies `P`. It neither
-- reads outside the blob nor runs out of fuel.
pub data Ensures {A : Type 0} (P : A → Type 0) : Parse A → Type 0 where
  fails : {r : DtResult} → IsFailure r → Ensures P (some (return r))
  goes : {a : A} → P a → Ensures P (some (next a))

pub Ensures-bind :
    {A B : Type 0} {P : A → Type 0} {Q : B → Type 0} {m : Parse A} (f : A → Parse B)
    → Ensures P m
    → ((a : A) → P a → Ensures Q (f a))
    → Ensures Q (m >>= f)
unfolding ◌>>=◌
Ensures-bind f (fails h) k = fails h
Ensures-bind f (goes {a = a} h) k = k a h

-- Behind a test that may reject, the test is known to be false.
pub Ensures-reject :
    {B : Type 0} {Q : B → Type 0} (test : Bool) (r : DtResult) (s : State) (detail : String)
    (k : Parse B)
    → HasRoom r
    → s ≢ observed
    → IsLiteral detail
    → (test ≡ false → Ensures Q k)
    → Ensures Q (reject_if test r s detail >> k)
unfolding ◌>>=◌ reject_if
Ensures-reject true r s detail k room ne literal h =
    fails (dt_state-IsFailure r s detail room ne literal)
Ensures-reject false r s detail k room ne literal h = h refl

pub Ensures-fetch :
    {A B : Type 0} {Q : B → Type 0} (m : Option A) (f : A → Parse B) {a : A}
    → m ≡ some a
    → Ensures Q (f a)
    → Ensures Q (fetch m >>= f)
unfolding ◌>>=◌ fetch
Ensures-fetch m f e h = rw e h
