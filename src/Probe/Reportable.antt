-- ===== src/Probe/Reportable.antt =====
-- The first fields of the record of tools/efi-inventory/probe.c never fault, and are JSON.
use muen_orin.Base.{
  Is64, IsDetail, ℕ, zero, suc, ◌+◌, ◌≤◌, ◌≡◌, refl, ap, subst, List, [], ◌∷◌, String, Option, none,
  some, Bool, true, false, All, length, arith, ◌==◌, load, get_elem?-lt, if◌then◌else◌,
}
use muen_orin.Status.{state_eq, unsupported}
use muen_orin.Map.Parser.{Entry}
use muen_orin.Map.Reasons.{EntryOk}
use muen_orin.Observe.Variable.{VarResult}
use muen_orin.Observe.Vendor.{VendorResult}
use muen_orin.Writer.Emit.{◌>>◌}
use muen_orin.Probe.World.{LoadedImage}
use muen_orin.Probe.Record.{
  lit, var_field, vendor_field, image_values, image_detail, image_field, descriptor_field,
  descriptors_loop,
}
use muen_orin.Probe.Json.{Frame, object, array, value, first_value, after, Place}
use muen_orin.Probe.Says.{
  Says, ◌▸◌, Says-null, Says-lit, Says-nothing, Says-number, Says-hex, Says-key, Says-status_field,
  Says-or_null, Says-quoted, Says-escaped16,
}

pub record VarOk (v : VarResult) : Type 0 where
  pub detail : IsDetail v.detail
  pub status : Is64 v.status
  pub value : Is64 v.value

pub Says-var_field :
    {st : List Frame}
    → (k : String) (v : VarResult) → IsDetail (some k)
    → VarOk v
    → Says (after, object ∷ st) (after, object ∷ st) (var_field k v)
unfolding var_field
Says-var_field k v hk h =
    Says-status_field k v.state v.detail hk h.detail
    ▸ Says-key "efi_status" refl
    ▸ Says-hex v.status h.status
    ▸ Says-key "value" refl
    ▸ Says-or_null _ _ (λ _. Says-number v.value h.value)
    ▸ Says-lit "}" refl refl

pub record VendorOk (v : VendorResult) : Type 0 where
  pub units : Is64 v.units
  pub room : v.units ≤ length v.text

vendor-IsDetail : (b : Bool) → IsDetail (if b then some "ucs2_surrogate" else none)
vendor-IsDetail true = refl
vendor-IsDetail false = tt

pub Says-vendor_field :
    {st : List Frame}
    → (v : VendorResult) → VendorOk v
    → Says (after, object ∷ st) (after, object ∷ st) (vendor_field v)
unfolding vendor_field
Says-vendor_field v h =
    Says-status_field "firmware_vendor" v.state _ refl
      (vendor-IsDetail (state_eq v.state unsupported))
    ▸ Says-key "units" refl
    ▸ Says-number v.units h.units
    ▸ Says-key "value" refl
    ▸ Says-or_null _ _ (λ _. Says-quoted _ (Says-escaped16 v.text v.units h.room))
    ▸ Says-lit "}" refl refl

abbrev pub ImageOk : Option LoadedImage → Type 0
ImageOk none = Unit {0}
ImageOk (some l) = Is64 l.image_base × Is64 l.image_size

Says-image_values :
    {st : List Frame}
    → (l : Option LoadedImage) → ImageOk l
    → Says (after, object ∷ st) (after, object ∷ st) (image_values l)
Says-image_values none h = Says-key "base" refl ▸ Says-null ▸ Says-key "size" refl ▸ Says-null
Says-image_values (some l) h =
    Says-key "base" refl ▸ Says-hex _ h.0 ▸ Says-key "size" refl ▸ Says-number _ h.1

image_detail-IsDetail : (l : Option LoadedImage) → IsDetail (image_detail l)
image_detail-IsDetail none = refl
image_detail-IsDetail (some l) = tt

pub Says-image_field :
    {st : List Frame}
    → (l : Option LoadedImage) (status : ℕ) → ImageOk l
    → Is64 status
    → Says (after, object ∷ st) (after, object ∷ st) (image_field l status)
unfolding image_field
Says-image_field l status h hs =
    Says-status_field "loaded_image" _ _ refl (image_detail-IsDetail l)
    ▸ Says-key "efi_status" refl
    ▸ Says-hex status hs
    ▸ Says-image_values l h
    ▸ Says-lit "}" refl refl
    ▸ Says-status_field "device_path" _ none refl tt
    ▸ Says-key "representation" refl
    ▸ Says-lit "\"pointer_present_only\"}" refl refl

-- The place in front of the descriptor of an index, in the array.
abbrev pub before : ℕ → List Frame → Place
before zero st = (first_value, array ∷ st)
before (suc i) st = (after, array ∷ st)

Says-opening :
    {st : List Frame} (i : ℕ)
    → Says
        (before i st)
        (value, object ∷ array ∷ st)
        ((if i == 0 then (λ w. some w) else lit ",") >> lit "{\"type\":")
Says-opening zero = Says-nothing ▸ Says-lit "{\"type\":" refl refl
Says-opening {st} (suc i) =
    let later : (suc i == 0) ≡ false = ground arith in
    let k : Says (after, array ∷ st) (value, object ∷ array ∷ st) (lit "," >> lit "{\"type\":") =
      Says-lit {b = (value, array ∷ st)} "," refl refl ▸ Says-lit "{\"type\":" refl refl in
    rw later k

pub Says-closing : {st : List Frame} (n : ℕ) → Says (before n st) (after, st) (lit "]")
Says-closing zero = Says-lit "]" refl refl
Says-closing (suc n) = Says-lit "]" refl refl

Says-descriptor_field :
    {st : List Frame} (i : ℕ) (e : Entry)
    → EntryOk e
    → Says (before i st) (after, array ∷ st) (descriptor_field i e)
unfolding descriptor_field
Says-descriptor_field i e h =
    Says-opening i
    ▸ Says-number e.kind h.kind
    ▸ Says-key "physical" refl
    ▸ Says-hex e.physical h.physical
    ▸ Says-key "pages" refl
    ▸ Says-number e.pages h.pages
    ▸ Says-key "attributes" refl
    ▸ Says-hex e.attributes h.attributes
    ▸ Says-lit "}" refl refl

All-load :
    (entries : List Entry) (i : ℕ) (e : Entry)
    → All EntryOk entries
    → load entries i ≡ some e
    → EntryOk e
All-load [] i e ok here = absurd (cc)
All-load (x ∷ entries) zero e ok here =
    let same : x ≡ e = ap (λ (m : Option Entry). elim m [ none ↦ x | some y ↦ y ]) here in
    subst EntryOk same ok.0
All-load (x ∷ entries) (suc i) e ok here = All-load entries i e ok.1 here

Says-descriptors_step :
    {a b c : Place} (entries : List Entry) (left i : ℕ) (e : Entry)
    → load entries i ≡ some e
    → Says a b (descriptor_field i e)
    → Says b c (descriptors_loop entries left (i + 1))
    → Says a c (descriptors_loop entries (suc left) i)
unfolding descriptors_loop ◌>>◌
Says-descriptors_step {a} {b} {c} entries left i e here first rest =
    let both : Says a c (descriptor_field i e >> descriptors_loop entries left (i + 1)) =
      first ▸ rest in
    record {
      text = both.text;
      emits = record { emit = λ w t h. rw here (both.emits.emit w t h) };
      printable = both.printable;
      reads = both.reads;
    }

before-next : (i : ℕ) (st : List Frame) → (after, array ∷ st) ≡ before (i + 1) st
before-next i st = let next : suc i ≡ i + 1 = omega arith in ap (λ n. before n st) next

pub Says-descriptors_loop :
    (st : List Frame) (entries : List Entry)
    → All EntryOk entries
    → (left i : ℕ) → i + left ≤ length entries
    → Says (before i st) (before (i + left) st) (descriptors_loop entries left i)
unfolding descriptors_loop
Says-descriptors_loop st entries ok zero i h =
    let end : i ≡ i + 0 = omega arith in
    subst (λ n. Says (before i st) (before n st) (descriptors_loop entries zero i)) end Says-nothing
Says-descriptors_loop st entries ok (suc left) i h =
    let (e, here) = get_elem?-lt entries i (omega arith) in
    let rest = Says-descriptors_loop st entries ok left (i + 1) (omega arith) in
    let end : i + 1 + left ≡ i + suc left = omega arith in
    let first = Says-descriptor_field i e (All-load entries i e ok here) in
    subst (λ n. Says (before i st) (before n st) (descriptors_loop entries (suc left) i)) end
      (Says-descriptors_step entries left i e here
        (subst (λ b. Says (before i st) b (descriptor_field i e)) (before-next i st) first) rest)
