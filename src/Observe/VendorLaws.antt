-- ===== src/Observe/VendorLaws.antt =====
-- What `read_vendor` of tools/efi-inventory/core.c reports, and that it reads no further than
-- the NUL or the limit.
use muen_orin.Base.{
  ℕ, zero, suc, subst, sym, ◌+◌, ◌≤◌, ◌<◌, ◌≡◌, ◌≢◌, ◌⊎◌, inl, inr, ◌∙◌, refl, List, some, Bool,
  true, false, Bool-cases, arith, length, load, store_lem, set, length-set, length-replicate,
  get_elem?-set_self, get_elem?-set_ne, get_elem?-lt, replicate, ◌==◌, if◌then◌else◌, ◌>>=◌,
}
use muen_orin.Status.{observed, truncated}
use muen_orin.Observe.Vendor.{
  VendorResult, vendor_limit, is_surrogate, stopped, surrogate, vendor_loop, goes_on, end_scan,
  read_vendor,
}
use muen_orin.Observe.VendorText.{HasUnits, CanRead, Copied, VendorEnds, refused, reported}

module _ (text : List ℕ) (readable : CanRead text) where
  HasUnits-nonzero : (n : ℕ) → HasUnits text n → (j : ℕ) → j < n → load text j ≢ some 0
  HasUnits-nonzero n units j below z = let (c, e, ne, _) = units j below in ground (arith, e, z, ne)

  unit_at :
      (n : ℕ) (out : List ℕ)
      → n ≤ vendor_limit
      → Copied text n out
      → (c : ℕ) × (load text n ≡ some c)
  unit_at n out h k = get_elem?-lt text n (readable n h (HasUnits-nonzero n k.units))

  Copied-next :
      (i c : ℕ) (out : List ℕ)
      → i < vendor_limit
      → load text i ≡ some c
      → c ≢ 0
      → is_surrogate c ≡ false
      → Copied text i out
      → Copied text (i + 1) (set out i c)
  Copied-next i c out h e ne plain k = record {
    size = length-set out i c ∙ k.size;
    units = λ j below. elim (Bool-cases (j == i)) [
      | inl same ↦ let q : j ≡ i = ground arith in rw q (c, e, ne, plain)
      | inr other ↦ k.units j (ground arith)
    ];
    same = λ j below. elim (Bool-cases (j == i)) [
      | inl same ↦
          let q : j ≡ i = ground arith in
          rw q (get_elem?-set_self out i c (omega (arith, k.size)) ∙ sym e)
      | inr other ↦ get_elem?-set_ne out i j c (ground arith) ∙ k.same j (ground arith)
    ];
  }

  surrogate-VendorEnds :
      (i c : ℕ) (out : List ℕ)
      → i < vendor_limit
      → load text i ≡ some c
      → is_surrogate c ≡ true
      → Copied text i out
      → (r : VendorResult) × (end_scan text (surrogate out) ≡ some r) × VendorEnds text r
  unfolding end_scan
  surrogate-VendorEnds i c out h e bad k = (
    _,
    refl,
    refused i c h k.units e bad refl refl (get_elem?-set_self out 0 0 (omega (arith, k.size))),
  )

  end_scan_lem :
      (i : ℕ) (out : List ℕ) (more : Bool)
      → i < length out
      → goes_on text i ≡ some more
      → end_scan text (stopped i out)
        ≡ some
            (record { state = if more then truncated else observed; units = i; text = set out i 0 })
  unfolding end_scan
  end_scan_lem i out more h e = rw (store_lem out i 0 h) (rw e refl)

  stopped-VendorEnds :
      (i : ℕ) (out : List ℕ) (more : Bool)
      → i ≤ vendor_limit
      → goes_on text i ≡ some more
      → ((load text i ≡ some 0) × (more ≡ false))
        ⊎ ((i ≡ vendor_limit) × (load text i ≢ some 0) × (more ≡ true))
      → Copied text i out
      → (r : VendorResult) × (end_scan text (stopped i out) ≡ some r) × VendorEnds text r
  stopped-VendorEnds i out more h e why k = (
    _,
    end_scan_lem i out more (omega (arith, k.size)) e,
    reported i h k.units refl (λ j below. get_elem?-set_ne out i j 0 (omega arith) ∙ k.same j below)
        (get_elem?-set_self out i 0 (omega (arith, k.size)))
        (elim why [ inl (z, m) ↦ inl (z, rw m refl) | inr (l, z, m) ↦ inr (l, z, rw m refl) ]),
  )

  end_at_nul :
      (i : ℕ) (out : List ℕ)
      → i ≤ vendor_limit
      → load text i ≡ some 0
      → Copied text i out
      → (r : VendorResult) × (end_scan text (stopped i out) ≡ some r) × VendorEnds text r
  unfolding goes_on
  end_at_nul i out h e k = stopped-VendorEnds i out false h (ground (arith, e)) (inl (e, refl)) k

  end_at_limit :
      (c : ℕ) (out : List ℕ)
      → load text vendor_limit ≡ some c
      → c ≢ 0
      → Copied text vendor_limit out
      → (r : VendorResult) × (end_scan text (stopped vendor_limit out) ≡ some r) × VendorEnds text r
  unfolding goes_on
  end_at_limit c out e ne k =
      stopped-VendorEnds vendor_limit out true (omega arith) (ground (arith, e))
        (inr (refl, (λ z. ground (arith, e, z, ne)), refl)) k

  unfoldable VendorRuns : ℕ → ℕ → List ℕ → Type 0
  VendorRuns left i out =
      (r : VendorResult) × ((vendor_loop text left i out >>= λ scan. end_scan text scan) ≡ some r)
      × VendorEnds text r

  vendor_loop-nul :
      (left i : ℕ) (out : List ℕ)
      → load text i ≡ some 0
      → vendor_loop text (suc left) i out ≡ some (stopped i out)
  unfolding vendor_loop
  vendor_loop-nul left i out e = rw e refl

  vendor_loop-surrogate :
      (left i c : ℕ) (out : List ℕ)
      → load text i ≡ some c
      → c ≢ 0
      → is_surrogate c ≡ true
      → vendor_loop text (suc left) i out ≡ some (surrogate out)
  unfolding vendor_loop
  vendor_loop-surrogate left i zero out e ne bad = absurd (ne refl)
  vendor_loop-surrogate left i (suc c) out e ne bad = ground (arith, e, bad)

  vendor_loop-next :
      (left i c : ℕ) (out : List ℕ)
      → load text i ≡ some c
      → c ≢ 0
      → is_surrogate c ≡ false
      → i < length out
      → vendor_loop text (suc left) i out ≡ vendor_loop text left (i + 1) (set out i c)
  unfolding vendor_loop
  vendor_loop-next left i zero out e ne plain room = absurd (ne refl)
  vendor_loop-next left i (suc c) out e ne plain room =
      ground (arith, e, plain, store_lem out i (suc c) room)

  VendorRuns-step :
      (left i c : ℕ) (out : List ℕ)
      → i < vendor_limit
      → load text i ≡ some c
      → Copied text i out
      → (c ≢ 0 → is_surrogate c ≡ false → VendorRuns left (i + 1) (set out i c))
      → VendorRuns (suc left) i out
  unfolding VendorRuns
  VendorRuns-step left i c out h e k rest = elim (Bool-cases (c == 0)) [
    | inl nul ↦
        let z : load text i ≡ some 0 = ground (arith, e) in
        rw (vendor_loop-nul left i out z) (end_at_nul i out (omega arith) z k)
    | inr more ↦
        let ne : c ≢ 0 = ground arith in
        elim (Bool-cases (is_surrogate c)) [
          | inl bad ↦
              rw (vendor_loop-surrogate left i c out e ne bad)
                (surrogate-VendorEnds i c out h e bad k)
          | inr plain ↦
              rw (vendor_loop-next left i c out e ne plain (omega (arith, k.size))) (rest ne plain)
        ]
  ]

  vendor_loop-VendorRuns :
      (left i : ℕ) (out : List ℕ)
      → i + left ≡ vendor_limit
      → Copied text i out
      → VendorRuns left i out
  unfolding vendor_loop VendorRuns
  vendor_loop-VendorRuns zero i out eq k =
      let at_limit : i ≡ vendor_limit = omega arith in
      let (c, e) = unit_at i out (omega arith) k in
      elim (Bool-cases (c == 0)) [
        | inl nul ↦ end_at_nul i out (omega arith) (ground (arith, e)) k
        | inr more ↦
            subst
              (λ n.
                load text n ≡ some c
                → Copied text n out
                → (r : VendorResult) × (end_scan text (stopped n out) ≡ some r) × VendorEnds text r)
              (sym at_limit) (λ e k. end_at_limit c out e (ground arith) k) e k
      ]
  vendor_loop-VendorRuns (suc left) i out eq k =
      let (c, e) = unit_at i out (omega arith) k in
      VendorRuns-step left i c out (omega arith) e k λ ne plain.
        vendor_loop-VendorRuns left (i + 1) (set out i c) (omega arith)
          (Copied-next i c out (omega arith) e ne plain k)

  -- On a text that can be read to its NUL or to the 65th unit, `read_vendor` returns, and its
  -- loop reads and writes inside the arrays. It refuses the text at the first surrogate in
  -- front of the NUL and the limit. Otherwise it copies the units in front of the NUL, at most
  -- 64, ends the copy in a NUL, and says that the text is truncated exactly when a unit other
  -- than the NUL stands at the limit.
  pub read_vendor-VendorEnds :
      (r : VendorResult) × (read_vendor (some text) ≡ some r) × VendorEnds text r
  unfolding read_vendor VendorRuns
  read_vendor-VendorEnds =
      vendor_loop-VendorRuns vendor_limit 0 (replicate (vendor_limit + 1) 0) (omega arith) (record {
        size = length-replicate {A = ℕ} (vendor_limit + 1) 0;
        units = λ j below. absurd (omega arith);
        same = λ j below. absurd (omega arith);
      })
