-- ===== src/Writer/Text.antt =====
-- What `escaped` and `escaped16` of tools/efi-inventory/core.c put.
use muen_orin.Base.{
  ℕ, zero, suc, ◌+◌, ◌≤◌, ◌≡◌, ◌∙◌, refl, List, [], ◌∷◌, ◌++◌, some, load, length, get_elem?-lt,
  take, drop, append-nil, append_assoc, arith,
}
use muen_orin.Writer.Emit.{Emits, say-Emits}
use muen_orin.Writer.Escape.{unit, unit_text, escaped, escaped16_loop, escaped16}

-- The text of a row of units.
unfoldable pub escape_text : List ℕ → List ℕ
escape_text [] = []
escape_text (c ∷ s) = unit_text c ++ escape_text s

unit-Emits : (c : ℕ) → Emits (unit c) (unit_text c)
unfolding unit
unit-Emits c = say-Emits (unit_text c)

-- `escaped` puts the escape of each byte in front of the NUL.
pub escaped-Emits : (s : List ℕ) → Emits (escaped s) (escape_text s)
unfolding escaped escape_text
escaped-Emits [] = record { emit = λ w t h. (w, refl, rw (append-nil t) h, refl) }
escaped-Emits (c ∷ s) = record {
  emit = λ w t h.
      let (w₁, e, h₁, same₁) = (unit-Emits c).emit w t h in
      let (w₂, f, h₂, same₂) = (escaped-Emits s).emit w₁ (t ++ unit_text c) h₁ in
      (w₂, rw e f, rw (append_assoc t (unit_text c) (escape_text s)) at h₂, same₂ ∙ same₁);
}

drop-load : (s : List ℕ) (i c : ℕ) → load s i ≡ some c → drop i s ≡ c ∷ drop (i + 1) s
drop-load [] i c e = absurd (cc)
drop-load (x ∷ s) zero c e = ground (arith, e)
drop-load (x ∷ s) (suc i) c e = ground (arith, drop-load s i c e)

escaped16_loop-step :
    (s : List ℕ) (left i c : ℕ)
    → load s i ≡ some c
    → Emits (escaped16_loop s left (i + 1)) (escape_text (take left (drop (i + 1) s)))
    → Emits (escaped16_loop s (suc left) i) (escape_text (take (suc left) (drop i s)))
unfolding escaped16_loop escape_text
escaped16_loop-step s left i c e rest = record {
  emit = λ w t h.
      let (w₁, f, h₁, same₁) = (unit-Emits c).emit w t h in
      let (w₂, g, h₂, same₂) = rest.emit w₁ (t ++ unit_text c) h₁ in
      (
        w₂,
        rw (e, f) g,
        rw (drop-load s i c e)
            (rw (append_assoc t (unit_text c) (escape_text (take left (drop (i + 1) s)))) at h₂),
        same₂ ∙ same₁,
      );
}

escaped16_loop-Emits :
    (s : List ℕ) (left i : ℕ)
    → i + left ≤ length s
    → Emits (escaped16_loop s left i) (escape_text (take left (drop i s)))
unfolding escaped16_loop escape_text
escaped16_loop-Emits s zero i h = record { emit = λ w t k. (w, refl, rw (append-nil t) k, refl) }
escaped16_loop-Emits s (suc left) i h =
    let (c, e) = get_elem?-lt s i (omega arith) in
    escaped16_loop-step s left i c e (escaped16_loop-Emits s left (i + 1) (omega arith))

-- On an array of at least `units` units, `escaped16` never faults and puts the escapes of its
-- first `units` units.
pub escaped16-Emits :
    (s : List ℕ) (units : ℕ)
    → units ≤ length s
    → Emits (escaped16 s units) (escape_text (take units s))
unfolding escaped16
escaped16-Emits s units h = escaped16_loop-Emits s units 0 (omega arith)
