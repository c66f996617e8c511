-- ===== src/Writer/Emit.antt =====
-- Commands on the writer, and the bytes that they put.
use muen_orin.Base.{ℕ, ◌≡◌, ◌∙◌, List, ◌++◌, Option, some, ◌>>=◌, append_assoc}
use muen_orin.Writer.Put.{Writer, put}
use muen_orin.Writer.Stream.{Shows, put-Shows}

-- A function that takes the writer by its pointer.
abbrev pub Command : Type 0
Command = Writer → Option Writer

infixl 5 ◌>>◌
unfoldable pub ◌>>◌ : Command → Command → Command
(m >> k) w = m w >>= k

abbrev pub say : List ℕ → Command
say s w = put w s

-- The command never faults, and puts the bytes `s`, with a NUL behind them.
pub record Emits (m : Command) (s : List ℕ) : Type 0 where
  pub emit :
      (w : Writer) (t : List ℕ)
      → Shows w t
      → (w' : Writer) × (m w ≡ some w') × Shows w' (t ++ s) × (w'.capacity ≡ w.capacity)

pub say-Emits : (s : List ℕ) → Emits (say s) s
say-Emits s = record {
  emit = λ w t h. let (w', e, shows, same) = put-Shows w t s (h.received) in (w', e, shows, same);
}

pub >>-Emits : (m k : Command) (s t : List ℕ) → Emits m s → Emits k t → Emits (m >> k) (s ++ t)
unfolding ◌>>◌
>>-Emits m k s t hm hk = record {
  emit = λ w u h.
      let (w₁, e, h₁, same₁) = hm.emit w u h in
      let (w₂, f, h₂, same₂) = hk.emit w₁ (u ++ s) h₁ in
      (w₂, rw e f, rw (append_assoc u s t) at h₂, same₂ ∙ same₁);
}
