-- ===== src/Fdt/Grammar/Decides.antt =====
-- Rules for a parser of tools/efi-inventory/core.c that decides a condition: it returns early only
-- where the condition fails.
use muen_orin.Base.{◌≡◌, ◌↔◌, refl, Option, none, some, String, Bool, true, false}
use muen_orin.Status.{State}
use muen_orin.Fdt.Result.{DtResult, return, next, Parse, ◌>>=◌, ◌>>◌, fetch, reject_if}
use muen_orin.Fdt.Outcome.{Ensures, fails, goes}

-- The parser goes on, with `P`, or it refuses and `R` is false.
pub data Decides {A : Type 0} (P : A → Type 0) (R : Type 0) : Parse A → Type 0 where
  refuses : {r : DtResult} → ¬ R → Decides P R (some (return r))
  accepts : {a : A} → P a → Decides P R (some (next a))

pub Decides-bind :
    {A B : Type 0} {P : A → Type 0} {Q : B → Type 0} {R : Type 0} {m : Parse A} (f : A → Parse B)
    → Decides P R m
    → ((a : A) → P a → Decides Q R (f a))
    → Decides Q R (m >>= f)
unfolding ◌>>=◌
Decides-bind f (refuses h) k = refuses h
Decides-bind f (accepts {a = a} h) k = k a h

pub Decides-reject :
    {B : Type 0} {Q : B → Type 0} {R : Type 0} (test : Bool) (r : DtResult) (s : State)
    (detail : String) (k : Parse B)
    → (test ≡ true → ¬ R)
    → (test ≡ false → Decides Q R k)
    → Decides Q R (reject_if test r s detail >> k)
unfolding ◌>>=◌ reject_if
Decides-reject true r s detail k refuse go = refuses (refuse refl)
Decides-reject false r s detail k refuse go = go refl

pub Decides-fetch :
    {A B : Type 0} {Q : B → Type 0} {R : Type 0} (m : Option A) (f : A → Parse B) {a : A}
    → m ≡ some a
    → Decides Q R (f a)
    → Decides Q R (fetch m >>= f)
unfolding ◌>>=◌ fetch
Decides-fetch m f e h = rw e h

-- Together with what is known of every outcome.
pub Ensures-Decides :
    {A : Type 0} {P Q : A → Type 0} {R : Type 0} (m : Parse A)
    → Ensures P m
    → Decides Q R m
    → Decides (λ a. P a × Q a) R m
Ensures-Decides none h k = elim h [ ]
Ensures-Decides (some (return r)) (fails h) (refuses k) = refuses k
Ensures-Decides (some (next a)) (goes h) (accepts k) = accepts (h, k)

-- A condition may be replaced by another that holds exactly when it does.
pub Decides-same :
    {A : Type 0} {R S : Type 0} {m : Parse A} → R ↔ S → Decides (λ _. S) S m → Decides (λ _. R) R m
Decides-same same (refuses h) = refuses λ k. h (same.0 k)
Decides-same same (accepts h) = accepts (same.1 h)

-- A condition may be strengthened.
pub Decides-stronger :
    {A : Type 0} {P : A → Type 0} {R S : Type 0} {m : Parse A}
    → (R → S)
    → Decides P S m
    → Decides P R m
Decides-stronger f (refuses h) = refuses λ k. h (f k)
Decides-stronger f (accepts h) = accepts h

-- What is known of a value may be weakened.
pub Decides-weaker :
    {A : Type 0} {P Q : A → Type 0} {R : Type 0} {m : Parse A}
    → ((a : A) → P a → Q a)
    → Decides P R m
    → Decides Q R m
Decides-weaker f (refuses h) = refuses h
Decides-weaker f (accepts {a = a} h) = accepts (f a h)
