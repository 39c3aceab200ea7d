-- ===== src/Base/Results.antt =====
-- What a call of code that raises comes to: its value, or the exception.
use mathlib.Core.Path.{◌≡◌, refl}

pub data Result (E A : Type 0) : Type 0 where
  ok : A → Result E A
  err : E → Result E A

module _ {E A B : Type 0} where
  infixl 5 ◌>>=◌
  abbrev pub ◌>>=◌ : Result E A → (A → Result E B) → Result E B
  m >>= next = elim m [ ok value ↦ next value | err raised ↦ err raised ]

  -- The value that a block which returned has passed on.
  pub returned :
      (m : Result E A) (next : A → Result E B) (b : B)
      → (m >>= next) ≡ ok b
      → (value : A) × (m ≡ ok value) × (next value ≡ ok b)
  returned (ok value) next b e = (value, refl, e)
  returned (err raised) next b e = cc

module _ {E B : Type 0} where
  infixl 5 ◌>>◌
  abbrev pub ◌>>◌ : Result E (Unit {0}) → Result E B → Result E B
  m >> next = m >>= λ _. next
