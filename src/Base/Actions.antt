-- ===== src/Base/Actions.antt =====
-- Code that changes a state and may raise: what was changed before the exception stays changed.
use kepryx.Base.Results.{Result, ok, err}

abbrev pub Exec : Type 0 → Type 0 → Type 0 → Type 0
Exec S E A = S → Result E A × S

module _ {S E A : Type 0} where
  abbrev pub give : A → Exec S E A
  give a s = (ok a, s)

  abbrev pub throw : E → Exec S E A
  throw e s = (err e, s)

module _ {S E A B : Type 0} where
  abbrev pub resume : Result E A → (A → Exec S E B) → Exec S E B
  resume (ok a) next s = next a s
  resume (err e) next s = (err e, s)

  -- `m`, then `next` with its value.
  abbrev pub chain : Exec S E A → (A → Exec S E B) → Exec S E B
  chain m next s = resume (m s).0 next (m s).1
