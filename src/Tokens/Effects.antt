-- ===== src/Tokens/Effects.antt =====
-- What a call leaves behind in Redis, whether it returns or raises: nothing, or its one write.
use kepryx.Base.{ℕ, ◌≡◌, refl, ◌⊎◌, inl, inr, Bool, true, false, Option, none, some, Bool-cases}
use kepryx.Redis.{Redis, Key, Value, Same, Written}

module _ (R : Redis) where
  open R use {State, view, setex, set_nx, setex_done, setex_failed}

  abbrev pub Effect : ℕ → Key → ℕ → Value → State → State → Type 0
  Effect now k ttl v s s' = Same view now s s' ⊎ Written view now k ttl v s s'

  pub setex-Effect :
      (now : ℕ) (k : Key) (ttl : ℕ) (v : Value) (s : State)
      → Effect now k ttl v s (setex now k ttl v s).1
  setex-Effect now k ttl v s = elim (Bool-cases (setex now k ttl v s).0) [
    | inl e ↦ inr (setex_done now k ttl v s e)
    | inr e ↦ setex_failed now k ttl v s e
  ]

  by_reply :
      (r : Option Bool) (now : ℕ) (k : Key) (ttl : ℕ) (v : Value) (s : State)
      → (set_nx now k ttl v s).0 ≡ r
      → Effect now k ttl v s (set_nx now k ttl v s).1
  by_reply none now k ttl v s e = R.set_nx_failed now k ttl v s e
  by_reply (some true) now k ttl v s e = inr (R.set_nx_done now k ttl v s e).1
  by_reply (some false) now k ttl v s e = inl (R.set_nx_refused now k ttl v s e).1

  pub set_nx-Effect :
      (now : ℕ) (k : Key) (ttl : ℕ) (v : Value) (s : State)
      → Effect now k ttl v s (set_nx now k ttl v s).1
  set_nx-Effect now k ttl v s = by_reply (set_nx now k ttl v s).0 now k ttl v s refl
