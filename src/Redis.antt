-- ===== src/Redis.antt =====
-- The Redis commands that app/core/token_blocklist.py calls, as an interface: the server is not part
-- of the repository. `view s t k` is what GET would answer at time `t`, in milliseconds; the laws are
-- the documented behaviour of MGET, SETEX and SET with EX and NX. A call that raises may still have
-- been carried out.
pub mod Memory
use kepryx.Base.{
  ℕ, ◌+◌, ◌*◌, ◌≤◌, ◌<◌, ◌≡◌, ◌≢◌, refl, ap, ◌⊎◌, inl, inr, String, Bool, true, false, Option, none,
  some, str_eq, eq_iff, Bool-cases, arith,
}

-- The keys `token:revoked:{jti}` and `token:revoked_after:{subject}`.
pub data Key : Type 0 where
  revoked revoked_after : String → Key

-- The values written: "1", "refresh_consumed" and a decimal number.
pub data Value : Type 0 where
  flag consumed : Value
  number : ℕ → Value

module _ {State : Type 0} (view : State → ℕ → Key → Option Value) where
  -- From `now` on nothing that a GET shows has changed.
  abbrev pub Same : ℕ → State → State → Type 0
  Same now s s' = (t : ℕ) (j : Key) → now ≤ t → view s' t j ≡ view s t j

  -- The key holds the value for `ttl` seconds, and no other key has changed.
  pub record Written (now : ℕ) (k : Key) (ttl : ℕ) (v : Value) (s s' : State) : Type 0 where
    pub held : (t : ℕ) → now ≤ t → t < now + ttl * 1000 → view s' t k ≡ some v
    pub others : (t : ℕ) (j : Key) → now ≤ t → j ≢ k → view s' t j ≡ view s t j

pub record Redis : Type 1 where
  pub State : Type 0
  pub view : State → ℕ → Key → Option Value
  -- `none` is a raised RedisError or OSError, `false` and `none` likewise below
  pub mget : ℕ → Key → Key → State → Option (Option Value × Option Value)
  pub setex : ℕ → Key → ℕ → Value → State → Bool × State
  pub set_nx : ℕ → Key → ℕ → Value → State → Option Bool × State
  pub mget_view :
      (now : ℕ) (j k : Key) (s : State) (a b : Option Value)
      → mget now j k s ≡ some (a, b)
      → (a ≡ view s now j) × (b ≡ view s now k)
  pub setex_done :
      (now : ℕ) (k : Key) (ttl : ℕ) (v : Value) (s : State)
      → (setex now k ttl v s).0 ≡ true
      → Written view now k ttl v s (setex now k ttl v s).1
  pub setex_failed :
      (now : ℕ) (k : Key) (ttl : ℕ) (v : Value) (s : State)
      → (setex now k ttl v s).0 ≡ false
      → Same view now s (setex now k ttl v s).1 ⊎ Written view now k ttl v s (setex now k ttl v s).1
  pub set_nx_done :
      (now : ℕ) (k : Key) (ttl : ℕ) (v : Value) (s : State)
      → (set_nx now k ttl v s).0 ≡ some true
      → (view s now k ≡ none) × Written view now k ttl v s (set_nx now k ttl v s).1
  pub set_nx_refused :
      (now : ℕ) (k : Key) (ttl : ℕ) (v : Value) (s : State)
      → (set_nx now k ttl v s).0 ≡ some false
      → (view s now k ≢ none) × Same view now s (set_nx now k ttl v s).1
  pub set_nx_failed :
      (now : ℕ) (k : Key) (ttl : ℕ) (v : Value) (s : State)
      → (set_nx now k ttl v s).0 ≡ none
      → Same view now s (set_nx now k ttl v s).1
        ⊎ Written view now k ttl v s (set_nx now k ttl v s).1

pub str-ne : (a b : String) → str_eq a b ≡ false → a ≢ b
str-ne a b e p = ground (arith, eq_iff a b, p)

unfoldable pub str-cases : (a b : String) → (a ≡ b) ⊎ (a ≢ b)
str-cases a b = elim (Bool-cases (str_eq a b)) [
  | inl e ↦ inl ((eq_iff a b).0 e)
  | inr e ↦ inr (str-ne a b e)
]

unfoldable pub text_of : Key → String
text_of (revoked j) = j
text_of (revoked_after u) = u

unfoldable pub key-cases : (j k : Key) → (j ≡ k) ⊎ (j ≢ k)
unfolding text_of str-cases
key-cases (revoked a) (revoked b) = elim (str-cases a b) [
  | inl e ↦ inl (ap revoked e)
  | inr n ↦ inr (λ p. n (ap text_of p))
]
key-cases (revoked_after a) (revoked_after b) = elim (str-cases a b) [
  | inl e ↦ inl (ap revoked_after e)
  | inr n ↦ inr (λ p. n (ap text_of p))
]
key-cases (revoked a) (revoked_after b) = inr (λ p. cc)
key-cases (revoked_after a) (revoked b) = inr (λ p. cc)
