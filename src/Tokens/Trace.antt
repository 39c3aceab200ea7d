-- ===== src/Tokens/Trace.antt =====
-- The calls that any number of processes make on one Redis, in the order in which it serves them.
use kepryx.Base.{ℕ, ◌≤◌, ◌≡◌, String, some, arith}
use kepryx.Redis.{Redis, Same}
use kepryx.Tokens.{Payload, claim, revoke_token, claim_jti, revoke_user_tokens}

-- The signed tokens: one expiry to each `jti`, fixed when the token is made.
abbrev pub Issued : (String → ℕ) → Payload → Type 0
Issued exp_of p = (j : String) → claim p.jti ≡ some j → p.exp ≡ some (exp_of j)

module _ (R : Redis) (days : ℕ) (exp_of : String → ℕ) where
  open R use {State, view}

  -- One call at time `now`. `other` is any call that these keys do not show.
  pub data Step (now : ℕ) (s : State) : State → Type 0 where
    revokes : (p : Payload) → Issued exp_of p → Step now s (revoke_token R p now s).1
    consumes : (p : Payload) → Issued exp_of p → Step now s (claim_jti R p (claim p.jti) now s).1
    cuts_off : (user : String) → Step now s (revoke_user_tokens R days user now s).1
    other : (s' : State) → Same view now s s' → Step now s s'

  pub data Trace (u : ℕ) (s : State) : ℕ → State → Type 0 where
    here : Trace u s u s
    wait : {t v : ℕ} {s' : State} → Trace u s t s' → t ≤ v → Trace u s v s'
    call : {t : ℕ} {s' s'' : State} → Trace u s t s' → Step t s' s'' → Trace u s t s''

  pub Trace-le : {u : ℕ} {s : State} {t : ℕ} {s' : State} → Trace u s t s' → u ≤ t
  Trace-le here = omega arith
  Trace-le (wait r h) = omega (arith, Trace-le r)
  Trace-le (call r st) = Trace-le r
