-- ===== src/Tokens.antt =====
-- app/core/token_blocklist.py: revocation of tokens, and the single use of refresh tokens.
-- Times are milliseconds, `exp` and `iat` whole seconds. An answer `none` is the raised
-- TokenBlocklistUnavailableError. The pool that `_client` caches, `redis_ready` and
-- `close_token_store` only open, ping and close a connection.
mod Effects
pub mod Trace
pub mod Replay
pub mod Cutoff
mod Tests
use kepryx.Base.{
  ℕ, ◌+◌, ◌-◌, ◌*◌, ◌/◌, max, String, Bool, true, false, Option, none, some, str_eq, leb,
  if◌then◌else◌,
}
use kepryx.Redis.{Redis, Key, revoked, revoked_after, Value, flag, consumed, number}

pub record Payload : Type 0 where
  pub jti : Option String
  pub sub : Option String
  pub exp : Option ℕ
  pub iat : Option ℕ
  pub iat_ms : Option ℕ

-- `payload.get(name)` as it is tested: a missing claim and an empty one are both false.
unfoldable pub claim : Option String → Option String
claim none = none
claim (some s) = if str_eq s "" then none else some s

-- `max(1, int(payload["exp"]) - int(time.time()))`, and 1 without an `exp`.
pub ttl_of : Option ℕ → ℕ → ℕ
ttl_of none now = 1
ttl_of (some exp) now = max 1 (exp - now / 1000)

-- `payload.get("iat_ms") or payload["iat"] * 1000`, and 0 without either.
unfoldable pub issued_at_ms : Option ℕ → Option ℕ → ℕ
issued_at_ms (some (ℕ.suc n)) iat = ℕ.suc n
issued_at_ms _ (some s) = s * 1000
issued_at_ms _ none = 0

-- `int(text)` of a stored value; `none` is the ValueError.
pub int_of : Value → Option ℕ
int_of flag = some 1
int_of consumed = none
int_of (number n) = some n

-- `if revoked_after and _issued_at_ms(payload) <= int(revoked_after)`.
pub cut_off : Payload → Option Value → Option Bool
unfolding int_of issued_at_ms
cut_off p none = some false
cut_off p (some v) = elim (int_of v) [
  | none ↦ none
  | some limit ↦ some (leb (issued_at_ms p.iat_ms p.iat) limit)
]

-- The answer, from the two values that MGET returned.
pub judge : Payload → Option (Option Value × Option Value) → Option Bool
unfolding cut_off
judge p none = none
judge p (some (some v, after)) = some true
judge p (some (none, after)) = cut_off p after

-- `JWT_REFRESH_TTL_DAYS * 24 * 60 * 60 + 60`.
pub retention : ℕ → ℕ
retention days = days * 24 * 60 * 60 + 60

module _ (R : Redis) where
  open R use {State, mget, setex, set_nx}

  check_claims : Payload → Option String → Option String → ℕ → State → Option Bool
  unfolding judge
  check_claims p (some j) (some u) now s = judge p (mget now (revoked j) (revoked_after u) s)
  check_claims p _ none now s = some true
  check_claims p none _ now s = some true

  unfoldable pub is_token_revoked : Payload → ℕ → State → Option Bool
  unfolding check_claims claim
  is_token_revoked p now s = check_claims p (claim p.jti) (claim p.sub) now s

  revoke_jti : Payload → Option String → ℕ → State → Bool × State
  unfolding ttl_of
  revoke_jti p none now s = (true, s)
  revoke_jti p (some j) now s = setex now (revoked j) (ttl_of p.exp now) flag s

  -- `false` is the raised error.
  pub revoke_token : Payload → ℕ → State → Bool × State
  unfolding revoke_jti claim
  revoke_token p now s = revoke_jti p (claim p.jti) now s

  -- The SET with NX at the end of `consume_refresh_token`.
  pub claim_jti : Payload → Option String → ℕ → State → Option Bool × State
  unfolding ttl_of
  claim_jti p none now s = (some false, s)
  claim_jti p (some j) now s = set_nx now (revoked j) (ttl_of p.exp now) consumed s

  consume_checked : Payload → Option Bool → ℕ → State → Option Bool × State
  unfolding claim_jti claim
  consume_checked p none now s = (none, s)
  consume_checked p (some true) now s = (some false, s)
  consume_checked p (some false) now s = claim_jti p (claim p.jti) now s

  unfoldable pub consume_refresh_token : Payload → ℕ → State → Option Bool × State
  unfolding consume_checked is_token_revoked
  consume_refresh_token p now s = consume_checked p (is_token_revoked p now s) now s

  -- `false` is the raised error.
  unfoldable pub revoke_user_tokens : ℕ → String → ℕ → State → Bool × State
  unfolding retention
  revoke_user_tokens days user now s =
      setex now (revoked_after user) (retention days) (number now) s
