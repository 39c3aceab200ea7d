-- ===== src/RateLimit.antt =====
-- app/core/rate_limit.py: the fixed-window limits of requests per user and per address.
-- Times are milliseconds. The pool that `_get_redis` caches is not state of the limiter.
pub mod Window
pub mod Peers
mod Tests
use kepryx.Base.{
  ℕ, ◌+◌, String, Bool, true, false, Option, none, some, List, [], ◌∷◌, ltb, ◌==◌, any, str_eq,
  strip, before, if◌then◌else◌,
}
use kepryx.Networks.{IpTexts, Address, Network, contains}
use kepryx.Counters.{Counters, BucketKey, per_user, per_ip, Ttl}

-- How the dependency ends: it returns, or raises 429 with the TTL as Retry-After, or 503.
pub data Outcome : Type 0 where
  pass unavailable : Outcome
  user_exceeded : String → ℕ → ℕ → Ttl → Outcome
  ip_exceeded : Ttl → Outcome

-- The parts of a request that the limiter reads. `user` is the authenticated user's id.
pub record Request : Type 0 where
  pub peer : Option String
  pub x_real_ip : Option String
  pub x_forwarded_for : Option String
  pub user : Option String

-- `a or b` of two headers: an empty one is false.
pub or_header : Option String → Option String → Option String
or_header none b = b
or_header (some s) b = if str_eq s "" then b else some s

-- `if not forwarded` for the header that is left.
pub truthy : Option String → Option String
truthy none = none
truthy (some s) = if str_eq s "" then none else some s

-- `forwarded.split(",", 1)[0].strip()`.
pub first_entry : String → String
first_entry forwarded = strip (before b',' forwarded)

module _ (texts : IpTexts) where
  open texts use {ip_address, ip_network, print_address}

  -- `any(ip_address(peer) in ip_network(cidr, strict=False) for cidr in …)`; `none` is a ValueError.
  pub peer_trusted : List String → String → Option Bool
  peer_trusted [] peer = some false
  peer_trusted (cidr ∷ rest) peer = elim (ip_address peer) [
    | none ↦ none
    | some a ↦ elim (ip_network cidr) [
      | none ↦ none
      | some n ↦ let later = peer_trusted rest peer in if contains n a then some true else later
    ]
  ]

  -- The client's address once the peer is known to be a trusted proxy, or not.
  pub forwarded_ip : Option Bool → String → String → String
  unfolding first_entry
  forwarded_ip none peer forwarded = peer
  forwarded_ip (some false) peer forwarded = peer
  forwarded_ip (some true) peer forwarded = elim (ip_address (first_entry forwarded)) [
    | none ↦ peer
    | some a ↦ print_address a
  ]

  by_header : List String → String → Option String → String
  unfolding peer_trusted forwarded_ip
  by_header trusted peer none = peer
  by_header trusted peer (some forwarded) =
      if str_eq peer "unknown"
      then peer
      else forwarded_ip (peer_trusted trusted peer) peer forwarded

  by_peer : List String → Option String → Request → String
  unfolding by_header truthy or_header
  by_peer trusted none r =
      by_header trusted "unknown" (truthy (or_header r.x_real_ip r.x_forwarded_for))
  by_peer trusted (some p) r =
      by_header trusted p (truthy (or_header r.x_real_ip r.x_forwarded_for))

  pub get_request_ip : List String → Request → String
  unfolding by_peer
  get_request_ip trusted r = by_peer trusted r.peer r

-- What one pass through Redis says: an error, within the limit, or over it with the TTL.
pub data Verdict : Type 0 where
  failed within : Verdict
  over : Ttl → Verdict

module _ (C : Counters) where
  open C use {State, incr, expire, ttl}

  pub over_limit : Option Ttl → Verdict
  over_limit none = failed
  over_limit (some t) = over t

  pub judge_count : ℕ → ℕ → BucketKey → ℕ → State → Verdict × State
  unfolding over_limit
  judge_count now limit k count s =
      if ltb limit count then (over_limit (ttl now k s), s) else (within, s)

  pub after_expire : ℕ → ℕ → BucketKey → ℕ → Bool × State → Verdict × State
  unfolding judge_count
  after_expire now limit k count (true, s) = judge_count now limit k count s
  after_expire now limit k count (false, s) = (failed, s)

  pub after_incr : ℕ → ℕ → ℕ → BucketKey → Option ℕ × State → Verdict × State
  unfolding after_expire judge_count
  after_incr now limit window k (none, s) = (failed, s)
  after_incr now limit window k (some count, s) =
      if count == 1
      then after_expire now limit k count (expire now k window s)
      else judge_count now limit k count s

  -- The `try` block, which both dependencies have.
  pub count_request : ℕ → ℕ → ℕ → BucketKey → State → Verdict × State
  unfolding after_incr
  count_request now limit window k s = after_incr now limit window k (incr now k s)

  pub user_outcome : String → ℕ → ℕ → Verdict × State → Outcome × State
  user_outcome key limit window (failed, s) = (unavailable, s)
  user_outcome key limit window (within, s) = (pass, s)
  user_outcome key limit window (over t, s) = (user_exceeded key limit window t, s)

  -- The user's id, or the request's address without one.
  pub subject_of : Option String → String → String
  subject_of none ip = ip
  subject_of (some id) ip = id

  pub per_user_rate_limit : String → ℕ → ℕ → ℕ → Option String → String → State → Outcome × State
  unfolding count_request user_outcome subject_of
  per_user_rate_limit key limit window now user ip s =
      user_outcome key limit window
        (count_request now limit window (per_user key (subject_of user ip)) s)

  pub ip_outcome : Verdict × State → Outcome × State
  ip_outcome (failed, s) = (unavailable, s)
  ip_outcome (within, s) = (pass, s)
  ip_outcome (over t, s) = (ip_exceeded t, s)

  pub per_ip_rate_limit : String → ℕ → ℕ → ℕ → String → State → Outcome × State
  unfolding count_request ip_outcome
  per_ip_rate_limit key limit window now ip s =
      ip_outcome (count_request now limit window (per_ip key ip) s)
