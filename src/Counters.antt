-- ===== src/Counters.antt =====
-- The Redis commands that app/core/rate_limit.py calls, as an interface: INCR, EXPIRE and TTL.
-- `bucket s t k` is the count under a key at time `t`, in milliseconds, with its deadline if it has
-- one; the laws are the documented behaviour of the commands. Of a raised EXPIRE nothing is known: it
-- may have been carried out.
pub mod Memory
use kepryx.Base.{
  ℕ, ◌+◌, ◌-◌, ◌*◌, ◌/◌, ◌≤◌, ◌<◌, ◌≡◌, ◌≢◌, String, Bool, true, false, Option, none, some,
}

-- The keys `ratelimit:{key}:{user}` and `ratelimit:ip:{key}:{ip}`.
pub data BucketKey : Type 0 where
  per_user per_ip : String → String → BucketKey

pub record Bucket : Type 0 where
  pub count : ℕ
  pub deadline : Option ℕ

-- What TTL answers: seconds, -1 for a key without a deadline, -2 for no key.
pub data Ttl : Type 0 where
  seconds : ℕ → Ttl
  no_deadline no_key : Ttl

pub record Counters : Type 1 where
  pub State : Type 0
  pub bucket : State → ℕ → BucketKey → Option Bucket
  -- `none` and `false` are a raised error
  pub incr : ℕ → BucketKey → State → Option ℕ × State
  pub expire : ℕ → BucketKey → ℕ → State → Bool × State
  pub ttl : ℕ → BucketKey → State → Option Ttl
  pub incr_new :
      (now n : ℕ) (k : BucketKey) (s : State)
      → bucket s now k ≡ none
      → (incr now k s).0 ≡ some n
      → (n ≡ 1)
        × ((t : ℕ)
            → now ≤ t
            → bucket (incr now k s).1 t k ≡ some (record { count = 1; deadline = none }))
  pub incr_old :
      (now n : ℕ) (k : BucketKey) (s : State) (b : Bucket)
      → bucket s now k ≡ some b
      → (incr now k s).0 ≡ some n
      → (n ≡ b.count + 1)
        × ((t : ℕ)
            → now ≤ t
            → ((d : ℕ) → b.deadline ≡ some d → t < d)
            → bucket (incr now k s).1 t k ≡ some (record b { count = b.count + 1 }))
  pub expire_done :
      (now : ℕ) (k : BucketKey) (window : ℕ) (s : State) (b : Bucket)
      → bucket s now k ≡ some b
      → (expire now k window s).0 ≡ true
      → (t : ℕ) → now ≤ t
      → t < now + window * 1000
      → bucket (expire now k window s).1 t k
        ≡ some (record b { deadline = some (now + window * 1000) })
