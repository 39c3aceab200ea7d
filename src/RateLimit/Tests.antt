-- ===== src/RateLimit/Tests.antt =====
-- Tests and instances of the limiter's theorems.
use kepryx.Base.{◌≡◌, refl, min, true, none, some, [], ◌∷◌, arith}
use kepryx.Counters.{BucketKey, per_ip, no_deadline}
use kepryx.Counters.Memory.{counters, empty, incr, expire}
use kepryx.RateLimit.{Request, within, over, count_request}
use kepryx.RateLimit.Window.{serve, passed, window_limit}

abbrev login_key : BucketKey
login_key = per_ip "login" "10.1.2.7"

-- Two of three requests of one minute pass.
three_requests :
    serve (counters true) 2 60 login_key (1000 ∷ 2000 ∷ 60999 ∷ []) empty
    ≡ within ∷ within ∷ over no_deadline ∷ []
unfolding serve count_request incr expire
three_requests = refl

-- The request that starts the next window passes again.
next_window :
    serve (counters true) 1 60 login_key (1000 ∷ 60999 ∷ 61000 ∷ []) empty
    ≡ within ∷ over no_deadline ∷ within ∷ []
unfolding serve count_request incr expire
next_window = refl

window_limit_example :
    passed (serve (counters true) 2 60 login_key (1000 ∷ 2000 ∷ 60999 ∷ []) empty) ≡ min 2 3
unfolding serve count_request incr expire
window_limit_example =
    window_limit (counters true) 2 60 login_key 1000 (2000 ∷ 60999 ∷ []) empty refl (omega arith)
      (λ p. cc, (λ p. cc, (λ p. cc, tt)))

abbrev spoofed : Request
spoofed = record {
  peer = some "203.0.113.9";
  x_real_ip = some "10.1.2.7";
  x_forwarded_for = none;
  user = none;
}
