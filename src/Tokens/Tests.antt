-- ===== src/Tokens/Tests.antt =====
-- Tests of the token calls, and instances of their theorems, over the Redis in memory.
use kepryx.Base.{ℕ, ◌≡◌, ◌≢◌, refl, true, false, some, String, arith}
use kepryx.Redis.{key-cases, str-cases}
use kepryx.Redis.Memory.{memory, empty, Shown, set_value, set_nx}
use kepryx.Tokens.{
  Payload, claim, claim_jti, issued_at_ms, is_token_revoked, consume_refresh_token,
  revoke_user_tokens,
}
use kepryx.Tokens.Trace.{Issued, here, wait}
use kepryx.Tokens.Replay.{replay_refused}
use kepryx.Tokens.Cutoff.{sessions_end}

-- A token of user "u" with the `jti` "t", issued at 1,000 s, that ends at 605,800 s (seven days).
abbrev token : Payload
token = record {
  jti = some "t";
  sub = some "u";
  exp = some 605800;
  iat = some 1000;
  iat_ms = some 1000000;
}

abbrev ends_at : String → ℕ
ends_at j = 605800

token-Issued : Issued ends_at token
token-Issued j e = refl

fresh : is_token_revoked memory token 1000500 empty ≡ some false
unfolding is_token_revoked
fresh = refl

consumed_once : (consume_refresh_token memory token 1000500 empty).0 ≡ some true
unfolding consume_refresh_token set_nx
consumed_once = refl

consumed_twice :
    (consume_refresh_token memory token 2000000
      (consume_refresh_token memory token 1000500 empty).1).0
    ≡ some false
unfolding consume_refresh_token set_nx set_value key-cases is_token_revoked str-cases
consumed_twice = refl

abbrev used : Shown
used = (consume_refresh_token memory token 1000500 empty).1

replay_refused_example :
    ((consume_refresh_token memory token 2000000 used).0 ≢ some true)
    × ((claim_jti memory token (some "t") 2000000 used).0 ≢ some true)
unfolding claim
replay_refused_example =
    replay_refused memory 7 ends_at token "t" 1000500 empty token-Issued refl consumed_once
      (wait here (omega arith)) (omega arith)

abbrev cut : Shown
cut = (revoke_user_tokens memory 7 "u" 1500000 empty).1

sessions_end_example : is_token_revoked memory token 3000000 cut ≢ some false
unfolding claim revoke_user_tokens issued_at_ms
sessions_end_example =
    sessions_end memory 7 ends_at "u" token 605800 1500000 empty refl refl refl (omega arith)
      (omega arith) (wait here (omega arith)) (omega arith)
