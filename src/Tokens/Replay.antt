-- ===== src/Tokens/Replay.antt =====
-- A refresh token is used at most once while it is valid.
use kepryx.Base.{
  ℕ, ◌+◌, ◌*◌, ◌≤◌, ◌<◌, ◌≡◌, ◌≢◌, refl, sym, ap, ◌∙◌, inl, inr, String, Bool, true, false, Option,
  none, some, arith,
}
use kepryx.Redis.{
  Redis, Key, revoked, revoked_after, Value, flag, consumed, number, Written, key-cases,
}
use kepryx.Tokens.{
  Payload, claim, ttl_of, revoke_token, revoke_jti, claim_jti, consume_checked,
  consume_refresh_token, is_token_revoked, revoke_user_tokens, retention,
}
use kepryx.Tokens.Effects.{Effect, setex-Effect, set_nx-Effect}
use kepryx.Tokens.Trace.{Issued, Step, Trace, revokes, consumes, cuts_off, other, here, wait, call}

-- The key outlives the token.
ttl_covers : (exp now t : ℕ) → t < exp * 1000 → t < now + ttl_of (some exp) now * 1000
unfolding ttl_of
ttl_covers exp now t h = omega arith

module _ (R : Redis) (days : ℕ) (exp_of : String → ℕ) where
  open R use {State, view, set_nx}

  -- Until the token's expiry a GET finds its `jti` marked.
  abbrev Marked : String → ℕ → State → Type 0
  Marked j u s = (t : ℕ) → u ≤ t → t < exp_of j * 1000 → view s t (revoked j) ≢ none

  Written-Marked :
      (j : String) (now ttl : ℕ) (v : Value) (s s' : State)
      → ttl ≡ ttl_of (some (exp_of j)) now
      → Written view now (revoked j) ttl v s s'
      → Marked j now s'
  Written-Marked j now ttl v s s' same w t le lt e =
      cc (w.held t le (rw same (ttl_covers (exp_of j) now t lt)), e)

  -- A call keeps the mark, if what it may write on the same key lasts as long.
  Effect-Marked :
      (j : String) (u now : ℕ) (k : Key) (ttl : ℕ) (v : Value) (s s' : State)
      → (k ≡ revoked j → ttl ≡ ttl_of (some (exp_of j)) now)
      → u ≤ now
      → Marked j u s
      → Effect R now k ttl v s s'
      → Marked j now s'
  Effect-Marked j u now k ttl v s s' same le m (inl kept) t lt before e =
      m t (omega arith) before (sym (kept t (revoked j) lt) ∙ e)
  Effect-Marked j u now k ttl v s s' same le m (inr w) t lt before e =
      elim (key-cases (revoked j) k) [
        | inl p ↦ cc (
          w.held t lt (rw (same (sym p)) (ttl_covers (exp_of j) now t before)),
          ap (λ (x : Key). view s' t x) p,
          e,
        )
        | inr n ↦ m t (omega arith) before (sym (w.others t (revoked j) lt n) ∙ e)
      ]

  same_ttl :
      (p : Payload) (i j : String) (now : ℕ)
      → p.exp ≡ some (exp_of i)
      → revoked i ≡ revoked j
      → ttl_of p.exp now ≡ ttl_of (some (exp_of j)) now
  same_ttl p i j now e q = cc (e, q)

  revoke_jti-Marked :
      (j : String) (u : ℕ) (p : Payload) (c : Option String) (now : ℕ) (s : State)
      → ((i : String) → c ≡ some i → p.exp ≡ some (exp_of i))
      → u ≤ now
      → Marked j u s
      → Marked j now (revoke_jti R p c now s).1
  unfolding revoke_jti
  revoke_jti-Marked j u p none now s fixed le m = λ t lt before. m t (omega arith) before
  revoke_jti-Marked j u p (some i) now s fixed le m =
      Effect-Marked j u now (revoked i) (ttl_of p.exp now) flag s _
        (same_ttl p i j now (fixed i refl)) le m
        (setex-Effect R now (revoked i) (ttl_of p.exp now) flag s)

  claim_jti-Marked :
      (j : String) (u : ℕ) (p : Payload) (c : Option String) (now : ℕ) (s : State)
      → ((i : String) → c ≡ some i → p.exp ≡ some (exp_of i))
      → u ≤ now
      → Marked j u s
      → Marked j now (claim_jti R p c now s).1
  unfolding claim_jti
  claim_jti-Marked j u p none now s fixed le m = λ t lt before. m t (omega arith) before
  claim_jti-Marked j u p (some i) now s fixed le m =
      Effect-Marked j u now (revoked i) (ttl_of p.exp now) consumed s _
        (same_ttl p i j now (fixed i refl)) le m
        (set_nx-Effect R now (revoked i) (ttl_of p.exp now) consumed s)

  Step-Marked :
      (j : String) {u : ℕ} {s s' : State} → Step R days exp_of u s s' → Marked j u s → Marked j u s'
  unfolding revoke_token revoke_user_tokens
  Step-Marked j {u} {s} (revokes p fixed) m =
      revoke_jti-Marked j u p (claim p.jti) u s fixed (omega arith) m
  Step-Marked j {u} {s} (consumes p fixed) m =
      claim_jti-Marked j u p (claim p.jti) u s fixed (omega arith) m
  Step-Marked j {u} {s} (cuts_off user) m =
      Effect-Marked j u u (revoked_after user) (retention days) (number u) s _ (λ e. cc)
        (omega arith) m (setex-Effect R u (revoked_after user) (retention days) (number u) s)
  Step-Marked j (other s' kept) m = λ t le before e. m t le before (sym (kept t (revoked j) le) ∙ e)

  Trace-Marked :
      (j : String) {u : ℕ} {s : State} {t : ℕ} {s' : State}
      → Trace R days exp_of u s t s'
      → Marked j u s
      → Marked j t s'
  Trace-Marked j here m = m
  Trace-Marked j (wait r le) m =
      let earlier = Trace-Marked j r m in λ t lt before. earlier t (omega arith) before
  Trace-Marked j (call r st) m = Step-Marked j st (Trace-Marked j r m)

  -- A marked `jti` is not claimed again before the token has expired.
  claim_jti_refused :
      (j : String) (p : Payload) (now : ℕ) (s : State)
      → Marked j now s
      → now < exp_of j * 1000
      → (claim_jti R p (some j) now s).0 ≢ some true
  unfolding claim_jti
  claim_jti_refused j p now s m before e =
      m now (omega arith) before (R.set_nx_done now (revoked j) (ttl_of p.exp now) consumed s e).0

  claim_jti_marks :
      (j : String) (p : Payload) (now : ℕ) (s : State)
      → p.exp ≡ some (exp_of j)
      → (claim_jti R p (some j) now s).0 ≡ some true
      → Marked j now (claim_jti R p (some j) now s).1
  unfolding claim_jti
  claim_jti_marks j p now s fixed e =
      Written-Marked j now (ttl_of p.exp now) consumed s _ (cc fixed)
        (R.set_nx_done now (revoked j) (ttl_of p.exp now) consumed s e).1

  consume_checked-claims :
      (p : Payload) (r : Option Bool) (j : String) (now : ℕ) (s : State)
      → claim p.jti ≡ some j
      → (consume_checked R p r now s).0 ≡ some true
      → consume_checked R p r now s ≡ claim_jti R p (some j) now s
  unfolding consume_checked
  consume_checked-claims p none j now s e h = cc
  consume_checked-claims p (some true) j now s e h = cc
  consume_checked-claims p (some false) j now s e h = ap (λ c. claim_jti R p c now s) e

  -- A consumption that succeeds is a claim that succeeds.
  consume-claims :
      (p : Payload) (j : String) (now : ℕ) (s : State)
      → claim p.jti ≡ some j
      → (consume_refresh_token R p now s).0 ≡ some true
      → consume_refresh_token R p now s ≡ claim_jti R p (some j) now s
  unfolding consume_refresh_token
  consume-claims p j now s e h = consume_checked-claims p (is_token_revoked R p now s) j now s e h

  -- Two uses of one refresh token: once a use has succeeded, then whatever calls have come between,
  -- successful or not, a use before the token's expiry does not succeed; nor does the claim that
  -- ends it, were it to run after a check that came before the first use.
  pub replay_refused :
      (p : Payload) (j : String) (now : ℕ) (s : State) {later : ℕ} {s' : State}
      → Issued exp_of p
      → claim p.jti ≡ some j
      → (consume_refresh_token R p now s).0 ≡ some true
      → Trace R days exp_of now (consume_refresh_token R p now s).1 later s'
      → later < exp_of j * 1000
      → ((consume_refresh_token R p later s').0 ≢ some true)
        × ((claim_jti R p (some j) later s').0 ≢ some true)
  replay_refused p j now s {later} {s'} fixed e h r before =
      let first = consume-claims p j now s e h in
      let marks = claim_jti_marks j p now s (fixed j e) (sym (ap (λ x. x.0) first) ∙ h) in
      let m = Trace-Marked j r (rw first marks) in
      let refused = claim_jti_refused j p later s' m before in
      (λ k. refused (sym (ap (λ x. x.0) (consume-claims p j later s' e k)) ∙ k), refused)
