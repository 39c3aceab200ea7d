-- ===== src/Tokens/Cutoff.antt =====
-- Ending the sessions of a user, and what a check answers when Redis does not.
use kepryx.Base.{
  ℕ, ◌+◌, ◌*◌, ◌≤◌, ◌<◌, ◌≡◌, ◌≢◌, refl, sym, ap, ◌∙◌, inl, inr, String, true, false, Option, none,
  some, arith,
}
use kepryx.Redis.{Redis, Key, revoked, revoked_after, Value, flag, consumed, number, key-cases}
use kepryx.Tokens.{
  Payload, claim, ttl_of, issued_at_ms, int_of, cut_off, judge, revoke_token, revoke_jti, claim_jti,
  check_claims, is_token_revoked, revoke_user_tokens, retention, consume_refresh_token,
  consume_checked,
}
use kepryx.Tokens.Effects.{Effect, setex-Effect, set_nx-Effect}
use kepryx.Tokens.Trace.{
  Step, Trace, revokes, consumes, cuts_off, other, here, wait, call, Trace-le,
}

module _ (R : Redis) (days : ℕ) (exp_of : String → ℕ) where
  open R use {State, view, mget}

  -- The user's cut-off stands, at `since` or later, until it may lapse.
  abbrev Barrier : String → ℕ → ℕ → State → Type 0
  Barrier user since u s =
      (t : ℕ)
      → u ≤ t
      → t < since + retention days * 1000
      → (n : ℕ) × (view s t (revoked_after user) ≡ some (number n)) × (since ≤ n)

  Effect-Barrier :
      (user : String) (since u : ℕ) (k : Key) (ttl : ℕ) (v : Value) (s s' : State)
      → k ≢ revoked_after user
      → Barrier user since u s
      → Effect R u k ttl v s s'
      → Barrier user since u s'
  Effect-Barrier user since u k ttl v s s' ne b (inl kept) t le lt =
      let (n, e, h) = b t le lt in (n, kept t (revoked_after user) le ∙ e, h)
  Effect-Barrier user since u k ttl v s s' ne b (inr w) t le lt =
      let (n, e, h) = b t le lt in (n, w.others t (revoked_after user) le (λ q. ne (sym q)) ∙ e, h)

  revoke_jti-Barrier :
      (user : String) (since u : ℕ) (p : Payload) (c : Option String) (s : State)
      → Barrier user since u s
      → Barrier user since u (revoke_jti R p c u s).1
  unfolding revoke_jti
  revoke_jti-Barrier user since u p none s b = b
  revoke_jti-Barrier user since u p (some i) s b =
      Effect-Barrier user since u (revoked i) (ttl_of p.exp u) flag s _ (λ e. cc) b
        (setex-Effect R u (revoked i) (ttl_of p.exp u) flag s)

  claim_jti-Barrier :
      (user : String) (since u : ℕ) (p : Payload) (c : Option String) (s : State)
      → Barrier user since u s
      → Barrier user since u (claim_jti R p c u s).1
  unfolding claim_jti
  claim_jti-Barrier user since u p none s b = b
  claim_jti-Barrier user since u p (some i) s b =
      Effect-Barrier user since u (revoked i) (ttl_of p.exp u) consumed s _ (λ e. cc) b
        (set_nx-Effect R u (revoked i) (ttl_of p.exp u) consumed s)

  -- A later cut-off of the same user only moves the barrier on.
  cut-Barrier :
      (user : String) (since u : ℕ) (other_user : String) (s s' : State)
      → since ≤ u
      → Barrier user since u s
      → Effect R u (revoked_after other_user) (retention days) (number u) s s'
      → Barrier user since u s'
  cut-Barrier user since u o s s' le b (inl kept) t lo lt =
      let (n, e, h) = b t lo lt in (n, kept t (revoked_after user) lo ∙ e, h)
  cut-Barrier user since u o s s' le b (inr w) t lo lt =
      elim (key-cases (revoked_after user) (revoked_after o)) [
        | inl q ↦ (u, ap (λ (x : Key). view s' t x) q ∙ w.held t lo (omega arith), le)
        | inr ne ↦ let (n, e, h) = b t lo lt in (n, w.others t (revoked_after user) lo ne ∙ e, h)
      ]

  Step-Barrier :
      (user : String) (since : ℕ) {u : ℕ} {s s' : State}
      → Step R days exp_of u s s'
      → since ≤ u
      → Barrier user since u s
      → Barrier user since u s'
  unfolding revoke_token revoke_user_tokens
  Step-Barrier user since {u} {s} (revokes p fixed) le b =
      revoke_jti-Barrier user since u p (claim p.jti) s b
  Step-Barrier user since {u} {s} (consumes p fixed) le b =
      claim_jti-Barrier user since u p (claim p.jti) s b
  Step-Barrier user since {u} {s} (cuts_off o) le b =
      cut-Barrier user since u o s _ le b
        (setex-Effect R u (revoked_after o) (retention days) (number u) s)
  Step-Barrier user since (other s' kept) le b =
      λ t lo lt. let (n, e, h) = b t lo lt in (n, kept t (revoked_after user) lo ∙ e, h)

  Trace-Barrier :
      (user : String) {u : ℕ} {s : State} {t : ℕ} {s' : State}
      → Trace R days exp_of u s t s'
      → Barrier user u u s
      → Barrier user u t s'
  Trace-Barrier user here b = b
  Trace-Barrier user (wait r le) b =
      let earlier = Trace-Barrier user r b in λ t lo lt. earlier t (omega arith) lt
  Trace-Barrier user (call r st) b =
      Step-Barrier user _ st (Trace-le R days exp_of r) (Trace-Barrier user r b)

  revoke_user-Barrier :
      (user : String) (now : ℕ) (s : State)
      → (revoke_user_tokens R days user now s).0 ≡ true
      → Barrier user now now (revoke_user_tokens R days user now s).1
  unfolding revoke_user_tokens
  revoke_user-Barrier user now s e t lo lt =
      let w = R.setex_done now (revoked_after user) (retention days) (number now) s e in
      (now, w.held t lo (omega arith), omega arith)

  judge_cut :
      (p : Payload) (r : Option (Option Value × Option Value)) (n : ℕ)
      → ((a b : Option Value) → r ≡ some (a, b) → b ≡ some (number n))
      → issued_at_ms p.iat_ms p.iat ≤ n
      → judge p r ≢ some false
  unfolding judge cut_off int_of
  judge_cut p none n after le e = cc
  judge_cut p (some (some v, b)) n after le e = cc
  judge_cut p (some (none, b)) n after le e = ground (arith, after none b refl)

  check_claims_cut :
      (p : Payload) (c : Option String) (user : String) (now n : ℕ) (s : State)
      → view s now (revoked_after user) ≡ some (number n)
      → issued_at_ms p.iat_ms p.iat ≤ n
      → check_claims R p c (some user) now s ≢ some false
  unfolding check_claims
  check_claims_cut p none user now n s e le = cc
  check_claims_cut p (some j) user now n s e le =
      judge_cut p (mget now (revoked j) (revoked_after user) s) n
        (λ a b h. (R.mget_view now (revoked j) (revoked_after user) s a b h).1 ∙ e) le

  -- Once the cut-off of a user's sessions has been stored, then whatever calls follow, no token of
  -- that user that was issued up to that moment passes the check again while it is valid, provided
  -- that it lives no longer than a refresh token does.
  pub sessions_end :
      (user : String) (p : Payload) (exp now : ℕ) (s : State) {later : ℕ} {s' : State}
      → (revoke_user_tokens R days user now s).0 ≡ true
      → claim p.sub ≡ some user
      → p.exp ≡ some exp
      → issued_at_ms p.iat_ms p.iat ≤ now
      → exp * 1000 ≤ issued_at_ms p.iat_ms p.iat + days * 24 * 60 * 60 * 1000
      → Trace R days exp_of now (revoke_user_tokens R days user now s).1 later s'
      → later < exp * 1000
      → is_token_revoked R p later s' ≢ some false
  unfolding is_token_revoked
  sessions_end user p exp now s {later} {s'} done sub ends issued lives r valid =
      let until : later < now + retention days * 1000 = unfold retention in omega arith in
      let (n, e, le) =
        Trace-Barrier user r (revoke_user-Barrier user now s done) later (omega arith) until in
      rw sub (check_claims_cut p (claim p.jti) user later n s' e (omega arith))

module _ (R : Redis) where
  open R use {State, view, mget}

  -- What it means that a token passes.
  pub record Passes (p : Payload) (now : ℕ) (s : State) : Type 0 where
    pub jti : String
    pub sub : String
    pub has_jti : claim p.jti ≡ some jti
    pub has_sub : claim p.sub ≡ some sub
    pub unmarked : view s now (revoked jti) ≡ none
    pub after_cut : cut_off p (view s now (revoked_after sub)) ≡ some false

  judge_pass :
      (p : Payload) (r : Option (Option Value × Option Value))
      → judge p r ≡ some false
      → (b : Option Value) × (r ≡ some (none, b)) × (cut_off p b ≡ some false)
  unfolding judge
  judge_pass p none e = cc
  judge_pass p (some (some v, b)) e = cc
  judge_pass p (some (none, b)) e = (b, refl, e)

  check_claims-Passes :
      (p : Payload) (c d : Option String) (now : ℕ) (s : State)
      → claim p.jti ≡ c
      → claim p.sub ≡ d
      → check_claims R p c d now s ≡ some false
      → Passes p now s
  unfolding check_claims
  check_claims-Passes p none none now s ec ed e = cc
  check_claims-Passes p none (some u) now s ec ed e = cc
  check_claims-Passes p (some j) none now s ec ed e = cc
  check_claims-Passes p (some j) (some u) now s ec ed e =
      let (b, h, c) = judge_pass p (mget now (revoked j) (revoked_after u) s) e in
      let v = R.mget_view now (revoked j) (revoked_after u) s none b h in
      record {
        jti = j;
        sub = u;
        has_jti = ec;
        has_sub = ed;
        unmarked = sym v.0;
        after_cut = rw v.1 at c;
      }

  -- The check fails closed: a token passes only if it names its `jti` and its subject, Redis has
  -- answered that the `jti` is not marked, and the token was issued after any cut-off of its user.
  -- A missing claim is taken for revoked, and an error of Redis never passes.
  fails_closed :
      (p : Payload) (now : ℕ) (s : State) → is_token_revoked R p now s ≡ some false → Passes p now s
  unfolding is_token_revoked
  fails_closed p now s e = check_claims-Passes p (claim p.jti) (claim p.sub) now s refl refl e

  claim_jti_fresh :
      (p : Payload) (j : String) (now : ℕ) (s : State)
      → view s now (revoked j) ≡ none
      → (claim_jti R p (some j) now s).0 ≢ some false
  unfolding claim_jti
  claim_jti_fresh p j now s e h =
      (R.set_nx_refused now (revoked j) (ttl_of p.exp now) consumed s h).0 e

  -- A refresh token that passes the check is not refused as reused: its consumption succeeds, or
  -- raises because Redis did.
  first_use :
      (p : Payload) (now : ℕ) (s : State)
      → is_token_revoked R p now s ≡ some false
      → (consume_refresh_token R p now s).0 ≢ some false
  unfolding consume_refresh_token consume_checked
  first_use p now s e =
      let v = fails_closed p now s e in
      rw (e, consume_checked, v.has_jti) (claim_jti_fresh p v.jti now s v.unmarked)
