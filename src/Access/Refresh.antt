-- ===== src/Access/Refresh.antt =====
-- `refresh` of app/api/auth.py: a refresh token is exchanged for a new pair of tokens, once.
use mathlib.Core.Path.{subst}
use kepryx.Base.{
  ℕ, ◌*◌, ◌<◌, ◌≡◌, ◌≢◌, refl, sym, ap, ◌∙◌, String, Bool, true, false, Option, none, some, List,
  str_eq, eq_iff, Bool-cases, inl, inr, if◌then◌else◌, Result, ok, err,
}
use kepryx.Tokens.{Payload, claim, consume_refresh_token}
use kepryx.Tokens.Trace.{Trace, Issued}
use kepryx.Tokens.Replay.{replay_refused}
use kepryx.Accounts.State.{
  User, Settings, Crypto, HttpError, unauthorized, unavailable, TokenResponse,
}
use kepryx.Accounts.{create_access_token, create_refresh_token}
use kepryx.Access.{Decoded, Policy, find_by_id, active_user}
use kepryx.Access.Boundary.{active-found}

module _ (P : Policy) (C : Settings) (K : Crypto) where
  open P use {redis, decode}

  unfoldable pub new_pair :
      ℕ → String → String → Result HttpError User → Result HttpError TokenResponse
  new_pair now jti jti2 (err e) = err e
  new_pair now jti jti2 (ok u) = ok (record {
    access = create_access_token C K now jti u;
    refresh = create_refresh_token C K now jti2 u;
    expires_in = C.access_ttl_min * 60;
  })

  -- `payload["sub"]` is there, since the decoder requires it.
  unfoldable pub subject_row : Option String → List User → Option User
  unfolding find_by_id
  subject_row none users = none
  subject_row (some i) users = find_by_id i users

  unfoldable pub after_consume :
      ℕ → String → String → Payload → List User → Option Bool → Result HttpError TokenResponse
  unfolding new_pair subject_row active_user
  after_consume now jti jti2 p users none = err unavailable
  after_consume now jti jti2 p users (some false) = err unauthorized
  after_consume now jti jti2 p users (some true) =
      new_pair now jti jti2 (active_user P (subject_row p.sub users))

  unfoldable pub refresh_decoded :
      ℕ
      → String
      → String
      → Option Decoded
      → redis.State
      → List User
      → Result HttpError TokenResponse × redis.State
  unfolding after_consume
  refresh_decoded now jti jti2 none r users = (err unauthorized, r)
  refresh_decoded now jti jti2 (some d) r users =
      if elim d.type [ none ↦ false | some t ↦ str_eq t "refresh" ]
      then (let (b, r') = consume_refresh_token redis d.payload now r in
          (after_consume now jti jti2 d.payload users b, r'))
      else (err unauthorized, r)

  unfoldable pub refresh :
      ℕ
      → String
      → String
      → String
      → redis.State
      → List User
      → Result HttpError TokenResponse × redis.State
  unfolding refresh_decoded
  refresh now jti jti2 token r users = refresh_decoded now jti jti2 (decode token) r users

  -- What a refresh that was granted went through.
  pub record Renewed (now : ℕ) (jti jti2 : String) (d : Decoded) (r r' : redis.State)
      (users : List User) (t : TokenResponse) : Type 0 where
    pub is_refresh : d.type ≡ some "refresh"
    pub consumed : (consume_refresh_token redis d.payload now r).0 ≡ some true
    pub left : r' ≡ (consume_refresh_token redis d.payload now r).1
    pub user : User
    pub found : subject_row d.payload.sub users ≡ some user
    pub active : user.is_active ≡ true
    pub access : t.access ≡ create_access_token C K now jti user
    pub renewal : t.refresh ≡ create_refresh_token C K now jti2 user

  new_pair-ok :
      (now : ℕ) (jti jti2 : String) (x : Result HttpError User) (t : TokenResponse)
      → new_pair now jti jti2 x ≡ ok t
      → (u : User) × (x ≡ ok u)
        × (t.access ≡ create_access_token C K now jti u)
        × (t.refresh ≡ create_refresh_token C K now jti2 u)
  unfolding new_pair
  new_pair-ok now jti jti2 (err e) t h = cc
  new_pair-ok now jti jti2 (ok u) t h = (
    u,
    refl,
    ap (λ r. elim r [ ok x ↦ x.access | err _ ↦ t.access ]) (sym h),
    ap (λ r. elim r [ ok x ↦ x.refresh | err _ ↦ t.refresh ]) (sym h),
  )

  consume-ok :
      (now : ℕ) (jti jti2 : String) (p : Payload) (users : List User) (b : Option Bool)
      (t : TokenResponse)
      → after_consume now jti jti2 p users b ≡ ok t
      → (b ≡ some true) × (new_pair now jti jti2 (active_user P (subject_row p.sub users)) ≡ ok t)
  unfolding after_consume
  consume-ok now jti jti2 p users none t h = cc
  consume-ok now jti jti2 p users (some false) t h = cc
  consume-ok now jti jti2 p users (some true) t h = (refl, h)

  type-refresh :
      (o : Option String)
      → (elim o [ none ↦ false | some t ↦ str_eq t "refresh" ]) ≡ true
      → o ≡ some "refresh"
  type-refresh none e = cc
  type-refresh (some t) e = ap some ((eq_iff t "refresh").0 e)

  decoded-Renewed :
      (now : ℕ) (jti jti2 : String) (d : Decoded) (r : redis.State) (users : List User)
      (t : TokenResponse)
      → (refresh_decoded now jti jti2 (some d) r users).0 ≡ ok t
      → Renewed now jti jti2 d r (refresh_decoded now jti jti2 (some d) r users).1 users t
  unfolding refresh_decoded
  decoded-Renewed now jti jti2 d r users t h =
      elim (Bool-cases (elim d.type [ none ↦ false | some t ↦ str_eq t "refresh" ])) [
        | inl y ↦
            let (c, n) =
              consume-ok now jti jti2 d.payload users
                (consume_refresh_token redis d.payload now r).0 t (rw y at h) in
            let (u, x, a, b) =
              new_pair-ok now jti jti2 (active_user P (subject_row d.payload.sub users)) t n in
            let (found, active) = active-found P (subject_row d.payload.sub users) u x in
            record {
              is_refresh = type-refresh d.type y;
              consumed = c;
              left = rw y refl;
              user = u;
              found = found;
              active = active;
              access = a;
              renewal = b;
            }
        | inr y ↦ cc (rw y at h)
      ]

  -- A refresh that was granted consumed a refresh token and gave the tokens of an active user of the
  -- table; and from then on, whatever calls of the token store come between and whether they fail or
  -- not, no refresh with the same text is granted before the token expires, where the decoder reads
  -- the text as the same claims and the expiry belongs to the token's id.
  pub refresh_once :
      (days : ℕ) (exp_of : String → ℕ) (now : ℕ) (jti jti2 token j : String) (d : Decoded)
      (r : redis.State) (users : List User) (t : TokenResponse) (later : ℕ) (s : redis.State)
      (jti3 jti4 : String) (users2 : List User) (t2 : TokenResponse)
      → decode token ≡ some d
      → Issued exp_of d.payload
      → claim d.payload.jti ≡ some j
      → (refresh now jti jti2 token r users).0 ≡ ok t
      → Trace redis days exp_of now (refresh now jti jti2 token r users).1 later s
      → later < exp_of j * 1000
      → Renewed now jti jti2 d r (refresh now jti jti2 token r users).1 users t
        × ((refresh later jti3 jti4 token s users2).0 ≢ ok t2)
  unfolding refresh
  refresh_once days exp_of now jti jti2 token j d r users t later s jti3 jti4 users2 t2 dec iss cl h
        tr before =
      let run : refresh now jti jti2 token r users ≡ refresh_decoded now jti jti2 (some d) r users =
        ap (λ o. refresh_decoded now jti jti2 o r users) dec in
      let run2 : refresh later jti3 jti4 token s users2
          ≡ refresh_decoded later jti3 jti4 (some d) s users2 =
        ap (λ o. refresh_decoded later jti3 jti4 o s users2) dec in
      let first = decoded-Renewed now jti jti2 d r users t (ap (λ x. x.0) (sym run) ∙ h) in
      let no_second =
        replay_refused redis days exp_of d.payload j now r iss cl first.consumed
          (subst (λ z. Trace redis days exp_of now z later s) (ap (λ x. x.1) run ∙ first.left) tr)
          before in
      (
        subst (λ x. Renewed now jti jti2 d r x.1 users t) (sym run) first,
        λ again.
            let second =
              decoded-Renewed later jti3 jti4 d s users2 t2 (ap (λ x. x.0) (sym run2) ∙ again) in
            no_second.0 second.consumed,
      )
