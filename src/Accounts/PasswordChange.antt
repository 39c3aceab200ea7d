-- ===== src/Accounts/PasswordChange.antt =====
-- `change_password`: the policy, the new hash, the end of the user's sessions, and the commit.
use kepryx.Base.{
  ℕ, ◌+◌, ◌*◌, ◌≤◌, ◌<◌, ◌≡◌, ◌≢◌, refl, sym, ◌∙◌, String, Bool, true, false, some, Bool-cases, inl,
  inr, ◌⊎◌, if◌then◌else◌, Result, ok, err,
}
use mathlib.Core.Path.{subst}
use kepryx.Redis.{Redis}
use kepryx.Tokens.{Payload, claim, issued_at_ms, revoke_user_tokens, is_token_revoked}
use kepryx.Tokens.Trace.{Trace}
use kepryx.Tokens.Cutoff.{sessions_end}
use kepryx.PasswordPolicy.{PolicyError, validate_password}
use kepryx.PasswordPolicy.Strong.{IsStrong, validate_password-IsStrong}
use kepryx.Accounts.State.{
  User, password_changed, Site, Crypto, HttpError, bad_request, unauthorized, unavailable,
}
use kepryx.Accounts.{commit, find_user}
use kepryx.Accounts.Lockout.{find-put}

module _ (R : Redis) (K : Crypto) (other_digit : ℕ → Bool) (min_len days : ℕ) where
  open K use {verify, hash}

  -- The two stores: Redis and the tables. Nothing is written to the tables before the commit.
  unfoldable pub store_password :
      Bool × R.State → User → Site → Result HttpError (Unit {0}) × R.State × Site
  unfolding commit
  store_password (false, r) u s = (err unavailable, r, s)
  store_password (true, r) u s = (ok tt, r, commit (some (u, password_changed)) s)

  unfoldable pub after_policy :
      ℕ
      → String
      → String
      → User
      → Result PolicyError (Unit {0})
      → R.State
      → Site
      → Result HttpError (Unit {0}) × R.State × Site
  unfolding store_password
  after_policy now salt password u (err e) r s = (err bad_request, r, s)
  after_policy now salt password u (ok _) r s =
      store_password (revoke_user_tokens R days u.id now r)
        (record u { password_hash = hash salt password }) s

  unfoldable pub change_password :
      ℕ
      → String
      → String
      → String
      → User
      → R.State
      → Site
      → Result HttpError (Unit {0}) × R.State × Site
  unfolding after_policy
  change_password now salt current_password password u r s =
      if verify u.password_hash current_password
      then after_policy now salt password u
          (validate_password other_digit min_len password (some u.username)) r s
      else (err unauthorized, r, s)

  -- What a change of a password that succeeded has done.
  pub record Changed (now : ℕ) (current_password password : String) (u : User) (r r' : R.State)
      (s s' : Site) : Type 0 where
    pub knew : verify u.password_hash current_password ≡ true
    pub strong : IsStrong other_digit min_len password (some u.username)
    pub revoked : (revoke_user_tokens R days u.id now r).0 ≡ true
    pub redis : r' ≡ (revoke_user_tokens R days u.id now r).1
    pub row : User
    pub stored : find_user u.username s'.users ≡ some row
    pub new_password : verify row.password_hash password ≡ true

  stored-Changed :
      (now : ℕ) (salt current_password password : String) (u : User) (r : R.State) (s : Site)
      (b : Bool)
      → find_user u.username s.users ≡ some u
      → verify u.password_hash current_password ≡ true
      → IsStrong other_digit min_len password (some u.username)
      → (revoke_user_tokens R days u.id now r).0 ≡ b
      → let out =
          store_password
            (b, (revoke_user_tokens R days u.id now r).1)
            (record u { password_hash = hash salt password })
            s in
        (out.0 ≡ ok tt × Changed now current_password password u r out.1 s out.2)
        ⊎ ((e : HttpError) × (out.0 ≡ err e) × (out.2 ≡ s))
  unfolding store_password commit
  stored-Changed now salt c p u r s false f v i e = inr (unavailable, refl, refl)
  stored-Changed now salt c p u r s true f v i e =
      let row : User = record u { password_hash = hash salt p } in
      inl (
        refl,
        record {
          knew = v;
          strong = i;
          revoked = e;
          redis = refl;
          row = row;
          stored = find-put u row s.users f;
          new_password = K.verify_hash salt p;
        },
      )

  policy-Changed :
      (now : ℕ) (salt current_password password : String) (u : User) (r : R.State) (s : Site)
      → find_user u.username s.users ≡ some u
      → verify u.password_hash current_password ≡ true
      → (p : Result PolicyError (Unit {0}))
      → validate_password other_digit min_len password (some u.username) ≡ p
      → let out = after_policy now salt password u p r s in
        (out.0 ≡ ok tt × Changed now current_password password u r out.1 s out.2)
        ⊎ ((e : HttpError) × (out.0 ≡ err e) × (out.2 ≡ s))
  unfolding after_policy
  policy-Changed now salt c password u r s f v (err e) p = inr (bad_request, refl, refl)
  policy-Changed now salt c password u r s f v (ok _) p =
      stored-Changed now salt c password u r s (revoke_user_tokens R days u.id now r).0 f v
        (validate_password-IsStrong other_digit min_len password (some u.username) p) refl

  -- For a row of the table, a change of the password either succeeds: the caller knew the old one,
  -- the new one is strong, the user's sessions were cut off in Redis, and the stored row accepts the
  -- new password; or it is an error and the tables are as they were, also where Redis failed.
  pub change_password-Changed :
      (now : ℕ) (salt current_password password : String) (u : User) (r : R.State) (s : Site)
      → find_user u.username s.users ≡ some u
      → let out = change_password now salt current_password password u r s in
        (out.0 ≡ ok tt × Changed now current_password password u r out.1 s out.2)
        ⊎ ((e : HttpError) × (out.0 ≡ err e) × (out.2 ≡ s))
  unfolding change_password
  change_password-Changed now salt c password u r s f =
      elim (Bool-cases (verify u.password_hash c)) [
        | inl v ↦ rw v (
            policy-Changed now salt c password u r s f v
              (validate_password other_digit min_len password (some u.username)) refl)
        | inr v ↦ rw v (inr (unauthorized, refl, refl))
      ]

  -- After a change of a password that succeeded, no token of the user issued up to then passes the
  -- revocation check while it is valid, whatever calls follow, for tokens that live no longer than
  -- refresh tokens do.
  pub change_password_ends_sessions :
      (now : ℕ) (salt current_password password : String) (u : User) (r : R.State) (s : Site)
      (exp_of : String → ℕ) (p : Payload) (exp later : ℕ) (r' : R.State)
      → find_user u.username s.users ≡ some u
      → (change_password now salt current_password password u r s).0 ≡ ok tt
      → claim p.sub ≡ some u.id
      → p.exp ≡ some exp
      → issued_at_ms p.iat_ms p.iat ≤ now
      → exp * 1000 ≤ issued_at_ms p.iat_ms p.iat + days * 24 * 60 * 60 * 1000
      → Trace R days exp_of now
          (change_password now salt current_password password u r s).1
          later
          r'
      → later < exp * 1000
      → is_token_revoked R p later r' ≢ some false
  change_password_ends_sessions now salt c password u r s exp_of p exp later r' f done sub ends
        issued lives t valid =
      elim (change_password-Changed now salt c password u r s f) [
        | inl (_, x) ↦
            sessions_end R days exp_of u.id p exp now r x.revoked sub ends issued lives
              (subst (λ z. Trace R days exp_of now z later r') x.redis t) valid
        | inr (e, q, _) ↦ let bad : (ok tt ≡ err e) = sym done ∙ q in cc
      ]
