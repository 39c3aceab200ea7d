-- ===== src/Accounts.antt =====
-- app/api/auth.py without `refresh`: log-in with its lock-out, the second factor and the change of a
-- password; the calls of app/core/security.py that it makes. Times are milliseconds. Random texts are
-- arguments.
pub mod State
pub mod Lockout
pub mod Factor
pub mod Reach
pub mod Granted
pub mod PasswordChange
pub mod Guesses
mod Tests
use kepryx.Base.{
  ℕ, suc, ◌+◌, ◌-◌, ◌*◌, ◌/◌, String, Bool, true, false, not, ◌&&◌, Option, none, some, List, [],
  ◌∷◌, ◌++◌, ltb, leb, str_eq, nonempty, drop_prefix, before, after, append, if◌then◌else◌, Result,
  ok, err,
}
use State.{
  User, Event, login_blocked_lockout, account_locked, login_failed, mfa_failed, login_success,
  mfa_enroll_failed, mfa_enrolled, mfa_confirm_failed, mfa_confirmed, password_changed, Site,
  Settings, Crypto, LoginRequest, HttpError, bad_request, unauthorized, locked, server_error,
  Claims, TokenResponse,
}

-- `select(User).where(User.username == name)`: user names are unique in the table.
pub find_user : String → List User → Option User
find_user name [] = none
find_user name (u ∷ us) =
    let rest = find_user name us in if str_eq u.username name then some u else rest

-- The row of that user name, replaced.
pub put_user : User → List User → List User
put_user u [] = []
put_user u (v ∷ vs) =
    let rest = put_user u vs in if str_eq v.username u.username then u ∷ vs else v ∷ rest

-- What a commit writes: a row and its entry of the audit log, or nothing.
pub commit : Option (User × Event) → Site → Site
unfolding put_user
commit none s = s
commit (some (u, e)) s = record { users = put_user u s.users; log = s.log ++ (u.username, e) ∷ [] }

-- `secret.startswith("v1:")`.
pub mfa_secret_is_protected : String → Bool
mfa_secret_is_protected secret = elim (drop_prefix "v1:" secret) [ none ↦ false | some rest ↦ true ]

module _ (C : Settings) (K : Crypto) where
  open K use {verify, hash, totp, encrypt, decrypt}

  unfoldable pub create_access_token : ℕ → String → User → Claims
  create_access_token now jti u = record {
    sub = u.id;
    scopes = u.role ∷ [];
    iat_ms = now;
    exp = now / 1000 + C.access_ttl_min * 60;
    jti = jti;
    type = "access";
  }

  unfoldable pub create_refresh_token : ℕ → String → User → Claims
  create_refresh_token now jti u = record {
    sub = u.id;
    scopes = [];
    iat_ms = now;
    exp = now / 1000 + C.refresh_ttl_days * 86400;
    jti = jti;
    type = "refresh";
  }

  -- `v1:{salt}:{encrypt_secret(secret, salt)}`.
  pub protect_mfa_secret : String → String → String
  protect_mfa_secret salt secret = append "v1:" (append salt (append ":" (encrypt secret salt)))

  -- `none` is a raised exception.
  pub reveal_mfa_secret : String → Option String
  reveal_mfa_secret secret = elim (drop_prefix "v1:" secret) [
    | none ↦ some secret
    | some rest ↦ elim (after 58 rest) [
      | none ↦ none
      | some ciphertext ↦ decrypt ciphertext (before 58 rest)
    ]
  ]

  pub code_matches : ℕ → String → Option String → Option Bool
  code_matches now code none = none
  code_matches now code (some s) = totp s now code

  pub verify_mfa : ℕ → Option String → String → Option Bool
  unfolding reveal_mfa_secret code_matches
  verify_mfa now none code = none
  verify_mfa now (some secret) code = code_matches now code (reveal_mfa_secret secret)

  -- `user.locked_until and user.locked_until > now`.
  pub is_locked : ℕ → User → Bool
  is_locked now u = elim u.locked_until [ none ↦ false | some until ↦ ltb now until ]

  pub lock_minutes : ℕ → User → ℕ
  lock_minutes now u = elim u.locked_until [ none ↦ 0 | some until ↦ (until - now) / 60000 ]

  pub count_failure : ℕ → User → User
  count_failure now u = record u {
    failed_attempts = suc u.failed_attempts;
    locked_until =
        if leb C.max_attempts (suc u.failed_attempts)
        then some (now + C.lockout_min * 60000)
        else u.locked_until;
  }

  pub failure_event : User → Event
  failure_event u =
      if leb C.max_attempts (suc u.failed_attempts)
      then account_locked (suc u.failed_attempts)
      else login_failed (suc u.failed_attempts)

  -- `none` is a raised exception, `some false` a missing or wrong code.
  pub second_factor : ℕ → LoginRequest → User → Option Bool
  unfolding verify_mfa
  second_factor now body u =
      if u.mfa_enabled
      then elim (nonempty body.mfa_code) [
        | none ↦ some false
        | some code ↦ verify_mfa now u.mfa_secret code
      ]
      else some true

  upgraded : String → User → Option String
  unfolding protect_mfa_secret mfa_secret_is_protected
  upgraded salt u = elim u.mfa_secret [
    | none ↦ none
    | some secret ↦ some (
        if u.mfa_enabled && not (mfa_secret_is_protected secret)
        then protect_mfa_secret salt secret
        else secret)
  ]

  pub welcome : ℕ → String → User → User
  unfolding upgraded
  welcome now salt u = record u {
    mfa_secret = upgraded salt u;
    failed_attempts = 0;
    locked_until = none;
    last_login = some now;
  }

  pub after_factor : ℕ → String → User → Option Bool → Result HttpError User × Option (User × Event)
  unfolding count_failure welcome
  after_factor now salt u none = (err server_error, none)
  after_factor now salt u (some false) = (err unauthorized, some (count_failure now u, mfa_failed))
  after_factor now salt u (some true) =
      (ok (welcome now salt u), some (welcome now salt u, login_success))

  -- The user who is let in, or the error; and what is committed.
  pub attempt : ℕ → String → LoginRequest → User → Result HttpError User × Option (User × Event)
  unfolding is_locked lock_minutes count_failure failure_event second_factor after_factor
  attempt now salt body u =
      if is_locked now u
      then (err (locked (lock_minutes now u)), some (u, login_blocked_lockout))
      else if verify u.password_hash body.password
      then after_factor now salt u (second_factor now body u)
      else (err unauthorized, some (count_failure now u, failure_event u))

  pub answer : ℕ → String → String → Result HttpError User → Result HttpError TokenResponse
  unfolding create_access_token create_refresh_token
  answer now jti jti2 (err e) = err e
  answer now jti jti2 (ok u) = ok (record {
    access = create_access_token now jti u;
    refresh = create_refresh_token now jti2 u;
    expires_in = C.access_ttl_min * 60;
  })

  pub login_as :
      ℕ
      → String
      → String
      → String
      → LoginRequest
      → Option User
      → Site
      → Result HttpError TokenResponse × Site
  unfolding attempt answer commit
  login_as now salt jti jti2 body none s = (err unauthorized, s)
  login_as now salt jti jti2 body (some u) s =
      let (r, written) = attempt now salt body u in (answer now jti jti2 r, commit written s)

  pub login :
      ℕ → String → String → String → LoginRequest → Site → Result HttpError TokenResponse × Site
  unfolding login_as find_user
  login now salt jti jti2 body s =
      login_as now salt jti jti2 body (find_user body.username s.users) s

  -- The three handlers below are given the row of the caller, found by his token.
  pub mfa_enroll : ℕ → String → String → String → User → Site → Result HttpError String × Site
  unfolding protect_mfa_secret commit
  mfa_enroll now salt secret current_password u s =
      if u.mfa_enabled
      then (err bad_request, s)
      else if verify u.password_hash current_password
      then (
        ok secret,
        commit
            (some (record u { mfa_secret = some (protect_mfa_secret salt secret) }, mfa_enrolled))
            s,
      )
      else (err unauthorized, commit (some (u, mfa_enroll_failed)) s)

  confirm_factor : User → Option Bool → Site → Result HttpError (Unit {0}) × Site
  unfolding commit
  confirm_factor u none s = (err server_error, s)
  confirm_factor u (some false) s = (err bad_request, s)
  confirm_factor u (some true) s =
      (ok tt, commit (some (record u { mfa_enabled = true }, mfa_confirmed)) s)

  pub confirm_secret :
      ℕ → String → String → User → Option String → Site → Result HttpError (Unit {0}) × Site
  unfolding confirm_factor verify_mfa commit
  confirm_secret now current_password code u none s = (err bad_request, s)
  confirm_secret now current_password code u (some secret) s =
      if verify u.password_hash current_password
      then confirm_factor u (verify_mfa now (some secret) code) s
      else (err unauthorized, commit (some (u, mfa_confirm_failed)) s)

  pub mfa_confirm : ℕ → String → String → User → Site → Result HttpError (Unit {0}) × Site
  unfolding confirm_secret
  mfa_confirm now current_password code u s =
      confirm_secret now current_password code u (nonempty u.mfa_secret) s
