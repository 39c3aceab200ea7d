-- ===== src/Accounts/Reach.antt =====
-- The handlers in any order: no account loses its second factor, and log-in never breaks.

use kepryx.Base.{
  ℕ, ◌≡◌, ◌≢◌, refl, sym, ap, ◌∙◌, String, Bool, true, false, Option, none, some, All, nonempty,
  Bool-cases, inl, inr, if◌then◌else◌, Result, ok, err,
}
use kepryx.Accounts.State.{
  User, Event, mfa_enrolled, mfa_enroll_failed, mfa_confirmed, mfa_confirm_failed, Site, Settings,
  Crypto, LoginRequest, HttpError, server_error, locked, login_blocked_lockout, bad_request,
  unauthorized,
}
use kepryx.Accounts.{
  find_user, commit, is_locked, lock_minutes, failure_event, protect_mfa_secret, reveal_mfa_secret,
  verify_mfa, code_matches, confirm_secret, count_failure, second_factor, after_factor, attempt,
  answer, login_as, login, mfa_enroll, confirm_factor, mfa_confirm,
}
use kepryx.Accounts.Factor.{
  has_code, nonempty-some, usable, readable, HasFactor, readable-protect, commit-HasFactor,
  find-HasFactor, attempt-Keeps,
}

module _ (C : Settings) (K : Crypto) where
  open K use {verify, is_base32}

  -- The handlers that write accounts.
  pub data Handled : Site → Site → Type 0 where
    log_in :
        (now : ℕ) (salt jti jti2 : String) (body : LoginRequest) (s : Site)
        → has_code 58 salt ≡ false
        → Handled s (login C K now salt jti jti2 body s).1
    enroll :
        (now : ℕ) (salt secret current_password name : String) (u : User) (s : Site)
        → has_code 58 salt ≡ false
        → is_base32 secret ≡ true
        → find_user name s.users ≡ some u
        → Handled s (mfa_enroll C K now salt secret current_password u s).1
    confirm :
        (now : ℕ) (current_password code name : String) (u : User) (s : Site)
        → find_user name s.users ≡ some u
        → Handled s (mfa_confirm C K now current_password code u s).1

  -- Any number of them.
  pub data Reached (s : Site) : Site → Type 0 where
    start : Reached s s
    then_ : {s' s'' : Site} → Reached s s' → Handled s' s'' → Reached s s''

  login-HasFactor :
      (now : ℕ) (salt jti jti2 : String) (body : LoginRequest) (s : Site) (found : Option User)
      → has_code 58 salt ≡ false
      → ((u : User) → found ≡ some u → HasFactor C K u)
      → All (HasFactor C K) s.users
      → All (HasFactor C K) (login_as C K now salt jti jti2 body found s).1.users
  unfolding login_as
  login-HasFactor now salt jti jti2 body s none h f all = all
  login-HasFactor now salt jti jti2 body s (some u) h f all =
      commit-HasFactor C K (attempt C K now salt body u).1 s
        (attempt-Keeps C K now salt body u h (f u refl)) all

  enroll-HasFactor :
      (now : ℕ) (salt secret p : String) (u : User) (s : Site)
      → has_code 58 salt ≡ false
      → is_base32 secret ≡ true
      → HasFactor C K u
      → All (HasFactor C K) s.users
      → All (HasFactor C K) (mfa_enroll C K now salt secret p u s).1.users
  unfolding mfa_enroll
  enroll-HasFactor now salt secret p u s h b32 f all = go u.mfa_enabled (verify u.password_hash p)
    where
      go :
          (b c : Bool)
          → All (HasFactor C K) (
              let enrolled = record u { mfa_secret = some (protect_mfa_secret C K salt secret) } in
              let r : Result HttpError String × Site =
                if b
                then (err bad_request, s)
                else if c
                then (ok secret, commit (some (enrolled, mfa_enrolled)) s)
                else (err unauthorized, commit (some (u, mfa_enroll_failed)) s) in
              r.1.users)
      go true c = all
      go false true =
          commit-HasFactor C K
            (some
              (record u { mfa_secret = some (protect_mfa_secret C K salt secret) }, mfa_enrolled))
            s (λ b. readable-protect C K salt secret h b32) all
      go false false = commit-HasFactor C K (some (u, mfa_enroll_failed)) s f all

  verified-readable :
      (now : ℕ) (secret code : String)
      → verify_mfa C K now (some secret) code ≡ some true
      → readable C K (some secret) ≡ true
  unfolding verify_mfa readable
  verified-readable now secret digits e = go (reveal_mfa_secret C K secret) e
    where
      go : (o : Option String) → code_matches C K now digits o ≡ some true → usable C K o ≡ true
      go none q = (unfold code_matches in cc)
      go (some s) q = (K.totp_raises s now digits).1 (λ e.
          let bad : ◌≡◌ {A = Option Bool} none (some true) = sym e ∙ (unfold code_matches in q) in
          cc)

  confirm-HasFactor :
      (now : ℕ) (p digits : String) (u : User) (s : Site)
      → HasFactor C K u
      → All (HasFactor C K) s.users
      → All (HasFactor C K) (mfa_confirm C K now p digits u s).1.users
  unfolding mfa_confirm confirm_secret confirm_factor
  confirm-HasFactor now p digits u s f all = go (nonempty u.mfa_secret) refl
    where
      confirmed :
          (o : Option Bool)
          → (o ≡ some true → readable C K u.mfa_secret ≡ true)
          → All (HasFactor C K) (confirm_factor C K u o s).1.users
      confirmed none k = all
      confirmed (some false) k = all
      confirmed (some true) k =
          commit-HasFactor C K (some (record u { mfa_enabled = true }, mfa_confirmed)) s
            (λ b. k refl) all

      go :
          (o : Option String)
          → nonempty u.mfa_secret ≡ o
          → All (HasFactor C K) (confirm_secret C K now p digits u o s).1.users
      go none e = all
      go (some secret) e = elim (Bool-cases (verify u.password_hash p)) [
        | inl v ↦ rw v (
            confirmed (verify_mfa C K now (some secret) digits) (λ o.
              ap (readable C K) (nonempty-some u.mfa_secret secret e)
              ∙ verified-readable now secret digits o))
        | inr v ↦ rw v (commit-HasFactor C K (some (u, mfa_confirm_failed)) s f all)
      ]

  handled-HasFactor :
      {s s' : Site} → Handled s s' → All (HasFactor C K) s.users → All (HasFactor C K) s'.users
  unfolding login
  handled-HasFactor (log_in now salt jti jti2 body s h) all =
      login-HasFactor now salt jti jti2 body s (find_user body.username s.users) h
        (λ u e. find-HasFactor C K body.username s.users u all e) all
  handled-HasFactor (enroll now salt secret p name u s h b e) all =
      enroll-HasFactor now salt secret p u s h b (find-HasFactor C K name s.users u all e) all
  handled-HasFactor (confirm now p digits name u s e) all =
      confirm-HasFactor now p digits u s (find-HasFactor C K name s.users u all e) all

  Reached-HasFactor :
      {s s' : Site} → Reached s s' → All (HasFactor C K) s.users → All (HasFactor C K) s'.users
  Reached-HasFactor start all = all
  Reached-HasFactor (then_ r step) all = handled-HasFactor step (Reached-HasFactor r all)

  answer-fault :
      (now : ℕ) (jti jti2 : String) (r : Result HttpError User)
      → answer C K now jti jti2 r ≡ err server_error
      → r ≡ err server_error
  unfolding answer
  answer-fault now jti jti2 (ok u) e = cc
  answer-fault now jti jti2 (err x) e = cc

  matches_some :
      (now : ℕ) (digits : String) (o : Option String)
      → usable C K o ≡ true
      → code_matches C K now digits o ≢ none
  unfolding code_matches
  matches_some now digits none r e = cc
  matches_some now digits (some p) r e = (K.totp_raises p now digits).0 r e

  verify_some :
      (now : ℕ) (digits : String) (o : Option String)
      → readable C K o ≡ true
      → verify_mfa C K now o digits ≢ none
  unfolding verify_mfa readable
  verify_some now digits none r e = cc
  verify_some now digits (some secret) r e =
      matches_some now digits (reveal_mfa_secret C K secret) r e

  second_factor_some :
      (now : ℕ) (body : LoginRequest) (u : User)
      → HasFactor C K u
      → second_factor C K now body u ≢ none
  unfolding second_factor
  second_factor_some now body u f = go u.mfa_enabled (nonempty body.mfa_code) f
    where
      go :
          (b : Bool) (o : Option String)
          → (b ≡ true → readable C K u.mfa_secret ≡ true)
          → (let r : Option Bool =
                if b
                then elim o [
                  | none ↦ some false
                  | some digits ↦ verify_mfa C K now u.mfa_secret digits
                ]
                else some true in
              r)
            ≢ none
      go false o k e = cc
      go true none k e = cc
      go true (some digits) k e = verify_some now digits u.mfa_secret (k refl) e

  after_factor_fine :
      (now : ℕ) (salt : String) (u : User) (o : Option Bool)
      → o ≢ none
      → (after_factor C K now salt u o).0 ≢ err server_error
  unfolding after_factor
  after_factor_fine now salt u none h e = h refl
  after_factor_fine now salt u (some false) h e = cc
  after_factor_fine now salt u (some true) h e = cc

  attempt_fine :
      (now : ℕ) (salt : String) (body : LoginRequest) (u : User)
      → HasFactor C K u
      → (attempt C K now salt body u).0 ≢ err server_error
  unfolding attempt
  attempt_fine now salt body u f = go (is_locked C K now u) (verify u.password_hash body.password)
    where
      go :
          (b c : Bool)
          → (let r : Result HttpError User × Option (User × Event) =
                if b
                then (err (locked (lock_minutes C K now u)), some (u, login_blocked_lockout))
                else if c
                then after_factor C K now salt u (second_factor C K now body u)
                else (err unauthorized, some (count_failure C K now u, failure_event C K u)) in
              r.0)
            ≢ err server_error
      go true c e = cc
      go false false e = cc
      go false true e =
          after_factor_fine now salt u (second_factor C K now body u)
            (second_factor_some now body u f) e

  login_as_fine :
      (now : ℕ) (salt jti jti2 : String) (body : LoginRequest) (s : Site) (found : Option User)
      → ((u : User) → found ≡ some u → HasFactor C K u)
      → (login_as C K now salt jti jti2 body found s).0 ≢ err server_error
  unfolding login_as
  login_as_fine now salt jti jti2 body s none f e = cc
  login_as_fine now salt jti jti2 body s (some u) f e =
      attempt_fine now salt body u (f u refl)
        (answer-fault now jti jti2 (attempt C K now salt body u).0 e)

  -- On the way to such a state no log-in ends in a server error, and every account with a second
  -- factor still has a secret that can be read and is base32: log-in, enrolment and confirmation may
  -- have been called in any order and at any times, if at first every account with a second factor had
  -- such a secret, the secrets drawn are base32, and the random salts have no colon.
  pub login_never_faults :
      {s s' : Site} (now : ℕ) (salt jti jti2 : String) (body : LoginRequest)
      → Reached s s'
      → All (HasFactor C K) s.users
      → ((login C K now salt jti jti2 body s').0 ≢ err server_error) × All (HasFactor C K) s'.users
  unfolding login
  login_never_faults {s} {s'} now salt jti jti2 body r all =
      let kept = Reached-HasFactor r all in
      (
        login_as_fine now salt jti jti2 body s' (find_user body.username s'.users)
            (λ u e. find-HasFactor C K body.username s'.users u kept e),
        kept,
      )
