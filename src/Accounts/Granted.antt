-- ===== src/Accounts/Granted.antt =====
-- What a log-in that was granted went through.
use mathlib.Core.Path.{subst}
use kepryx.Base.{
  ℕ, ◌≡◌, refl, sym, ap, ◌∙◌, String, Bool, true, false, Option, none, some, List, [], ◌∷◌, str_eq,
  eq_iff, arith, Bool-cases, inl, inr, Result, ok, err,
}
use kepryx.Accounts.State.{
  User, login_success, Site, Settings, Crypto, LoginRequest, HttpError, TokenResponse,
}
use kepryx.Accounts.{
  find_user, put_user, commit, create_access_token, create_refresh_token, is_locked, second_factor,
  welcome, after_factor, attempt, answer, login_as, login,
}
use kepryx.Accounts.Lockout.{find-put}

module _ (C : Settings) (K : Crypto) where
  open K use {verify}

  -- The way to a success.
  record Passed (now : ℕ) (salt : String) (body : LoginRequest) (u v : User) : Type 0 where
    unlocked : is_locked C K now u ≡ false
    password : verify u.password_hash body.password ≡ true
    factor : second_factor C K now body u ≡ some true
    row : v ≡ welcome C K now salt u
    written : (attempt C K now salt body u).1 ≡ some (welcome C K now salt u, login_success)

  factor_passed :
      (now : ℕ) (salt : String) (u v : User) (o : Option Bool)
      → (after_factor C K now salt u o).0 ≡ ok v
      → (o ≡ some true)
        × (v ≡ welcome C K now salt u)
        × ((after_factor C K now salt u o).1 ≡ some (welcome C K now salt u, login_success))
  unfolding after_factor
  factor_passed now salt u v none e = cc
  factor_passed now salt u v (some false) e = cc
  factor_passed now salt u v (some true) e =
      (refl, ap (λ r. elim r [ ok x ↦ x | err _ ↦ v ]) (sym e), refl)

  attempt-Passed :
      (now : ℕ) (salt : String) (body : LoginRequest) (u v : User)
      → (attempt C K now salt body u).0 ≡ ok v
      → Passed now salt body u v
  unfolding attempt
  attempt-Passed now salt body u v e = elim (Bool-cases (is_locked C K now u)) [
    | inl l ↦ cc (rw l at e)
    | inr l ↦ elim (Bool-cases (verify u.password_hash body.password)) [
      | inl p ↦
          let (f, r, w) =
            factor_passed now salt u v (second_factor C K now body u) (rw (l, p) at e) in
          record { unlocked = l; password = p; factor = f; row = r; written = rw (l, p) w }
      | inr p ↦ cc (rw (l, p) at e)
    ]
  ]

  -- The row behind a token, what was checked of it, and the row as it is afterwards.
  pub record Granted (now : ℕ) (jti jti2 : String) (body : LoginRequest) (s s' : Site)
      (t : TokenResponse) : Type 0 where
    pub user : User
    pub after : User
    pub found : find_user body.username s.users ≡ some user
    pub unlocked : is_locked C K now user ≡ false
    pub password : verify user.password_hash body.password ≡ true
    pub factor : second_factor C K now body user ≡ some true
    pub access : t.access ≡ create_access_token C K now jti user
    pub refresh : t.refresh ≡ create_refresh_token C K now jti2 user
    pub stored : find_user body.username s'.users ≡ some after
    pub no_failures : after.failed_attempts ≡ 0
    pub no_lock : after.locked_until ≡ none
    pub same_hash : after.password_hash ≡ user.password_hash
    pub same_factor : after.mfa_enabled ≡ user.mfa_enabled

  find_user_name :
      (name : String) (us : List User) (u : User) → find_user name us ≡ some u → u.username ≡ name
  unfolding find_user
  find_user_name name [] u e = cc
  find_user_name name (v ∷ vs) u e = elim (Bool-cases (str_eq v.username name)) [
    | inl q ↦
        let p : v ≡ u = cc (rw q at e) in
        ap (λ x. x.username) (sym p) ∙ (eq_iff v.username name).0 q
    | inr q ↦ find_user_name name vs u (ground arith)
  ]

  answer-ok :
      (now : ℕ) (jti jti2 : String) (r : Result HttpError User) (t : TokenResponse)
      → answer C K now jti jti2 r ≡ ok t
      → (v : User) × (r ≡ ok v)
        × (t.access ≡ create_access_token C K now jti v)
        × (t.refresh ≡ create_refresh_token C K now jti2 v)
  unfolding answer
  answer-ok now jti jti2 (err x) t e = cc
  answer-ok now jti jti2 (ok v) t e = (
    v,
    refl,
    ap (λ r. elim r [ ok x ↦ x.access | err _ ↦ t.access ]) (sym e),
    ap (λ r. elim r [ ok x ↦ x.refresh | err _ ↦ t.refresh ]) (sym e),
  )

  login_as-Granted :
      (now : ℕ) (salt jti jti2 : String) (body : LoginRequest) (s : Site) (t : TokenResponse)
      (o : Option User)
      → find_user body.username s.users ≡ o
      → (login_as C K now salt jti jti2 body o s).0 ≡ ok t
      → Granted now jti jti2 body s (login_as C K now salt jti jti2 body o s).1 t
  unfolding login_as create_access_token create_refresh_token welcome commit
  login_as-Granted now salt jti jti2 body s t none f e = cc
  login_as-Granted now salt jti jti2 body s t (some u) f e =
      let (v, r, a, b) = answer-ok now jti jti2 (attempt C K now salt body u).0 t e in
      let p = attempt-Passed now salt body u v r in
      let w = welcome C K now salt u in
      let name = find_user_name body.username s.users u f in
      record {
        user = u;
        after = w;
        found = f;
        unlocked = p.unlocked;
        password = p.password;
        factor = p.factor;
        access = a ∙ ap (create_access_token C K now jti) p.row;
        refresh = b ∙ ap (create_refresh_token C K now jti2) p.row;
        stored =
            ap (λ x. find_user body.username (commit x s).users) p.written
            ∙ subst (λ m. find_user m (put_user w s.users) ≡ some w) name
                (find-put u w s.users (ap (λ m. find_user m s.users) name ∙ f));
        no_failures = refl;
        no_lock = refl;
        same_hash = refl;
        same_factor = refl;
      }

  -- A log-in that ends in tokens was for a row that was not locked then, whose password it gave, and
  -- whose second factor, if it has one. The tokens carry that row's id, role and the times of the
  -- settings; afterwards the row has no failures and no lock, and the same hash and factor setting.
  pub login-Granted :
      (now : ℕ) (salt jti jti2 : String) (body : LoginRequest) (s : Site) (t : TokenResponse)
      → (login C K now salt jti jti2 body s).0 ≡ ok t
      → Granted now jti jti2 body s (login C K now salt jti jti2 body s).1 t
  unfolding login
  login-Granted now salt jti jti2 body s t e =
      login_as-Granted now salt jti jti2 body s t (find_user body.username s.users) refl e
