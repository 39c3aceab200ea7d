-- ===== src/Accounts/Lockout.antt =====
-- What a wrong guess does to the account.
use kepryx.Base.{
  ℕ, ◌+◌, ◌≡◌, ◌⊎◌, refl, sym, ap, ◌∙◌, String, Bool, true, false, false≢true, some, List, [], ◌∷◌,
  str_eq, eq_refl, arith, Bool-cases, inl, inr, if◌then◌else◌, Result, ok, err,
}
use mathlib.Core.Path.{subst}
use kepryx.Accounts.State.{
  User, Event, Site, Settings, Crypto, LoginRequest, HttpError, unauthorized, locked, server_error,
  bad_request, TokenResponse, login_blocked_lockout, mfa_failed,
}
use kepryx.Accounts.{
  find_user, put_user, commit, is_locked, count_failure, failure_event, second_factor, after_factor,
  attempt, answer, login_as, login,
}

-- A row that was found is found again once it is replaced.
pub find-put :
    (u v : User) (us : List User)
    → find_user v.username us ≡ some u
    → find_user v.username (put_user v us) ≡ some v
unfolding find_user put_user
find-put u v [] e = cc
find-put u v (w ∷ us) e = elim (Bool-cases (str_eq w.username v.username)) [
  | inl q ↦ rw (q, eq_refl v.username) refl
  | inr q ↦ rw (q, q) (find-put u v us (ground arith))
]

-- An answer that comes from checking the guess.
pub is_checked : {A : Type 0} → Result HttpError A → Bool
is_checked (ok a) = true
is_checked (err (locked n)) = false
is_checked (err unauthorized) = true
is_checked (err bad_request) = true
is_checked (err server_error) = true
is_checked (err _) = true

-- One call of `login`, with the time and the random texts that it draws.
pub record Guess : Type 0 where
  pub now : ℕ
  pub salt : String
  pub jti : String
  pub jti2 : String
  pub body : LoginRequest

module _ (C : Settings) (K : Crypto) where
  open K use {verify}

  -- The password is wrong, or the second factor missing or wrong.
  abbrev pub IsWrong : ℕ → LoginRequest → User → Type 0
  IsWrong now body u =
      (verify u.password_hash body.password ≡ false) ⊎ (second_factor C K now body u ≡ some false)

  -- What a wrong guess does to the row.
  record Refused (now : ℕ) (salt : String) (body : LoginRequest) (u : User) : Type 0 where
    event : Event
    row : User
    written : (attempt C K now salt body u).1 ≡ some (row, event)
    kept : row ≡ (if is_locked C K now u then u else count_failure C K now u)
    checked :
        is_checked (attempt C K now salt body u).0 ≡ (if is_locked C K now u then false else true)

  attempt-Refused :
      (now : ℕ) (salt : String) (body : LoginRequest) (u : User)
      → IsWrong now body u
      → Refused now salt body u
  unfolding attempt after_factor is_checked
  attempt-Refused now salt body u w = elim (Bool-cases (is_locked C K now u)) [
    | inl l ↦ record {
      event = login_blocked_lockout;
      row = u;
      written = rw l refl;
      kept = rw l refl;
      checked = rw l refl;
    }
    | inr l ↦ elim (Bool-cases (verify u.password_hash body.password)) [
      | inl v ↦ elim w [
        | inl f ↦ absurd (false≢true (sym f ∙ v))
        | inr f ↦ record {
          event = mfa_failed;
          row = count_failure C K now u;
          written = rw (l, v, f) refl;
          kept = rw l refl;
          checked = rw (l, v, f) refl;
        }
      ]
      | inr v ↦ record {
        event = failure_event C K u;
        row = count_failure C K now u;
        written = rw (l, v) refl;
        kept = rw l refl;
        checked = rw (l, v) refl;
      }
    ]
  ]

  pub log_in : Guess → Site → Result HttpError TokenResponse × Site
  log_in g s = login C K g.now g.salt g.jti g.jti2 g.body s

  -- How many of the log-ins, one after the other, are answered by checking the guess.
  unfoldable pub checked_guesses : List Guess → Site → ℕ
  unfolding log_in is_checked
  checked_guesses [] s = 0
  checked_guesses (g ∷ gs) s =
      (if is_checked (log_in g s).0 then 1 else 0) + checked_guesses gs (log_in g s).1

  is_checked-answer :
      (now : ℕ) (jti jti2 : String) (r : Result HttpError User)
      → is_checked (answer C K now jti jti2 r) ≡ is_checked r
  unfolding answer is_checked
  is_checked-answer now jti jti2 (ok u) = refl
  is_checked-answer now jti jti2 (err e) = refl

  -- A wrong guess, as the table shows it.
  pub record Step (g : Guess) (u : User) (s : Site) : Type 0 where
    pub row : User
    pub found : find_user u.username (log_in g s).1.users ≡ some row
    pub kept : row ≡ (if is_locked C K g.now u then u else count_failure C K g.now u)
    pub checked : is_checked (log_in g s).0 ≡ (if is_locked C K g.now u then false else true)

  pub log_in-Step :
      (g : Guess) (u : User) (s : Site)
      → find_user u.username s.users ≡ some u
      → g.body.username ≡ u.username
      → IsWrong g.now g.body u
      → Step g u s
  unfolding log_in login login_as commit count_failure
  log_in-Step g u s f n w =
      let r = attempt-Refused g.now g.salt g.body u w in
      let here : find_user g.body.username s.users ≡ some u = ap (λ x. find_user x s.users) n ∙ f in
      let a = attempt C K g.now g.salt g.body u in
      let run : log_in g s ≡ (answer C K g.now g.jti g.jti2 a.0, commit (some (r.row, r.event)) s) =
        ap (λ o. login_as C K g.now g.salt g.jti g.jti2 g.body o s) here
        ∙ ap (λ w. (answer C K g.now g.jti g.jti2 a.0, commit w s)) r.written in
      let same_name : r.row.username ≡ u.username =
        ap (λ x. x.username) r.kept
        ∙ elim (Bool-cases (is_locked C K g.now u)) [ inl q ↦ rw q refl | inr q ↦ rw q refl ] in
      record {
        row = r.row;
        found =
            ap (λ x. find_user u.username x.1.users) run
            ∙ subst (λ m. find_user m (put_user r.row s.users) ≡ some r.row) same_name
                (find-put u r.row s.users (ap (λ m. find_user m s.users) same_name ∙ f));
        kept = r.kept;
        checked =
            ap (λ x. is_checked x.0) run ∙ is_checked-answer g.now g.jti g.jti2 a.0 ∙ r.checked;
      }
