-- ===== src/Accounts/Guesses.antt =====
-- The lock-out bounds how many guesses are checked.

use kepryx.Base.{
  ℕ, suc, ◌+◌, ◌-◌, ◌*◌, ◌≤◌, ◌<◌, ◌≡◌, refl, sym, ap, ◌∙◌, max, String, Bool, true, false,
  false≢true, Option, none, some, List, [], ◌∷◌, ltb, leb, All, arith, Bool-cases, inl, inr,
  if◌then◌else◌,
}
use kepryx.Accounts.State.{User, Site, Settings, Crypto}
use kepryx.Accounts.{find_user, is_locked, count_failure, second_factor}
use kepryx.Accounts.Lockout.{Guess, IsWrong, is_checked, log_in, checked_guesses, log_in-Step}

module _ (C : Settings) (K : Crypto) (name : String) (start : ℕ) where
  -- The end of a lock-out that begins at the start.
  horizon : ℕ
  horizon = start + C.lockout_min * 60000

  -- Locked until then, whenever it is looked at before.
  through : User → Bool
  unfolding horizon
  through u = elim u.locked_until [ none ↦ false | some until ↦ leb horizon until ]

  -- How many guesses can still be checked.
  budget : User → ℕ
  unfolding through
  budget u = if through u then 0 else max 1 (C.max_attempts - u.failed_attempts)

  -- A wrong guess against the account, made within the time.
  abbrev pub InTime : User → Guess → Type 0
  InTime u g =
      (g.body.username ≡ name)
      × (start ≤ g.now)
      × (g.now < start + C.lockout_min * 60000)
      × IsWrong C K g.now g.body u

  through_locked :
      (u : User) (now : ℕ) → now < horizon → through u ≡ true → is_locked C K now u ≡ true
  unfolding through is_locked
  through_locked u now h t = go u.locked_until t
    where
      go :
          (o : Option ℕ)
          → (elim o [ none ↦ false | some until ↦ leb horizon until ]) ≡ true
          → (elim o [ none ↦ false | some until ↦ ltb now until ]) ≡ true
      go none e = e
      go (some until) e = ground arith

  through-failure :
      (u : User) (now : ℕ)
      → start ≤ now
      → through u ≡ false
      → through (count_failure C K now u) ≡ leb C.max_attempts (suc u.failed_attempts)
  unfolding through count_failure horizon
  through-failure u now h t = elim (Bool-cases (leb C.max_attempts (suc u.failed_attempts))) [
    | inl e ↦
        let late : leb (start + C.lockout_min * 60000) (now + C.lockout_min * 60000) ≡ true =
          ground arith in
        rw (e, late) refl
    | inr e ↦ rw (e, t) refl
  ]

  budget-failure :
      (u : User) (now : ℕ)
      → start ≤ now
      → through u ≡ false
      → suc (budget (count_failure C K now u)) ≤ max 1 (C.max_attempts - u.failed_attempts)
  unfolding budget count_failure
  budget-failure u now h t =
      rw (through-failure u now h t)
        (elim (Bool-cases (leb C.max_attempts (suc u.failed_attempts))) [
          | inl e ↦ rw e (omega arith)
          | inr e ↦ rw e (ground arith)
        ])

  budget-open :
      (u : User) → through u ≡ false → budget u ≡ max 1 (C.max_attempts - u.failed_attempts)
  unfolding budget
  budget-open u t = rw t refl

  InTime-failure :
      (u : User) (now : ℕ) (g : Guess) → InTime u g → InTime (count_failure C K now u) g
  unfolding count_failure second_factor
  InTime-failure u now g w = w

  All-failure :
      (u : User) (now : ℕ) (gs : List Guess)
      → All (InTime u) gs
      → All (InTime (count_failure C K now u)) gs
  All-failure u now [] w = tt
  All-failure u now (g ∷ gs) w = (InTime-failure u now g w.0, All-failure u now gs w.1)

  count_failure_name :
      (u : User) (now : ℕ) → u.username ≡ name → (count_failure C K now u).username ≡ name
  unfolding count_failure
  count_failure_name u now e = e

  budget_bound :
      (gs : List Guess) (u : User) (s : Site)
      → u.username ≡ name
      → find_user name s.users ≡ some u
      → All (InTime u) gs
      → checked_guesses C K gs s ≤ budget u
  unfolding checked_guesses
  budget_bound [] u s n f w = omega arith
  budget_bound (g ∷ gs) u s n f w =
      let st = log_in-Step C K g u s (ap (λ m. find_user m s.users) n ∙ f) (w.0.0 ∙ sym n) w.0.3 in
      let found : find_user name (log_in C K g s).1.users ≡ some st.row =
        ap (λ m. find_user m (log_in C K g s).1.users) (sym n) ∙ st.found in
      elim (Bool-cases (is_locked C K g.now u)) [
        | inl l ↦
            let same : st.row ≡ u = st.kept ∙ (rw l refl) in
            let rest = budget_bound gs u (log_in C K g s).1 n (found ∙ ap some same) w.1 in
            let not_checked : is_checked (log_in C K g s).0 ≡ false = st.checked ∙ (rw l refl) in
            rw not_checked (omega (arith, rest))
        | inr l ↦
            let counted : st.row ≡ count_failure C K g.now u = st.kept ∙ (rw l refl) in
            let open_ : through u ≡ false = elim (Bool-cases (through u)) [
              | inl t ↦
                  absurd (false≢true (sym l ∙ through_locked u g.now (unfold horizon in w.0.2) t))
              | inr t ↦ t
            ] in
            let rest =
              budget_bound gs (count_failure C K g.now u) (log_in C K g s).1
                (count_failure_name u g.now n) (found ∙ ap some counted)
                (All-failure u g.now gs w.1) in
            let checked : is_checked (log_in C K g s).0 ≡ true = st.checked ∙ (rw l refl) in
            let less = budget-failure u g.now w.0.1 open_ in
            rw checked (omega (arith, rest, less, budget-open u open_))
      ]

  -- Of any wrong guesses against one account within the length of one lock-out, in any order of their
  -- times, with wrong passwords or wrong codes, at most `max_attempts` less the failures already
  -- counted are checked, and one if that is less than one.
  pub guess_bound :
      (gs : List Guess) (u : User) (s : Site)
      → u.username ≡ name
      → find_user name s.users ≡ some u
      → All (InTime u) gs
      → checked_guesses C K gs s ≤ max 1 (C.max_attempts - u.failed_attempts)
  guess_bound gs u s n f w =
      let b : budget u ≤ max 1 (C.max_attempts - u.failed_attempts) =
        unfold budget in ground arith in
      omega (arith, b, budget_bound gs u s n f w)
