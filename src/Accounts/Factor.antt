-- ===== src/Accounts/Factor.antt =====
-- The second factor: what is stored can be read back, and no handler loses it.
use mathlib.Core.Path.{subst}
use Prim.Native.Char.{code}
use kepryx.Base.{
  ℕ, ◌≡◌, refl, ap, ◌∙◌, String, Bool, true, false, not, ◌&&◌, ◌||◌, Option, none, some, List, [],
  ◌∷◌, ◌==◌, All, str_eq, before, after, append, drop_prefix, nonempty, arith, Bool-cases,
  Option-cases, inl, inr, if◌then◌else◌,
}
use kepryx.Accounts.State.{User, Event, Site, Settings, Crypto, LoginRequest}
use kepryx.Accounts.{
  find_user, put_user, commit, is_locked, mfa_secret_is_protected, protect_mfa_secret,
  reveal_mfa_secret, count_failure, second_factor, upgraded, welcome, after_factor, attempt,
}

-- The character of that code point occurs in the text.
unfoldable pub has_code : ℕ → String → Bool
has_code n String.[] = false
has_code n (String.◌∷◌ c s) = code c == n || has_code n s

before-append :
    (salt rest : String)
    → has_code 58 salt ≡ false
    → before 58 (append salt (append ":" rest)) ≡ salt
unfolding has_code
before-append String.[] rest h = refl
before-append (String.◌∷◌ c s) rest h = ground (arith, before-append s rest)

after-append :
    (salt rest : String)
    → has_code 58 salt ≡ false
    → after 58 (append salt (append ":" rest)) ≡ some rest
unfolding has_code
after-append String.[] rest h = refl
after-append (String.◌∷◌ c s) rest h = ground (arith, after-append s rest)

abbrev pub present : Option String → Bool
present none = false
present (some s) = true

pub nonempty-some : (o : Option String) (s : String) → nonempty o ≡ some s → o ≡ some s
nonempty-some none s e = cc
nonempty-some (some t) s e = elim (Bool-cases (str_eq t "")) [
  | inl q ↦ ground arith
  | inr q ↦ ground arith
]

module _ (C : Settings) (K : Crypto) where
  open K use {verify, hash, totp, is_base32, encrypt, decrypt, decrypt_encrypt}

  -- A secret that was protected under a salt without a colon is read back.
  reveal-protect :
      (salt secret : String)
      → has_code 58 salt ≡ false
      → reveal_mfa_secret C K (protect_mfa_secret C K salt secret) ≡ some secret
  unfolding reveal_mfa_secret protect_mfa_secret
  reveal-protect salt secret h =
      let rest = append salt (append ":" (encrypt secret salt)) in
      ap (λ o. elim o [ none ↦ none | some c ↦ decrypt c (before 58 rest) ])
        (after-append salt (encrypt secret salt) h)
      ∙ ap (decrypt (encrypt secret salt)) (before-append salt (encrypt secret salt) h)
      ∙ decrypt_encrypt secret salt

  -- A secret that was revealed and is base32.
  abbrev pub usable : Option String → Bool
  usable none = false
  usable (some s) = is_base32 s

  unfoldable pub readable : Option String → Bool
  readable none = false
  readable (some s) = usable (reveal_mfa_secret C K s)

  -- An account with a second factor has a secret that can be read and is base32.
  abbrev pub HasFactor : User → Type 0
  HasFactor u = u.mfa_enabled ≡ true → readable u.mfa_secret ≡ true

  pub readable-protect :
      (salt secret : String)
      → has_code 58 salt ≡ false
      → is_base32 secret ≡ true
      → readable (some (protect_mfa_secret C K salt secret)) ≡ true
  unfolding readable
  readable-protect salt secret h b = ap usable (reveal-protect salt secret h) ∙ b

  -- A secret that is not protected is used as it is.
  readable-plain :
      (secret : String)
      → mfa_secret_is_protected secret ≡ false
      → readable (some secret) ≡ true
      → is_base32 secret ≡ true
  unfolding readable reveal_mfa_secret mfa_secret_is_protected
  readable-plain secret p r = elim (Option-cases (drop_prefix "v1:" secret)) [
    | inl e ↦ rw (reveal_mfa_secret, e) at r
    | inr (rest, e) ↦ cc (rw (mfa_secret_is_protected, e) at p)
  ]

  pub welcome-HasFactor :
      (now : ℕ) (salt : String) (u : User)
      → has_code 58 salt ≡ false
      → HasFactor u
      → HasFactor (welcome C K now salt u)
  unfolding welcome upgraded
  welcome-HasFactor now salt u h f e = go u.mfa_secret (u.mfa_enabled) (f e)
    where
      go :
          (o : Option String) (b : Bool)
          → readable o ≡ true
          → readable (elim o [
            | none ↦ none
            | some secret ↦ some (
                if b && not (mfa_secret_is_protected secret)
                then protect_mfa_secret C K salt secret
                else secret)
          ])
            ≡ true
      go none b r = r
      go (some secret) b r = elim (Bool-cases (b && not (mfa_secret_is_protected secret))) [
        | inl q ↦
            let plain : mfa_secret_is_protected secret ≡ false = ground arith in
            rw q (readable-protect salt secret h (readable-plain secret plain r))
        | inr q ↦ rw q r
      ]

  count_failure-HasFactor : (now : ℕ) (u : User) → HasFactor u → HasFactor (count_failure C K now u)
  unfolding count_failure
  count_failure-HasFactor now u f = f

  pub put-HasFactor :
      (u : User) (us : List User) → HasFactor u → All HasFactor us → All HasFactor (put_user u us)
  unfolding put_user
  put-HasFactor u [] f h = tt
  put-HasFactor u (v ∷ vs) f h = elim (Bool-cases (str_eq v.username u.username)) [
    | inl e ↦ rw e (f, h.1)
    | inr e ↦ rw e (h.0, put-HasFactor u vs f h.1)
  ]

  -- What is written keeps the factor.
  abbrev pub Keeps : Option (User × Event) → Type 0
  Keeps w = elim w [ none ↦ Unit {0} | some (u, e) ↦ HasFactor u ]

  pub commit-HasFactor :
      (w : Option (User × Event)) (s : Site)
      → Keeps w
      → All HasFactor s.users
      → All HasFactor (commit w s).users
  unfolding commit
  commit-HasFactor none s k h = h
  commit-HasFactor (some (u, e)) s k h = put-HasFactor u s.users k h

  pub find-HasFactor :
      (name : String) (us : List User) (u : User)
      → All HasFactor us
      → find_user name us ≡ some u
      → HasFactor u
  unfolding find_user
  find-HasFactor name [] u h e = cc
  find-HasFactor name (v ∷ vs) u h e = elim (Bool-cases (str_eq v.username name)) [
    | inl q ↦ (let p : v ≡ u = cc (rw q at e) in subst HasFactor p h.0)
    | inr q ↦ find-HasFactor name vs u h.1 (ground arith)
  ]

  pub attempt-Keeps :
      (now : ℕ) (salt : String) (body : LoginRequest) (u : User)
      → has_code 58 salt ≡ false
      → HasFactor u
      → Keeps (attempt C K now salt body u).1
  unfolding attempt after_factor
  attempt-Keeps now salt body u h f = elim (Bool-cases (is_locked C K now u)) [
    | inl l ↦ rw l f
    | inr l ↦ elim (Bool-cases (verify u.password_hash body.password)) [
      | inl v ↦ rw (l, v) (factor (second_factor C K now body u))
      | inr v ↦ rw (l, v) (count_failure-HasFactor now u f)
    ]
  ]
    where
      factor : (o : Option Bool) → Keeps (after_factor C K now salt u o).1
      factor none = tt
      factor (some false) = count_failure-HasFactor now u f
      factor (some true) = welcome-HasFactor now salt u h f
