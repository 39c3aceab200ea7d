-- ===== src/Accounts/Tests.antt =====
-- Tests of the account handlers, and instances of their theorems, with hashes and ciphers that keep
-- the text as it is.
use kepryx.Base.{
  ℕ, ◌+◌, ◌*◌, ◌≤◌, ◌<◌, ◌≡◌, ◌≢◌, ◌⊎◌, refl, String, Bool, true, false, none, some, [], ◌∷◌, All,
  str_eq, eq_refl, arith, inl, ok, err,
}
use kepryx.Redis.Memory.{memory, empty}
use kepryx.Tokens.{Payload, claim, issued_at_ms, is_token_revoked, revoke_user_tokens}
use kepryx.Tokens.Trace.{here, wait}
use kepryx.PasswordPolicy.{
  validate_password, checks, first_error, has_name, contains_text, starts_with, is_upper, is_lower,
  is_ascii_digit, is_special, has_run, starts_run,
}
use kepryx.PasswordPolicy.Strong.{IsStrong, validate_password-IsStrong}
use kepryx.Accounts.State.{
  User, Site, Settings, Crypto, LoginRequest, HttpError, locked, server_error, TokenResponse,
}
use kepryx.Accounts.{
  find_user, put_user, commit, is_locked, lock_minutes, count_failure, second_factor, welcome,
  after_factor, attempt, answer, login_as, login, create_access_token, create_refresh_token,
}
use kepryx.Accounts.Lockout.{Guess, checked_guesses}
use kepryx.Accounts.Guesses.{InTime, guess_bound}
use kepryx.Accounts.Factor.{has_code, HasFactor}
use kepryx.Accounts.Reach.{start, then_, log_in, login_never_faults}
use kepryx.Accounts.Granted.{Granted, login-Granted}
use kepryx.Accounts.PasswordChange.{
  change_password, after_policy, store_password, Changed, change_password-Changed,
  change_password_ends_sessions,
}

abbrev plain : Crypto
plain = record {
  verify = str_eq;
  hash = λ salt p. p;
  totp = λ secret now code. some (str_eq code "123456");
  is_base32 = λ s. true;
  totp_raises = λ s now code. ((λ b e. cc), (λ h. refl));
  encrypt = λ secret salt. secret;
  decrypt = λ text salt. some text;
  verify_hash = λ salt p. eq_refl p;
  decrypt_encrypt = λ secret salt. refl;
}

abbrev settings : Settings
settings = record { max_attempts = 5; lockout_min = 15; access_ttl_min = 30; refresh_ttl_days = 7 }

abbrev ada : User
ada = record {
  id = "u";
  username = "ada";
  password_hash = "old";
  role = "analyst";
  mfa_secret = none;
  mfa_enabled = false;
  failed_attempts = 3;
  locked_until = none;
  last_login = none;
  is_active = true;
}

abbrev site : Site
site = record { users = ada ∷ []; log = [] }

abbrev right : LoginRequest
right = record { username = "ada"; password = "old"; mfa_code = none }

abbrev wrong : LoginRequest
wrong = record { username = "ada"; password = "guess"; mfa_code = none }

abbrev guess : ℕ → Guess
guess t = record { now = t; salt = "s"; jti = "a"; jti2 = "b"; body = wrong }

abbrev pair : TokenResponse
pair = record {
  access = record {
    sub = "u";
    scopes = "analyst" ∷ [];
    iat_ms = 1000;
    exp = 1801;
    jti = "a";
    type = "access";
  };
  refresh = record {
    sub = "u";
    scopes = [];
    iat_ms = 1000;
    exp = 604801;
    jti = "b";
    type = "refresh";
  };
  expires_in = 1800;
}

let_in : (login settings plain 1000 "s" "a" "b" right site).0 ≡ ok pair
unfolding login login_as find_user attempt is_locked second_factor after_factor answer
    create_access_token create_refresh_token welcome
let_in = refl

-- Two more failures lock the account, and then the right password is refused as well.
locked_out :
    (login settings plain 3000 "s" "a" "b" right
      (login settings plain 2000 "s" "a" "b" wrong
        (login settings plain 1000 "s" "a" "b" wrong site).1).1).0
    ≡ err (locked 14)
unfolding login login_as find_user attempt is_locked lock_minutes count_failure answer commit
    put_user
locked_out = refl

in_time :
    (t : ℕ) → 1000 ≤ t → t < 1000 + 15 * 60000 → InTime settings plain "ada" 1000 ada (guess t)
in_time t a b = (refl, a, b, inl refl)

guess_bound_example :
    checked_guesses settings plain (guess 1000 ∷ guess 2000 ∷ guess 3000 ∷ []) site ≤ 2
guess_bound_example =
    guess_bound settings plain "ada" 1000 (guess 1000 ∷ guess 2000 ∷ guess 3000 ∷ []) ada site refl
      (unfold find_user in refl)
      (
        in_time 1000 (omega arith) (omega arith),
        (in_time 2000 (omega arith) (omega arith), (in_time 3000 (omega arith) (omega arith), tt)),
      )

login_never_faults_example :
    ((login settings plain 3000 "s" "a" "b" right
        (login settings plain 1000 "s" "a" "b" wrong site).1).0
      ≢ err server_error)
    × All (HasFactor settings plain) (login settings plain 1000 "s" "a" "b" wrong site).1.users
login_never_faults_example =
    login_never_faults settings plain 3000 "s" "a" "b" right
      (then_ start (log_in 1000 "s" "a" "b" wrong site (unfold has_code in refl))) ((λ e. cc), tt)

login-Granted_example :
    Granted settings plain 1000 "a" "b" right site
      (login settings plain 1000 "s" "a" "b" right site).1
      pair
login-Granted_example = login-Granted settings plain 1000 "s" "a" "b" right site pair let_in

abbrev no_other : ℕ → Bool
no_other c = false

abbrev new_text : String
new_text = "Correct-Horse-7"

accepted : validate_password no_other 14 new_text (some "ada") ≡ ok tt
unfolding validate_password checks first_error has_name contains_text starts_with is_upper is_lower
    is_ascii_digit is_special has_run starts_run
accepted = refl

validate_password-IsStrong_example : IsStrong no_other 14 new_text (some "ada")
validate_password-IsStrong_example =
    validate_password-IsStrong no_other 14 new_text (some "ada") accepted

change_password-Changed_example :
    let out =
      change_password memory plain no_other 14 7 1500000 "s" "old" new_text ada empty site in
    ((out.0 ≡ ok tt)
      × Changed memory plain no_other 14 7 1500000 "old" new_text ada empty out.1 site out.2)
    ⊎ ((e : HttpError) × (out.0 ≡ err e) × (out.2 ≡ site))
change_password-Changed_example =
    change_password-Changed memory plain no_other 14 7 1500000 "s" "old" new_text ada empty site
      (unfold find_user in refl)

changed :
    (change_password memory plain no_other 14 7 1500000 "s" "old" new_text ada empty site).0 ≡ ok tt
unfolding change_password after_policy store_password validate_password checks first_error has_name
    contains_text starts_with is_upper is_lower is_ascii_digit is_special has_run starts_run
    revoke_user_tokens
changed = refl

-- A token of the user, issued before the change.
abbrev token : Payload
token = record {
  jti = some "t";
  sub = some "u";
  exp = some 605800;
  iat = some 1000;
  iat_ms = some 1000000;
}

change_password_ends_sessions_example :
    is_token_revoked memory token 3000000
      (change_password memory plain no_other 14 7 1500000 "s" "old" new_text ada empty site).1
    ≢ some false
unfolding claim issued_at_ms
change_password_ends_sessions_example =
    change_password_ends_sessions memory plain no_other 14 7 1500000 "s" "old" new_text ada empty
      site (λ j. 605800) token 605800 3000000 _ (unfold find_user in refl) changed refl refl
      (omega arith) (omega arith) (wait here (omega arith)) (omega arith)
