-- ===== src/Accounts/State.antt =====
-- The rows, requests and answers of app/api/auth.py, and the libraries that it calls.
use kepryx.Base.{ℕ, ◌≡◌, ◌≢◌, ◌↔◌, none, String, Bool, true, Option, some, List}

pub record User : Type 0 where
  pub id : String
  pub username : String
  pub password_hash : String
  pub role : String
  pub mfa_secret : Option String
  pub mfa_enabled : Bool
  pub failed_attempts : ℕ
  pub locked_until : Option ℕ
  pub last_login : Option ℕ
  pub is_active : Bool

-- The actions that are logged; the number is that of the failed attempts.
pub data Event : Type 0 where
  login_blocked_lockout mfa_failed login_success mfa_enroll_failed mfa_enrolled mfa_confirm_failed
        mfa_confirmed password_changed :
      Event
  account_locked login_failed : ℕ → Event

pub record Site : Type 0 where
  pub users : List User
  pub log : List (String × Event)

pub record Settings : Type 0 where
  pub max_attempts : ℕ
  pub lockout_min : ℕ
  pub access_ttl_min : ℕ
  pub refresh_ttl_days : ℕ

-- argon2 (`verify` is false where it raises a mismatch), pyotp with a window of one step, which raises
-- (`none`) exactly on a secret that is not base32, and the cipher under `encrypt_secret` and `decrypt_secret`, which raises on a text that it did not make.
pub record Crypto : Type 0 where
  pub verify : String → String → Bool
  pub hash : String → String → String
  pub totp : String → ℕ → String → Option Bool
  pub is_base32 : String → Bool
  pub encrypt : String → String → String
  pub decrypt : String → String → Option String
  pub totp_raises :
      (secret : String) (now : ℕ) (code : String)
      → (is_base32 secret ≡ true) ↔ (totp secret now code ≢ none)
  pub verify_hash : (salt p : String) → verify (hash salt p) p ≡ true
  pub decrypt_encrypt : (secret salt : String) → decrypt (encrypt secret salt) salt ≡ some secret

pub record LoginRequest : Type 0 where
  pub username : String
  pub password : String
  pub mfa_code : Option String

-- The answers 400, 401, 403, 500, 503, and 423 with the minutes left.
pub data HttpError : Type 0 where
  bad_request unauthorized forbidden server_error unavailable : HttpError
  locked : ℕ → HttpError

pub record Claims : Type 0 where
  pub sub : String
  pub scopes : List String
  pub iat_ms : ℕ
  pub exp : ℕ
  pub jti : String
  pub type : String

pub record TokenResponse : Type 0 where
  pub access : Claims
  pub refresh : Claims
  pub expires_in : ℕ
