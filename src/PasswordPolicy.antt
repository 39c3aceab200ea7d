-- ===== src/PasswordPolicy.antt =====
-- app/core/password_policy.py: which passwords are accepted, over the code points of a text. Lower
-- case is that of ASCII; `other_digit` stands for the digits that `\d` knows beyond ASCII.
pub mod Strong
use kepryx.Base.{
  ℕ, String, Bool, true, false, not, ◌&&◌, ◌||◌, Option, none, some, List, [], ◌∷◌, any, length,
  ltb, leb, ◌==◌, codes, lower, codes_eq, nonempty, if◌then◌else◌, Result, ok, err,
}

abbrev pub common_passwords : List String
common_passwords =
    "password" ∷ "12345678" ∷ "qwerty" ∷ "admin" ∷ "letmein" ∷ "welcome" ∷ "monkey" ∷ "1234567890"
    ∷ "password1" ∷ "abc123" ∷ "iloveyou" ∷ "111111" ∷ []

pub data PolicyError : Type 0 where
  too_short too_long common has_username no_upper no_lower no_digit no_special repeated :
      PolicyError

unfoldable pub starts_with : List ℕ → List ℕ → Bool
starts_with [] ys = true
starts_with (x ∷ xs) [] = false
starts_with (x ∷ xs) (y ∷ ys) = x == y && starts_with xs ys

-- `part in whole`, for texts.
unfoldable pub contains_text : List ℕ → List ℕ → Bool
unfolding starts_with
contains_text part [] = starts_with part []
contains_text part (y ∷ ys) = starts_with part (y ∷ ys) || contains_text part ys

unfoldable pub has_name : Option String → String → Bool
unfolding contains_text
has_name username password = elim (nonempty username) [
  | none ↦ false
  | some name ↦ contains_text (lower name) (lower password)
]

unfoldable pub is_upper : ℕ → Bool
is_upper c = leb 65 c && leb c 90

unfoldable pub is_lower : ℕ → Bool
is_lower c = leb 97 c && leb c 122

unfoldable pub is_ascii_digit : ℕ → Bool
is_ascii_digit c = leb 48 c && leb c 57

unfoldable pub is_special : ℕ → Bool
unfolding is_upper is_lower is_ascii_digit
is_special c = not (is_upper c || is_lower c || is_ascii_digit c)

-- The text starts with a character other than a line feed, three times repeated.
unfoldable pub starts_run : List ℕ → Bool
starts_run (a ∷ b ∷ c ∷ d ∷ rest) = a == b && b == c && c == d && not (a == 10)
starts_run _ = false

-- `re.search(r"(.)\1{3,}", password)`.
unfoldable pub has_run : List ℕ → Bool
unfolding starts_run
has_run [] = false
has_run (c ∷ cs) = starts_run (c ∷ cs) || has_run cs

-- The first `if` whose test holds raises its error.
unfoldable pub first_error : List (Bool × PolicyError) → Result PolicyError (Unit {0})
first_error [] = ok tt
first_error ((test, e) ∷ rest) = if test then err e else first_error rest

-- The tests in their order, each with its error.
unfoldable pub checks : (ℕ → Bool) → ℕ → String → Option String → List (Bool × PolicyError)
unfolding has_name is_upper is_lower is_ascii_digit is_special has_run
checks other_digit min_len password username =
    let cs = codes password in
    (ltb (length cs) min_len, too_short)
    ∷ (ltb 128 (length cs), too_long)
    ∷ (any (λ w. codes_eq (lower password) (codes w)) common_passwords, common)
    ∷ (has_name username password, has_username)
    ∷ (not (any is_upper cs), no_upper)
    ∷ (not (any is_lower cs), no_lower)
    ∷ (not (any (λ c. is_ascii_digit c || other_digit c) cs), no_digit)
    ∷ (not (any is_special cs), no_special)
    ∷ (has_run cs, repeated)
    ∷ []

unfoldable pub validate_password :
    (ℕ → Bool) → ℕ → String → Option String → Result PolicyError (Unit {0})
unfolding first_error checks
validate_password other_digit min_len password username =
    first_error (checks other_digit min_len password username)
