-- ===== src/Pii.antt =====
-- app/core/pii.py: the redaction of personal data and secrets in JSON values. Texts are lists of code
-- points. The hash, as hexadecimal digits, and the substitutions of the secret patterns are arguments.
pub mod Clean
pub mod Stored
pub mod Hidden
pub mod Logs
mod Tests
use kepryx.Base.{
  ℕ, zero, suc, String, Bool, true, false, not, ◌&&◌, ◌||◌, Option, none, some, List, [], ◌∷◌, ◌++◌,
  map, any, length, ltb, ◌==◌, codes, codes_eq, lower_code, has_part, if◌then◌else◌,
}

abbrev pub Text : Type 0
Text = List ℕ

-- JSON values; a number is kept as its text.
mutual
  pub data Json : Type 0 where
    null : Json
    flag : Bool → Json
    number : Text → Json
    text : Text → Json
    items : Jsons → Json
    object : Fields → Json

  pub data Jsons : Type 0 where
    nil : Jsons
    cons : Json → Jsons → Jsons

  pub data Fields : Type 0 where
    end : Fields
    field : Text → Json → Fields → Fields

abbrev pub redacted : Text
redacted = codes "***REDACTED***"

-- `name.lower() in names`.
pub is_named : List String → Text → Bool
is_named names k = any (λ n. codes_eq (codes n) (map lower_code k)) names

abbrev pub email_fields : List String
email_fields = "email" ∷ []

abbrev pub ip_fields : List String
ip_fields = "ip" ∷ "ip_address" ∷ "remote_addr" ∷ "x-forwarded-for" ∷ []

abbrev pub agent_fields : List String
agent_fields = "user_agent" ∷ "user-agent" ∷ "useragent" ∷ []

abbrev pub secret_fields : List String
secret_fields = "password" ∷ "passwd" ∷ "secret" ∷ "token" ∷ "api_key" ∷ "private_key" ∷ []

abbrev pub number_fields : List String
number_fields = "ssn" ∷ "social_security_number" ∷ "credit_card" ∷ "card_number" ∷ "cvv" ∷ []

abbrev pub mac_fields : List String
mac_fields = "mac" ∷ "mac_address" ∷ []

-- `s.rsplit(sep, 1)`, if the separator occurs.
pub split_last : ℕ → Text → Option (Text × Text)
split_last sep [] = none
split_last sep (c ∷ s) = elim (split_last sep s) [
  | some (l, r) ↦ some (c ∷ l, r)
  | none ↦ if c == sep then some ([], s) else none
]

add_code : ℕ → List Text → List Text
add_code c [] = (c ∷ []) ∷ []
add_code c (part ∷ rest) = (c ∷ part) ∷ rest

-- `s.split(sep)`.
pub split_on : ℕ → Text → List Text
unfolding add_code
split_on sep [] = [] ∷ []
split_on sep (c ∷ s) = let rest = split_on sep s in if c == sep then [] ∷ rest else add_code c rest

pub has_code : ℕ → Text → Bool
has_code c s = any (λ d. d == c) s

first_code : Text → Text
first_code [] = []
first_code (c ∷ s) = c ∷ []

pub take_codes : ℕ → Text → Text
take_codes zero s = []
take_codes (suc n) [] = []
take_codes (suc n) (c ∷ s) = c ∷ take_codes n s

has : String → Text → Bool
has part s = has_part (codes part) s

-- The tests are made in this order.
pub browser : Text → Text
unfolding has
browser ua =
    if has "Firefox" ua
    then codes "Firefox"
    else if has "Edg/" ua || has "Edge" ua
    then codes "Edge"
    else if has "Chrome" ua
    then codes "Chrome"
    else if has "Safari" ua
    then codes "Safari"
    else if has "curl" (map lower_code ua)
    then codes "curl"
    else if has "python" (map lower_code ua)
    then codes "python"
    else codes "Unknown"

pub os_family : Text → Text
unfolding has
os_family ua =
    if has "Windows" ua
    then codes "Windows"
    else if has "Mac OS" ua || has "Macintosh" ua
    then codes "macOS"
    else if has "Linux" ua
    then codes "Linux"
    else if has "Android" ua
    then codes "Android"
    else if has "iPhone" ua || has "iPad" ua
    then codes "iOS"
    else codes "Unknown"

pub mask_user_agent : Text → Text
unfolding browser os_family
mask_user_agent [] = []
mask_user_agent (c ∷ s) = browser (c ∷ s) ++ codes "/" ++ os_family (c ∷ s)

substitute : List (Text → Text) → Text → Text
substitute [] s = s
substitute (pattern ∷ rest) s = substitute rest (pattern s)

-- A text of fewer than eight characters is not searched.
pub redact_string : List (Text → Text) → Text → Text
unfolding substitute
redact_string patterns s = if ltb (length s) 8 then s else substitute patterns s

-- Three parts of an address and what stands for the rest, if there are more.
four_parts : List Text → Option Text
four_parts (a ∷ b ∷ c ∷ d ∷ []) = some (a ++ codes "." ++ b ++ codes "." ++ c ++ codes ".x")
four_parts _ = none

groups : List Text → Option Text
groups (a ∷ b ∷ c ∷ d ∷ rest) = some (a ++ codes ":" ++ b ++ codes ":" ++ c ++ codes "::x")
groups _ = none

module _ (sha256 : Text → Text) (patterns : List (Text → Text)) where
  pub hash_value : Text → String → Text
  unfolding take_codes
  hash_value s salt = codes "h_" ++ take_codes 16 (sha256 (s ++ codes ":" ++ codes salt))

  pub mask_email : Text → Text
  unfolding hash_value split_last first_code
  mask_email s = elim (split_last 64 s) [
    | none ↦ hash_value s "kepryx"
    | some (local, domain) ↦ first_code local ++ codes "***@" ++ domain
  ]

  -- `if ":" in ip`, and the hash.
  mask_groups : Text → Text
  unfolding groups split_on has_code
  mask_groups s =
      if has_code 58 s
      then elim (groups (split_on 58 s)) [ none ↦ hash_value s "kepryx" | some t ↦ t ]
      else hash_value s "kepryx"

  pub mask_ip : Text → Text
  unfolding four_parts mask_groups
  mask_ip s =
      if has_code 46 s
      then elim (four_parts (split_on 46 s)) [ none ↦ mask_groups s | some t ↦ t ]
      else mask_groups s

  -- A text under a field that is not one of secrets or numbers: the lists of names have no name in
  -- common, so the order of the tests does not matter.
  redact_text : Text → Text → Text
  unfolding mask_email mask_ip mask_user_agent redact_string is_named
  redact_text k s =
      if is_named email_fields k
      then mask_email s
      else if is_named ip_fields k
      then mask_ip s
      else if is_named agent_fields k
      then mask_user_agent s
      else if is_named mac_fields k
      then hash_value s "mac"
      else redact_string patterns s

  pub is_secret : Text → Bool
  unfolding is_named
  is_secret k = is_named secret_fields k || is_named number_fields k

  mutual
    pub redact_pii : Json → Json
    redact_pii null = null
    redact_pii (flag b) = flag b
    redact_pii (number n) = number n
    redact_pii (text s) = text (redact_string patterns s)
    redact_pii (items xs) = items (redact_items xs)
    redact_pii (object fs) = object (redact_fields fs)

    redact_items : Jsons → Jsons
    redact_items nil = nil
    redact_items (cons x xs) = cons (redact_pii x) (redact_items xs)

    pub redact_fields : Fields → Fields
    redact_fields end = end
    redact_fields (field k v fs) =
        field k (if is_secret k then text redacted else redact_field k v) (redact_fields fs)

    -- `_redact_field` for a field that is not secret.
    pub redact_field : Text → Json → Json
    redact_field k null = null
    redact_field k (flag b) = flag b
    redact_field k (number n) = number n
    redact_field k (text s) = text (redact_text k s)
    redact_field k (items xs) = items (redact_items xs)
    redact_field k (object fs) = object (redact_fields fs)
