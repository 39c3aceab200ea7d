-- ===== src/Connectors.antt =====
-- app/core/connector_secrets.py: the settings of a connector, checked, sealed and unsealed. The URL
-- parser, which gives the host in lower case, `is_global`, the cipher, the salts and `str` of a value
-- that is not a text are arguments; a set is a list, and is gone through in that order.
pub mod Schemas
pub mod Safe
pub mod Fields
pub mod Sealed
mod Tests
use kepryx.Base.{
  ℕ, String, Bool, true, false, not, ◌&&◌, ◌||◌, Option, none, some, List, [], ◌∷◌, ◌++◌, any, ◌==◌,
  str_eq, mem_text, if◌then◌else◌, Result, ok, err, ◌>>=◌, ◌>>◌,
}
use kepryx.Networks.{IpTexts, Address}
use kepryx.ScanAuthorization.{ScanError, any_range, admits_host, outside}
use kepryx.Connectors.Schemas.{
  Value, null, flag, number, text, texts, members, sealed, Settings, Schema, schemas, blocked_hosts,
  ConfigError, unknown_connector, missing_fields, unknown_fields, bad_url, blocked_target,
  private_target, bad_regions, half_pair, insecure, bad_provider, no_login, bad_schedule,
  not_encrypted, bad_cipher, no_key, find_schema, get, put, truthy, is_blank,
}

pub has_keys : List String → Settings → Bool
unfolding get
has_keys [] c = true
has_keys (k ∷ ks) c = elim (get k c) [ none ↦ false | some v ↦ has_keys ks c ]

pub only_keys : List String → Settings → Bool
only_keys allowed [] = true
only_keys allowed ((k, v) ∷ rest) = mem_text k allowed && only_keys allowed rest

check : Bool → ConfigError → Result ConfigError (Unit {0})
check b e = if b then ok tt else err e

all_named : List (Option String) → Bool
all_named [] = true
all_named (none ∷ xs) = false
all_named (some s ∷ xs) = not (str_eq s "") && all_named xs

-- `isinstance(regions, list) and regions and all(…)`.
are_regions : Option Value → Bool
unfolding all_named
are_regions (some (texts (x ∷ xs))) = all_named (x ∷ xs)
are_regions _ = false

is_text : String → Option Value → Bool
is_text s (some (text t)) = str_eq t s
is_text s _ = false

is_false : Option Value → Bool
is_false (some (flag b)) = not b
is_false _ = false

same_truth : Bool → Bool → Bool
same_truth true b = b
same_truth false b = not b

-- The rules of AWS, and the settings that they leave.
validate_aws : Settings → Result ConfigError Settings
unfolding check are_regions truthy same_truth put
validate_aws c = do
  check (are_regions (get "regions" c)) bad_regions
  check (same_truth (truthy (get "access_key_id" c)) (truthy (get "secret_access_key" c))) half_pair
  ok (
      if not (truthy (get "role_arn" c)) && not (truthy (get "access_key_id" c))
      then put "use_assume_role" (flag false) c
      else c)

validate_dhcp : Settings → Result ConfigError (Unit {0})
unfolding check is_text truthy
validate_dhcp c = do
  check (is_text "infoblox" (get "provider" c) || is_text "kea" (get "provider" c)) bad_provider
  check
      (not (is_text "infoblox" (get "provider" c))
        || (truthy (get "username" c) && truthy (get "password" c)))
      no_login

-- What the code takes from outside.
pub record Outside : Type 0 where
  pub ip_texts : IpTexts
  pub url_parts : String → Option (String × Option String)
  pub is_global : Address → Bool
  pub str : Value → String
  pub encrypt : String → String → String
  pub decrypt : String → String → Option String
  pub insecure : Bool
  pub is_valid_cron : String → Bool
  pub allowed_cidrs : List String

module _ (o : Outside) where
  open o use {ip_texts, url_parts, is_global, encrypt, decrypt, allowed_cidrs}

  pub validate_schedule : String → Result ConfigError String
  validate_schedule s = if o.is_valid_cron s then ok s else err bad_schedule

  -- `str(value)`.
  pub str_of : Value → String
  str_of (text s) = s
  str_of v = o.str v

  schemes : String → List String
  schemes f =
      let secure = if str_eq f "server" then "ldaps" ∷ [] else "https" ∷ [] in
      if o.insecure then "http" ∷ "ldap" ∷ secure else secure

  -- After a range was looked for.
  after_ranges : Result ScanError (Unit {0}) → Result ConfigError (Unit {0})
  after_ranges (ok u) = ok tt
  after_ranges (err e) = err private_target

  -- An address must be global, or in a configured range; a name is left to the network's policy.
  validate_place : Option Address → Result ConfigError (Unit {0})
  unfolding after_ranges
  validate_place none = ok tt
  validate_place (some a) =
      if is_global a
      then ok tt
      else after_ranges (any_range ip_texts (admits_host ip_texts a) outside allowed_cidrs)

  pub validate_host : String → Result ConfigError (Unit {0})
  unfolding check validate_place
  validate_host host = do
    check (not (mem_text host blocked_hosts)) blocked_target
    validate_place (ip_texts.ip_address host)

  -- After the URL was parsed.
  validate_parts : String → Option (String × Option String) → Result ConfigError (Unit {0})
  unfolding check schemes validate_host
  validate_parts f none = err bad_url
  validate_parts f (some (scheme, none)) = err bad_url
  validate_parts f (some (scheme, some host)) = do
    check (mem_text scheme (schemes f) && not (str_eq host "")) bad_url
    validate_host host

  pub validate_url : String → String → Result ConfigError (Unit {0})
  unfolding validate_parts
  validate_url f value = validate_parts f (url_parts value)

  -- `config[field]`.
  validate_value : String → Option Value → Result ConfigError (Unit {0})
  unfolding validate_url str_of
  validate_value f none = err no_key
  validate_value f (some v) = validate_url f (str_of v)

  pub validate_urls : List String → Settings → Result ConfigError (Unit {0})
  unfolding validate_value get
  validate_urls [] c = ok tt
  validate_urls (f ∷ fs) c = do validate_value f (get f c); validate_urls fs c

  validate_kind : String → Settings → Result ConfigError Settings
  unfolding validate_aws validate_dhcp check is_false
  validate_kind t c = do
    d ← if str_eq t "cloud_aws" then validate_aws c else ok c
    check (not (is_false (get "verify_ssl" d)) || o.insecure) insecure
    if str_eq t "dhcp_dns" then validate_dhcp d else ok tt
    ok d

  validate_with : Schema → String → Settings → Result ConfigError Settings
  unfolding check has_keys only_keys validate_urls validate_kind
  validate_with s t c = do
    check (has_keys s.required c) missing_fields
    check (only_keys (s.required ++ s.optional) c) unknown_fields
    validate_urls s.urls c
    validate_kind t c

  pub validate_connector_config : String → Settings → Result ConfigError Settings
  unfolding find_schema validate_with
  validate_connector_config t c = elim (find_schema t schemas) [
    | none ↦ err unknown_connector
    | some s ↦ validate_with s t c
  ]

  -- A secret that is set is sealed; the salts are drawn for the fields.
  pub seal_field : (String → String) → String → Settings → Settings
  unfolding get put is_blank str_of
  seal_field salts f c = elim (get f c) [
    | none ↦ c
    | some v ↦ if is_blank v then c else put f (sealed (encrypt (str_of v) (salts f)) (salts f)) c
  ]

  pub seal_fields : (String → String) → List String → Settings → Settings
  unfolding seal_field
  seal_fields salts [] c = c
  seal_fields salts (f ∷ fs) c = seal_fields salts fs (seal_field salts f c)

  pub protect_connector_config : (String → String) → String → Settings → Result ConfigError Settings
  unfolding seal_fields validate_connector_config find_schema
  protect_connector_config salts t c = do
    d ← validate_connector_config t c
    elim (find_schema t schemas) [ none ↦ err no_key | some s ↦ ok (seal_fields salts s.secret d) ]

  unseal : Value → Result ConfigError Value
  unseal (sealed c salt) = elim (decrypt c salt) [ none ↦ err bad_cipher | some s ↦ ok (text s) ]
  unseal null = err not_encrypted
  unseal (flag b) = err not_encrypted
  unseal (number n) = err not_encrypted
  unseal (text s) = err not_encrypted
  unseal (texts xs) = err not_encrypted
  unseal (members b) = err not_encrypted

  pub unseal_field : String → Settings → Result ConfigError Settings
  unfolding get put is_blank unseal
  unseal_field f c = elim (get f c) [
    | none ↦ ok c
    | some v ↦ if is_blank v then ok c else (unseal v >>= λ w. ok (put f w c))
  ]

  pub unseal_fields : List String → Settings → Result ConfigError Settings
  unfolding unseal_field
  unseal_fields [] c = ok c
  unseal_fields (f ∷ fs) c = do d ← unseal_field f c; unseal_fields fs d

  pub resolve_connector_config : String → Settings → Result ConfigError Settings
  unfolding unseal_fields find_schema
  resolve_connector_config t c = elim (find_schema t schemas) [
    | none ↦ err no_key
    | some s ↦ unseal_fields s.secret c
  ]
