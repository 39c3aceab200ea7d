-- ===== src/Connectors/Schemas.antt =====
-- app/core/connector_secrets.py: the tables of connectors and their settings.
use kepryx.Base.{
  ℕ, String, Bool, true, false, not, Option, none, some, List, [], ◌∷◌, ◌==◌, str_eq, if◌then◌else◌,
}

-- A JSON value; of a list, its items that are texts; of a dict that is not sealed, only whether it has
-- members.
pub data Value : Type 0 where
  null : Value
  flag : Bool → Value
  number : ℕ → Value
  text : String → Value
  texts : List (Option String) → Value
  members : Bool → Value
  sealed : String → String → Value

abbrev pub Settings : Type 0
Settings = List (String × Value)

pub record Schema : Type 0 where
  pub required : List String
  pub optional : List String
  pub secret : List String
  pub urls : List String

abbrev pub schemas : List (String × Schema)
schemas =
    (
      "edr_crowdstrike",
      record {
        required = "base_url" ∷ "client_id" ∷ "client_secret" ∷ [];
        optional = [];
        secret = "client_secret" ∷ [];
        urls = "base_url" ∷ [];
      },
    )
    ∷ (
      "vuln_nessus",
      record {
        required = "base_url" ∷ "access_key" ∷ "secret_key" ∷ [];
        optional = "verify_ssl" ∷ [];
        secret = "access_key" ∷ "secret_key" ∷ [];
        urls = "base_url" ∷ [];
      },
    )
    ∷ (
      "ad_ldap",
      record {
        required = "server" ∷ "base_dn" ∷ "bind_dn" ∷ "bind_password" ∷ [];
        optional = "ca_certs_file" ∷ "filter" ∷ [];
        secret = "bind_password" ∷ [];
        urls = "server" ∷ [];
      },
    )
    ∷ (
      "cloud_aws",
      record {
        required = "regions" ∷ [];
        optional = "access_key_id" ∷ "secret_access_key" ∷ "role_arn" ∷ "use_assume_role" ∷ [];
        secret = "access_key_id" ∷ "secret_access_key" ∷ [];
        urls = [];
      },
    )
    ∷ (
      "dhcp_dns",
      record {
        required = "provider" ∷ "base_url" ∷ [];
        optional = "username" ∷ "password" ∷ "verify_ssl" ∷ [];
        secret = "username" ∷ "password" ∷ [];
        urls = "base_url" ∷ [];
      },
    )
    ∷ (
      "asset_api",
      record {
        required = "base_url" ∷ "api_token" ∷ [];
        optional = "inventory_path" ∷ "timeout_sec" ∷ [];
        secret = "api_token" ∷ [];
        urls = "base_url" ∷ [];
      },
    )
    ∷ []

abbrev pub blocked_hosts : List String
blocked_hosts = "169.254.169.254" ∷ "metadata.google.internal" ∷ "metadata.azure.internal" ∷ []

-- The ValueErrors; `no_key` is a KeyError.
pub data ConfigError : Type 0 where
  unknown_connector missing_fields unknown_fields bad_url blocked_target private_target :
      ConfigError
  bad_regions half_pair insecure bad_provider no_login not_encrypted bad_cipher no_key
        bad_schedule :
      ConfigError

unfoldable pub find_schema : String → List (String × Schema) → Option Schema
find_schema t [] = none
find_schema t ((u, s) ∷ rest) =
    let later = find_schema t rest in if str_eq u t then some s else later

unfoldable pub get : String → Settings → Option Value
get k [] = none
get k ((j, v) ∷ rest) = let later = get k rest in if str_eq j k then some v else later

-- `settings[k] = v`.
unfoldable pub put : String → Value → Settings → Settings
put k v [] = (k, v) ∷ []
put k v ((j, w) ∷ rest) =
    let later = put k v rest in if str_eq j k then (j, v) ∷ rest else (j, w) ∷ later

-- Python's truth of a value that may be missing.
unfoldable pub truthy : Option Value → Bool
truthy none = false
truthy (some null) = false
truthy (some (flag b)) = b
truthy (some (number n)) = not (n == 0)
truthy (some (text s)) = not (str_eq s "")
truthy (some (texts [])) = false
truthy (some (texts (x ∷ xs))) = true
truthy (some (members b)) = b
truthy (some (sealed c s)) = true

-- `value in (None, "")`.
unfoldable pub is_blank : Value → Bool
is_blank null = true
is_blank (text s) = str_eq s ""
is_blank (flag b) = false
is_blank (number n) = false
is_blank (texts xs) = false
is_blank (members b) = false
is_blank (sealed c salt) = false
