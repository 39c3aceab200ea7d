-- ===== src/Connectors/Tests.antt =====
-- Tests of the connector settings, and instances of their theorems.
use kepryx.Base.{◌≡◌, refl, false, true, none, some, [], ◌∷◌, All, str_eq, if◌then◌else◌, ok, err}
use kepryx.Networks.Texts.{sample, read_address}
use kepryx.Connectors.{Outside, validate_connector_config, protect_connector_config}
use kepryx.Connectors.Schemas.{
  text, sealed, Settings, Schema, schemas, find_schema, get, bad_url, missing_fields,
}
use kepryx.Connectors.Fields.{IsPlain}
use kepryx.Connectors.Sealed.{RoundTrip, protect-RoundTrip}
use kepryx.Connectors.Safe.{FieldReaches, validate_connector_config-FieldReaches}

-- A cipher that changes nothing, and a parser that knows one URL.
abbrev known : Outside
known = record {
  ip_texts = sample;
  url_parts = λ u.
      if str_eq u "https://assets.example.com"
      then some ("https", some "assets.example.com")
      else none;
  is_global = λ a. false;
  str = λ v. "";
  is_valid_cron = λ s. true;
  encrypt = λ s salt. s;
  decrypt = λ s salt. some s;
  insecure = false;
  allowed_cidrs = [];
}

abbrev settings : Settings
settings = ("base_url", text "https://assets.example.com") ∷ ("api_token", text "hunter2") ∷ []

abbrev asset_api : Schema
asset_api = record {
  required = "base_url" ∷ "api_token" ∷ [];
  optional = "inventory_path" ∷ "timeout_sec" ∷ [];
  secret = "api_token" ∷ [];
  urls = "base_url" ∷ [];
}

refused :
    (validate_connector_config known "asset_api" (("base_url", text "https://a") ∷ [])
      ≡ err missing_fields)
    × (validate_connector_config known "asset_api"
          (("base_url", text "https://a") ∷ ("api_token", text "t") ∷ [])
        ≡ err bad_url)
unfolding validate_connector_config
refused = (refl, refl)

valid : validate_connector_config known "asset_api" settings ≡ ok settings
unfolding validate_connector_config read_address
valid = refl

stored :
    protect_connector_config known (λ f. "salt") "asset_api" settings
    ≡ ok (
        ("base_url", text "https://assets.example.com")
        ∷ ("api_token", sealed "hunter2" "salt")
        ∷ [])
unfolding protect_connector_config read_address
stored = refl

found : find_schema "asset_api" schemas ≡ some asset_api
unfolding find_schema
found = refl

protect-RoundTrip_example :
    RoundTrip known (λ f. "salt") "asset_api" ("api_token" ∷ []) settings settings
unfolding get IsPlain
protect-RoundTrip_example =
    protect-RoundTrip known (λ f. "salt") "asset_api" asset_api settings settings (λ v salt. refl)
      found valid (tt, tt)

validate_connector_config-FieldReaches_example : All (FieldReaches known settings) ("base_url" ∷ [])
validate_connector_config-FieldReaches_example =
    validate_connector_config-FieldReaches known "asset_api" asset_api settings settings found valid
