-- ===== src/Access/Tests.antt =====
-- Tests of the access checks, and instances of their theorems.
use kepryx.Base.{
  ◌≢◌, arith, eq_refl, if◌then◌else◌, ◌≡◌, ◌⊎◌, refl, true, false, ◌||◌, none, some, [], ◌∷◌,
  str_eq, mem_text, ok, err,
}
use kepryx.Redis.Memory.{memory, empty, set_nx}
use kepryx.Tokens.Trace.{here, wait}
use kepryx.Accounts.{create_access_token, create_refresh_token}
use kepryx.Access.Refresh.{
  new_pair, subject_row, after_consume, refresh_decoded, refresh, Renewed, refresh_once,
}
use kepryx.Tokens.{consume_refresh_token, Payload, claim, is_token_revoked}
use kepryx.Networks.Texts.{sample}
use kepryx.RateLimit.{Request}
use kepryx.Accounts.State.{Settings, Crypto, TokenResponse, User, forbidden}
use kepryx.Access.{
  ApiToken, service, Policy, scope_requires_management, take_text, find_by_id, is_candidate,
  used_now, first_match, verify_api_token, active_user, after_check, subject_user, decoded_user,
  jwt_user, guarded, service_principal, scope_checker, require_scope, role_checker, require_role,
}
use kepryx.Access.Boundary.{Inside, SignedIn}
use kepryx.Access.Principals.{Admitted, require_scope-Admitted, require_role-SignedIn}

abbrev claims : Payload
claims = record {
  jti = some "t";
  sub = some "u";
  exp = some 605800;
  iat = some 1000;
  iat_ms = some 1000000;
}

abbrev policy : Policy
policy = record {
  redis = memory;
  texts = sample;
  decode = λ token.
      if str_eq token "jwt"
      then some (record { payload = claims; type = some "access" })
      else if str_eq token "ref"
      then some (record { payload = claims; type = some "refresh" })
      else none;
  verify = str_eq;
  trusted_proxies = [];
  management = "10.0.0.0/8" ∷ [];
}

abbrev ada : User
ada = record {
  id = "u";
  username = "ada";
  password_hash = "h";
  role = "analyst";
  mfa_secret = none;
  mfa_enabled = false;
  failed_attempts = 0;
  locked_until = none;
  last_login = none;
  is_active = true;
}

abbrev reader : ApiToken
reader = record {
  id = "1";
  name = "report";
  token_hash = "kpx_12345678abc";
  token_prefix = "kpx_12345678";
  scopes = "assets:read" ∷ [];
  expires_at = none;
  last_used = none;
  revoked = false;
  usage_count = 4;
}

abbrev request : Request
request = record { peer = some "10.1.2.7"; x_real_ip = none; x_forwarded_for = none; user = none }

with_key :
    (require_scope policy "assets:read" [] 2000000 request none
      (some "kpx_12345678abc")
      empty
      []
      (reader ∷ [])).0
    ≡ ok (service (record reader { last_used = some 2000000; usage_count = 5 }))
unfolding require_scope scope_checker verify_api_token first_match is_candidate take_text used_now
    service_principal guarded scope_requires_management
with_key = refl

missing_scope :
    (require_scope policy "alerts:resolve" [] 2000000 request none
      (some "kpx_12345678abc")
      empty
      []
      (reader ∷ [])).0
    ≡ err forbidden
unfolding require_scope scope_checker verify_api_token first_match is_candidate take_text used_now
    service_principal guarded scope_requires_management
missing_scope = refl

with_token :
    require_role policy ("analyst" ∷ []) false 2000000 request "jwt" empty (ada ∷ []) ≡ ok ada
unfolding require_role role_checker jwt_user decoded_user subject_user after_check active_user
    find_by_id guarded is_token_revoked claim
with_token = refl

require_scope-Admitted_example :
    Admitted policy "assets:read" [] 2000000 request none
      (some "kpx_12345678abc")
      empty
      []
      (reader ∷ [])
      (require_scope policy "assets:read" [] 2000000 request none
        (some "kpx_12345678abc")
        empty
        []
        (reader ∷ [])).1
      (service (record reader { last_used = some 2000000; usage_count = 5 }))
require_scope-Admitted_example =
    require_scope-Admitted policy "assets:read" [] 2000000 request none (some "kpx_12345678abc")
      empty [] (reader ∷ []) (service (record reader { last_used = some 2000000; usage_count = 5 }))
      with_key

require_role-SignedIn_example :
    SignedIn policy 2000000 "jwt" empty (ada ∷ []) ada
    × ((mem_text "analyst" ("analyst" ∷ []) || str_eq "analyst" "admin") ≡ true)
    × (((false || str_eq "analyst" "admin") ≡ false) ⊎ Inside policy request)
require_role-SignedIn_example =
    require_role-SignedIn policy ("analyst" ∷ []) false 2000000 request "jwt" empty (ada ∷ []) ada
      with_token

abbrev settings : Settings
settings = record { max_attempts = 5; lockout_min = 15; access_ttl_min = 30; refresh_ttl_days = 7 }

abbrev plain : Crypto
plain = record {
  verify = str_eq;
  hash = λ salt p. p;
  totp = λ secret now code. some false;
  is_base32 = λ s. true;
  totp_raises = λ s now code. ((λ b e. cc), (λ h. refl));
  encrypt = λ secret salt. secret;
  decrypt = λ text salt. some text;
  verify_hash = λ salt p. eq_refl p;
  decrypt_encrypt = λ secret salt. refl;
}

abbrev pair : TokenResponse
pair = record {
  access = record {
    sub = "u";
    scopes = "analyst" ∷ [];
    iat_ms = 2000000;
    exp = 3800;
    jti = "a";
    type = "access";
  };
  refresh = record {
    sub = "u";
    scopes = [];
    iat_ms = 2000000;
    exp = 606800;
    jti = "b";
    type = "refresh";
  };
  expires_in = 1800;
}

renewed : (refresh policy settings plain 2000000 "a" "b" "ref" empty (ada ∷ [])).0 ≡ ok pair
unfolding refresh refresh_decoded after_consume new_pair subject_row find_by_id active_user
    consume_refresh_token set_nx create_access_token create_refresh_token
renewed = refl

refresh_once_example :
    let after = (refresh policy settings plain 2000000 "a" "b" "ref" empty (ada ∷ [])).1 in
    Renewed policy settings plain 2000000 "a" "b"
      (record { payload = claims; type = some "refresh" })
      empty
      after
      (ada ∷ [])
      pair
    × ((refresh policy settings plain 3000000 "c" "d" "ref" after (ada ∷ [])).0 ≢ ok pair)
unfolding claim
refresh_once_example =
    refresh_once policy settings plain 7 (λ j. 605800) 2000000 "a" "b" "ref" "t"
      (record { payload = claims; type = some "refresh" }) empty (ada ∷ []) pair 3000000
      (refresh policy settings plain 2000000 "a" "b" "ref" empty (ada ∷ [])).1 "c" "d" (ada ∷ [])
      pair refl (λ j e. refl) refl renewed (wait here (omega arith)) (omega arith)
