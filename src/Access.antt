-- ===== src/Access.antt =====
-- app/api/deps.py and app/core/api_token_auth.py: who may make a request. PyJWT's `decode_token` is
-- an argument; users and tokens are looked up in their tables, in which ids are unique. Rows changed
-- here are committed with the request, if it succeeds. Times are milliseconds.
pub mod Boundary
pub mod Principals
pub mod Refresh
pub mod Audit
mod Tests
use Prim.Native.Char.{Char}
use kepryx.Base.{
  ℕ, zero, suc, String, Bool, true, false, not, ◌&&◌, ◌||◌, Option, none, some, List, [], ◌∷◌, ltb,
  ◌==◌, str_eq, mem_text, nonempty, drop_prefix, if◌then◌else◌, Result, ok, err,
}
use kepryx.Redis.{Redis}
use kepryx.Tokens.{Payload, claim, is_token_revoked}
use kepryx.Networks.{IpTexts, Address, Network, contains, same_version}
use kepryx.RateLimit.{Request, get_request_ip}
use kepryx.Accounts.State.{User, HttpError, bad_request, unauthorized, forbidden, unavailable}

-- A decoded token: the claims that the revocation check reads, and its type.
pub record Decoded : Type 0 where
  pub payload : Payload
  pub type : Option String

pub record ApiToken : Type 0 where
  pub id : String
  pub name : String
  pub token_hash : String
  pub token_prefix : String
  pub scopes : List String
  pub expires_at : Option ℕ
  pub last_used : Option ℕ
  pub revoked : Bool
  pub usage_count : ℕ

pub data Principal : Type 0 where
  person : User → Principal
  service : ApiToken → Principal

-- The settings and the libraries of the checks.
pub record Policy : Type 1 where
  pub redis : Redis
  pub texts : IpTexts
  pub decode : String → Option Decoded
  pub verify : String → String → Bool
  pub trusted_proxies : List String
  pub management : List String

abbrev pub management_scopes : List String
management_scopes =
    "scans:trigger" ∷ "alerts:resolve" ∷ "audit:read" ∷ "integrations:read" ∷ "*" ∷ []

pub scope_requires_management : String → Bool
scope_requires_management scope = mem_text scope management_scopes

-- `token[:12]`.
pub take_text : ℕ → String → String
take_text zero s = String.[]
take_text (suc n) String.[] = String.[]
take_text (suc n) (String.◌∷◌ c s) = String.◌∷◌ c (take_text n s)

pub find_by_id : String → List User → Option User
find_by_id i [] = none
find_by_id i (u ∷ us) = let rest = find_by_id i us in if str_eq u.id i then some u else rest

-- `token_prefix == token[:12]`, not revoked, and not expired.
pub is_candidate : ℕ → String → ApiToken → Bool
unfolding take_text
is_candidate now token c =
    str_eq c.token_prefix (take_text 12 token)
    && not c.revoked
    && not (elim c.expires_at [ none ↦ false | some t ↦ ltb t now ])

pub used_now : ℕ → ApiToken → ApiToken
used_now now c = record c { last_used = some now; usage_count = suc c.usage_count }

module _ (P : Policy) where
  open P use {redis, texts, decode, verify, trusted_proxies, management}
  open texts use {ip_address, ip_network}

  -- The loop over the candidates: the first whose hash fits is marked as used.
  pub first_match : ℕ → String → List ApiToken → Option ApiToken × List ApiToken
  unfolding is_candidate used_now
  first_match now token [] = (none, [])
  first_match now token (c ∷ cs) =
      let (found, rest) = first_match now token cs in
      if is_candidate now token c && verify c.token_hash token
      then (some (used_now now c), used_now now c ∷ cs)
      else (found, c ∷ rest)

  pub verify_api_token : ℕ → String → List ApiToken → Option ApiToken × List ApiToken
  unfolding first_match
  verify_api_token now token tokens = elim (drop_prefix "kpx_" token) [
    | none ↦ (none, tokens)
    | some rest ↦ first_match now token tokens
  ]

  pub active_user : Option User → Result HttpError User
  active_user none = err unauthorized
  active_user (some u) = if u.is_active then ok u else err unauthorized

  pub after_check : Option Bool → Option User → Result HttpError User
  unfolding active_user
  after_check none u = err unavailable
  after_check (some true) u = err unauthorized
  after_check (some false) u = active_user u

  pub subject_user : ℕ → Payload → Option String → redis.State → List User → Result HttpError User
  unfolding after_check find_by_id
  subject_user now p none r users = err unauthorized
  subject_user now p (some i) r users =
      after_check (is_token_revoked redis p now r) (find_by_id i users)

  pub decoded_user : ℕ → Option Decoded → redis.State → List User → Result HttpError User
  unfolding subject_user
  decoded_user now none r users = err unauthorized
  decoded_user now (some d) r users =
      if elim d.type [ none ↦ false | some t ↦ str_eq t "access" ]
      then subject_user now d.payload (claim d.payload.sub) r users
      else err unauthorized

  -- `_jwt_user`.
  pub jwt_user : ℕ → String → redis.State → List User → Result HttpError User
  unfolding decoded_user
  jwt_user now token r users = decoded_user now (decode token) r users

  pub in_network : Address → Option Network → Option Bool → Option Bool
  in_network a none later = none
  in_network a (some n) later =
      if same_version a.version n.version && contains n a then some true else later

  -- `any(address.version == network.version and address in network for network in …)`; `none` is the
  -- ValueError of a range, which a range before it that has the address forestalls.
  pub in_any : Address → List String → Option Bool
  unfolding in_network
  in_any a [] = some false
  in_any a (cidr ∷ rest) = in_network a (ip_network cidr) (in_any a rest)

  pub network_answer : Option Bool → Result HttpError (Unit {0})
  network_answer none = err unavailable
  network_answer (some false) = err forbidden
  network_answer (some true) = ok tt

  pub address_answer : Option Address → Result HttpError (Unit {0})
  unfolding in_any network_answer
  address_answer none = err forbidden
  address_answer (some a) = network_answer (in_any a management)

  pub ensure_management_network : Request → Result HttpError (Unit {0})
  unfolding address_answer
  ensure_management_network q = address_answer (ip_address (get_request_ip texts trusted_proxies q))

  -- `value`, once the request is known to come from the management network if that is needed.
  pub guarded : {A : Type 0} → Bool → Request → A → Result HttpError A
  unfolding ensure_management_network
  guarded false q a = ok a
  guarded true q a = elim (ensure_management_network q) [ ok _ ↦ ok a | err e ↦ err e ]

  pub service_principal : String → Request → Option ApiToken → Result HttpError Principal
  unfolding guarded scope_requires_management
  service_principal scope q none = err unauthorized
  service_principal scope q (some t) =
      if mem_text "*" t.scopes || mem_text scope t.scopes
      then guarded (mem_text "*" t.scopes || scope_requires_management scope) q (service t)
      else err forbidden

  pub person_principal : List String → Request → Result HttpError User → Result HttpError Principal
  unfolding guarded
  person_principal roles q (err e) = err e
  person_principal roles q (ok u) =
      if mem_text u.role roles || str_eq u.role "admin"
      then guarded (str_eq u.role "admin") q (person u)
      else err forbidden

  -- The checker of `require_scope`, for the bearer token and the API key of the request.
  pub scope_checker :
      String
      → List String
      → ℕ
      → Request
      → Option String
      → Option String
      → redis.State
      → List User
      → List ApiToken
      → Result HttpError Principal × List ApiToken
  unfolding service_principal person_principal verify_api_token jwt_user
  scope_checker scope roles now q (some b) (some k) r users tokens = (err bad_request, tokens)
  scope_checker scope roles now q none (some k) r users tokens =
      let (t, rest) = verify_api_token now k tokens in (service_principal scope q t, rest)
  scope_checker scope roles now q none none r users tokens = (err unauthorized, tokens)
  scope_checker scope roles now q (some b) none r users tokens =
      (person_principal roles q (jwt_user now b r users), tokens)

  pub require_scope :
      String
      → List String
      → ℕ
      → Request
      → Option String
      → Option String
      → redis.State
      → List User
      → List ApiToken
      → Result HttpError Principal × List ApiToken
  unfolding scope_checker
  require_scope scope roles now q bearer key r users tokens =
      scope_checker scope roles now q (nonempty bearer) (nonempty key) r users tokens

  pub role_checker : List String → Bool → Request → Result HttpError User → Result HttpError User
  unfolding guarded
  role_checker roles management_only q (err e) = err e
  role_checker roles management_only q (ok u) =
      if mem_text u.role roles || str_eq u.role "admin"
      then guarded (management_only || str_eq u.role "admin") q u
      else err forbidden

  pub require_role :
      List String → Bool → ℕ → Request → String → redis.State → List User → Result HttpError User
  unfolding role_checker jwt_user
  require_role roles management_only now q token r users =
      role_checker roles management_only q (jwt_user now token r users)
