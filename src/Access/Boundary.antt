-- ===== src/Access/Boundary.antt =====
-- What a request that was let through has shown.

use kepryx.Base.{
  ℕ, ◌≡◌, refl, sym, ap, ◌∙◌, String, Bool, true, false, ◌&&◌, Option, none, some, List, [], ◌∷◌,
  ◌++◌, str_eq, if◌then◌else◌, arith, Bool-cases, inl, inr, ◌⊎◌, Result, ok, err, eq_iff,
}
use kepryx.Tokens.{claim, is_token_revoked}
use kepryx.Networks.{Address, Network, contains, same_version}
use kepryx.RateLimit.{Request, get_request_ip}
use kepryx.Accounts.State.{User, HttpError}
use kepryx.Access.{
  Decoded, Policy, find_by_id, active_user, after_check, subject_user, decoded_user, jwt_user,
  in_network, in_any, network_answer, address_answer, ensure_management_network, guarded,
}

pub if-ok :
    {A : Type 0} (b : Bool) (x u : A) (f : HttpError)
    → (let r : Result HttpError A = if b then ok x else err f in r) ≡ ok u
    → (b ≡ true) × (x ≡ u)
if-ok true x u f e = (refl, ap (λ r. elim r [ ok y ↦ y | err _ ↦ x ]) e)
if-ok false x u f e = cc

module _ (P : Policy) where
  open P use {redis, texts, decode, verify, trusted_proxies, management}

  -- The address of the request lies in a configured range.
  pub record Inside (q : Request) : Type 0 where
    pub address : Address
    pub pre : List String
    pub cidr : String
    pub post : List String
    pub range : Network
    pub read : texts.ip_address (get_request_ip texts trusted_proxies q) ≡ some address
    pub listed : management ≡ pre ++ cidr ∷ post
    pub parsed : texts.ip_network cidr ≡ some range
    pub version : same_version address.version range.version ≡ true
    pub within : contains range address ≡ true

  record Found (a : Address) (cidrs : List String) : Type 0 where
    pre : List String
    cidr : String
    post : List String
    range : Network
    listed : cidrs ≡ pre ++ cidr ∷ post
    parsed : texts.ip_network cidr ≡ some range
    version : same_version a.version range.version ≡ true
    within : contains range a ≡ true

  in_network-Found :
      (a : Address) (c : String) (cs : List String) (o : Option Network)
      → texts.ip_network c ≡ o
      → (in_any P a cs ≡ some true → Found a cs)
      → in_network P a o (in_any P a cs) ≡ some true
      → Found a (c ∷ cs)
  unfolding in_network
  in_network-Found a c cs none p later e = cc
  in_network-Found a c cs (some n) p later e =
      elim (Bool-cases (same_version a.version n.version && contains n a)) [
        | inl h ↦ record {
          pre = [];
          cidr = c;
          post = cs;
          range = n;
          listed = refl;
          parsed = p;
          version = ground arith;
          within = ground arith;
        }
        | inr h ↦
            let f = later (rw h at e) in
            record {
              pre = c ∷ f.pre;
              cidr = f.cidr;
              post = f.post;
              range = f.range;
              listed = ap (λ xs. c ∷ xs) f.listed;
              parsed = f.parsed;
              version = f.version;
              within = f.within;
            }
      ]

  in_any-Found : (a : Address) (cidrs : List String) → in_any P a cidrs ≡ some true → Found a cidrs
  unfolding in_any
  in_any-Found a [] e = cc
  in_any-Found a (c ∷ cs) e =
      in_network-Found a c cs (texts.ip_network c) refl (in_any-Found a cs) e

  network-true : (o : Option Bool) → network_answer P o ≡ ok tt → o ≡ some true
  unfolding network_answer
  network-true none e = cc
  network-true (some false) e = cc
  network-true (some true) e = refl

  address-Inside :
      (q : Request) (o : Option Address)
      → texts.ip_address (get_request_ip texts trusted_proxies q) ≡ o
      → address_answer P o ≡ ok tt
      → Inside q
  unfolding address_answer
  address-Inside q none p e = cc
  address-Inside q (some a) p e =
      let f = in_any-Found a management (network-true (in_any P a management) e) in
      record {
        address = a;
        pre = f.pre;
        cidr = f.cidr;
        post = f.post;
        range = f.range;
        read = p;
        listed = f.listed;
        parsed = f.parsed;
        version = f.version;
        within = f.within;
      }

  ensure-Inside : (q : Request) → ensure_management_network P q ≡ ok tt → Inside q
  unfolding ensure_management_network
  ensure-Inside q e =
      address-Inside q (texts.ip_address (get_request_ip texts trusted_proxies q)) refl e

  pub guarded-Inside :
      {A : Type 0} (b : Bool) (q : Request) (a x : A)
      → guarded P b q a ≡ ok x
      → (a ≡ x) × ((b ≡ false) ⊎ Inside q)
  unfolding guarded
  guarded-Inside false q a x e = (ap (λ r. elim r [ ok y ↦ y | err _ ↦ a ]) e, inl refl)
  guarded-Inside true q a x e = go (ensure_management_network P q) refl e
    where
      go :
          (r : Result HttpError (Unit {0}))
          → ensure_management_network P q ≡ r
          → (elim r [ ok _ ↦ ok a | err f ↦ err f ]) ≡ ok x
          → (a ≡ x) × ((true ≡ false) ⊎ Inside q)
      go (ok _) p h = (ap (λ r. elim r [ ok y ↦ y | err _ ↦ a ]) h, inr (ensure-Inside q p))
      go (err f) p h = cc

  -- A user let through by his token: the token is an access token that names him, it passes the
  -- revocation check, and he is active.
  pub record SignedIn (now : ℕ) (token : String) (r : redis.State) (users : List User) (u : User)
      : Type 0 where
    pub decoded : Decoded
    pub id : String
    pub reads : decode token ≡ some decoded
    pub access : decoded.type ≡ some "access"
    pub subject : claim decoded.payload.sub ≡ some id
    pub not_revoked : is_token_revoked redis decoded.payload now r ≡ some false
    pub found : find_by_id id users ≡ some u
    pub active : u.is_active ≡ true

  pub active-found :
      (o : Option User) (u : User) → active_user P o ≡ ok u → (o ≡ some u) × (u.is_active ≡ true)
  unfolding active_user
  active-found none u e = cc
  active-found (some v) u e =
      let (h, same) = if-ok v.is_active v u _ e in
      (ap some same, ap (λ x. x.is_active) (sym same) ∙ h)

  check-passed :
      (b : Option Bool) (o : Option User) (u : User)
      → after_check P b o ≡ ok u
      → (b ≡ some false) × (o ≡ some u) × (u.is_active ≡ true)
  unfolding after_check
  check-passed none o u e = cc
  check-passed (some true) o u e = cc
  check-passed (some false) o u e = let (a, b) = active-found o u e in (refl, a, b)

  subject-SignedIn :
      (now : ℕ) (token : String) (r : redis.State) (users : List User) (u : User) (d : Decoded)
      (o : Option String)
      → decode token ≡ some d
      → d.type ≡ some "access"
      → claim d.payload.sub ≡ o
      → subject_user P now d.payload o r users ≡ ok u
      → SignedIn now token r users u
  unfolding subject_user
  subject-SignedIn now token r users u d none p t q e = cc
  subject-SignedIn now token r users u d (some i) p t q e =
      let (a, b, c) =
        check-passed (is_token_revoked redis d.payload now r) (find_by_id i users) u e in
      record {
        decoded = d;
        id = i;
        reads = p;
        access = t;
        subject = q;
        not_revoked = a;
        found = b;
        active = c;
      }

  type-access :
      (o : Option String)
      → (elim o [ none ↦ false | some t ↦ str_eq t "access" ]) ≡ true
      → o ≡ some "access"
  type-access none e = cc
  type-access (some t) e = ap some ((eq_iff t "access").0 e)

  decoded-SignedIn :
      (now : ℕ) (token : String) (r : redis.State) (users : List User) (u : User)
      (o : Option Decoded)
      → decode token ≡ o
      → decoded_user P now o r users ≡ ok u
      → SignedIn now token r users u
  unfolding decoded_user
  decoded-SignedIn now token r users u none p e = cc
  decoded-SignedIn now token r users u (some d) p e =
      elim (Bool-cases (elim d.type [ none ↦ false | some t ↦ str_eq t "access" ])) [
        | inl h ↦
            subject-SignedIn now token r users u d (claim d.payload.sub) p (type-access d.type h)
              refl (rw h at e)
        | inr h ↦ cc (rw h at e)
      ]

  pub jwt-SignedIn :
      (now : ℕ) (token : String) (r : redis.State) (users : List User) (u : User)
      → jwt_user P now token r users ≡ ok u
      → SignedIn now token r users u
  unfolding jwt_user
  jwt-SignedIn now token r users u e = decoded-SignedIn now token r users u (decode token) refl e
