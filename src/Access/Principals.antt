-- ===== src/Access/Principals.antt =====
-- What `require_scope` and `require_role` let through.
use kepryx.Base.{
  ℕ, ◌≡◌, refl, sym, ap, String, Bool, true, false, ◌&&◌, ◌||◌, Option, none, some, List, [], ◌∷◌,
  ◌++◌, str_eq, mem_text, nonempty, drop_prefix, arith, Bool-cases, inl, inr, ◌⊎◌, Result, ok, err,
}
use mathlib.Core.Path.{subst}
use kepryx.RateLimit.{Request}
use kepryx.Accounts.State.{User, HttpError}
use kepryx.Access.{
  ApiToken, Principal, person, service, Policy, scope_requires_management, is_candidate, used_now,
  first_match, verify_api_token, jwt_user, service_principal, person_principal, scope_checker,
  require_scope, role_checker, require_role,
}
use kepryx.Access.Boundary.{Inside, guarded-Inside, SignedIn, jwt-SignedIn}

module _ (P : Policy) where
  open P use {redis, texts, decode, verify, trusted_proxies, management}

  -- A key that was accepted: the first row in the table that it fits is valid now, and is the only
  -- one that changes, by one use.
  pub record Matched (now : ℕ) (key : String) (tokens tokens' : List ApiToken) (t : ApiToken)
      : Type 0 where
    pub row : ApiToken
    pub pre : List ApiToken
    pub post : List ApiToken
    pub place : tokens ≡ pre ++ row ∷ post
    pub valid : is_candidate now key row ≡ true
    pub fits : verify row.token_hash key ≡ true
    pub used : t ≡ used_now now row
    pub marked : tokens' ≡ pre ++ t ∷ post

  match-cons :
      (now : ℕ) (key : String) (c : ApiToken) (cs : List ApiToken) (t : ApiToken)
      → ((first_match P now key cs).0 ≡ some t → Matched now key cs (first_match P now key cs).1 t)
      → (first_match P now key (c ∷ cs)).0 ≡ some t
      → Matched now key (c ∷ cs) (first_match P now key (c ∷ cs)).1 t
  unfolding first_match
  match-cons now key c cs t later e =
      elim (Bool-cases (is_candidate now key c && verify c.token_hash key)) [
        | inl h ↦
            let same : used_now now c ≡ t =
              ap (λ o. elim o [ none ↦ t | some x ↦ x ]) (rw h at e) in
            record {
              row = c;
              pre = [];
              post = cs;
              place = refl;
              valid = ground arith;
              fits = ground arith;
              used = sym same;
              marked = rw h (ap (λ x. x ∷ cs) same);
            }
        | inr h ↦
            let m = later (rw h at e) in
            record {
              row = m.row;
              pre = c ∷ m.pre;
              post = m.post;
              place = ap (λ xs. c ∷ xs) m.place;
              valid = m.valid;
              fits = m.fits;
              used = m.used;
              marked = rw h (ap (λ xs. c ∷ xs) m.marked);
            }
      ]

  first_match-Matched :
      (now : ℕ) (key : String) (tokens : List ApiToken) (t : ApiToken)
      → (first_match P now key tokens).0 ≡ some t
      → Matched now key tokens (first_match P now key tokens).1 t
  first_match-Matched now key [] t e = unfold first_match in cc
  first_match-Matched now key (c ∷ cs) t e =
      match-cons now key c cs t (first_match-Matched now key cs t) e

  verify-Matched :
      (now : ℕ) (key : String) (tokens : List ApiToken) (t : ApiToken)
      → (verify_api_token P now key tokens).0 ≡ some t
      → Matched now key tokens (verify_api_token P now key tokens).1 t
  unfolding verify_api_token
  verify-Matched now key tokens t e = go (drop_prefix "kpx_" key) e
    where
      go :
          (o : Option String)
          → (let r : Option ApiToken × List ApiToken = elim o [
            | none ↦ (none, tokens)
            | some rest ↦ first_match P now key tokens
          ] in
              r.0 ≡ some t)
          → (let r : Option ApiToken × List ApiToken = elim o [
            | none ↦ (none, tokens)
            | some rest ↦ first_match P now key tokens
          ] in
              Matched now key tokens r.1 t)
      go none q = cc
      go (some rest) q = first_match-Matched now key tokens t q

  -- What lets a request through: a user with a sufficient role, from the management network if he is
  -- an administrator, or a key with the scope, from there if the key or the scope is privileged.
  pub data Admitted (scope : String) (roles : List String) (now : ℕ) (q : Request)
      (bearer key : Option String) (r : redis.State) (users : List User)
      (tokens tokens' : List ApiToken) : Principal → Type 0 where
    by_token :
        (token : String) (u : User)
        → bearer ≡ some token
        → key ≡ none
        → SignedIn P now token r users u
        → (mem_text u.role roles || str_eq u.role "admin") ≡ true
        → (str_eq u.role "admin" ≡ false) ⊎ Inside P q
        → tokens' ≡ tokens
        → Admitted scope roles now q bearer key r users tokens tokens' (person u)
    by_key :
        (k : String) (t : ApiToken)
        → key ≡ some k
        → bearer ≡ none
        → Matched now k tokens tokens' t
        → (mem_text "*" t.scopes || mem_text scope t.scopes) ≡ true
        → ((mem_text "*" t.scopes || scope_requires_management scope) ≡ false) ⊎ Inside P q
        → Admitted scope roles now q bearer key r users tokens tokens' (service t)

  service-passed :
      (scope : String) (q : Request) (t : ApiToken) (p : Principal)
      → service_principal P scope q (some t) ≡ ok p
      → (service t ≡ p)
        × ((mem_text "*" t.scopes || mem_text scope t.scopes) ≡ true)
        × (((mem_text "*" t.scopes || scope_requires_management scope) ≡ false) ⊎ Inside P q)
  unfolding service_principal
  service-passed scope q t p e =
      elim (Bool-cases (mem_text "*" t.scopes || mem_text scope t.scopes)) [
        | inl h ↦
            let (a, b) =
              guarded-Inside P (mem_text "*" t.scopes || scope_requires_management scope) q
                (service t) p (rw h at e) in
            (a, h, b)
        | inr h ↦ cc (rw h at e)
      ]

  person-passed :
      (roles : List String) (q : Request) (u : User) (p : Principal)
      → person_principal P roles q (ok u) ≡ ok p
      → (person u ≡ p)
        × ((mem_text u.role roles || str_eq u.role "admin") ≡ true)
        × ((str_eq u.role "admin" ≡ false) ⊎ Inside P q)
  unfolding person_principal
  person-passed roles q u p e = elim (Bool-cases (mem_text u.role roles || str_eq u.role "admin")) [
    | inl h ↦
        let (a, b) = guarded-Inside P (str_eq u.role "admin") q (person u) p (rw h at e) in
        (a, h, b)
    | inr h ↦ cc (rw h at e)
  ]

  bearer-Admitted :
      (scope : String) (roles : List String) (now : ℕ) (q : Request) (b : String) (r : redis.State)
      (users : List User) (tokens : List ApiToken) (p : Principal) (o : Result HttpError User)
      → jwt_user P now b r users ≡ o
      → person_principal P roles q o ≡ ok p
      → Admitted scope roles now q (some b) none r users tokens tokens p
  bearer-Admitted scope roles now q b r users tokens p (err x) s e = unfold person_principal in cc
  bearer-Admitted scope roles now q b r users tokens p (ok u) s e =
      let (same, role, inside) = person-passed roles q u p e in
      subst (Admitted scope roles now q (some b) none r users tokens tokens) same
        (by_token b u refl refl (jwt-SignedIn P now b r users u s) role inside refl)

  key-Admitted :
      (scope : String) (roles : List String) (now : ℕ) (q : Request) (k : String) (r : redis.State)
      (users : List User) (tokens : List ApiToken) (p : Principal) (o : Option ApiToken)
      → (verify_api_token P now k tokens).0 ≡ o
      → service_principal P scope q o ≡ ok p
      → Admitted scope roles now q none
          (some k)
          r
          users
          tokens
          (verify_api_token P now k tokens).1
          p
  key-Admitted scope roles now q k r users tokens p none s e = unfold service_principal in cc
  key-Admitted scope roles now q k r users tokens p (some t) s e =
      let (same, held, inside) = service-passed scope q t p e in
      subst
        (Admitted scope roles now q none (some k) r users tokens
          (verify_api_token P now k tokens).1)
        same (by_key k t refl refl (verify-Matched now k tokens t s) held inside)

  checker-Admitted :
      (scope : String) (roles : List String) (now : ℕ) (q : Request) (bearer key : Option String)
      (r : redis.State) (users : List User) (tokens : List ApiToken) (p : Principal)
      → (scope_checker P scope roles now q bearer key r users tokens).0 ≡ ok p
      → Admitted scope roles now q bearer key r users tokens
          (scope_checker P scope roles now q bearer key r users tokens).1
          p
  unfolding scope_checker
  checker-Admitted scope roles now q (some b) (some k) r users tokens p e = cc
  checker-Admitted scope roles now q none none r users tokens p e = cc
  checker-Admitted scope roles now q none (some k) r users tokens p e =
      key-Admitted scope roles now q k r users tokens p (verify_api_token P now k tokens).0 refl e
  checker-Admitted scope roles now q (some b) none r users tokens p e =
      bearer-Admitted scope roles now q b r users tokens p (jwt_user P now b r users) refl e

  -- A request that `require_scope` lets through came either with an access token alone, which passes
  -- the revocation check and names an active user with one of the roles or an administrator; or with
  -- a key alone, which fits a row that is not revoked or expired and has the scope or all scopes. An
  -- administrator, a key for all scopes and a privileged scope only pass from an address in one of
  -- the management ranges.
  pub require_scope-Admitted :
      (scope : String) (roles : List String) (now : ℕ) (q : Request) (bearer key : Option String)
      (r : redis.State) (users : List User) (tokens : List ApiToken) (p : Principal)
      → (require_scope P scope roles now q bearer key r users tokens).0 ≡ ok p
      → Admitted scope roles now q
          (nonempty bearer)
          (nonempty key)
          r
          users
          tokens
          (require_scope P scope roles now q bearer key r users tokens).1
          p
  unfolding require_scope
  require_scope-Admitted scope roles now q bearer key r users tokens p e =
      checker-Admitted scope roles now q (nonempty bearer) (nonempty key) r users tokens p e

  role-passed :
      (roles : List String) (management_only : Bool) (now : ℕ) (q : Request) (token : String)
      (r : redis.State) (users : List User) (u : User) (o : Result HttpError User)
      → jwt_user P now token r users ≡ o
      → role_checker P roles management_only q o ≡ ok u
      → SignedIn P now token r users u
        × ((mem_text u.role roles || str_eq u.role "admin") ≡ true)
        × (((management_only || str_eq u.role "admin") ≡ false) ⊎ Inside P q)
  unfolding role_checker
  role-passed roles only now q token r users u (err x) s e = cc
  role-passed roles only now q token r users u (ok v) s e =
      elim (Bool-cases (mem_text v.role roles || str_eq v.role "admin")) [
        | inl h ↦
            let (same, inside) =
              guarded-Inside P (only || str_eq v.role "admin") q v u (rw h at e) in
            subst
              (λ x.
                SignedIn P now token r users x
                × ((mem_text x.role roles || str_eq x.role "admin") ≡ true)
                × (((only || str_eq x.role "admin") ≡ false) ⊎ Inside P q))
              same (jwt-SignedIn P now token r users v s, h, inside)
        | inr h ↦ cc (rw h at e)
      ]

  -- A user whom `require_role` lets through has an access token that passes the revocation check, is
  -- active, and has one of the roles or is an administrator; on a route for management only, and as
  -- an administrator on any, he comes from an address in one of the management ranges.
  pub require_role-SignedIn :
      (roles : List String) (management_only : Bool) (now : ℕ) (q : Request) (token : String)
      (r : redis.State) (users : List User) (u : User)
      → require_role P roles management_only now q token r users ≡ ok u
      → SignedIn P now token r users u
        × ((mem_text u.role roles || str_eq u.role "admin") ≡ true)
        × (((management_only || str_eq u.role "admin") ≡ false) ⊎ Inside P q)
  unfolding require_role
  require_role-SignedIn roles only now q token r users u e =
      role-passed roles only now q token r users u (jwt_user P now token r users) refl e
