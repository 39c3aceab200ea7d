-- ===== src/Connectors/Safe.antt =====
-- Where the URLs of accepted settings lead.
use mathlib.Core.Path.{subst}
use kepryx.Base.{
  ◌≡◌, refl, sym, ◌∙◌, String, Bool, true, false, not, ◌&&◌, ◌⊎◌, Option, none, some, List, [], ◌∷◌,
  ◌++◌, All, str_eq, mem_text, not-false, Bool-cases, inl, inr, Result, ok, err, returned,
}
use kepryx.Networks.{Address}
use kepryx.ScanAuthorization.{ScanError, admits_host, outside}
use kepryx.ScanAuthorization.Boundary.{Range, any_range_found}
use kepryx.Connectors.{
  check, Outside, str_of, schemes, validate_host, validate_url, validate_urls, after_ranges,
  validate_place, validate_parts, validate_value, has_keys, only_keys, validate_with,
  validate_connector_config,
}
use kepryx.Connectors.Schemas.{
  Value, Settings, Schema, ConfigError, blocked_hosts, get, find_schema, schemas,
}

module _ (o : Outside) where
  open o use {ip_texts, url_parts, is_global, allowed_cidrs}

  -- A URL whose host is neither a metadata endpoint nor an address that is neither global nor in a
  -- configured range.
  pub record IsReachable (value : String) : Type 0 where
    pub scheme : String
    pub host : String
    pub parsed : url_parts value ≡ some (scheme, some host)
    pub unblocked : mem_text host blocked_hosts ≡ false
    pub place :
        (a : Address)
        → ip_texts.ip_address host ≡ some a
        → (is_global a ≡ true) ⊎ Range ip_texts (λ n. admits_host ip_texts a n ≡ true) allowed_cidrs

  check_ok : (b : Bool) (e : ConfigError) → check b e ≡ ok tt → b ≡ true
  unfolding check
  check_ok true e h = refl
  check_ok false e h = cc

  -- Where an address may be.
  abbrev Place : Option Address → Type 0
  Place found =
      (a : Address)
      → found ≡ some a
      → (is_global a ≡ true) ⊎ Range ip_texts (λ n. admits_host ip_texts a n ≡ true) allowed_cidrs

  after_ranges_ok : (r : Result ScanError (Unit {0})) → after_ranges o r ≡ ok tt → r ≡ ok tt
  unfolding after_ranges
  after_ranges_ok (ok u) h = refl
  after_ranges_ok (err e) h = cc

  validate_place-Place : (found : Option Address) → validate_place o found ≡ ok tt → Place found
  unfolding validate_place
  validate_place-Place none h a e = cc
  validate_place-Place (some b) h a e =
      let q : b ≡ a = cc in
      subst
        (λ x.
          (is_global x ≡ true)
          ⊎ Range ip_texts (λ n. admits_host ip_texts x n ≡ true) allowed_cidrs)
        q
        (elim (Bool-cases (is_global b)) [
          | inl yes_ ↦ inl yes_
          | inr no_ ↦ inr (
              any_range_found ip_texts (admits_host ip_texts b) outside allowed_cidrs
                (after_ranges_ok _ (rw no_ at h)))
        ])

  validate_host-Place :
      (host : String)
      → validate_host o host ≡ ok tt
      → (mem_text host blocked_hosts ≡ false) × Place (ip_texts.ip_address host)
  unfolding validate_host
  validate_host-Place host h =
      let (u, unblocked, rest) =
        returned (check (not (mem_text host blocked_hosts)) ConfigError.blocked_target) _ _ h in
      (
        not-false (mem_text host blocked_hosts) (check_ok _ _ unblocked),
        validate_place-Place (ip_texts.ip_address host) rest,
      )

  validate_url-IsReachable : (f value : String) → validate_url o f value ≡ ok tt → IsReachable value
  unfolding validate_url
  validate_url-IsReachable f value h = parts (url_parts value) refl h
    where
      parts :
          (r : Option (String × Option String))
          → url_parts value ≡ r
          → validate_parts o f r ≡ ok tt
          → IsReachable value
      parts none e p = cc
      parts (some (scheme, none)) e p = cc
      parts (some (scheme, some host)) e p =
          let (u, named, rest) =
            returned
              (check (mem_text scheme (schemes o f) && not (str_eq host "")) ConfigError.bad_url) _
              _ p in
          let (unblocked, place) = validate_host-Place host rest in
          record { scheme = scheme; host = host; parsed = e; unblocked = unblocked; place = place }

  -- The text of a field is such a URL.
  pub FieldReaches : Settings → String → Type 0
  FieldReaches c f = (v : Value) × (get f c ≡ some v) × IsReachable (str_of o v)

  validate_value-FieldReaches :
      (f : String) (c : Settings) → validate_value o f (get f c) ≡ ok tt → FieldReaches c f
  unfolding FieldReaches validate_value
  validate_value-FieldReaches f c h = value (get f c) refl h
    where
      value :
          (v : Option Value)
          → get f c ≡ v
          → validate_value o f v ≡ ok tt
          → (w : Value) × (get f c ≡ some w) × IsReachable (str_of o w)
      value none e p = cc
      value (some v) e p = (v, e, validate_url-IsReachable f (str_of o v) p)

  validate_urls-FieldReaches :
      (fs : List String) (c : Settings) → validate_urls o fs c ≡ ok tt → All (FieldReaches c) fs
  unfolding validate_urls
  validate_urls-FieldReaches [] c h = tt
  validate_urls-FieldReaches (f ∷ fs) c h =
      let (u, one, rest) = returned (validate_value o f (get f c)) _ _ h in
      (validate_value-FieldReaches f c one, validate_urls-FieldReaches fs c rest)

  validate_with-urls :
      (s : Schema) (t : String) (c d : Settings)
      → validate_with o s t c ≡ ok d
      → validate_urls o s.urls c ≡ ok tt
  unfolding validate_with
  validate_with-urls s t c d h =
      let (u, p, h1) = returned (check (has_keys s.required c) ConfigError.missing_fields) _ _ h in
      let (v, q, h2) =
        returned (check (only_keys (s.required ++ s.optional) c) ConfigError.unknown_fields) _ _
          h1 in
      let (w, r, h3) = returned (validate_urls o s.urls c) _ _ h2 in r

  -- The settings of a connector are accepted only if each of its URLs has a host that is no metadata
  -- endpoint, and that, if it is an address, is global or in a configured range.
  pub validate_connector_config-FieldReaches :
      (t : String) (s : Schema) (c d : Settings)
      → find_schema t schemas ≡ some s
      → validate_connector_config o t c ≡ ok d
      → All (FieldReaches c) s.urls
  validate_connector_config-FieldReaches t s c d found h =
      validate_urls-FieldReaches s.urls c (validate_with-urls s t c d (under found h))
    where
      under :
          find_schema t schemas ≡ some s
          → validate_connector_config o t c ≡ ok d
          → validate_with o s t c ≡ ok d
      under e k =
          let q : validate_connector_config o t c ≡ validate_with o s t c =
            unfold validate_connector_config in rw (validate_connector_config, e) refl in
          sym q ∙ k
