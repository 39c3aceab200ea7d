-- ===== src/ScanAuthorization/Boundary.antt =====
-- An approved target lies inside an approved range.
use mathlib.Core.List.{Mem, mem-cons_self, mem-cons_of_mem}
use kepryx.Base.{
  ℕ, ◌≤◌, ◌≡◌, sym, ◌∙◌, String, Bool, true, false, none, some, List, [], ◌∷◌, ltb, ok, err, ◌>>=◌,
  arith, Bool-cases, Option-cases, inl, inr, returned, if◌then◌else◌,
}
use kepryx.Networks.{IpTexts, Address, Network, num_addresses, contains}
use kepryx.Networks.Membership.{contains-subnet_of, same_version_eq}
use kepryx.ScanAuthorization.{
  ScanError, invalid_policy, outside, or_raise, any_range, admits_network, admits_host,
  normalize_scan_network, authorize_target, authorize_scan_network, authorize_address,
  authorize_scan_host,
}

module _ (texts : IpTexts) where
  open texts use {ip_address, ip_network, ip_network_strict, print_address, print_network}

  -- A configured range that satisfies a test.
  pub record Range (p : Network → Type 0) (allowed : List String) : Type 0 where
    pub text : String
    pub network : Network
    pub listed : Mem text allowed
    pub parsed : ip_network text ≡ some network
    pub holds : p network

  Range-cons :
      (p : Network → Type 0) (v : String) (vs : List String) → Range p vs → Range p (v ∷ vs)
  Range-cons p v vs r = record {
    text = r.text;
    network = r.network;
    listed = mem-cons_of_mem v r.listed;
    parsed = r.parsed;
    holds = r.holds;
  }

  pub any_range-cons :
      (admits : Network → Bool) (missed : ScanError) (v : String) (vs : List String) (n : Network)
      → ip_network v ≡ some n
      → any_range texts admits missed (v ∷ vs)
        ≡ (if admits n then ok tt else any_range texts admits missed vs)
  unfolding any_range
  any_range-cons admits missed v vs n e = rw (e, any_range)

  pub any_range-none :
      (admits : Network → Bool) (missed : ScanError) (v : String) (vs : List String)
      → ip_network v ≡ none
      → any_range texts admits missed (v ∷ vs) ≡ err invalid_policy
  unfolding any_range
  any_range-none admits missed v vs e = rw (e, any_range)

  pub any_range_found :
      (admits : Network → Bool) (missed : ScanError) (vs : List String)
      → any_range texts admits missed vs ≡ ok tt
      → Range (λ n. admits n ≡ true) vs
  unfolding any_range
  any_range_found admits missed [] h = cc
  any_range_found admits missed (v ∷ vs) h = elim (Option-cases (ip_network v)) [
    | inl e ↦ cc (any_range-none admits missed v vs e)
    | inr (n, e) ↦ elim (Bool-cases (admits n)) [
      | inl yes_ ↦ record {
        text = v;
        network = n;
        listed = mem-cons_self;
        parsed = e;
        holds = yes_;
      }
      | inr no_ ↦
          Range-cons (λ m. admits m ≡ true) v vs
            (any_range_found admits missed vs (skipped n e no_))
    ]
  ]
    where
      skipped :
          (n : Network)
          → ip_network v ≡ some n
          → admits n ≡ false
          → any_range texts admits missed vs ≡ ok tt
      skipped n e m = sym (any_range-cons admits missed v vs n e ∙ (rw m)) ∙ h

  -- What an approved network is.
  pub record NetworkApproved (allowed : List String) (limit : ℕ) (cidr s : String) : Type 0 where
    pub target : Network
    pub parsed : ip_network cidr ≡ some target
    pub printed : s ≡ print_network target
    pub size : num_addresses target ≤ limit
    pub range : Range (λ n. (a : Address) → contains target a ≡ true → contains n a ≡ true) allowed

  approve :
      (vs : List String) (target : Network) (s : String)
      → (any_range texts (admits_network texts target) outside vs >>= λ _.
          ok (print_network target))
        ≡ ok s
      → (any_range texts (admits_network texts target) outside vs ≡ ok tt)
        × (s ≡ print_network target)
  approve vs target s h =
      let (u, e, p) = returned (any_range texts (admits_network texts target) outside vs) _ _ h in
      (e, ground (arith, p))

  authorize_target_ok :
      (allowed : List String) (limit : ℕ) (target : Network) (s : String)
      → authorize_target texts allowed limit target ≡ ok s
      → (num_addresses target ≤ limit)
        × (any_range texts (admits_network texts target) outside allowed ≡ ok tt)
        × (s ≡ print_network target)
  unfolding authorize_target
  authorize_target_ok [] limit target s h = ground arith
  authorize_target_ok (v ∷ vs) limit target s h =
      elim (Bool-cases (ltb limit (num_addresses target))) [
        | inl big ↦ ground arith
        | inr fits ↦ let (e, p) = approve (v ∷ vs) target s (rw fits at h) in (ground arith, e, p)
      ]

  Range-map :
      (p q : Network → Type 0) (vs : List String)
      → ((v : String) (n : Network) → ip_network v ≡ some n → p n → q n)
      → Range p vs
      → Range q vs
  Range-map p q vs f r = record {
    text = r.text;
    network = r.network;
    listed = r.listed;
    parsed = r.parsed;
    holds = f r.text r.network r.parsed r.holds;
  }

  admits_network-contains :
      (target : Network) (v : String) (n : Network)
      → ip_network v ≡ some n
      → admits_network texts target n ≡ true
      → (a : Address) → contains target a ≡ true
      → contains n a ≡ true
  unfolding admits_network
  admits_network-contains target v n e h a inside =
      contains-subnet_of target n a (texts.network_IsNetwork v n e)
        (same_version_eq target.version n.version (ground arith)) (ground arith) inside

  -- A network that the scanner is given has no more addresses than the limit, and all of them lie in
  -- one of the configured ranges; what is returned is the canonical text of the network asked for.
  pub authorize_scan_network_within :
      (allowed : List String) (limit : ℕ) (cidr s : String)
      → authorize_scan_network texts allowed limit cidr ≡ ok s
      → NetworkApproved allowed limit cidr s
  unfolding authorize_scan_network normalize_scan_network
  authorize_scan_network_within allowed limit cidr s h = elim (Option-cases (ip_network cidr)) [
    | inl e ↦ cc (rw e at h)
    | inr (target, e) ↦
        let h1 : (or_raise (ip_network_strict (print_network target)) ScanError.value_error
              >>= authorize_target texts allowed limit)
            ≡ ok s =
          rw e at h in
        let h2 : authorize_target texts allowed limit target ≡ ok s =
          rw (texts.strict-print cidr target e) at h1 in
        let (size, found, printed) = authorize_target_ok allowed limit target s h2 in
        record {
          target = target;
          parsed = e;
          printed = printed;
          size = size;
          range =
              Range-map _ _ allowed (admits_network-contains target)
                (any_range_found (admits_network texts target) outside allowed found);
        }
  ]

  -- What an approved host is.
  pub record HostApproved (allowed : List String) (target s : String) : Type 0 where
    pub host : Address
    pub parsed : ip_address target ≡ some host
    pub printed : s ≡ print_address host
    pub range : Range (λ n. contains n host ≡ true) allowed

  authorize_address_ok :
      (allowed : List String) (host : Address) (s : String)
      → authorize_address texts allowed host ≡ ok s
      → (any_range texts (admits_host texts host) outside allowed ≡ ok tt)
        × (s ≡ print_address host)
  unfolding authorize_address
  authorize_address_ok [] host s h = ground arith
  authorize_address_ok (v ∷ vs) host s h =
      let (u, e, p) = returned (any_range texts (admits_host texts host) outside (v ∷ vs)) _ _ h in
      (e, ground (arith, p))

  admits_host-contains :
      (host : Address) (n : Network) → admits_host texts host n ≡ true → contains n host ≡ true
  unfolding admits_host
  admits_host-contains host n a = ground arith

  -- A host that the service scan is given is a single address inside a configured range.
  pub authorize_scan_host_within :
      (allowed : List String) (target s : String)
      → authorize_scan_host texts allowed target ≡ ok s
      → HostApproved allowed target s
  unfolding authorize_scan_host
  authorize_scan_host_within allowed target s h = elim (Option-cases (ip_address target)) [
    | inl e ↦ cc (rw e at h)
    | inr (host, e) ↦
        let (found, printed) = authorize_address_ok allowed host s (rw e at h) in
        record {
          host = host;
          parsed = e;
          printed = printed;
          range =
              Range-map _ _ allowed (λ v n q a. admits_host-contains host n a)
                (any_range_found (admits_host texts host) outside allowed found);
        }
  ]
