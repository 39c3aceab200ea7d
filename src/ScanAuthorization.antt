-- ===== src/ScanAuthorization.antt =====
-- app/core/scan_authorization.py: which targets an active scan may have. The settings that the
-- source reads are arguments.
pub mod Boundary
pub mod Answers
mod Tests
use kepryx.Base.{
  ℕ, String, Bool, true, false, ◌&&◌, Option, none, some, List, [], ◌∷◌, ltb, Result, ok, err,
  ◌>>=◌, ◌>>◌, if◌then◌else◌,
}
use kepryx.Networks.{
  IpTexts, Address, Network, Version, v4, v6, num_addresses, subnet_of, contains, same_version,
}

-- The ScanAuthorizationErrors; `value_error` is an uncaught ValueError.
pub data ScanError : Type 0 where
  invalid_cidr too_many_hosts disabled invalid_policy outside not_a_host value_error : ScanError

abbrev pub or_raise : {A : Type 0} → Option A → ScanError → Result ScanError A
or_raise none e = err e
or_raise (some a) e = ok a

module _ (texts : IpTexts) where
  open texts use {ip_address, ip_network, ip_network_strict, print_address, print_network}

  pub normalize_scan_network : String → Result ScanError String
  normalize_scan_network cidr = do n ← or_raise (ip_network cidr) invalid_cidr; ok (print_network n)

  -- The loop over the approved ranges: the first that admits ends it.
  pub any_range : (Network → Bool) → ScanError → List String → Result ScanError (Unit {0})
  any_range admits missed [] = err missed
  any_range admits missed (value ∷ rest) = elim (ip_network value) [
    | none ↦ err invalid_policy
    | some allowed ↦
        let later = any_range admits missed rest in if admits allowed then ok tt else later
  ]

  -- `isinstance` of both on one side: networks of different versions never match.
  pub admits_network : Network → Network → Bool
  admits_network target allowed =
      same_version target.version allowed.version && subnet_of target allowed

  authorize_target : List String → ℕ → Network → Result ScanError String
  unfolding any_range admits_network
  authorize_target [] limit target =
      if ltb limit (num_addresses target) then err too_many_hosts else err disabled
  authorize_target (v ∷ vs) limit target =
      if ltb limit (num_addresses target)
      then err too_many_hosts
      else do any_range (admits_network target) outside (v ∷ vs); ok (print_network target)

  unfoldable pub authorize_scan_network : List String → ℕ → String → Result ScanError String
  unfolding normalize_scan_network authorize_target
  authorize_scan_network allowed limit cidr = do
    canonical ← normalize_scan_network cidr
    target ← or_raise (ip_network_strict canonical) value_error
    authorize_target allowed limit target

  pub admits_host : Address → Network → Bool
  admits_host host allowed = same_version host.version allowed.version && contains allowed host

  authorize_address : List String → Address → Result ScanError String
  unfolding any_range admits_host
  authorize_address [] host = err disabled
  authorize_address (v ∷ vs) host = do
    any_range (admits_host host) outside (v ∷ vs)
    ok (print_address host)

  unfoldable pub authorize_scan_host : List String → String → Result ScanError String
  unfolding authorize_address
  authorize_scan_host allowed target = do
    host ← or_raise (ip_address target) not_a_host
    authorize_address allowed host
