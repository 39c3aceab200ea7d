-- ===== src/ScanAuthorization/Answers.antt =====
-- The targets inside an approved range are approved, and the errors of a refusal.

use kepryx.Base.{
  ℕ, ◌≤◌, ◌≡◌, ◌≢◌, refl, sym, ◌∙◌, String, Bool, true, false, none, some, List, [], ◌∷◌, ◌++◌, All,
  ltb, Result, ok, err, ◌>>=◌, arith, Bool-cases, Option-cases, inl, inr,
}
use kepryx.Networks.{IpTexts, Network, num_addresses, subnet_of}
use kepryx.Networks.Membership.{same_version_refl}
use kepryx.ScanAuthorization.{
  ScanError, outside, or_raise, any_range, admits_network, normalize_scan_network, authorize_target,
  authorize_scan_network,
}
use kepryx.ScanAuthorization.Boundary.{
  any_range-cons, any_range-none, authorize_scan_network_within,
}

module _ (texts : IpTexts) where
  open texts use {ip_address, ip_network, ip_network_strict, print_address, print_network}

  any_range_reaches :
      (admits : Network → Bool) (missed : ScanError) (ls : List String) (v : String)
      (rs : List String) (n : Network)
      → All (λ w. ip_network w ≢ none) ls
      → ip_network v ≡ some n
      → admits n ≡ true
      → any_range texts admits missed (ls ++ v ∷ rs) ≡ ok tt
  any_range_reaches admits missed [] v rs n valid e h =
      any_range-cons texts admits missed v rs n e ∙ (rw h)
  any_range_reaches admits missed (w ∷ ls) v rs n valid e h = elim (Option-cases (ip_network w)) [
    | inl q ↦ absurd (valid.0 q)
    | inr (m, q) ↦ elim (Bool-cases (admits m)) [
      | inl a ↦ any_range-cons texts admits missed w (ls ++ v ∷ rs) m q ∙ (rw a)
      | inr a ↦
          any_range-cons texts admits missed w (ls ++ v ∷ rs) m q
          ∙ (rw a (any_range_reaches admits missed ls v rs n valid.1 e h))
    ]
  ]

  authorize_target_admits :
      (allowed : List String) (limit : ℕ) (target : Network)
      → allowed ≢ []
      → num_addresses target ≤ limit
      → any_range texts (admits_network texts target) outside allowed ≡ ok tt
      → authorize_target texts allowed limit target ≡ ok (print_network target)
  unfolding authorize_target
  authorize_target_admits [] limit target ne fits found = absurd (ne refl)
  authorize_target_admits (v ∷ vs) limit target ne fits found =
      let small : ltb limit (num_addresses target) ≡ false = ground arith in rw small (rw found)

  -- A network of at most the limit's addresses that is a subnet of a configured range is approved,
  -- if the ranges listed before that one are valid.
  authorize_scan_network_admits :
      (ls : List String) (v : String) (rs : List String) (limit : ℕ) (cidr : String)
      (target n : Network)
      → All (λ w. ip_network w ≢ none) ls
      → ip_network v ≡ some n
      → ip_network cidr ≡ some target
      → target.version ≡ n.version
      → subnet_of target n ≡ true
      → num_addresses target ≤ limit
      → authorize_scan_network texts (ls ++ v ∷ rs) limit cidr ≡ ok (print_network target)
  unfolding authorize_scan_network normalize_scan_network
  authorize_scan_network_admits ls v rs limit cidr target n valid e parsed same sub fits =
      rw (parsed) (
        rw (texts.strict-print cidr target parsed) (
          authorize_target_admits (ls ++ v ∷ rs) limit target (nonempty ls) fits
            (any_range_reaches (admits_network texts target) outside ls v rs n valid e admitted)))
    where
      nonempty : (ks : List String) → ks ++ v ∷ rs ≢ []
      nonempty [] p = cc
      nonempty (k ∷ ks) p = cc

      admitted : admits_network texts target n ≡ true
      admitted = unfold admits_network in simp (same, same_version_refl n.version) sub

  -- What is returned for an approved network is approved again, as itself.
  authorize_scan_network_again :
      (allowed : List String) (limit : ℕ) (cidr s : String)
      → authorize_scan_network texts allowed limit cidr ≡ ok s
      → authorize_scan_network texts allowed limit s ≡ ok s
  authorize_scan_network_again allowed limit cidr s h =
      let a = authorize_scan_network_within texts allowed limit cidr s h in
      rw a.printed (
        same_target cidr (print_network a.target) a.target a.parsed
          (texts.network-print cidr a.target a.parsed)
        ∙ (rw (← a.printed) h))
    where
      same_target :
          (c d : String) (t : Network)
          → ip_network c ≡ some t
          → ip_network d ≡ some t
          → authorize_scan_network texts allowed limit d
            ≡ authorize_scan_network texts allowed limit c
      same_target c d t p q = unfold authorize_scan_network normalize_scan_network in rw (p, q)

  any_range_raises :
      (admits : Network → Bool) (vs : List String)
      → any_range texts admits outside vs ≢ err ScanError.value_error
  unfolding any_range
  any_range_raises admits [] h = cc
  any_range_raises admits (v ∷ vs) h = elim (Option-cases (ip_network v)) [
    | inl e ↦ cc (any_range-none texts admits outside v vs e)
    | inr (n, e) ↦ elim (Bool-cases (admits n)) [
      | inl yes_ ↦
          let p : ok tt ≡ err ScanError.value_error =
            sym (any_range-cons texts admits outside v vs n e ∙ (rw yes_)) ∙ h in
          cc
      | inr no_ ↦
          any_range_raises admits vs
            (sym (any_range-cons texts admits outside v vs n e ∙ (rw no_)) ∙ h)
    ]
  ]

  authorize_target_raises :
      (allowed : List String) (limit : ℕ) (target : Network)
      → authorize_target texts allowed limit target ≢ err ScanError.value_error
  unfolding authorize_target
  authorize_target_raises [] limit target h = elim (Bool-cases (ltb limit (num_addresses target))) [
    | inl big ↦ cc (rw big at h)
    | inr fits ↦ cc (rw fits at h)
  ]
  authorize_target_raises (v ∷ vs) limit target h =
      elim (Bool-cases (ltb limit (num_addresses target))) [
        | inl big ↦ cc (rw big at h)
        | inr fits ↦
            ranged (any_range texts (admits_network texts target) outside (v ∷ vs)) refl
              (rw fits at h)
      ]
    where
      ranged :
          (r : Result ScanError (Unit {0}))
          → any_range texts (admits_network texts target) outside (v ∷ vs) ≡ r
          → (r >>= λ _. ok (print_network target)) ≢ err ScanError.value_error
      ranged (ok u) e p = cc
      ranged (err x) e p = any_range_raises (admits_network texts target) (v ∷ vs) (e ∙ (cc p))

  -- The check of a network raises nothing but ScanAuthorizationError.
  pub authorize_scan_network_raises :
      (allowed : List String) (limit : ℕ) (cidr : String)
      → authorize_scan_network texts allowed limit cidr ≢ err ScanError.value_error
  unfolding authorize_scan_network normalize_scan_network
  authorize_scan_network_raises allowed limit cidr h = elim (Option-cases (ip_network cidr)) [
    | inl e ↦ cc (rw e at h)
    | inr (target, e) ↦
        let h1 : (or_raise (ip_network_strict (print_network target)) ScanError.value_error
              >>= authorize_target texts allowed limit)
            ≡ err ScanError.value_error =
          rw e at h in
        authorize_target_raises allowed limit target (rw (texts.strict-print cidr target e) at h1)
  ]
