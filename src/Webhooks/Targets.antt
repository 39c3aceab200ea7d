-- ===== src/Webhooks/Targets.antt =====
-- Where deliveries connect.
use kepryx.Base.{
  ◌≡◌, refl, ap, String, true, ◌⊎◌, Option, none, some, List, [], ◌∷◌, str_eq, nonempty, or_else,
  arith, Bool-cases, inl, inr,
}
use mathlib.Core.Path.{subst}
use kepryx.Networks.{Address}
use kepryx.Webhooks.{
  Outside, Lookup, addresses, gaierror, other_lookup_error, Target, pinned, blocked, unresolved,
  pick_next, pick, picked, resolve_public_ip, target_of, target,
}

or_else-either :
    (o : Option String) (x s : String) → or_else o (some x) ≡ some s → (o ≡ some s) ⊎ (x ≡ s)
or_else-either none x s e = inr (cc)
or_else-either (some t) x s e = elim (Bool-cases (str_eq t "")) [
  | inl q ↦ inr (ground arith)
  | inr q ↦ inl (ground arith)
]

nonempty-some : (o : Option String) (s : String) → nonempty o ≡ some s → o ≡ some s
nonempty-some none s e = cc
nonempty-some (some t) s e = elim (Bool-cases (str_eq t "")) [
  | inl q ↦ ground arith
  | inr q ↦ ground arith
]

module _ (X : Outside) where
  open X use {texts, is_global, getaddrinfo}

  -- The text of a global address.
  pub record IsPublic (ip : String) : Type 0 where
    pub address : Address
    pub reads : texts.ip_address ip ≡ some address
    pub global : is_global address ≡ true

  next-IsPublic :
      (x : String) (o : Option Address)
      → texts.ip_address x ≡ o
      → (skipped taken : Option String) (ip : String) → (skipped ≡ some ip → IsPublic ip)
      → (IsPublic x → taken ≡ some ip → IsPublic ip)
      → pick_next X o skipped taken ≡ some ip
      → IsPublic ip
  unfolding pick_next
  next-IsPublic x none p skipped taken ip f g e = f e
  next-IsPublic x (some a) p skipped taken ip f g e = elim (Bool-cases (is_global a)) [
    | inl q ↦ g (record { address = a; reads = p; global = q }) (rw q at e)
    | inr q ↦ cc (rw q at e)
  ]

  pick-IsPublic :
      (found : Option String) (ips : List String) (ip : String)
      → ((s : String) → found ≡ some s → IsPublic s)
      → pick X found ips ≡ some ip
      → IsPublic ip
  unfolding pick
  pick-IsPublic found [] ip h e = h ip (nonempty-some found ip e)
  pick-IsPublic found (x ∷ xs) ip h e =
      next-IsPublic x (texts.ip_address x) refl (pick X found xs)
        (pick X (or_else found (some x)) xs) ip (pick-IsPublic found xs ip h)
        (λ known. pick-IsPublic (or_else found (some x)) xs ip (λ s q.
          elim (or_else-either found x s q) [ inl p ↦ h s p | inr p ↦ subst IsPublic p known ]))
        e

  abbrev pinned_address : Target → Option String
  pinned_address (pinned ip) = some ip
  pinned_address blocked = none
  pinned_address unresolved = none

  picked-IsPublic :
      (o : Option String) (ip : String)
      → ((s : String) → o ≡ some s → IsPublic s)
      → pinned_address (picked X o) ≡ some ip
      → IsPublic ip
  unfolding picked
  picked-IsPublic none ip h e = cc
  picked-IsPublic (some x) ip h e = h ip e

  found-IsPublic :
      (l : Lookup) (ip : String) → pinned_address (resolve_public_ip X l) ≡ some ip → IsPublic ip
  unfolding resolve_public_ip
  found-IsPublic (addresses ips) ip e =
      picked-IsPublic (pick X none ips) ip (λ s q. pick-IsPublic none ips s (λ t z. cc) q) e
  found-IsPublic gaierror ip e = cc
  found-IsPublic other_lookup_error ip e = cc

  literal-IsPublic :
      (hostname ip : String) (o : Option Address)
      → texts.ip_address hostname ≡ o
      → pinned_address (target_of X o hostname) ≡ some ip
      → IsPublic ip
  unfolding target_of
  literal-IsPublic hostname ip none p e = found-IsPublic (getaddrinfo hostname) ip e
  literal-IsPublic hostname ip (some a) p e = elim (Bool-cases (is_global a)) [
    | inl g ↦
        let same : texts.print_address a ≡ ip =
          ap (λ o. elim o [ none ↦ ip | some x ↦ x ]) (rw g at e) in
        subst IsPublic same
          (record { address = a; reads = texts.address-print hostname a p; global = g })
    | inr g ↦ cc (rw g at e)
  ]

  pub target-IsPublic : (hostname ip : String) → target X hostname ≡ pinned ip → IsPublic ip
  unfolding target
  target-IsPublic hostname ip e =
      literal-IsPublic hostname ip (texts.ip_address hostname) refl (ap pinned_address e)
