-- ===== src/Scanner/Hosts.antt =====
-- What the scanner reads from nmap's output, and what it gives nmap to scan.
use kepryx.Base.{
  ◌≡◌, refl, ◌∙◌, String, Bool, true, false, Option, none, some, List, [], ◌∷◌, ◌++◌, map, keep,
  All, nonempty, Result, ok, err, Bool-cases, Option-cases, inl, inr, if◌then◌else◌,
}
use kepryx.ScanAuthorization.{ScanError, authorize_scan_network, authorize_scan_host}
use kepryx.ScanAuthorization.Boundary.{
  NetworkApproved, HostApproved, authorize_scan_network_within, authorize_scan_host_within,
}
use kepryx.Scanner.{
  Config, Shell, run, discover, discover_on, discovery_args, service_scan, service_scan_on,
  service_args,
}
use kepryx.Scanner.Reading.{
  DiscoveredHost, FoundService, Addresses, is_kind, is_int, is_open, port_id, read_addresses,
  read_service, add_port, read_ports, host_record, host_at, address_of, up_address, add_host,
  read_hosts,
}
use kepryx.Scanner.Xml.{Element, find, findall, findall_in, attribute, attribute_of}

-- The address of the last element of a kind.
pub last_address : String → List Element → Option String → Option String
last_address kind [] found = found
last_address kind (a ∷ rest) found =
    let later = last_address kind rest found in
    let here = last_address kind rest (attribute "addr" a) in
    if is_kind kind (attribute "addrtype" a) then here else later

unfoldable pub ports_of : Element → List Element
ports_of h = findall_in "port" (find "ports" h)

pub is_up : Element → Bool
is_up h = is_kind "up" (attribute_of "state" (find "status" h))

-- What a document reports: the last IPv4 address and the open ports of each host that is up.
unfoldable pub reported : List Element → List (String × List String)
unfolding last_address ports_of is_up
reported [] = []
reported (h ∷ rest) =
    let later = reported rest in
    if is_up h
    then elim (nonempty (last_address "ipv4" (findall "address" h) none)) [
      | none ↦ later
      | some ip ↦ (ip, map port_id (keep is_open (ports_of h))) ∷ later
    ]
    else later

pub found_of : DiscoveredHost → String × List String
found_of d = (d.ip, map (λ s. s.port) d.services)

-- The ports that are open have a number.
abbrev pub IsNumbered : Element → Type 0
IsNumbered h = All (λ p. is_open p ≡ true → is_int (port_id p) ≡ true) (ports_of h)

read_addresses-last_address :
    (xs : List Element) (found : Addresses)
    → (read_addresses xs found).ip ≡ last_address "ipv4" xs found.ip
unfolding read_addresses last_address
read_addresses-last_address [] found = refl
read_addresses-last_address (a ∷ rest) found = read_addresses-last_address rest _ ∙ chosen
  where
    chosen :
        last_address "ipv4" rest
          (if is_kind "ipv4" (attribute "addrtype" a)
            then record found { ip = attribute "addr" a }
            else if is_kind "mac" (attribute "addrtype" a)
            then record found { mac = attribute "addr" a; vendor = attribute "vendor" a }
            else found).ip
        ≡ last_address "ipv4" (a ∷ rest) found.ip
    chosen = elim (Bool-cases (is_kind "ipv4" (attribute "addrtype" a))) [
      | inl v4 ↦ rw v4
      | inr other ↦ elim (Bool-cases (is_kind "mac" (attribute "addrtype" a))) [
        | inl mac ↦ rw (other, mac)
        | inr neither ↦ rw (other, neither)
      ]
    ]

read_ports_lem :
    (ps : List Element)
    → All (λ p. is_open p ≡ true → is_int (port_id p) ≡ true) ps
    → (services : List FoundService) × (read_ports ps ≡ ok services)
      × (map (λ s. s.port) services ≡ map port_id (keep is_open ps))
unfolding read_ports add_port read_service
read_ports_lem [] n = ([], refl, refl)
read_ports_lem (p ∷ ps) n =
    let (services, e, f) = read_ports_lem ps n.1 in
    elim (Bool-cases (is_open p)) [
      | inl o ↦ let number = n.0 o in (read_service p ∷ services, rw (o, number, e), rw (o, f))
      | inr c ↦ (services, rw (c, e), rw (c, f))
    ]

-- The address that the loop over a host's addresses ends with.
address_of_lem : (h : Element) → (address_of h).ip ≡ last_address "ipv4" (findall "address" h) none
unfolding address_of
address_of_lem h = read_addresses-last_address (findall "address" h) _

host_at_lem :
    (h : Element) (a : Addresses) (ip : String)
    → IsNumbered h
    → (d : DiscoveredHost) × (host_at h a ip ≡ ok d)
      × (found_of d ≡ (ip, map port_id (keep is_open (ports_of h))))
unfolding host_at host_record ports_of found_of
host_at_lem h a ip n =
    let (services, e, f) = read_ports_lem (ports_of h) n in
    (host_record h a ip services, rw e, rw f)

up_address-down : (h : Element) → is_up h ≡ false → up_address h ≡ none
unfolding up_address is_up
up_address-down h e = rw e

up_address-up :
    (h : Element)
    → is_up h ≡ true
    → up_address h ≡ nonempty (last_address "ipv4" (findall "address" h) none)
unfolding up_address is_up
up_address-up h e = rw e (rw (address_of_lem h))

-- The hosts of a document whose open ports have numbers are read without an error: they are those
-- that are up and have an IPv4 address, in the document's order, each with the last such address
-- and with its open ports in their order.
pub read_hosts-reported :
    (hs : List Element)
    → All IsNumbered hs
    → (hosts : List DiscoveredHost) × (read_hosts hs ≡ ok hosts)
      × (map found_of hosts ≡ reported hs)
unfolding read_hosts reported add_host
read_hosts-reported [] n = ([], refl, refl)
read_hosts-reported (h ∷ hs) n =
    let (hosts, e, f) = read_hosts-reported hs n.1 in
    elim (Bool-cases (is_up h)) [
      | inr down ↦ (hosts, rw (up_address-down h down, e), rw (down, f))
      | inl up ↦ elim (Option-cases (nonempty (last_address "ipv4" (findall "address" h) none))) [
        | inl q ↦ (hosts, rw (up_address-up h up, q, e), rw (up, q, f))
        | inr (ip, q) ↦
            let (d, at, shown) = host_at_lem h (address_of h) ip n.0 in
            (d ∷ hosts, rw (up_address-up h up, q, at, e), rw (up, q, shown, f))
      ]
    ]

module _ (C : Config) where
  open C use {texts, allowed, limit}

  -- A command of nmap whose last argument is an approved network.
  pub record NetworkAimed (args : List String) : Type 0 where
    pub options : List String
    pub cidr : String
    pub target : String
    pub shape : args ≡ options ++ target ∷ []
    pub approved : NetworkApproved texts allowed limit cidr target

  pub record HostAimed (args : List String) : Type 0 where
    pub options : List String
    pub asked : String
    pub target : String
    pub shape : args ≡ options ++ target ∷ []
    pub approved : HostApproved texts allowed asked target

  -- Of what a discovery runs, each command has an approved network as its last argument.
  pub discover-NetworkAimed :
      (cidr : String) (excluded : List String) (s : Shell)
      → All NetworkAimed s.commands
      → All NetworkAimed (discover C cidr excluded s).1.commands
  unfolding discover discover_on run
  discover-NetworkAimed cidr excluded s h =
      aimed (authorize_scan_network texts allowed limit cidr) refl
    where
      aimed :
          (r : Result ScanError String)
          → authorize_scan_network texts allowed limit cidr ≡ r
          → All NetworkAimed (discover_on C r excluded s).1.commands
      aimed (err e) q = h
      aimed (ok target) q = (
        record {
          options = discovery_args C excluded;
          cidr = cidr;
          target = target;
          shape = refl;
          approved = authorize_scan_network_within texts allowed limit cidr target q;
        },
        h,
      )

  pub service_scan-HostAimed :
      (target : String) (s : Shell)
      → All HostAimed s.commands
      → All HostAimed (service_scan C target s).1.commands
  unfolding service_scan service_scan_on run
  service_scan-HostAimed target s h = aimed (authorize_scan_host texts allowed target) refl
    where
      aimed :
          (r : Result ScanError String)
          → authorize_scan_host texts allowed target ≡ r
          → All HostAimed (service_scan_on C r s).1.commands
      aimed (err e) q = h
      aimed (ok host) q = (
        record {
          options = service_args C;
          asked = target;
          target = host;
          shape = refl;
          approved = authorize_scan_host_within texts allowed target host q;
        },
        h,
      )
