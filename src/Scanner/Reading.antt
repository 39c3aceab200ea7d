-- ===== src/Scanner/Reading.antt =====
-- app/services/scanner.py: the hosts that the XML of nmap reports.
use kepryx.Base.{
  ℕ, String, Bool, true, false, ◌&&◌, ◌||◌, ◌==◌, leb, Option, none, some, List, [], ◌∷◌, map,
  str_eq, nonempty, strip, codes, if◌then◌else◌, Result, ok, err, ◌>>=◌,
}
use kepryx.ScanAuthorization.{ScanError}
use kepryx.Scanner.Xml.{
  Element, find, findall, attribute, attribute_of, find_in, findall_in, text_of,
}

-- What `discover` and `service_scan` raise: a refusal, ScanExecutionError, or ValueError of `int`.
pub data ScanFailure : Type 0 where
  refused : ScanError → ScanFailure
  execution value_error : ScanFailure

pub record FoundService : Type 0 where
  pub port : String
  pub protocol : Option String
  pub service : Option String
  pub product : Option String
  pub version : Option String
  pub cpe : List String

pub record DiscoveredHost : Type 0 where
  pub ip : String
  pub mac : Option String
  pub mac_vendor : Option String
  pub hostname : Option String
  pub os_guess : Option String
  pub state : String
  pub services : List FoundService
  pub last_seen : String

pub is_digit : ℕ → Bool
is_digit c = leb 48 c && leb c 57

-- Digits, with single underscores between them.
pub digits_follow : List ℕ → Bool
unfolding is_digit
digits_follow [] = true
digits_follow (c ∷ []) = is_digit c
digits_follow (c ∷ d ∷ rest) = (is_digit c || (c == 95 && is_digit d)) && digits_follow (d ∷ rest)

pub unsigned : List ℕ → Bool
unfolding is_digit digits_follow
unsigned [] = false
unsigned (c ∷ rest) = is_digit c && digits_follow rest

pub signed : List ℕ → Bool
unfolding unsigned
signed [] = false
signed (c ∷ rest) = if c == 43 || c == 45 then unsigned rest else unsigned (c ∷ rest)

-- Whether `int(text)` reads it; the port is kept as its text.
unfoldable pub is_int : String → Bool
unfolding signed
is_int s = signed (codes (strip s))

-- The addresses of a host, the last of each kind.
pub record Addresses : Type 0 where
  pub ip : Option String
  pub mac : Option String
  pub vendor : Option String

pub is_kind : String → Option String → Bool
is_kind kind none = false
is_kind kind (some k) = str_eq k kind

unfoldable pub read_addresses : List Element → Addresses → Addresses
unfolding is_kind
read_addresses [] found = found
read_addresses (a ∷ rest) found = read_addresses rest (
    if is_kind "ipv4" (attribute "addrtype" a)
    then record found { ip = attribute "addr" a }
    else if is_kind "mac" (attribute "addrtype" a)
    then record found { mac = attribute "addr" a; vendor = attribute "vendor" a }
    else found)

unfoldable pub is_open : Element → Bool
unfolding is_kind
is_open port = is_kind "open" (attribute_of "state" (find "state" port))

unfoldable pub port_id : Element → String
port_id port = elim (attribute "portid" port) [ none ↦ "0" | some p ↦ p ]

unfoldable pub read_service : Element → FoundService
unfolding port_id
read_service port =
    let svc = find "service" port in
    record {
      port = port_id port;
      protocol = attribute "protocol" port;
      service = attribute_of "name" svc;
      product = attribute_of "product" svc;
      version = attribute_of "version" svc;
      cpe = map text_of (findall_in "cpe" svc);
    }

unfoldable pub add_port :
    Element → Result ScanFailure (List FoundService) → Result ScanFailure (List FoundService)
unfolding is_open read_service is_int
add_port p later =
    if is_open p
    then (if is_int (port_id p)
        then (do services ← later; ok (read_service p ∷ services))
        else err value_error)
    else later

-- The loop over the ports.
unfoldable pub read_ports : List Element → Result ScanFailure (List FoundService)
unfolding add_port
read_ports [] = ok []
read_ports (p ∷ rest) = add_port p (read_ports rest)

unfoldable pub host_record : Element → Addresses → String → List FoundService → DiscoveredHost
host_record h a ip services = record {
  ip = ip;
  mac = a.mac;
  mac_vendor = a.vendor;
  hostname = attribute_of "name" (find_in "hostname" (find "hostnames" h));
  os_guess = attribute_of "name" (find_in "osmatch" (find "os" h));
  state = "up";
  services = services;
  last_seen = elim (attribute "endtime" h) [ none ↦ "" | some t ↦ t ];
}

-- A host once its address is known.
unfoldable pub host_at : Element → Addresses → String → Result ScanFailure DiscoveredHost
unfolding read_ports host_record
host_at h a ip = do
  services ← read_ports (findall_in "port" (find "ports" h))
  ok (host_record h a ip services)

unfoldable pub address_of : Element → Addresses
unfolding read_addresses
address_of h =
    read_addresses (findall "address" h) (record { ip = none; mac = none; vendor = none })

-- The address of a host that is up.
unfoldable pub up_address : Element → Option String
unfolding address_of is_kind
up_address h =
    if is_kind "up" (attribute_of "state" (find "status" h))
    then nonempty (address_of h).ip
    else none

unfoldable pub add_host :
    Element
    → Option String
    → Result ScanFailure (List DiscoveredHost)
    → Result ScanFailure (List DiscoveredHost)
unfolding host_at
add_host h none later = later
add_host h (some ip) later = do host ← host_at h (address_of h) ip; hosts ← later; ok (host ∷ hosts)

unfoldable pub read_hosts : List Element → Result ScanFailure (List DiscoveredHost)
unfolding up_address add_host
read_hosts [] = ok []
read_hosts (h ∷ rest) = add_host h (up_address h) (read_hosts rest)
