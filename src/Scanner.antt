-- ===== src/Scanner.antt =====
-- app/services/scanner.py: the commands that are given to nmap, and the hosts read from its XML. The
-- process and the XML reader are arguments; the time limit is one of the ways in which a process ends.
pub mod Reading
pub mod Xml
pub mod Hosts
pub mod Sample
mod Tests
use kepryx.Scanner.Reading.{
  Addresses, DiscoveredHost, FoundService, ScanFailure, add_host, add_port, address_of,
  digits_follow, execution, host_at, host_record, is_digit, is_int, is_kind, is_open, port_id,
  read_addresses, read_hosts, read_ports, read_service, refused, signed, unsigned, up_address,
  value_error,
}
use kepryx.Base.{
  ℕ, String, Bool, true, false, ◌&&◌, ◌||◌, ◌==◌, leb, Option, none, some, List, [], ◌∷◌, ◌++◌, map,
  str_eq, nonempty, strip, codes, append, join, if◌then◌else◌, Result, ok, err, ◌>>=◌, ◌>>◌,
}
use kepryx.Networks.{IpTexts}
use kepryx.ScanAuthorization.{ScanError, authorize_scan_network, authorize_scan_host}
use Xml.{Element, find, findall, attribute, attribute_of, find_in, findall_in, text_of}

-- How a process ends: by the time limit, by a missing program, or with its exit code and output.
pub data NmapRun : Type 0 where
  timed_out not_found : NmapRun
  exited : ℕ → String → NmapRun

-- The commands run, the latest first, and the ends that are still to come.
pub record Shell : Type 0 where
  pub commands : List (List String)
  pub runs : List NmapRun

pub next_run : List NmapRun → NmapRun × List NmapRun
next_run [] = (not_found, [])
next_run (r ∷ rest) = (r, rest)

-- The settings: `SCAN_NETWORKS`, the largest network and `NMAP_TIMING`.
pub record Config : Type 0 where
  pub texts : IpTexts
  pub from_xml : String → Option Element
  pub allowed : List String
  pub limit : ℕ
  pub timing : String

module _ (C : Config) where
  open C use {texts, from_xml, allowed, limit, timing}

  pub parse_xml : String → Result ScanFailure (List DiscoveredHost)
  unfolding read_hosts
  parse_xml xml = elim (from_xml xml) [
    | none ↦ err execution
    | some root ↦ read_hosts (findall "host" root)
  ]

  pub after_run : NmapRun → Result ScanFailure (List DiscoveredHost)
  unfolding parse_xml
  after_run timed_out = err execution
  after_run not_found = err execution
  after_run (exited code out) = if code == 0 then parse_xml out else err execution

  pub run : List String → Shell → Result ScanFailure (List DiscoveredHost) × Shell
  unfolding next_run after_run
  run args s =
      let (r, rest) = next_run s.runs in
      (after_run r, record { commands = args ∷ s.commands; runs = rest })

  pub discovery_args : List String → List String
  discovery_args [] =
      "nmap"
      ∷ "-sn"
      ∷ "-PR"
      ∷ "-PE"
      ∷ "-PA21,22,23,80,443,3389"
      ∷ append "-T" timing
      ∷ "-oX"
      ∷ "-"
      ∷ []
  discovery_args (x ∷ xs) =
      "nmap"
      ∷ "-sn"
      ∷ "-PR"
      ∷ "-PE"
      ∷ "-PA21,22,23,80,443,3389"
      ∷ append "-T" timing
      ∷ "-oX"
      ∷ "-"
      ∷ "--exclude"
      ∷ join "," (x ∷ xs)
      ∷ []

  pub discover_on :
      Result ScanError String
      → List String
      → Shell
      → Result ScanFailure (List DiscoveredHost) × Shell
  unfolding run discovery_args
  discover_on (err e) excluded s = (err (refused e), s)
  discover_on (ok cidr) excluded s = run (discovery_args excluded ++ cidr ∷ []) s

  unfoldable pub discover :
      String → List String → Shell → Result ScanFailure (List DiscoveredHost) × Shell
  unfolding discover_on
  discover cidr excluded s =
      discover_on (authorize_scan_network texts allowed limit cidr) excluded s

  pub service_args : List String
  service_args =
      "nmap"
      ∷ "-sV"
      ∷ "-p"
      ∷ "22,80,135,139,443,445,3389,5985,8080,8443"
      ∷ append "-T" timing
      ∷ "-oX"
      ∷ "-"
      ∷ []

  pub service_scan_on :
      Result ScanError String → Shell → Result ScanFailure (List DiscoveredHost) × Shell
  unfolding run service_args
  service_scan_on (err e) s = (err (refused e), s)
  service_scan_on (ok target) s = run (service_args ++ target ∷ []) s

  unfoldable pub service_scan : String → Shell → Result ScanFailure (List DiscoveredHost) × Shell
  unfolding service_scan_on
  service_scan target s = service_scan_on (authorize_scan_host texts allowed target) s
