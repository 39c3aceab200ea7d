-- ===== src/ScanTasks/Hosts.antt =====
-- app/workers/scan_tasks.py: what is reported to the reconciler of a host.
use kepryx.Base.{String, false, Option, none, some, List, [], ◌∷◌, ◌++◌, map, or_else, nonempty}
use kepryx.Reconciler.State.{HostData, Entry, missing, null, text, Service}
use kepryx.Scanner.Reading.{DiscoveredHost, FoundService}

unfoldable pub entry_of : Option String → Entry
entry_of none = null
entry_of (some s) = text s

-- `[s.get("product") for s in services if s.get("product")]`.
pub products : List FoundService → List String
products [] = []
products (s ∷ rest) = elim (nonempty s.product) [
  | none ↦ products rest
  | some p ↦ p ∷ products rest
]

pub all_cpe : List FoundService → List String
all_cpe [] = []
all_cpe (s ∷ rest) = s.cpe ++ all_cpe rest

pub service_of : FoundService → Service
service_of s = record { is_empty = false; service = s.service }

-- The dict for a host; the first two arguments are its type and segment.
unfoldable pub host_data : Entry → Entry → DiscoveredHost → HostData
unfolding entry_of products all_cpe service_of
host_data type segment h = record {
  name = entry_of (or_else h.hostname (some h.ip));
  hostname = entry_of h.hostname;
  type = type;
  os = missing;
  os_guess = entry_of h.os_guess;
  ip = text h.ip;
  mac = entry_of h.mac;
  segment = segment;
  edr_status = missing;
  control_coverage = missing;
  network_exposure = missing;
  auth_method = missing;
  criticality = missing;
  data_classification = missing;
  software_stack = products h.services;
  cpe = all_cpe h.services;
  dependencies = [];
  services = map service_of h.services;
}
