-- ===== src/Reconciler/Tests.antt =====
-- Tests of the reconciler, and instances of its theorems.
use kepryx.Base.{◌≡◌, refl, false, none, some, [], ◌∷◌, keep, str_eq, ok, err}
use kepryx.Networks.Texts.{sample}
use kepryx.Reconciler.State.{AssetRow, Db, HostData, missing, text, multiple_results}
use kepryx.Reconciler.{
  one_or_none, find_asset, find_by, or_find, has_mac, match_host, reconcile_host, is_overdue,
  detect_stale_assets,
}
use kepryx.Reconciler.Alerts.{IsDeduped, empty-IsDeduped}
use kepryx.Reconciler.Stale.{detect_stale_assets_done}

-- A scan's report of one server.
abbrev seen : HostData
seen = record {
  name = missing;
  hostname = text "db1";
  type = text "Server";
  os = missing;
  os_guess = text "Linux";
  ip = text "10.1.2.7";
  mac = text "aa";
  segment = missing;
  edr_status = missing;
  control_coverage = missing;
  network_exposure = missing;
  auth_method = missing;
  criticality = missing;
  data_classification = missing;
  software_stack = "pg" ∷ [];
  cpe = [];
  dependencies = [];
  services = record { is_empty = false; service = some "ssh" } ∷ [];
}

abbrev empty : Db
empty = record { assets = []; alerts = []; next_id = 1 }

-- The server as an EDR agent has reported it, long ago.
abbrev server : AssetRow
server = record {
  id = 1;
  name = some "db1";
  type = some "Server";
  os = some "Linux";
  ip = none;
  mac = some "aa";
  segment = some "Unknown";
  edr_status = some "None";
  control_coverage = some "none";
  network_exposure = some "internal";
  auth_method = some "password";
  criticality = some "medium";
  data_classification = some "Internal";
  software_stack = [];
  cpe = [];
  dependencies = [];
  sources = "edr_defender" ∷ [];
  last_seen = 100;
  is_shadow = false;
  is_stale = false;
  services = [];
}

abbrev one_server : Db
one_server = record { assets = server ∷ []; alerts = []; next_id = 2 }

two_of_a_mac :
    (reconcile_host sample str_eq 1000 1000 "nmap_scan" seen
      (record one_server { assets = server ∷ server ∷ [] })).0
    ≡ err multiple_results
unfolding reconcile_host match_host find_by find_asset or_find one_or_none has_mac
two_of_a_mac = refl

detect_stale_assets_done_example :
    let (r, after) = detect_stale_assets 5000000 5000000 30 one_server in
    (r ≡ ok 1)
    × (keep (is_overdue 5000000 30) after.assets ≡ [])
    × IsDeduped 5000000 after.alerts
    × (detect_stale_assets 5000000 5000000 30 after ≡ (ok 0, after))
unfolding is_overdue
detect_stale_assets_done_example =
    detect_stale_assets_done 5000000 5000000 30 one_server (empty-IsDeduped 5000000)
