-- ===== src/ScanTasks/Tests.antt =====
-- Tests of the scan tasks, and instances of their theorems.
use kepryx.Base.{◌≡◌, refl, str_eq, true, none, some, [], ◌∷◌, map}
use kepryx.Networks.Texts.{read_network, show_network}
use kepryx.Networks.{num_addresses, subnet_of, same_version}
use kepryx.ScanAuthorization.{authorize_scan_network}
use kepryx.Reconciler.Alerts.{empty-IsDeduped}
use kepryx.Scanner.{timed_out, discover}
use kepryx.Scanner.Sample.{config}
use kepryx.ScanTasks.{
  running, failed, ScanNetwork, World, run_all_network_scans, service_scan_host, scan_network,
}
use kepryx.ScanTasks.Runs.{Ran, run_all_network_scans-Ran}
use kepryx.ScanTasks.Targets.{
  IsGuarded, run_all_network_scans-IsGuarded, HostGuarded, service_scan_host-HostGuarded,
}

abbrev office : ScanNetwork
office = record { cidr = "10.1.2.0/24"; name = "Office"; enabled = true; excluded_ips = [] }

-- One scan was interrupted long ago; nmap runs into its time limit.
abbrev interrupted : World
interrupted = record {
  scans =
      record {
        target = "10.1.2.0/24";
        status = running;
        started_at = some 10;
        completed_at = none;
        hosts_found = 0;
      }
      ∷ [];
  tables = record { assets = []; alerts = []; next_id = 1 };
  shell = record { commands = []; runs = timed_out ∷ [] };
}

both_failed :
    map
      (λ s. s.status)
      (run_all_network_scans config str_eq 600 5000 (office ∷ []) interrupted).1.scans
    ≡ failed ∷ failed ∷ []
unfolding run_all_network_scans scan_network discover authorize_scan_network read_network
    show_network num_addresses subnet_of same_version
both_failed = refl

run_all_network_scans-Ran_example :
    Ran config str_eq 600 5000 interrupted.scans
      (run_all_network_scans config str_eq 600 5000 (office ∷ []) interrupted)
run_all_network_scans-Ran_example =
    run_all_network_scans-Ran config str_eq 600 5000 (office ∷ []) interrupted

run_all_network_scans-IsGuarded_example :
    IsGuarded config str_eq 5000
      (run_all_network_scans config str_eq 600 5000 (office ∷ []) interrupted).1
run_all_network_scans-IsGuarded_example =
    run_all_network_scans-IsGuarded config str_eq 600 5000 (office ∷ []) interrupted
      (record { aimed = tt; deduped = empty-IsDeduped 5000 })

service_scan_host-HostGuarded_example :
    HostGuarded config str_eq 5000 interrupted
      (service_scan_host config str_eq 5000 "10.1.2.7" interrupted)
service_scan_host-HostGuarded_example =
    service_scan_host-HostGuarded config str_eq 5000 "10.1.2.7" interrupted tt
      (empty-IsDeduped 5000)
