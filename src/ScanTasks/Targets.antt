-- ===== src/ScanTasks/Targets.antt =====
-- What holds of the commands and of the asset tables through every network of a run.
use mathlib.Core.Path.{subst}
use kepryx.Base.{
  ℕ, ◌≡◌, refl, sym, length, String, Bool, Option, none, List, [], ◌∷◌, map, keep, All, Result, ok,
  err,
}
use kepryx.ScanAuthorization.{
  ScanError, value_error, invalid_cidr, too_many_hosts, disabled, invalid_policy, outside,
  not_a_host, authorize_scan_network,
}
use kepryx.Reconciler.State.{Db, DbError, HostData, text, missing}
use kepryx.Reconciler.Alerts.{IsDeduped}
use kepryx.Reconciler.Report.{reconcile_all-IsDeduped}
use kepryx.Scanner.{Config, service_scan}
use kepryx.Scanner.Reading.{DiscoveredHost, ScanFailure}
use kepryx.Scanner.Hosts.{NetworkAimed, HostAimed, discover-NetworkAimed, service_scan-HostAimed}
use kepryx.ScanTasks.{
  Scan, ScanNetwork, World, Ending, skipped, found, ended_failed, crashed, Totals, fail_scan,
  after_hosts, after_discovery, reconcile_hosts, scan_started, scan_checked, scan_network,
  after_network, scan_all, run_all_network_scans, HostSummary, after_service_scan,
  after_service_hosts, service_scan_host, begin_scan, end_scan, started,
}
use kepryx.ScanTasks.Hosts.{host_data}

module _ (C : Config) (same_mac : String → String → Bool) where
  open C use {texts, allowed, limit}

  module _ (P : World → Type 0) where
    after_network-keeps :
        (e : Ending) (t : Totals) (next : Totals → World → Option Totals × World) (w : World)
        → ((u : Totals) → P (next u w).1)
        → P w
        → P (after_network e t next w).1
    unfolding after_network
    after_network-keeps crashed t next w later h = h
    after_network-keeps skipped t next w later h = later _
    after_network-keeps (found n) t next w later h = later _
    after_network-keeps ended_failed t next w later h = later _

    scan_all-keeps :
        (now : ℕ)
        → ((n : ScanNetwork) (w : World) → P w → P (scan_network C same_mac now n w).1)
        → (networks : List ScanNetwork) (t : Totals) (w : World) → P w
        → P (scan_all C same_mac now networks t w).1
    unfolding scan_all
    scan_all-keeps now step [] t w h = h
    scan_all-keeps now step (n ∷ rest) t w h =
        let (e, after) = scan_network C same_mac now n w in
        after_network-keeps e t (scan_all C same_mac now rest) after
          (λ u. scan_all-keeps now step rest u after (step n w h)) (step n w h)

  after_hosts-commands :
      (now : ℕ) (s : Scan) (n : ℕ) (r : Result DbError (Unit {0}) × Db) (w : World)
      → (after_hosts now s n r w).1.shell ≡ w.shell
  unfolding after_hosts end_scan fail_scan
  after_hosts-commands now s n (ok u, tables) w = refl
  after_hosts-commands now s n (err e, tables) w = refl

  reconcile_hosts-IsDeduped :
      (now : ℕ) (hs : List HostData) (db : Db)
      → IsDeduped now db.alerts
      → IsDeduped now (reconcile_hosts C same_mac now hs db).1.alerts
  unfolding reconcile_hosts
  reconcile_hosts-IsDeduped now hs db h =
      reconcile_all-IsDeduped texts same_mac now "nmap_scan" hs db h

  after_hosts-IsDeduped :
      (now : ℕ) (s : Scan) (n : ℕ) (r : Result DbError (Unit {0}) × Db) (w : World)
      → IsDeduped now r.1.alerts
      → IsDeduped now w.tables.alerts
      → IsDeduped now (after_hosts now s n r w).1.tables.alerts
  unfolding after_hosts end_scan fail_scan
  after_hosts-IsDeduped now s n (ok u, tables) w k h = k
  after_hosts-IsDeduped now s n (err e, tables) w k h = h

  -- What holds of a world in which no command of nmap left the approved networks, and no alert is
  -- repeated within a day.
  pub record IsGuarded (now : ℕ) (w : World) : Type 0 where
    pub aimed : All (NetworkAimed C) w.shell.commands
    pub deduped : IsDeduped now w.tables.alerts

  after_discovery-IsGuarded :
      (now : ℕ) (n : ScanNetwork) (s : Scan) (r : Result ScanFailure (List DiscoveredHost))
      (w : World)
      → IsGuarded now w
      → IsGuarded now (after_discovery C same_mac now n s r w).1
  unfolding after_discovery fail_scan end_scan
  after_discovery-IsGuarded now n s (err e) w g = record { aimed = g.aimed; deduped = g.deduped }
  after_discovery-IsGuarded now n s (ok hosts) w g =
      let reports = map (host_data (text "Unknown") (text n.name)) hosts in
      let left = reconcile_hosts C same_mac now reports w.tables in
      record {
        aimed =
            subst (λ sh. All (NetworkAimed C) sh.commands)
              (sym (after_hosts-commands now s (length hosts) left w)) g.aimed;
        deduped =
            after_hosts-IsDeduped now s (length hosts) left w
              (reconcile_hosts-IsDeduped now reports w.tables g.deduped) g.deduped;
      }

  scan_checked-IsGuarded :
      (now : ℕ) (n : ScanNetwork) (r : Result ScanError String) (w : World)
      → IsGuarded now w
      → IsGuarded now (scan_checked C same_mac now n r w).1
  unfolding scan_checked scan_started begin_scan
  scan_checked-IsGuarded now n (err value_error) w g = g
  scan_checked-IsGuarded now n (err invalid_cidr) w g = g
  scan_checked-IsGuarded now n (err too_many_hosts) w g = g
  scan_checked-IsGuarded now n (err disabled) w g = g
  scan_checked-IsGuarded now n (err invalid_policy) w g = g
  scan_checked-IsGuarded now n (err outside) w g = g
  scan_checked-IsGuarded now n (err not_a_host) w g = g
  scan_checked-IsGuarded now n (ok _) w g =
      after_discovery-IsGuarded now n (started now n) _ _ (record {
        aimed = discover-NetworkAimed C n.cidr n.excluded_ips w.shell g.aimed;
        deduped = g.deduped;
      })

  -- If every command of nmap so far had an approved network as its last argument, and no open alert
  -- of the last day was repeated, then both still hold after a run over all networks, whichever
  -- networks the table has and however the scans and the merges end.
  pub run_all_network_scans-IsGuarded :
      (timeout now : ℕ) (networks : List ScanNetwork) (w : World)
      → IsGuarded now w
      → IsGuarded now (run_all_network_scans C same_mac timeout now networks w).1
  unfolding run_all_network_scans scan_network
  run_all_network_scans-IsGuarded timeout now networks w g =
      scan_all-keeps (IsGuarded now) now
        (λ n v h.
          scan_checked-IsGuarded now n (authorize_scan_network texts allowed limit n.cidr) v h)
        (keep (λ n. n.enabled) networks) _ _ (record { aimed = g.aimed; deduped = g.deduped })

  -- After a service scan of one host every command of nmap still has an approved host as its last
  -- argument, and no alert is repeated; if the scan or a merge fails, the tables are as before.
  pub record HostGuarded (now : ℕ) (before : World) (r : Option HostSummary × World) : Type 0 where
    pub aimed : All (HostAimed C) r.1.shell.commands
    pub deduped : IsDeduped now r.1.tables.alerts
    pub failure : r.0 ≡ none → r.1.tables ≡ before.tables
    pub scans : r.1.scans ≡ before.scans

  after_service_scan-HostGuarded :
      (now : ℕ) (before : World) (r : Result ScanFailure (List DiscoveredHost)) (w : World)
      → All (HostAimed C) w.shell.commands
      → IsDeduped now w.tables.alerts
      → w.tables ≡ before.tables
      → w.scans ≡ before.scans
      → HostGuarded now before (after_service_scan C same_mac now r w)
  unfolding after_service_scan after_service_hosts
  after_service_scan-HostGuarded now before (err e) w a d t s = record {
    aimed = a;
    deduped = d;
    failure = λ _. t;
    scans = s;
  }
  after_service_scan-HostGuarded now before (ok []) w a d t s = record {
    aimed = a;
    deduped = d;
    failure = λ _. t;
    scans = s;
  }
  after_service_scan-HostGuarded now before (ok (h ∷ hosts)) w a d t s =
      let reports = map (host_data missing missing) (h ∷ hosts) in
      merged (reconcile_hosts C same_mac now reports w.tables)
        (reconcile_hosts-IsDeduped now reports w.tables d)
    where
      merged :
          (m : Result DbError (Unit {0}) × Db)
          → IsDeduped now m.1.alerts
          → HostGuarded now before (after_service_hosts (length h.services) m w)
      merged (ok u, tables) k = record { aimed = a; deduped = k; failure = λ p. cc; scans = s }
      merged (err e, tables) k = record { aimed = a; deduped = d; failure = λ _. t; scans = s }

  -- The same of the task that scans the services of one host, from commands and alerts for which it
  -- holds.
  pub service_scan_host-HostGuarded :
      (now : ℕ) (ip : String) (w : World)
      → All (HostAimed C) w.shell.commands
      → IsDeduped now w.tables.alerts
      → HostGuarded now w (service_scan_host C same_mac now ip w)
  unfolding service_scan_host
  service_scan_host-HostGuarded now ip w a d =
      after_service_scan-HostGuarded now w (service_scan C ip w.shell).0 _
        (service_scan-HostAimed C ip w.shell a) d refl refl
