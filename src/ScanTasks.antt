-- ===== src/ScanTasks.antt =====
-- app/workers/scan_tasks.py: the discovery of all networks, and the service scan of one host. One
-- reading of the clock, in seconds, serves a run; a rollback gives back the tables of the reconciler
-- as they were at the last commit, and expires the rows of the session if a transaction was open.
pub mod Hosts
pub mod Runs
pub mod Targets
mod Tests
use kepryx.ScanTasks.Hosts.{all_cpe, entry_of, host_data, products, service_of}
use kepryx.Base.{
  ℕ, ◌+◌, ◌*◌, String, Bool, true, false, ◌&&◌, Option, none, some, List, [], ◌∷◌, ◌++◌, map,
  length, ltb, ◌==◌, or_else, nonempty, keep, if◌then◌else◌, Result, ok, err, give, chain,
}
use kepryx.ScanAuthorization.{
  ScanError, value_error, invalid_cidr, too_many_hosts, disabled, invalid_policy, outside,
  not_a_host, authorize_scan_network,
}
use kepryx.Reconciler.State.{Db, DbError, HostData, Entry, missing, null, text, Service}
use kepryx.Reconciler.{DbAction, reconcile_all}
use kepryx.Scanner
use kepryx.Scanner.{Config, Shell, discover, service_scan}
use kepryx.Scanner.Reading.{DiscoveredHost, FoundService, ScanFailure}

pub data ScanStatus : Type 0 where
  pending running completed failed : ScanStatus

pub record Scan : Type 0 where
  pub target : String
  pub status : ScanStatus
  pub started_at : Option ℕ
  pub completed_at : Option ℕ
  pub hosts_found : ℕ

pub record ScanNetwork : Type 0 where
  pub cidr : String
  pub name : String
  pub enabled : Bool
  pub excluded_ips : List String

-- The tables that the tasks write, and nmap.
pub record World : Type 0 where
  pub scans : List Scan
  pub tables : Db
  pub shell : Shell

pub is_running : ScanStatus → Bool
is_running running = true
is_running _ = false

-- `started_at < now - 2 * SCAN_TIMEOUT_SEC`.
pub is_stuck : ℕ → ℕ → Scan → Bool
unfolding is_running
is_stuck now timeout s =
    is_running s.status && elim s.started_at [ none ↦ false | some t ↦ ltb (t + timeout * 2) now ]

pub recover : ℕ → ℕ → Scan → Scan
unfolding is_stuck
recover now timeout s =
    if is_stuck now timeout s then record s { status = failed; completed_at = some now } else s

-- How one network ends: not scanned, scanned with a number of hosts, failed, or with the whole task.
pub data Ending : Type 0 where
  skipped ended_failed crashed : Ending
  found : ℕ → Ending

pub record Totals : Type 0 where
  pub scanned : ℕ
  pub failures : ℕ
  pub hosts : ℕ

pub data RunStatus : Type 0 where
  all_completed all_failed partial : RunStatus

-- What the task returns; `none` stands for an exception that leaves it.
pub data Summary : Type 0 where
  blocked : ℕ → Summary
  done : RunStatus → Totals → ℕ → Summary

-- The rows of the table with one more, and with the last written again.
pub begin_scan : Scan → World → World
begin_scan s w = record w { scans = w.scans ++ s ∷ [] }

pub set_last : Scan → List Scan → List Scan
set_last s [] = []
set_last s (t ∷ []) = s ∷ []
set_last s (t ∷ u ∷ rest) = t ∷ set_last s (u ∷ rest)

pub end_scan : Scan → World → World
unfolding set_last
end_scan s w = record w { scans = set_last s w.scans }

-- The handler: the tables stay those of the last commit. No transaction is open while nmap runs, so
-- that the rollback expires no row.
pub fail_scan : ℕ → Scan → World → Ending × World
unfolding end_scan
fail_scan now s w =
    (ended_failed, end_scan (record s { status = failed; completed_at = some now }) w)

-- The end of the `try` block: the commit, or the rollback. This one expires the row of the network,
-- so that the handler, after its commit, raises as it reads `network.cidr` for its log.
pub after_hosts : ℕ → Scan → ℕ → Result DbError (Unit {0}) × Db → World → Ending × World
unfolding end_scan fail_scan
after_hosts now s n (ok _, tables) w = (
  found n,
  record (end_scan (record s { status = completed; completed_at = some now; hosts_found = n }) w) {
    tables = tables;
  },
)
after_hosts now s n (err e, tables) w = let (_, after) = fail_scan now s w in (crashed, after)

pub started : ℕ → ScanNetwork → Scan
started now n = record {
  target = n.cidr;
  status = running;
  started_at = some now;
  completed_at = none;
  hosts_found = 0;
}

pub count : Ending → Totals → Totals
count skipped t = t
count (found n) t = record t { scanned = t.scanned + 1; hosts = t.hosts + n }
count ended_failed t = record t { scanned = t.scanned + 1; failures = t.failures + 1 }
count crashed t = t

-- The rest of the loop after one network.
pub after_network :
    Ending → Totals → (Totals → World → Option Totals × World) → World → Option Totals × World
unfolding count
after_network crashed t next w = (none, w)
after_network skipped t next w = next (count skipped t) w
after_network (found n) t next w = next (count (found n) t) w
after_network ended_failed t next w = next (count ended_failed t) w

pub summary : ℕ → Totals → Summary
summary recovered t =
    if t.scanned == 0
    then blocked recovered
    else done
        (if t.failures == 0
          then all_completed
          else if t.failures == t.scanned
          then all_failed
          else partial)
        t recovered

-- What `service_scan_host` returns.
pub data HostSummary : Type 0 where
  no_data : HostSummary
  services_found : ℕ → HostSummary

after_service_hosts : ℕ → Result DbError (Unit {0}) × Db → World → Option HostSummary × World
after_service_hosts n (ok _, tables) w = (some (services_found n), record w { tables = tables })
after_service_hosts n (err e, tables) w = (none, w)

module _ (C : Config) (same_mac : String → String → Bool) where
  open C use {texts, allowed, limit}

  -- The loop over the hosts, in one transaction.
  pub reconcile_hosts : ℕ → List HostData → DbAction (Unit {0})
  reconcile_hosts now hosts = reconcile_all texts same_mac now "nmap_scan" hosts

  pub after_discovery :
      ℕ → ScanNetwork → Scan → Result ScanFailure (List DiscoveredHost) → World → Ending × World
  unfolding reconcile_hosts after_hosts fail_scan host_data
  after_discovery now n s (err e) w = fail_scan now s w
  after_discovery now n s (ok hosts) w =
      after_hosts now s (length hosts)
        (reconcile_hosts now (map (host_data (text "Unknown") (text n.name)) hosts) w.tables) w

  -- The row is committed as running before nmap is started.
  pub scan_started : ℕ → ScanNetwork → World → Ending × World
  unfolding after_discovery started
  scan_started now n w =
      let (r, shell) = discover C n.cidr n.excluded_ips w.shell in
      after_discovery now n (started now n) r (record w { shell = shell })

  -- One network, with what the check of its CIDR has given.
  pub scan_checked : ℕ → ScanNetwork → Result ScanError String → World → Ending × World
  unfolding scan_started begin_scan
  scan_checked now n (err value_error) w = (crashed, w)
  scan_checked now n (err invalid_cidr) w = (skipped, w)
  scan_checked now n (err too_many_hosts) w = (skipped, w)
  scan_checked now n (err disabled) w = (skipped, w)
  scan_checked now n (err invalid_policy) w = (skipped, w)
  scan_checked now n (err outside) w = (skipped, w)
  scan_checked now n (err not_a_host) w = (skipped, w)
  scan_checked now n (ok _) w = scan_started now n (begin_scan (started now n) w)

  pub scan_network : ℕ → ScanNetwork → World → Ending × World
  unfolding scan_checked
  scan_network now n w = scan_checked now n (authorize_scan_network texts allowed limit n.cidr) w

  pub scan_all : ℕ → List ScanNetwork → Totals → World → Option Totals × World
  unfolding scan_network after_network
  scan_all now [] t w = (some t, w)
  scan_all now (n ∷ rest) t w =
      let (e, after) = scan_network now n w in after_network e t (scan_all now rest) after

  -- The task, for a time limit and the rows of its networks.
  pub run_all_network_scans : ℕ → ℕ → List ScanNetwork → World → Option Summary × World
  unfolding recover is_stuck scan_all summary
  run_all_network_scans timeout now networks w =
      let recovered = length (keep (is_stuck now timeout) w.scans) in
      let (totals, after) =
        scan_all now (keep (λ n. n.enabled) networks)
          (record { scanned = 0; failures = 0; hosts = 0 })
          (record w { scans = map (recover now timeout) w.scans }) in
      (elim totals [ none ↦ none | some t ↦ some (summary recovered t) ], after)

  after_service_scan :
      ℕ → Result ScanFailure (List DiscoveredHost) → World → Option HostSummary × World
  unfolding reconcile_hosts after_service_hosts host_data
  after_service_scan now (err e) w = (none, w)
  after_service_scan now (ok []) w = (some no_data, w)
  after_service_scan now (ok (h ∷ hosts)) w =
      after_service_hosts (length h.services)
        (reconcile_hosts now (map (host_data missing missing) (h ∷ hosts)) w.tables) w

  pub service_scan_host : ℕ → String → World → Option HostSummary × World
  unfolding after_service_scan
  service_scan_host now ip w =
      let (r, shell) = service_scan C ip w.shell in
      after_service_scan now r (record w { shell = shell })
