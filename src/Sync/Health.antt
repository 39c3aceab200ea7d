-- ===== src/Sync/Health.antt =====
-- Which integrations stay enabled over a run.
use kepryx.Base.{
  ℕ, suc, ◌<◌, ◌≡◌, String, Bool, true, false, not, Option, List, [], ◌∷◌, length, All, leb, both,
  not-false, arith, Result, ok, err, if◌then◌else◌,
}
use kepryx.Networks.{IpTexts}
use kepryx.Reconciler.State.{Db, DbError, multiple_results, integrity}
use kepryx.Reconciler.{reconcile_all}
use kepryx.Reconciler.Alerts.{IsDeduped}
use kepryx.Reconciler.Report.{reconcile_all-IsDeduped}
use kepryx.Sync.{
  Integration, Fetch, no_connector, raised, inventory, Ending, passed, aborted, synced, failed,
  succeed, count_failure, after_hosts, Run, after_one, with_row, with_result, is_selected,
  after_fetch, sync_one, sync_all,
}

-- An enabled integration has failed fewer than five times in a row.
abbrev pub IsHealthy : Integration → Type 0
IsHealthy i = i.enabled ≡ true → i.failure_count < 5

count_failure-IsHealthy : (i : Integration) → IsHealthy (count_failure i)
unfolding count_failure
count_failure-IsHealthy i h =
    let few =
      not-false (leb 5 (suc i.failure_count))
        (both i.enabled (not (leb 5 (suc i.failure_count))) h).1 in
    ground (arith, few)

succeed-IsHealthy : (now n : ℕ) (i : Integration) → IsHealthy (succeed now n i)
unfolding succeed
succeed-IsHealthy now n i h = omega arith

-- What holds of the row and the tables that an integration ends with.
EndsWell : ℕ → Ending → Type 0
EndsWell now passed = Unit
EndsWell now aborted = Unit
EndsWell now (synced i left) = IsHealthy i × IsDeduped now left.alerts
EndsWell now (failed i left) = IsHealthy i × IsDeduped now left.alerts

after_hosts-EndsWell :
    (now n : ℕ) (i : Integration) (r : Result DbError (Unit {0}) × Db)
    → IsDeduped now r.1.alerts
    → EndsWell now (after_hosts now n i r)
unfolding after_hosts EndsWell
after_hosts-EndsWell now n i (ok u, left) h = (succeed-IsHealthy now n i, h)
after_hosts-EndsWell now n i (err multiple_results, left) h = (count_failure-IsHealthy i, h)
after_hosts-EndsWell now n i (err integrity, left) h = tt

-- What a run leaves.
pub record IsSound (now : ℕ) (r : Run) : Type 0 where
  pub healthy : All IsHealthy r.rows
  pub deduped : IsDeduped now r.tables.alerts

after_one-IsSound :
    (now : ℕ) (i : Integration) (rest : List Integration) (db : Db) (e : Ending) (later : Db → Run)
    → IsHealthy i
    → All IsHealthy rest
    → IsDeduped now db.alerts
    → EndsWell now e
    → ((left : Db) → IsDeduped now left.alerts → IsSound now (later left))
    → IsSound now (after_one i rest db e later)
unfolding after_one EndsWell with_row with_result
after_one-IsSound now i rest db passed later h hs d w l = record {
  healthy = (h, (l db d).healthy);
  deduped = (l db d).deduped;
}
after_one-IsSound now i rest db aborted later h hs d w l = record { healthy = (h, hs); deduped = d }
after_one-IsSound now i rest db (synced j left) later h hs d w l = record {
  healthy = (w.0, (l left w.1).healthy);
  deduped = (l left w.1).deduped;
}
after_one-IsSound now i rest db (failed j left) later h hs d w l = record {
  healthy = (w.0, (l left w.1).healthy);
  deduped = (l left w.1).deduped;
}

module _ (texts : IpTexts) (same_mac : String → String → Bool) (fetch : Integration → Fetch) where
  after_fetch-EndsWell :
      (now : ℕ) (i : Integration) (db : Db) (f : Fetch)
      → IsDeduped now db.alerts
      → EndsWell now (after_fetch texts same_mac fetch now i db f)
  unfolding after_fetch EndsWell
  after_fetch-EndsWell now i db no_connector d = tt
  after_fetch-EndsWell now i db raised d = (count_failure-IsHealthy i, d)
  after_fetch-EndsWell now i db (inventory hosts) d =
      after_hosts-EndsWell now (length hosts) i
        (reconcile_all texts same_mac now i.connector_type hosts db)
        (reconcile_all-IsDeduped texts same_mac now i.connector_type hosts db d)

  sync_one-EndsWell :
      (only : Option String) (now : ℕ) (i : Integration) (db : Db)
      → IsDeduped now db.alerts
      → EndsWell now (sync_one texts same_mac fetch only now i db)
  unfolding sync_one
  sync_one-EndsWell only now i db d =
      chosen (is_selected only i) (after_fetch texts same_mac fetch now i db (fetch i))
        (after_fetch-EndsWell now i db (fetch i) d)
    where
      chosen : (b : Bool) (e : Ending) → EndsWell now e → EndsWell now (if b then e else passed)
      chosen true e w = w
      chosen false e w = unfold EndsWell in tt

  -- If at first the failure counter of every enabled integration is below five and no alert of the
  -- last day is repeated, both hold after a run, whatever the connectors give and however the merges
  -- end.
  pub sync_all-IsSound :
      (only : Option String) (now : ℕ) (rows : List Integration) (db : Db)
      → All IsHealthy rows
      → IsDeduped now db.alerts
      → IsSound now (sync_all texts same_mac fetch only now rows db)
  unfolding sync_all
  sync_all-IsSound only now [] db h d = record { healthy = tt; deduped = d }
  sync_all-IsSound only now (i ∷ rest) db h d =
      after_one-IsSound now i rest db (sync_one texts same_mac fetch only now i db)
        (sync_all texts same_mac fetch only now rest) h.0 h.1 d (sync_one-EndsWell only now i db d)
        (λ left k. sync_all-IsSound only now rest left h.1 k)
