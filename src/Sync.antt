-- ===== src/Sync.antt =====
-- app/workers/reconcile_tasks.py, `_sync_all` and `_cleanup_old_data`: the synchronisation of the
-- enabled integrations, one after the other, and the trimming of resolved alerts. What a connector
-- gives for an integration is an argument.
pub mod Health
mod Tests
use kepryx.Base.{
  ℕ, suc, ◌+◌, ◌*◌, String, Bool, true, false, not, ◌&&◌, Option, none, some, List, [], ◌∷◌, length,
  keep, ltb, leb, str_eq, Result, ok, err, if◌then◌else◌,
}
use kepryx.Networks.{IpTexts}
use kepryx.Reconciler.State.{Db, DbError, multiple_results, integrity, HostData}
use kepryx.Reconciler.{reconcile_all}

pub record Integration : Type 0 where
  pub id : String
  pub name : String
  pub connector_type : String
  pub enabled : Bool
  pub failure_count : ℕ
  pub last_run : Option ℕ
  pub last_status : String
  pub assets_reported : ℕ

-- What comes of a connector: none is known, it raises, or it gives its inventory.
pub data Fetch : Type 0 where
  no_connector raised : Fetch
  inventory : List HostData → Fetch

-- How one integration ends. `aborted` is an exception of the handler itself: the session of a flush
-- that has failed refuses the commit.
pub data Ending : Type 0 where
  passed aborted : Ending
  synced failed : Integration → Db → Ending

pub succeed : ℕ → ℕ → Integration → Integration
succeed now n i = record i {
  last_run = some now;
  last_status = "success";
  assets_reported = n;
  failure_count = 0;
}

pub count_failure : Integration → Integration
count_failure i =
    let n = suc i.failure_count in
    record i { failure_count = n; last_status = "failed"; enabled = i.enabled && not (leb 5 n) }

-- The end of the `try` block, or the handler, which commits what was written before the exception.
after_hosts : ℕ → ℕ → Integration → Result DbError (Unit {0}) × Db → Ending
unfolding succeed count_failure
after_hosts now n i (ok _, left) = synced (succeed now n i) left
after_hosts now n i (err multiple_results, left) = failed (count_failure i) left
after_hosts now n i (err integrity, left) = aborted

pub record Run : Type 0 where
  pub rows : List Integration
  pub tables : Db
  pub results : Option (List (String × ℕ))

with_row : Integration → Run → Run
with_row i r = record r { rows = i ∷ r.rows }

with_result : String → ℕ → Run → Run
with_result name n r = record r {
  results = elim r.results [ none ↦ none | some rs ↦ some ((name, n) ∷ rs) ];
}

-- The rest of the loop after one integration.
pub after_one : Integration → List Integration → Db → Ending → (Db → Run) → Run
unfolding with_row with_result
after_one i rest db passed later = with_row i (later db)
after_one i rest db (synced j left) later =
    with_result j.name j.assets_reported (with_row j (later left))
after_one i rest db (failed j left) later = with_row j (later left)
after_one i rest db aborted later = record { rows = i ∷ rest; tables = db; results = none }

-- `integration_id` restricts the run to one integration.
pub is_selected : Option String → Integration → Bool
is_selected none i = i.enabled
is_selected (some id) i = i.enabled && str_eq i.id id

module _ (texts : IpTexts) (same_mac : String → String → Bool) (fetch : Integration → Fetch) where
  after_fetch : ℕ → Integration → Db → Fetch → Ending
  unfolding count_failure after_hosts
  after_fetch now i db no_connector = passed
  after_fetch now i db raised = failed (count_failure i) db
  after_fetch now i db (inventory hosts) =
      after_hosts now (length hosts) i (reconcile_all texts same_mac now i.connector_type hosts db)

  pub sync_one : Option String → ℕ → Integration → Db → Ending
  unfolding is_selected after_fetch
  sync_one only now i db = if is_selected only i then after_fetch now i db (fetch i) else passed

  pub sync_all : Option String → ℕ → List Integration → Db → Run
  unfolding sync_one after_one
  sync_all only now [] db = record { rows = []; tables = db; results = some [] }
  sync_all only now (i ∷ rest) db =
      after_one i rest db (sync_one only now i db) (sync_all only now rest)

pub record OldAlert : Type 0 where
  pub status : String
  pub resolved_at : Option ℕ

-- `status == "resolved"` and `resolved_at < now - 180 days`.
pub is_prunable : ℕ → OldAlert → Bool
is_prunable now a =
    str_eq a.status "resolved"
    && elim a.resolved_at [ none ↦ false | some t ↦ ltb (t + 180 * 86400) now ]

pub cleanup_old_data : ℕ → List OldAlert → ℕ × List OldAlert
unfolding is_prunable
cleanup_old_data now alerts =
    (length (keep (is_prunable now) alerts), keep (λ a. not (is_prunable now a)) alerts)
