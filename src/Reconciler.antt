-- ===== src/Reconciler.antt =====
-- app/services/reconciler.py: merging what the sources report into the asset table, and its alerts.
-- Times are seconds; `now` is the clock of the worker and `tx` the start of the transaction, which
-- the database gives to the rows that it creates or updates. No row is kept in memory from one host
-- to the next.
pub mod Rows
pub mod State
pub mod Alerts
pub mod Merge
pub mod Lookups
pub mod Found
pub mod Hosts
pub mod Report
pub mod Stale
mod Tests
use kepryx.Reconciler.Rows.{
  authoritative, drifted, enrich, is_set, is_shadow_of, is_storable, merged, new_asset, overwrite,
  record_source, same_name, service_names, set_authoritative, source_priority, subset_names,
  top_priority, written,
}
use kepryx.Base.{
  ℕ, suc, ◌+◌, ◌*◌, max, String, Bool, true, false, not, ◌&&◌, ◌||◌, Option, none, some, List, [],
  ◌∷◌, ◌++◌, map, keep, any, length, ltb, leb, ◌==◌, str_eq, mem_text, distinct, nonempty, or_else,
  if◌then◌else◌, Result, ok, err, Exec, give, throw, chain, resume,
}
use kepryx.Risk.{Table, table_get}
use kepryx.Networks.{IpTexts, Address, same_version}
use State.{
  Service, AssetRow, AlertType, drift, shadow_it, stale_asset, edr_gap, Severity, low, medium, high,
  AlertRow, Db, DbError, multiple_results, integrity, Entry, HostData, get, get_or,
}

abbrev pub DbAction : Type 0 → Type 0
DbAction A = Exec Db DbError A

-- `result.scalar_one_or_none()`.
pub one_or_none : {A : Type 0} → List A → Result DbError (Option A)
one_or_none [] = ok none
one_or_none (a ∷ []) = ok (some a)
one_or_none (a ∷ b ∷ rest) = err multiple_results

pub same_alert_type : AlertType → AlertType → Bool
same_alert_type drift drift = true
same_alert_type shadow_it shadow_it = true
same_alert_type stale_asset stale_asset = true
same_alert_type edr_gap edr_gap = true
same_alert_type _ _ = false

-- The open alerts of one type and asset since the cutoff: `created_at > now - 24 h`, in which
-- `now < created_at + 24 h` has no subtraction.
pub is_recent : ℕ → AlertType → ℕ → AlertRow → Bool
unfolding same_alert_type
is_recent now t i a =
    same_alert_type a.alert_type t
    && (a.asset_id == i)
    && ltb now (a.created_at + 86400)
    && a.is_open

add_unless_found : AlertRow → Result DbError (Option AlertRow) → DbAction (Unit {0})
add_unless_found a (err e) db = (err e, db)
add_unless_found a (ok (some found)) db = (ok tt, db)
add_unless_found a (ok none) db = (ok tt, record db { alerts = db.alerts ++ a ∷ [] })

pub raise_alert : ℕ → ℕ → AlertType → Severity → ℕ → DbAction (Unit {0})
unfolding add_unless_found one_or_none is_recent
raise_alert now tx t sev i db =
    add_unless_found
      (record { alert_type = t; severity = sev; asset_id = i; is_open = true; created_at = tx })
      (one_or_none (keep (is_recent now t i) db.alerts)) db

pub replace_asset : AssetRow → List AssetRow → List AssetRow
replace_asset a [] = []
replace_asset a (b ∷ bs) =
    let rest = replace_asset a bs in if a.id == b.id then a ∷ rest else b ∷ rest

pub save : AssetRow → DbAction AssetRow
unfolding replace_asset
save a db = (ok a, record db { assets = replace_asset a db.assets })

pub merge_source : ℕ → ℕ → AssetRow → String → HostData → DbAction AssetRow
unfolding raise_alert drifted service_names merged written save
merge_source now tx a source d =
    chain
      (if drifted (service_names a.services) (service_names d.services)
        then raise_alert now tx drift medium a.id
        else give tt)
      (λ _. chain (save (written a (merged now source d a))) (λ _. give (merged now source d a)))

-- `db.add` and `flush`.
pub insert_asset : AssetRow → DbAction (Unit {0})
unfolding is_storable
insert_asset a db =
    if is_storable a
    then (ok tt, record db { assets = db.assets ++ a ∷ []; next_id = suc db.next_id })
    else (err integrity, db)

pub create_from_source : ℕ → ℕ → String → HostData → DbAction AssetRow
unfolding new_asset insert_asset raise_alert
create_from_source now tx source d db =
    let a = new_asset db.next_id tx source d in
    chain (insert_asset a)
      (λ _.
        chain (if a.is_shadow then raise_alert now tx shadow_it high a.id else give tt)
          (λ _. give a))
      db

-- `await db.execute(select(Asset).where(…))` with `scalar_one_or_none`.
pub find_asset : (AssetRow → Bool) → DbAction (Option AssetRow)
unfolding one_or_none
find_asset test db = (one_or_none (keep test db.assets), db)

-- The first of two lookups that finds a row; the second is made only if the first finds none.
pub or_find : Option AssetRow → DbAction (Option AssetRow) → DbAction (Option AssetRow)
or_find (some a) next db = (ok (some a), db)
or_find none next db = next db

-- `if key:` before a lookup.
pub find_by : {K : Type 0} → Option K → (K → AssetRow → Bool) → DbAction (Option AssetRow)
unfolding find_asset
find_by none test db = (ok none, db)
find_by (some k) test db = find_asset (test k) db

pub has_text : (AssetRow → Option String) → String → AssetRow → Bool
has_text column s a = elim (column a) [ none ↦ false | some t ↦ str_eq t s ]

-- The database's comparison of two MAC addresses is an argument, `same_mac`.
module _ (texts : IpTexts) (same_mac : String → String → Bool) where
  open texts use {ip_address}

  pub has_mac : String → AssetRow → Bool
  has_mac mac a = elim a.mac [ none ↦ false | some m ↦ same_mac m mac ]

  pub has_ip : Address → AssetRow → Bool
  has_ip v a = elim a.ip [
    | none ↦ false
    | some t ↦ elim (ip_address t) [
      | none ↦ false
      | some w ↦ same_version w.version v.version && (w.value == v.value)
    ]
  ]

  -- An invalid IP is ignored with a warning.
  pub ip_value : Entry → Option Address
  ip_value e = elim (nonempty (get e)) [ none ↦ none | some s ↦ ip_address s ]

  -- By MAC, then by IP, then by host name.
  pub match_host : HostData → DbAction (Option AssetRow)
  unfolding find_by or_find has_mac has_ip ip_value has_text
  match_host d = chain (find_by (nonempty (get d.mac)) has_mac) λ by_mac.
      chain (or_find by_mac (find_by (ip_value d.ip) has_ip)) λ by_ip.
        or_find by_ip
          (find_by (nonempty (or_else (get d.name) (get d.hostname))) (has_text (λ a. a.name)))

  pub merge_or_create : ℕ → ℕ → String → HostData → Option AssetRow → DbAction AssetRow
  unfolding merge_source create_from_source
  merge_or_create now tx source d none = create_from_source now tx source d
  merge_or_create now tx source d (some a) = merge_source now tx a source d

  unfoldable pub reconcile_host : ℕ → ℕ → String → HostData → DbAction AssetRow
  unfolding match_host merge_or_create
  reconcile_host now tx source d =
      chain (match_host d) (λ found. merge_or_create now tx source d found)

  -- The loop over the hosts of a report, in one transaction, at the reading of one clock.
  unfoldable pub reconcile_all : ℕ → String → List HostData → DbAction (Unit {0})
  unfolding reconcile_host
  reconcile_all now source [] = give tt
  reconcile_all now source (d ∷ rest) =
      chain (reconcile_host now now source d) (λ _. reconcile_all now source rest)

-- `last_seen < now - threshold` and not stale yet.
pub is_overdue : ℕ → ℕ → AssetRow → Bool
is_overdue now days a = ltb (a.last_seen + days * 86400) now && not a.is_stale

-- The loop over the rows found, which marks each as stale and raises its alert. The column
-- `last_seen` has `onupdate=func.now()`, so that the UPDATE sets it to the start of the transaction.
pub mark_stale : ℕ → ℕ → List AssetRow → DbAction (Unit {0})
unfolding raise_alert save
mark_stale now tx [] = give tt
mark_stale now tx (a ∷ rest) =
    chain (save (record a { is_stale = true; last_seen = tx }))
      (λ _. chain (raise_alert now tx stale_asset low a.id) (λ _. mark_stale now tx rest))

pub detect_stale_assets : ℕ → ℕ → ℕ → DbAction ℕ
unfolding mark_stale is_overdue
detect_stale_assets now tx days db =
    let stale = keep (is_overdue now days) db.assets in
    chain (mark_stale now tx stale) (λ _. give (length stale)) db

abbrev pub monitored_types : List String
monitored_types = "Server" ∷ "Endpoint" ∷ "Workstation" ∷ "Database Server" ∷ []

pub is_gap : AssetRow → Bool
is_gap a =
    elim a.edr_status [ none ↦ true | some s ↦ str_eq s "None" ]
    && elim a.type [ none ↦ false | some t ↦ mem_text t monitored_types ]

pub raise_gaps : ℕ → ℕ → List AssetRow → DbAction (Unit {0})
unfolding raise_alert
raise_gaps now tx [] = give tt
raise_gaps now tx (a ∷ rest) =
    chain (raise_alert now tx edr_gap high a.id) (λ _. raise_gaps now tx rest)

pub detect_edr_gaps : ℕ → ℕ → DbAction ℕ
unfolding raise_gaps is_gap
detect_edr_gaps now tx db =
    let gaps = keep is_gap db.assets in chain (raise_gaps now tx gaps) (λ _. give (length gaps)) db

-- `_detect_stale_and_gaps` of app/workers/reconcile_tasks.py.
pub detect_stale_and_gaps : ℕ → ℕ → DbAction (ℕ × ℕ)
unfolding detect_stale_assets detect_edr_gaps
detect_stale_and_gaps now tx =
    chain (detect_stale_assets now tx 30)
      (λ stale. chain (detect_edr_gaps now tx) (λ gaps. give (stale, gaps)))
