-- ===== src/Reconciler/Report.antt =====
-- What `reconcile_host` leaves of one report, and of the same report made again.
use mathlib.Core.Path.{subst}
use kepryx.Base.{
  ℕ, suc, ◌≡◌, ◌≢◌, In, refl, sym, ap, ◌∙◌, String, Bool, true, false, Option, none, some, List, [],
  ◌∷◌, ◌++◌, eq_refl, mem_text, arith, Bool-cases, inl, inr, ◌⊎◌, Result, ok, err, if◌then◌else◌,
  resume, give, chain,
}
use kepryx.Networks.{IpTexts}
use kepryx.Reconciler.State.{
  AlertType, drift, shadow_it, Severity, medium, high, Db, DbError, integrity, AssetRow, HostData,
}
use kepryx.Reconciler.{
  raise_alert, merge_source, save, replace_asset, insert_asset, create_from_source, match_host,
  merge_or_create, reconcile_host, reconcile_all, DbAction,
}
use kepryx.Reconciler.Found.{match_host-In}
use kepryx.Reconciler.Rows.{
  record_source, written, written_sources, merged, drifted, service_names, new_asset, is_storable,
}
use kepryx.Reconciler.Alerts.{IsDeduped, Raised, raise_alert-IsDeduped}
use kepryx.Reconciler.Merge.{merged-Accumulates}
use kepryx.Reconciler.Hosts.{match_host-Looks}

chain_ok :
    {A B : Type 0} (m : DbAction A) (next : A → DbAction B) (db : Db) (a : A)
    → (m db).0 ≡ ok a
    → chain m next db ≡ next a (m db).1
chain_ok m next db a e = ap (λ r. resume r next (m db).1) e

raise_if-Raised :
    (b : Bool) (now tx : ℕ) (t : AlertType) (sev : Severity) (i : ℕ) (db : Db)
    → IsDeduped now db.alerts
    → Raised now t i db ((if b then raise_alert now tx t sev i else give tt) db)
raise_if-Raised true now tx t sev i db h = raise_alert-IsDeduped now tx t sev i db h
raise_if-Raised false now tx t sev i db h = record {
  returned = refl;
  deduped = h;
  assets = refl;
  next_id = refl;
  grown = omega arith;
}

-- What merging into a row leaves.
record Merged (now : ℕ) (source : String) (d : HostData) (a : AssetRow) (db : Db)
    (r : Result DbError AssetRow × Db) : Type 0 where
  returned : r.0 ≡ ok (merged now source d a)
  assets : r.1.assets ≡ replace_asset (written a (merged now source d a)) db.assets
  deduped : IsDeduped now r.1.alerts

merge_source-Merged :
    (now tx : ℕ) (a : AssetRow) (source : String) (d : HostData) (db : Db)
    → IsDeduped now db.alerts
    → Merged now source d a db (merge_source now tx a source d db)
unfolding merge_source save
merge_source-Merged now tx a source d db h =
    let m =
      if drifted (service_names a.services) (service_names d.services)
      then raise_alert now tx drift medium a.id
      else give tt in
    let r =
      raise_if-Raised (drifted (service_names a.services) (service_names d.services)) now tx drift
        medium a.id db h in
    let row = written a (merged now source d a) in
    let step =
      chain_ok m (λ _. chain (save row) (λ _. give (merged now source d a))) db tt r.returned in
    subst (Merged now source d a db) (sym step)
      (record { returned = refl; assets = ap (replace_asset row) r.assets; deduped = r.deduped })

-- What creating a row leaves.
record Created (now tx : ℕ) (source : String) (d : HostData) (db : Db)
    (r : Result DbError AssetRow × Db) : Type 0 where
  returned : r.0 ≡ ok (new_asset db.next_id tx source d)
  assets : r.1.assets ≡ db.assets ++ new_asset db.next_id tx source d ∷ []
  deduped : IsDeduped now r.1.alerts

create-Created :
    (now tx : ℕ) (source : String) (d : HostData) (db : Db)
    → IsDeduped now db.alerts
    → ((e : DbError) × (create_from_source now tx source d db ≡ (err e, db)))
      ⊎ Created now tx source d db (create_from_source now tx source d db)
unfolding create_from_source insert_asset
create-Created now tx source d db h =
    let a = new_asset db.next_id tx source d in
    let next : Unit {0} → DbAction AssetRow = λ _.
      chain (if a.is_shadow then raise_alert now tx shadow_it high a.id else give tt)
        (λ _. give a) in
    elim (Bool-cases (is_storable a)) [
      | inl e ↦
          let db1 : Db = record db { assets = db.assets ++ a ∷ []; next_id = suc db.next_id } in
          let ins : insert_asset a db ≡ (ok tt, db1) = rw e in
          let r = raise_if-Raised a.is_shadow now tx shadow_it high a.id db1 h in
          let step1 : create_from_source now tx source d db ≡ next tt db1 =
            ap (λ p. resume p.0 next p.1) ins in
          let step2 =
            chain_ok (if a.is_shadow then raise_alert now tx shadow_it high a.id else give tt)
              (λ _. give a) db1 tt r.returned in
          inr (
            subst (Created now tx source d db) (sym (step1 ∙ step2))
              (record { returned = refl; assets = r.assets; deduped = r.deduped }))
      | inr e ↦
          let ins : insert_asset a db ≡ (err integrity, db) = rw e in
          inl (integrity, ap (λ p. resume p.0 next p.1) ins)
    ]

-- What a report leaves: an error and the tables as they were; or a row that was found and is merged,
-- whose sources stay as they were if it had any and are the source if it had none, while the row that
-- is returned has the source; or a new row at the end of the table, with the source.
pub data Reported (now : ℕ) (source : String) (db : Db) (r : Result DbError AssetRow × Db)
    : Type 0 where
  failed : (e : DbError) → r ≡ (err e, db) → Reported now source db r
  updated :
      (old row a : AssetRow)
      → In old db.assets
      → r.0 ≡ ok a
      → mem_text source a.sources ≡ true
      → row ≡ record a { sources = row.sources }
      → ((old.sources ≡ []) × (row.sources ≡ source ∷ []))
        ⊎ ((old.sources ≢ []) × (row.sources ≡ old.sources))
      → row.id ≡ old.id
      → r.1.assets ≡ replace_asset row db.assets
      → Reported now source db r
  added :
      (a : AssetRow)
      → r.0 ≡ ok a
      → a.sources ≡ source ∷ []
      → r.1.assets ≡ db.assets ++ a ∷ []
      → Reported now source db r

merged_source :
    (now : ℕ) (source : String) (d : HostData) (a : AssetRow)
    → mem_text source (merged now source d a).sources ≡ true
merged_source now source d a =
    (merged-Accumulates now source d a).sources source ∙ (rw (eq_refl source) (ground arith))

written_source :
    (now : ℕ) (source : String) (d : HostData) (a : AssetRow)
    → ((a.sources ≡ []) × ((written a (merged now source d a)).sources ≡ source ∷ []))
      ⊎ ((a.sources ≢ []) × ((written a (merged now source d a)).sources ≡ a.sources))
unfolding written written_sources merged record_source
written_source now source d a = go a.sources
  where
    go :
        (ss : List String)
        → ((ss ≡ []) × (written_sources ss (record_source source ss) ≡ source ∷ []))
          ⊎ ((ss ≢ []) × (written_sources ss (record_source source ss) ≡ ss))
    go [] = inl (refl, refl)
    go (s ∷ ss) = inr ((λ e. cc), refl)

module _ (texts : IpTexts) (same_mac : String → String → Bool) where
  merge_or_create-Reported :
      (now tx : ℕ) (source : String) (d : HostData) (found : Option AssetRow) (db : Db)
      → ((a : AssetRow) → found ≡ some a → In a db.assets)
      → IsDeduped now db.alerts
      → Reported now source db (merge_or_create texts same_mac now tx source d found db)
        × IsDeduped now (merge_or_create texts same_mac now tx source d found db).1.alerts
  unfolding merge_or_create written
  merge_or_create-Reported now tx source d (some a) db i h =
      let m = merge_source-Merged now tx a source d db h in
      (
        updated a (written a (merged now source d a)) (merged now source d a) (i a refl) m.returned
            (merged_source now source d a) refl (written_source now source d a)
            (merged-Accumulates now source d a).id m.assets,
        m.deduped,
      )
  merge_or_create-Reported now tx source d none db i h =
      elim (create-Created now tx source d db h) [
        | inl (e, p) ↦ (failed e p, subst (λ r. IsDeduped now r.1.alerts) (sym p) h)
        | inr c ↦ (
          added (new_asset db.next_id tx source d) c.returned (unfold new_asset in refl) c.assets,
          c.deduped,
        )
      ]

  resume-Reported :
      (now tx : ℕ) (source : String) (d : HostData) (r : Result DbError (Option AssetRow)) (db : Db)
      → ((a : AssetRow) → r ≡ ok (some a) → In a db.assets)
      → IsDeduped now db.alerts
      → Reported now source db (resume r (merge_or_create texts same_mac now tx source d) db)
        × IsDeduped now (resume r (merge_or_create texts same_mac now tx source d) db).1.alerts
  resume-Reported now tx source d (ok f) db i h =
      merge_or_create-Reported now tx source d f db (λ a e. i a (ap ok e)) h
  resume-Reported now tx source d (err e) db i h = (failed e refl, h)

  reconcile_host_lem :
      (now tx : ℕ) (source : String) (d : HostData) (db : Db)
      → reconcile_host texts same_mac now tx source d db
        ≡ resume
            (match_host texts same_mac d db).0
            (merge_or_create texts same_mac now tx source d)
            db
  unfolding reconcile_host
  reconcile_host_lem now tx source d db =
      ap
        (resume (match_host texts same_mac d db).0 (merge_or_create texts same_mac now tx source d))
        (match_host-Looks texts same_mac d db)

  pub reconcile_host-Reported :
      (now tx : ℕ) (source : String) (d : HostData) (db : Db)
      → IsDeduped now db.alerts
      → Reported now source db (reconcile_host texts same_mac now tx source d db)
        × IsDeduped now (reconcile_host texts same_mac now tx source d db).1.alerts
  reconcile_host-Reported now tx source d db h =
      subst (λ r. Reported now source db r × IsDeduped now r.1.alerts)
        (sym (reconcile_host_lem now tx source d db))
        (resume-Reported now tx source d (match_host texts same_mac d db).0 db
          (match_host-In texts same_mac d db) h)

  -- The loop over several reports repeats no alert either, whether it fails or not.
  pub reconcile_all-IsDeduped :
      (now : ℕ) (source : String) (ds : List HostData) (db : Db)
      → IsDeduped now db.alerts
      → IsDeduped now (reconcile_all texts same_mac now source ds db).1.alerts
  unfolding reconcile_all
  reconcile_all-IsDeduped now source [] db h = h
  reconcile_all-IsDeduped now source (d ∷ rest) db h =
      resumed (reconcile_host texts same_mac now now source d db).0
        (reconcile_host texts same_mac now now source d db).1
        (reconcile_host-Reported now now source d db h).1 (reconcile_all-IsDeduped now source rest)
    where
      resumed :
          (r : Result DbError AssetRow) (left : Db)
          → IsDeduped now left.alerts
          → ((m : Db)
              → IsDeduped now m.alerts
              → IsDeduped now (reconcile_all texts same_mac now source rest m).1.alerts)
          → IsDeduped now
              (resume r (λ _. reconcile_all texts same_mac now source rest) left).1.alerts
      resumed (ok a) left k later = later left k
      resumed (err e) left k later = k
