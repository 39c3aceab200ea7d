-- ===== src/Reconciler/Stale.antt =====
-- The detectors run to their end, and nothing overdue is left.
use kepryx.Base.{
  ℕ, ◌≡◌, refl, sym, ap, ◌∙◌, Bool, true, false, List, [], ◌∷◌, keep, any, All, length, ◌==◌, arith,
  Bool-cases, inl, inr, Result, ok, resume, false≢true,
}
use mathlib.Core.Path.{subst}
use kepryx.Reconciler.State.{stale_asset, edr_gap, low, high, Db, DbError, AssetRow}
use kepryx.Reconciler.{
  raise_alert, replace_asset, save, is_overdue, mark_stale, detect_stale_assets, is_gap, raise_gaps,
  detect_edr_gaps, detect_stale_and_gaps,
}
use kepryx.Reconciler.Alerts.{IsDeduped, raise_alert-IsDeduped}

abbrev stale_copy : ℕ → AssetRow → AssetRow
stale_copy tx a = record a { is_stale = true; last_seen = tx }

-- The table after all the rows of the first list have been saved as stale.
pub mark_all : ℕ → List AssetRow → List AssetRow → List AssetRow
mark_all tx [] assets = assets
mark_all tx (a ∷ rest) assets = mark_all tx rest (replace_asset (stale_copy tx a) assets)

pub record Marked (now tx : ℕ) (rows : List AssetRow) (db : Db) (r : Result DbError (Unit {0}) × Db)
    : Type 0 where
  pub returned : r.0 ≡ ok tt
  pub deduped : IsDeduped now r.1.alerts
  pub assets : r.1.assets ≡ mark_all tx rows db.assets

mark_stale_cons :
    (now tx : ℕ) (a : AssetRow) (rest : List AssetRow) (db : Db)
    → (raise_alert now tx stale_asset low a.id
        (record db { assets = replace_asset (stale_copy tx a) db.assets })).0
      ≡ ok tt
    → mark_stale now tx (a ∷ rest) db
      ≡ mark_stale now tx rest
          (raise_alert now tx stale_asset low a.id
            (record db { assets = replace_asset (stale_copy tx a) db.assets })).1
unfolding mark_stale save
mark_stale_cons now tx a rest db e = rw (e, resume)

mark_stale-Marked :
    (now tx : ℕ) (rows : List AssetRow) (db : Db)
    → IsDeduped now db.alerts
    → Marked now tx rows db (mark_stale now tx rows db)
mark_stale-Marked now tx [] db h =
    unfold mark_stale mark_all in record { returned = refl; deduped = h; assets = refl }
mark_stale-Marked now tx (a ∷ rest) db h =
    let saved : Db = record db { assets = replace_asset (stale_copy tx a) db.assets } in
    let r = raise_alert-IsDeduped now tx stale_asset low a.id saved h in
    let step = mark_stale_cons now tx a rest db r.returned in
    let m =
      mark_stale-Marked now tx rest (raise_alert now tx stale_asset low a.id saved).1 r.deduped in
    record {
      returned = ap (λ x. x.0) step ∙ m.returned;
      deduped = rw step m.deduped;
      assets =
          ap (λ x. x.1.assets) step
          ∙ m.assets
          ∙ (unfold mark_all in ap (mark_all tx rest) r.assets);
    }

has_id : ℕ → List AssetRow → Bool
has_id i rows = any (λ l. l.id == i) rows

-- Every overdue row of the table is one that is still to be marked.
abbrev Pending : ℕ → ℕ → List AssetRow → List AssetRow → Type 0
Pending now days rows = All (λ r. is_overdue now days r ≡ true → has_id r.id rows ≡ true)

Pending-replace :
    (now days tx : ℕ) (l : AssetRow) (rows assets : List AssetRow)
    → Pending now days (l ∷ rows) assets
    → Pending now days rows (replace_asset (stale_copy tx l) assets)
unfolding replace_asset has_id is_overdue
Pending-replace now days tx l rows [] h = tt
Pending-replace now days tx l rows (b ∷ bs) h = elim (Bool-cases (l.id == b.id)) [
  | inl e ↦ rw e ((λ o. ground arith), Pending-replace now days tx l rows bs h.1)
  | inr e ↦ rw e ((λ o. ground (arith, h.0 o)), Pending-replace now days tx l rows bs h.1)
]

keep-none :
    (now days : ℕ) (assets : List AssetRow)
    → Pending now days [] assets
    → keep (is_overdue now days) assets ≡ []
unfolding has_id
keep-none now days [] h = refl
keep-none now days (a ∷ assets) h = elim (Bool-cases (is_overdue now days a)) [
  | inl e ↦ cc (h.0 e)
  | inr e ↦ rw e (keep-none now days assets h.1)
]

mark_all-none :
    (now days tx : ℕ) (rows assets : List AssetRow)
    → Pending now days rows assets
    → keep (is_overdue now days) (mark_all tx rows assets) ≡ []
unfolding mark_all
mark_all-none now days tx [] assets h = keep-none now days assets h
mark_all-none now days tx (l ∷ rows) assets h =
    mark_all-none now days tx rows (replace_asset (stale_copy tx l) assets)
      (Pending-replace now days tx l rows assets h)

Pending-cons :
    (now days : ℕ) (l : AssetRow) (rows assets : List AssetRow)
    → Pending now days rows assets
    → Pending now days (l ∷ rows) assets
unfolding has_id
Pending-cons now days l rows [] h = tt
Pending-cons now days l rows (a ∷ assets) h =
    ((λ e. ground (arith, h.0 e)), Pending-cons now days l rows assets h.1)

keep_one :
    (now days : ℕ) (a : AssetRow) (assets : List AssetRow)
    → is_overdue now days a ≡ true
    → keep (is_overdue now days) (a ∷ assets) ≡ a ∷ keep (is_overdue now days) assets
keep_one now days a assets e = rw e

keep_no :
    (now days : ℕ) (a : AssetRow) (assets : List AssetRow)
    → is_overdue now days a ≡ false
    → keep (is_overdue now days) (a ∷ assets) ≡ keep (is_overdue now days) assets
keep_no now days a assets e = rw e

has_id_self : (a : AssetRow) (rows : List AssetRow) → has_id a.id (a ∷ rows) ≡ true
unfolding has_id
has_id_self a rows = ground arith

Pending-keep :
    (now days : ℕ) (assets : List AssetRow)
    → Pending now days (keep (is_overdue now days) assets) assets
Pending-keep now days [] = tt
Pending-keep now days (a ∷ assets) = elim (Bool-cases (is_overdue now days a)) [
  | inl e ↦
      subst (λ rows. Pending now days rows (a ∷ assets)) (sym (keep_one now days a assets e))
        (
          (λ o. has_id_self a (keep (is_overdue now days) assets)),
          Pending-cons now days a (keep (is_overdue now days) assets) assets
              (Pending-keep now days assets),
        )
  | inr e ↦
      subst (λ rows. Pending now days rows (a ∷ assets)) (sym (keep_no now days a assets e))
        ((λ o. absurd (false≢true (sym e ∙ o))), Pending-keep now days assets)
]

detect_stale_lem :
    (now tx days : ℕ) (db : Db)
    → IsDeduped now db.alerts
    → detect_stale_assets now tx days db ≡ (
      ok (length (keep (is_overdue now days) db.assets)),
      (mark_stale now tx (keep (is_overdue now days) db.assets) db).1,
    )
unfolding detect_stale_assets
detect_stale_lem now tx days db h =
    let m = mark_stale-Marked now tx (keep (is_overdue now days) db.assets) db h in
    rw (m.returned, resume)

-- Looking for stale assets always ends with the number of overdue rows that it found, leaves no row
-- overdue, and repeats no alert of the last day; looking again at the same time finds none and
-- changes nothing.
pub detect_stale_assets_done :
    (now tx days : ℕ) (db : Db)
    → IsDeduped now db.alerts
    → let (r, after) = detect_stale_assets now tx days db in
      (r ≡ ok (length (keep (is_overdue now days) db.assets)))
      × (keep (is_overdue now days) after.assets ≡ [])
      × IsDeduped now after.alerts
      × (detect_stale_assets now tx days after ≡ (ok 0, after))
detect_stale_assets_done now tx days db h =
    let stale = keep (is_overdue now days) db.assets in
    let m = mark_stale-Marked now tx stale db h in
    let first = detect_stale_lem now tx days db h in
    let after = (mark_stale now tx stale db).1 in
    let none_left : keep (is_overdue now days) after.assets ≡ [] =
      ap (keep (is_overdue now days)) m.assets
      ∙ mark_all-none now days tx stale db.assets (Pending-keep now days db.assets) in
    rw first (
      refl,
      none_left,
      m.deduped,
      detect_stale_lem now tx days after m.deduped ∙ (rw none_left (unfold mark_stale in refl)),
    )

-- What a pass over the gaps has done.
pub record Gaps (now : ℕ) (db : Db) (r : Result DbError (Unit {0}) × Db) : Type 0 where
  pub returned : r.0 ≡ ok tt
  pub deduped : IsDeduped now r.1.alerts
  pub assets : r.1.assets ≡ db.assets

raise_gaps_cons :
    (now tx : ℕ) (a : AssetRow) (rest : List AssetRow) (db : Db)
    → (raise_alert now tx edr_gap high a.id db).0 ≡ ok tt
    → raise_gaps now tx (a ∷ rest) db
      ≡ raise_gaps now tx rest (raise_alert now tx edr_gap high a.id db).1
unfolding raise_gaps
raise_gaps_cons now tx a rest db e = rw (e, resume)

raise_gaps-Gaps :
    (now tx : ℕ) (rows : List AssetRow) (db : Db)
    → IsDeduped now db.alerts
    → Gaps now db (raise_gaps now tx rows db)
raise_gaps-Gaps now tx [] db h =
    unfold raise_gaps in record { returned = refl; deduped = h; assets = refl }
raise_gaps-Gaps now tx (a ∷ rest) db h =
    let r = raise_alert-IsDeduped now tx edr_gap high a.id db h in
    let step = raise_gaps_cons now tx a rest db r.returned in
    let m = raise_gaps-Gaps now tx rest (raise_alert now tx edr_gap high a.id db).1 r.deduped in
    record {
      returned = ap (λ x. x.0) step ∙ m.returned;
      deduped = rw step m.deduped;
      assets = ap (λ x. x.1.assets) step ∙ m.assets ∙ r.assets;
    }

-- In a table without repeated open alerts of the last day, the pass for stale assets and coverage
-- gaps always returns its two numbers, leaves no asset overdue, and no alert repeated.
detect_stale_and_gaps_ends :
    (now tx : ℕ) (db : Db)
    → IsDeduped now db.alerts
    → (stale gaps : ℕ) × ((detect_stale_and_gaps now tx db).0 ≡ ok (stale, gaps))
      × (keep (is_overdue now 30) (detect_stale_and_gaps now tx db).1.assets ≡ [])
      × IsDeduped now (detect_stale_and_gaps now tx db).1.alerts
unfolding detect_stale_and_gaps detect_edr_gaps
detect_stale_and_gaps_ends now tx db h =
    let d = detect_stale_assets_done now tx 30 db h in
    let after = (detect_stale_assets now tx 30 db).1 in
    let g = raise_gaps-Gaps now tx (keep is_gap after.assets) after d.2 in
    rw (d.0, resume)
      (rw (g.returned, resume)
        (_, _, refl, ap (keep (is_overdue now 30)) g.assets ∙ d.1, g.deduped))
