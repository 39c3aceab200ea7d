-- ===== src/Reconciler/Alerts.antt =====
-- Alerts are not raised twice within a day, and looking for an earlier one never fails.
use kepryx.Base.{
  ℕ, suc, ◌+◌, ◌≤◌, ◌≡◌, refl, ap, Bool, true, List, [], ◌∷◌, ◌++◌, keep, length, length-append,
  ==_iff, arith, Bool-cases, inl, inr, Result, ok, if◌then◌else◌,
}
use kepryx.Reconciler.State.{
  AlertType, drift, shadow_it, stale_asset, edr_gap, Severity, AlertRow, Db, DbError,
}
use kepryx.Reconciler.{one_or_none, same_alert_type, is_recent, add_unless_found, raise_alert}

pub recent : ℕ → AlertType → ℕ → List AlertRow → ℕ
unfolding is_recent
recent now t i alerts = length (keep (is_recent now t i) alerts)

-- No two open alerts of the last day have one type and one asset.
abbrev pub IsDeduped : ℕ → List AlertRow → Type 0
IsDeduped now alerts = (t : AlertType) (i : ℕ) → recent now t i alerts ≤ 1

pub empty-IsDeduped : (now : ℕ) → IsDeduped now []
unfolding recent
empty-IsDeduped now t i = omega arith

keep-append :
    (p : AlertRow → Bool) (xs : List AlertRow) (a : AlertRow)
    → keep p (xs ++ a ∷ []) ≡ (if p a then keep p xs ++ a ∷ [] else keep p xs)
keep-append p [] a = ground arith
keep-append p (x ∷ xs) a = ground (arith, keep-append p xs a)

recent-append :
    (now : ℕ) (t : AlertType) (i : ℕ) (xs : List AlertRow) (a : AlertRow)
    → recent now t i (xs ++ a ∷ []) ≡ recent now t i xs + (if is_recent now t i a then 1 else 0)
unfolding recent
recent-append now t i xs a =
    rw (keep-append (is_recent now t i) xs a)
      (ground (arith, length-append (keep (is_recent now t i) xs) (a ∷ [])))

same_alert_type_eq : (s t : AlertType) → same_alert_type s t ≡ true → s ≡ t
unfolding same_alert_type
same_alert_type_eq drift drift e = refl
same_alert_type_eq shadow_it shadow_it e = refl
same_alert_type_eq stale_asset stale_asset e = refl
same_alert_type_eq edr_gap edr_gap e = refl
same_alert_type_eq drift shadow_it e = cc
same_alert_type_eq drift stale_asset e = cc
same_alert_type_eq drift edr_gap e = cc
same_alert_type_eq shadow_it drift e = cc
same_alert_type_eq shadow_it stale_asset e = cc
same_alert_type_eq shadow_it edr_gap e = cc
same_alert_type_eq stale_asset drift e = cc
same_alert_type_eq stale_asset shadow_it e = cc
same_alert_type_eq stale_asset edr_gap e = cc
same_alert_type_eq edr_gap drift e = cc
same_alert_type_eq edr_gap shadow_it e = cc
same_alert_type_eq edr_gap stale_asset e = cc

is_recent_key :
    (now : ℕ) (t : AlertType) (i : ℕ) (a : AlertRow)
    → is_recent now t i a ≡ true
    → (a.alert_type ≡ t) × (a.asset_id ≡ i)
unfolding is_recent
is_recent_key now t i a e =
    (same_alert_type_eq a.alert_type t (ground arith), (==_iff a.asset_id i).0 (ground arith))

-- What a call that raises an alert of this type for this asset has done.
pub record Raised (now : ℕ) (t : AlertType) (i : ℕ) (db : Db) (r : Result DbError (Unit {0}) × Db)
    : Type 0 where
  pub returned : r.0 ≡ ok tt
  pub deduped : IsDeduped now r.1.alerts
  pub assets : r.1.assets ≡ db.assets
  pub next_id : r.1.next_id ≡ db.next_id
  pub grown : length r.1.alerts ≤ suc (length db.alerts)

add-IsDeduped :
    (now : ℕ) (alerts : List AlertRow) (a : AlertRow)
    → IsDeduped now alerts
    → recent now a.alert_type a.asset_id alerts ≡ 0
    → IsDeduped now (alerts ++ a ∷ [])
add-IsDeduped now alerts a h none_yet t i = elim (Bool-cases (is_recent now t i a)) [
  | inl e ↦
      let (p, q) = is_recent_key now t i a e in
      let zero_here : recent now t i alerts ≡ 0 = rw (← p, ← q) none_yet in
      rw (recent-append now t i alerts a, e) (omega arith)
  | inr e ↦ rw (recent-append now t i alerts a, e) (omega (arith, h t i))
]

raise_found :
    (now tx : ℕ) (t : AlertType) (sev : Severity) (i : ℕ) (db : Db) (found : List AlertRow)
    → found ≡ keep (is_recent now t i) db.alerts
    → IsDeduped now db.alerts
    → Raised now t i db (
        add_unless_found
          (record { alert_type = t; severity = sev; asset_id = i; is_open = true; created_at = tx })
          (one_or_none found)
          db)
unfolding add_unless_found one_or_none
raise_found now tx t sev i db [] e h =
    let a : AlertRow = record {
      alert_type = t;
      severity = sev;
      asset_id = i;
      is_open = true;
      created_at = tx;
    } in
    record {
      returned = refl;
      deduped = add-IsDeduped now db.alerts a h (unfold recent in rw (← e) refl);
      assets = refl;
      next_id = refl;
      grown = omega (arith, length-append db.alerts (a ∷ []));
    }
raise_found now tx t sev i db (f ∷ []) e h = record {
  returned = refl;
  deduped = h;
  assets = refl;
  next_id = refl;
  grown = omega arith;
}
raise_found now tx t sev i db (f ∷ g ∷ rest) e h =
    let one : recent now t i db.alerts ≤ 1 = h t i in
    let many : length (f ∷ g ∷ rest) ≡ recent now t i db.alerts = unfold recent in ap length e in
    absurd (omega arith)

-- In a table without repeated open alerts of the last day, raising an alert never fails on several
-- matches, and leaves the table without such repetitions.
pub raise_alert-IsDeduped :
    (now tx : ℕ) (t : AlertType) (sev : Severity) (i : ℕ) (db : Db)
    → IsDeduped now db.alerts
    → Raised now t i db (raise_alert now tx t sev i db)
unfolding raise_alert
raise_alert-IsDeduped now tx t sev i db h =
    raise_found now tx t sev i db (keep (is_recent now t i) db.alerts) refl h

is_recent_later :
    (now later : ℕ) (t : AlertType) (i : ℕ) (a : AlertRow)
    → now ≤ later
    → is_recent later t i a ≡ true
    → is_recent now t i a ≡ true
unfolding is_recent
is_recent_later now later t i a le e = ground arith

recent_later :
    (now later : ℕ) (t : AlertType) (i : ℕ) (alerts : List AlertRow)
    → now ≤ later
    → recent later t i alerts ≤ recent now t i alerts
unfolding recent
recent_later now later t i [] le = omega arith
recent_later now later t i (a ∷ alerts) le =
    ground (arith, recent_later now later t i alerts le, is_recent_later now later t i a le)

pub IsDeduped-later :
    (now later : ℕ) (alerts : List AlertRow)
    → now ≤ later
    → IsDeduped now alerts
    → IsDeduped later alerts
IsDeduped-later now later alerts le h t i =
    omega (arith, recent_later now later t i alerts le, h t i)
