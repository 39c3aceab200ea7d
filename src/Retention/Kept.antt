-- ===== src/Retention/Kept.antt =====
-- What the retention pass keeps and what it removes.
use mathlib.Core.Path.{subst}
use kepryx.Base.{
  In, ℕ, zero, suc, ◌+◌, ◌*◌, ◌≤◌, ◌≡◌, refl, sym, ap, ◌∙◌, Bool, true, false, not, Option, none,
  some, List, [], ◌∷◌, map, keep, length, mem_text, arith, both, Bool-cases, inl, inr, ◌⊎◌,
}
use kepryx.Retention.{
  AuditRow, KnownAsset, UserRow, UserAlert, Policy, Tables, is_before, to_archive, mark,
  archive_rows, archive_old_audit_logs, is_expired, delete_expired_audit_logs, is_deletable,
  delete_stale_assets, flag_inactive_users, flag_all, end_flags, enforce_all, is_inactive,
}

keep-In :
    {A : Type 0} → (p : A → Bool) (a : A) (xs : List A) → In a xs → p a ≡ true → In a (keep p xs)
keep-In p a [] h q = h
keep-In p a (x ∷ xs) (inl e) q = rw (ap p (sym e) ∙ q) (inl e)
keep-In p a (x ∷ xs) (inr m) q = elim (Bool-cases (p x)) [
  | inl yes_ ↦ rw yes_ (inr (keep-In p a xs m q))
  | inr no_ ↦ rw no_ (keep-In p a xs m q)
]

In-keep : {A : Type 0} → (p : A → Bool) (a : A) (xs : List A) → In a (keep p xs) → In a xs
In-keep p a [] h = h
In-keep p a (x ∷ xs) h = elim (Bool-cases (p x)) [
  | inl yes_ ↦ elim (rw yes_ at h) [ inl e ↦ inl e | inr m ↦ inr (In-keep p a xs m) ]
  | inr no_ ↦ inr (In-keep p a xs (rw no_ at h))
]

pub times : List AuditRow → List ℕ
times rows = map (λ r. r.timestamp) rows

mark-times :
    (b : Bool) (rest : ℕ → ℕ × List AuditRow) (n : ℕ) (r : AuditRow) (ts : List ℕ)
    → ((k : ℕ) → times (rest k).1 ≡ ts)
    → times (mark b rest n r).1 ≡ r.timestamp ∷ ts
unfolding mark times
mark-times true rest n r ts h = ap (λ us. r.timestamp ∷ us) (h n)
mark-times false rest n r ts h = ap (λ us. r.timestamp ∷ us) (h (suc n))

-- Archiving changes no time of a row.
archive_rows-times :
    (n now days : ℕ) (rows : List AuditRow) → times (archive_rows n now days rows).1 ≡ times rows
unfolding archive_rows times
archive_rows-times zero now days rows = refl
archive_rows-times (suc n) now days [] = refl
archive_rows-times (suc n) now days (r ∷ rest) =
    mark-times (to_archive now days r) (λ k. archive_rows k now days rest) n r (times rest)
      (λ k. archive_rows-times k now days rest)

mark-old :
    (b : Bool) (rest : ℕ → ℕ × List AuditRow) (n now days : ℕ) (q : AuditRow) (rows : List AuditRow)
    (r : AuditRow)
    → (b ≡ true → is_before now days q.timestamp ≡ true)
    → ((k : ℕ) → In r (rest k).1 → In r rows ⊎ (is_before now days r.timestamp ≡ true))
    → In r (mark b rest n q).1
    → In r (q ∷ rows) ⊎ (is_before now days r.timestamp ≡ true)
unfolding mark
mark-old true rest n now days q rows r old h (inl e) =
    inr (subst (λ x. is_before now days x.timestamp ≡ true) (sym e) (old refl))
mark-old true rest n now days q rows r old h (inr m) = elim (h n m) [
  | inl k ↦ inl (inr k)
  | inr k ↦ inr k
]
mark-old false rest n now days q rows r old h (inl e) = inl (inl e)
mark-old false rest n now days q rows r old h (inr m) = elim (h (suc n) m) [
  | inl k ↦ inl (inr k)
  | inr k ↦ inr k
]

to_archive_old :
    (now days : ℕ) (r : AuditRow)
    → to_archive now days r ≡ true
    → is_before now days r.timestamp ≡ true
unfolding to_archive
to_archive_old now days r h = (both (is_before now days r.timestamp) (not r.archived) h).0

-- A row that is archived afterwards was before, or is old.
archive_rows-old :
    (n now days : ℕ) (rows : List AuditRow) (r : AuditRow)
    → In r (archive_rows n now days rows).1
    → In r rows ⊎ (is_before now days r.timestamp ≡ true)
unfolding archive_rows
archive_rows-old zero now days rows r m = inl m
archive_rows-old (suc n) now days [] r m = inl m
archive_rows-old (suc n) now days (q ∷ rest) r m =
    mark-old (to_archive now days q) (λ k. archive_rows k now days rest) n now days q rest r
      (to_archive_old now days q) (λ k. archive_rows-old k now days rest r) m

-- The deletion of rows by their times.
keep-times :
    (p : Policy) (now : ℕ) (rows : List AuditRow)
    → times (keep (λ r. not (is_expired p now r)) rows)
      ≡ keep (λ t. not (is_before now p.retention_days t)) (times rows)
unfolding times is_expired
keep-times p now [] = refl
keep-times p now (r ∷ rows) = elim (Bool-cases (is_before now p.retention_days r.timestamp)) [
  | inl yes_ ↦ rw yes_ (keep-times p now rows)
  | inr no_ ↦ rw no_ (ap (λ ts. r.timestamp ∷ ts) (keep-times p now rows))
]

-- What the pass leaves of the audit log and of the assets.
pub record Kept (p : Policy) (now : ℕ) (before after : Tables) : Type 0 where
  pub disabled :
      p.delete_enabled ≡ false
      → (after.assets ≡ before.assets) × (times after.audit ≡ times before.audit)
  pub log :
      p.delete_enabled ≡ true
      → times after.audit ≡ keep (λ t. not (is_before now p.retention_days t)) (times before.audit)
  pub archived :
      (r : AuditRow)
      → In r after.audit
      → In r before.audit ⊎ (is_before now p.archive_days r.timestamp ≡ true)
  pub protected :
      (a : KnownAsset)
      → In a before.assets
      → (now ≤ a.last_seen + p.asset_days * 86400)
        ⊎ (mem_text a.criticality ("tier-1" ∷ "critical" ∷ []) ≡ true)
      → In a after.assets
  pub nothing_new : (a : KnownAsset) → In a after.assets → In a before.assets

vital_kept :
    (p : Policy) (now : ℕ) (a : KnownAsset)
    → (now ≤ a.last_seen + p.asset_days * 86400)
      ⊎ (mem_text a.criticality ("tier-1" ∷ "critical" ∷ []) ≡ true)
    → not (is_deletable p now a) ≡ true
unfolding is_deletable
vital_kept p now a (inl seen) =
    let recent : is_before now p.asset_days a.last_seen ≡ false = ground arith in rw recent refl
vital_kept p now a (inr vital) = elim (Bool-cases (is_before now p.asset_days a.last_seen)) [
  | inl old ↦ rw (old, vital) refl
  | inr recent ↦ rw recent refl
]

enabled≢disabled : (b : Bool) → b ≡ true → b ≡ false → ⊥
enabled≢disabled true p q = cc
enabled≢disabled false p q = cc

pruned : Policy → ℕ → Tables → Tables
pruned p now t =
    (delete_stale_assets p now
      (delete_expired_audit_logs p now (archive_old_audit_logs p now t).1).1).1

pruned-disabled :
    (p : Policy) (now : ℕ) (t : Tables)
    → p.delete_enabled ≡ false
    → pruned p now t ≡ (archive_old_audit_logs p now t).1
unfolding pruned delete_stale_assets delete_expired_audit_logs
pruned-disabled p now t off = rw off refl

pruned-enabled :
    (p : Policy) (now : ℕ) (t : Tables)
    → p.delete_enabled ≡ true
    → pruned p now t ≡ record t {
      audit =
          keep (λ r. not (is_expired p now r)) (archive_rows 10000 now p.archive_days t.audit).1;
      assets = keep (λ a. not (is_deletable p now a)) t.assets;
    }
unfolding pruned delete_stale_assets delete_expired_audit_logs archive_old_audit_logs
pruned-enabled p now t on = rw on refl

archive-Kept :
    (p : Policy) (now : ℕ) (t : Tables)
    → p.delete_enabled ≡ false
    → Kept p now t (archive_old_audit_logs p now t).1
unfolding archive_old_audit_logs
archive-Kept p now t off = record {
  disabled = λ h. (refl, archive_rows-times 10000 now p.archive_days t.audit);
  log = λ on. absurd (enabled≢disabled p.delete_enabled on off);
  archived = λ r m. archive_rows-old 10000 now p.archive_days t.audit r m;
  protected = λ a m h. m;
  nothing_new = λ a m. m;
}

pruned-Kept : (p : Policy) (now : ℕ) (t : Tables) → Kept p now t (pruned p now t)
pruned-Kept p now t = elim (Bool-cases p.delete_enabled) [
  | inr off ↦ subst (Kept p now t) (sym (pruned-disabled p now t off)) (archive-Kept p now t off)
  | inl on ↦
      let rows = (archive_rows 10000 now p.archive_days t.audit).1 in
      subst (Kept p now t) (sym (pruned-enabled p now t on)) (record {
        disabled = λ off. absurd (enabled≢disabled p.delete_enabled on off);
        log = λ h.
            keep-times p now rows
            ∙ ap (keep (λ t. not (is_before now p.retention_days t)))
                (archive_rows-times 10000 now p.archive_days t.audit);
        archived = λ r m.
            archive_rows-old 10000 now p.archive_days t.audit r
              (In-keep (λ r. not (is_expired p now r)) r rows m);
        protected =
            λ a m h. keep-In (λ a. not (is_deletable p now a)) a t.assets m (vital_kept p now a h);
        nothing_new = λ a m. In-keep (λ a. not (is_deletable p now a)) a t.assets m;
      })
]

-- The flags of users leave the log and the assets alone.
flagged-Kept :
    (p : Policy) (now : ℕ) (users : List UserRow) (before t : Tables)
    → Kept p now before t
    → Kept p now before (flag_inactive_users p now users t).1
unfolding flag_inactive_users end_flags
flagged-Kept p now users before t k = over (flag_all (keep (is_inactive p now) users) t.alerts)
  where
    over :
        (r : Option (List UserAlert))
        → Kept p now before (end_flags (length (keep (is_inactive p now) users)) r t).1
    over none = k
    over (some alerts) = record {
      disabled = k.disabled;
      log = k.log;
      archived = k.archived;
      protected = k.protected;
      nothing_new = k.nothing_new;
    }

-- The daily pass, however the flagging of users ends: where deletion is disabled, no asset and no
-- row of the audit log is removed; where it is enabled, the log loses exactly the rows that are older
-- than its retention, and every asset that was seen within its period, or is of criticality tier-1 or
-- critical, is still there; no asset is added; and each row of the log is as it was, or older than the
-- days after which rows are archived.
pub enforce_all-Kept :
    (p : Policy) (now : ℕ) (users : List UserRow) (t : Tables)
    → Kept p now t (enforce_all p now users t).1
unfolding enforce_all pruned
enforce_all-Kept p now users t = flagged-Kept p now users t (pruned p now t) (pruned-Kept p now t)
