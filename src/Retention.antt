-- ===== src/Retention.antt =====
-- app/workers/retention_tasks.py: which rows the daily retention pass archives, deletes and flags,
-- for one reading of the clock, in seconds. `t < now - days` is written without subtraction.
pub mod Kept
pub mod Flags
mod Tests
use kepryx.Base.{
  ℕ, zero, suc, ◌+◌, ◌*◌, String, Bool, true, false, not, ◌&&◌, ◌||◌, Option, none, some, List, [],
  ◌∷◌, ◌++◌, map, keep, length, ltb, ◌==◌, str_eq, mem_text, codes, if◌then◌else◌,
}

pub record AuditRow : Type 0 where
  pub timestamp : ℕ
  pub archived : Bool

pub record KnownAsset : Type 0 where
  pub id : ℕ
  pub last_seen : ℕ
  pub criticality : String

pub record UserRow : Type 0 where
  pub id : ℕ
  pub username : String
  pub is_active : Bool
  pub last_login : Option ℕ

-- An alert, with the user that its details name.
pub record UserAlert : Type 0 where
  pub alert_type : String
  pub status : String
  pub user_id : Option ℕ

pub record Policy : Type 0 where
  pub archive_days : ℕ
  pub retention_days : ℕ
  pub asset_days : ℕ
  pub user_days : ℕ
  pub delete_enabled : Bool

pub record Tables : Type 0 where
  pub audit : List AuditRow
  pub assets : List KnownAsset
  pub alerts : List UserAlert

-- `t < now - days`.
abbrev pub is_before : ℕ → ℕ → ℕ → Bool
is_before now days t = ltb (t + days * 86400) now

pub to_archive : ℕ → ℕ → AuditRow → Bool
to_archive now days r = is_before now days r.timestamp && not r.archived

-- One row, and the rest with what is left of the limit.
mark : Bool → (ℕ → ℕ × List AuditRow) → ℕ → AuditRow → ℕ × List AuditRow
mark true rest n r =
    let (marked, after) = rest n in (marked + 1, record r { archived = true } ∷ after)
mark false rest n r = let (marked, after) = rest (suc n) in (marked, r ∷ after)

-- The rows found, at most so many, are marked: they are selected by their primary key.
pub archive_rows : ℕ → ℕ → ℕ → List AuditRow → ℕ × List AuditRow
unfolding to_archive mark
archive_rows zero now days rows = (0, rows)
archive_rows (suc n) now days [] = (0, [])
archive_rows (suc n) now days (r ∷ rest) =
    mark (to_archive now days r) (λ k. archive_rows k now days rest) n r

pub archive_old_audit_logs : Policy → ℕ → Tables → ℕ × Tables
unfolding archive_rows
archive_old_audit_logs p now t =
    let (n, rows) = archive_rows 10000 now p.archive_days t.audit in (n, record t { audit = rows })

pub is_expired : Policy → ℕ → AuditRow → Bool
is_expired p now r = is_before now p.retention_days r.timestamp

pub delete_expired_audit_logs : Policy → ℕ → Tables → ℕ × Tables
unfolding is_expired
delete_expired_audit_logs p now t =
    if p.delete_enabled
    then (
      length (keep (is_expired p now) t.audit),
      record t { audit = keep (λ r. not (is_expired p now r)) t.audit },
    )
    else (0, t)

pub is_deletable : Policy → ℕ → KnownAsset → Bool
is_deletable p now a =
    is_before now p.asset_days a.last_seen
    && not (mem_text a.criticality ("tier-1" ∷ "critical" ∷ []))

pub delete_stale_assets : Policy → ℕ → Tables → ℕ × Tables
unfolding is_deletable
delete_stale_assets p now t =
    if p.delete_enabled
    then (
      length (keep (is_deletable p now) t.assets),
      record t { assets = keep (λ a. not (is_deletable p now a)) t.assets },
    )
    else (0, t)

-- A prefix of SQL's `LIKE`, in which `_` stands for any character.
like_prefix : List ℕ → List ℕ → Bool
like_prefix [] s = true
like_prefix (p ∷ ps) [] = false
like_prefix (p ∷ ps) (c ∷ s) = (p == 95 || p == c) && like_prefix ps s

-- `username LIKE 'deleted_user_%'`.
pub is_anonymized : UserRow → Bool
unfolding like_prefix
is_anonymized u = like_prefix (codes "deleted_user_") (codes u.username)

-- A user who has never logged in has no time to compare.
pub is_inactive : Policy → ℕ → UserRow → Bool
unfolding is_anonymized
is_inactive p now u =
    u.is_active
    && elim u.last_login [ none ↦ false | some t ↦ is_before now p.user_days t ]
    && not (is_anonymized u)

pub is_flag : ℕ → UserAlert → Bool
is_flag i a =
    str_eq a.alert_type "inactive_user"
    && str_eq a.status "open"
    && elim a.user_id [ none ↦ false | some j ↦ j == i ]

abbrev pub flag_of : ℕ → UserAlert
flag_of i = record { alert_type = "inactive_user"; status = "open"; user_id = some i }

-- `scalar_one_or_none()`: an alert is added if none is found, and two of them are an exception.
pub flag_user : ℕ → List UserAlert → List UserAlert → Option (List UserAlert)
flag_user i [] alerts = some (alerts ++ flag_of i ∷ [])
flag_user i (found ∷ []) alerts = some alerts
flag_user i (found ∷ second ∷ more) alerts = none

-- The rest of the loop, unless the exception was raised.
then_flag :
    Option (List UserAlert) → (List UserAlert → Option (List UserAlert)) → Option (List UserAlert)
then_flag none rest = none
then_flag (some alerts) rest = rest alerts

pub flag_all : List UserRow → List UserAlert → Option (List UserAlert)
unfolding flag_user is_flag then_flag
flag_all [] alerts = some alerts
flag_all (u ∷ rest) alerts =
    then_flag (flag_user u.id (keep (is_flag u.id) alerts) alerts) (flag_all rest)

-- The commit of the flags.
end_flags : ℕ → Option (List UserAlert) → Tables → Option ℕ × Tables
end_flags n none t = (none, t)
end_flags n (some alerts) t = (some n, record t { alerts = alerts })

-- `none` stands for the exception, after which nothing is committed.
pub flag_inactive_users : Policy → ℕ → List UserRow → Tables → Option ℕ × Tables
unfolding flag_all is_inactive end_flags
flag_inactive_users p now users t =
    let inactive = keep (is_inactive p now) users in
    end_flags (length inactive) (flag_all inactive t.alerts) t

pub record Totals : Type 0 where
  pub audit_archived : ℕ
  pub audit_deleted : ℕ
  pub assets_deleted : ℕ
  pub users_flagged : ℕ

pub enforce_all : Policy → ℕ → List UserRow → Tables → Option Totals × Tables
unfolding archive_old_audit_logs delete_expired_audit_logs delete_stale_assets flag_inactive_users
enforce_all p now users t =
    let (archived, t1) = archive_old_audit_logs p now t in
    let (deleted, t2) = delete_expired_audit_logs p now t1 in
    let (gone, t3) = delete_stale_assets p now t2 in
    let (flagged, t4) = flag_inactive_users p now users t3 in
    (
      elim flagged [
        | none ↦ none
        | some n ↦ some (record {
          audit_archived = archived;
          audit_deleted = deleted;
          assets_deleted = gone;
          users_flagged = n;
        })
      ],
      t4,
    )
