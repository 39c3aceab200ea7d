-- ===== src/Retention/Tests.antt =====
-- Tests of the retention pass, and instances of its theorems.
use kepryx.Base.{◌≡◌, refl, true, false, none, some, [], ◌∷◌, keep, length, arith}
use kepryx.Retention.{
  Policy, UserRow, Tables, is_inactive, flag_inactive_users, enforce_all, flag_of,
}
use kepryx.Retention.Kept.{Kept, enforce_all-Kept}
use kepryx.Retention.Flags.{Flagged, flags, IsSingle, flag_inactive_users-Flagged}

abbrev policy : Policy
policy = record {
  archive_days = 1;
  retention_days = 10;
  asset_days = 5;
  user_days = 2;
  delete_enabled = true;
}

abbrev idle : UserRow
idle = record { id = 3; username = "alice"; is_active = true; last_login = some 1000 }

abbrev anonymous : UserRow
anonymous = record { id = 4; username = "deleted_user_9"; is_active = true; last_login = some 1000 }

abbrev newcomer : UserRow
newcomer = record { id = 5; username = "bob"; is_active = true; last_login = none }

abbrev tables : Tables
tables = record {
  audit =
      record { timestamp = 1000; archived = false }
      ∷ record { timestamp = 900000; archived = false }
      ∷ [];
  assets =
      record { id = 1; last_seen = 10; criticality = "tier-1" }
      ∷ record { id = 2; last_seen = 10; criticality = "low" }
      ∷ [];
  alerts = [];
}

after_pass : (enforce_all policy 1000000 (idle ∷ anonymous ∷ newcomer ∷ []) tables).1 ≡ record {
  audit = record { timestamp = 900000; archived = true } ∷ [];
  assets = record { id = 1; last_seen = 10; criticality = "tier-1" } ∷ [];
  alerts = flag_of 3 ∷ [];
}
unfolding enforce_all
after_pass = refl

none-IsSingle : IsSingle []
unfolding flags
none-IsSingle i = omega arith

enforce_all-Kept_example :
    Kept policy 1000000 tables (enforce_all policy 1000000 (idle ∷ []) tables).1
enforce_all-Kept_example = enforce_all-Kept policy 1000000 (idle ∷ []) tables

flag_inactive_users-Flagged_example :
    let users = idle ∷ anonymous ∷ newcomer ∷ [] in
    let r = flag_inactive_users policy 1000000 users tables in
    (r.0 ≡ some (length (keep (is_inactive policy 1000000) users)))
    × Flagged (keep (is_inactive policy 1000000) users) [] (some r.1.alerts)
flag_inactive_users-Flagged_example =
    flag_inactive_users-Flagged policy 1000000 (idle ∷ anonymous ∷ newcomer ∷ []) tables
      none-IsSingle
