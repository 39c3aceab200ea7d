-- ===== src/Retention/Flags.antt =====
-- Inactive users are flagged once.
use mathlib.Core.Path.{subst}
use native.Mathlib.Nat.{le_trans}
use kepryx.Base.{
  ℕ, suc, ◌+◌, ◌≤◌, ◌≡◌, refl, sym, ap, ◌∙◌, Bool, true, false, Option, some, List, [], ◌∷◌, ◌++◌,
  keep, length, length-append, All, ◌==◌, ==_iff, arith, Bool-cases, inl, inr, if◌then◌else◌,
}
use kepryx.Retention.{
  UserRow, UserAlert, Policy, Tables, is_flag, flag_of, flag_user, flag_all, then_flag, end_flags,
  is_inactive, flag_inactive_users,
}

unfoldable pub flags : ℕ → List UserAlert → ℕ
flags i alerts = length (keep (is_flag i) alerts)

-- No user has two open flags.
abbrev pub IsSingle : List UserAlert → Type 0
IsSingle alerts = (i : ℕ) → flags i alerts ≤ 1

keep-append :
    (p : UserAlert → Bool) (xs : List UserAlert) (a : UserAlert)
    → keep p (xs ++ a ∷ []) ≡ (if p a then keep p xs ++ a ∷ [] else keep p xs)
keep-append p [] a = ground arith
keep-append p (x ∷ xs) a = ground (arith, keep-append p xs a)

is_flag-flag_of : (j i : ℕ) → is_flag j (flag_of i) ≡ (i == j)
unfolding is_flag
is_flag-flag_of j i = refl

flags-append :
    (j i : ℕ) (alerts : List UserAlert)
    → flags j (alerts ++ flag_of i ∷ []) ≡ flags j alerts + (if i == j then 1 else 0)
unfolding flags
flags-append j i alerts =
    ap length (keep-append (is_flag j) alerts (flag_of i))
    ∙ by_test (is_flag j (flag_of i)) (is_flag-flag_of j i)
  where
    by_test :
        (b : Bool)
        → b ≡ (i == j)
        → length (if b then keep (is_flag j) alerts ++ flag_of i ∷ [] else keep (is_flag j) alerts)
          ≡ length (keep (is_flag j) alerts) + (if i == j then 1 else 0)
    by_test true e = rw (← e) (length-append (keep (is_flag j) alerts) (flag_of i ∷ []))
    by_test false e = rw (← e) (omega arith)

-- What flagging leaves.
pub record Flagged (users : List UserRow) (alerts : List UserAlert) (r : Option (List UserAlert))
    : Type 0 where
  pub after : List UserAlert
  pub returned : r ≡ some after
  pub single : IsSingle after
  pub grown : (i : ℕ) → flags i alerts ≤ flags i after
  pub flagged : All (λ u. flags u.id after ≡ 1) users

record FlaggedUser (i : ℕ) (alerts : List UserAlert) (r : Option (List UserAlert)) : Type 0 where
  after : List UserAlert
  returned : r ≡ some after
  single : IsSingle after
  grown : (j : ℕ) → flags j alerts ≤ flags j after
  flagged : 1 ≤ flags i after

flags-length :
    (i : ℕ) (alerts xs : List UserAlert) → keep (is_flag i) alerts ≡ xs → flags i alerts ≡ length xs
unfolding flags
flags-length i alerts xs e = ap length e

flag_user-FlaggedUser :
    (i : ℕ) (alerts : List UserAlert)
    → IsSingle alerts
    → FlaggedUser i alerts (flag_user i (keep (is_flag i) alerts) alerts)
unfolding flag_user
flag_user-FlaggedUser i alerts single = found (keep (is_flag i) alerts) refl
  where
    added : (j : ℕ) → flags i alerts ≡ 0 → flags j alerts + (if i == j then 1 else 0) ≤ 1
    added j zero_ = elim (Bool-cases (i == j)) [
      | inl same ↦
          let q : i ≡ j = (==_iff i j).0 same in
          let z : flags j alerts ≡ 0 = ap (λ k. flags k alerts) (sym q) ∙ zero_ in
          rw same (omega (arith, z))
      | inr other ↦ rw other (omega (arith, single j))
    ]

    found :
        (xs : List UserAlert)
        → keep (is_flag i) alerts ≡ xs
        → FlaggedUser i alerts (flag_user i xs alerts)
    found [] e = record {
      after = alerts ++ flag_of i ∷ [];
      returned = refl;
      single = λ j.
          subst (λ n. n ≤ 1) (sym (flags-append j i alerts)) (added j (flags-length i alerts [] e));
      grown = λ j. subst (λ n. flags j alerts ≤ n) (sym (flags-append j i alerts)) (omega arith);
      flagged =
          subst (λ n. 1 ≤ n)
            (sym (
              flags-append i i alerts
              ∙ ap (λ b. flags i alerts + (if b then 1 else 0)) ((==_iff i i).1 refl)))
            (omega arith);
    }
    found (x ∷ []) e = record {
      after = alerts;
      returned = refl;
      single = single;
      grown = λ j. omega arith;
      flagged = omega (arith, flags-length i alerts (x ∷ []) e);
    }
    found (x ∷ y ∷ rest) e =
        let two : flags i alerts ≡ suc (suc (length rest)) =
          flags-length i alerts (x ∷ y ∷ rest) e in
        absurd (omega (arith, single i, two))

flag_all-Flagged :
    (users : List UserRow) (alerts : List UserAlert)
    → IsSingle alerts
    → Flagged users alerts (flag_all users alerts)
unfolding flag_all then_flag
flag_all-Flagged [] alerts single = record {
  after = alerts;
  returned = refl;
  single = single;
  grown = λ i. omega arith;
  flagged = tt;
}
flag_all-Flagged (u ∷ rest) alerts single =
    let one = flag_user-FlaggedUser u.id alerts single in
    let more = flag_all-Flagged rest one.after one.single in
    record {
      after = more.after;
      returned = ap (λ r. then_flag r (flag_all rest)) one.returned ∙ more.returned;
      single = more.single;
      grown = λ i. le_trans (one.grown i) (more.grown i);
      flagged =
          (omega (arith, le_trans one.flagged (more.grown u.id), more.single u.id), more.flagged);
    }

-- If no user has two open flags, then flagging ends with the number of the inactive users: each of
-- these has exactly one open flag afterwards, no user has two, and no flag is lost.
pub flag_inactive_users-Flagged :
    (p : Policy) (now : ℕ) (users : List UserRow) (t : Tables)
    → IsSingle t.alerts
    → let r = flag_inactive_users p now users t in
      (r.0 ≡ some (length (keep (is_inactive p now) users)))
      × Flagged (keep (is_inactive p now) users) t.alerts (some r.1.alerts)
unfolding flag_inactive_users end_flags
flag_inactive_users-Flagged p now users t single =
    let inactive = keep (is_inactive p now) users in
    let f = flag_all-Flagged inactive t.alerts single in
    let ends = ap (λ r. end_flags (length inactive) r t) f.returned in
    (
      ap (λ r. r.0) ends,
      record {
        after = f.after;
        returned = ap (λ r. some r.1.alerts) ends;
        single = f.single;
        grown = f.grown;
        flagged = f.flagged;
      },
    )
