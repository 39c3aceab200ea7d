-- ===== src/ScanTasks/Runs/Sums.antt =====
-- The totals of rows of scans, and how they add up.

use kepryx.Base.{
  ℕ, ◌+◌, ◌≡◌, refl, ap, Bool, true, false, List, [], ◌∷◌, ◌++◌, keep, length, length-append, arith,
}
use kepryx.ScanTasks.{Scan, pending, running, completed, failed, set_last, Totals}

unfoldable pub is_failed : Scan → Bool
is_failed s = elim s.status [
  | pending ↦ false
  | running ↦ false
  | completed ↦ false
  | failed ↦ true
]

unfoldable pub all_hosts : List Scan → ℕ
all_hosts [] = 0
all_hosts (s ∷ ss) = s.hosts_found + all_hosts ss

pub all_hosts-append : (xs ys : List Scan) → all_hosts (xs ++ ys) ≡ all_hosts xs + all_hosts ys
unfolding all_hosts
all_hosts-append [] ys = omega arith
all_hosts-append (x ∷ xs) ys = omega (arith, all_hosts-append xs ys)

-- The totals of the rows of scans.
unfoldable pub totals_of : List Scan → Totals
unfolding is_failed all_hosts
totals_of ss = record {
  scanned = length ss;
  failures = length (keep is_failed ss);
  hosts = all_hosts ss;
}

unfoldable pub add_totals : Totals → Totals → Totals
add_totals t u = record {
  scanned = t.scanned + u.scanned;
  failures = t.failures + u.failures;
  hosts = t.hosts + u.hosts;
}

pub totals-ext :
    {t u : Totals} → t.scanned ≡ u.scanned → t.failures ≡ u.failures → t.hosts ≡ u.hosts → t ≡ u
totals-ext p q r = λ i. record { scanned = p i; failures = q i; hosts = r i }

pub add_totals_zero :
    (u : Totals) → add_totals (record { scanned = 0; failures = 0; hosts = 0 }) u ≡ u
unfolding add_totals
add_totals_zero u = totals-ext (omega arith) (omega arith) (omega arith)

pub keep-append :
    {A : Type 0} → (p : A → Bool) (xs ys : List A) → keep p (xs ++ ys) ≡ keep p xs ++ keep p ys
keep-append p [] ys = refl
keep-append p (x ∷ xs) ys = ground (arith, keep-append p xs ys)

pub totals_of-append :
    (t : Totals) (xs ys : List Scan)
    → add_totals (add_totals t (totals_of xs)) (totals_of ys) ≡ add_totals t (totals_of (xs ++ ys))
unfolding add_totals totals_of
totals_of-append t xs ys =
    let scanned : (t.scanned + length xs + length ys ≡ t.scanned + length (xs ++ ys)) =
      omega (arith, length-append xs ys) in
    let failures : (t.failures + length (keep is_failed xs) + length (keep is_failed ys)
        ≡ t.failures + length (keep is_failed (xs ++ ys))) =
      rw (keep-append is_failed xs ys)
        (omega (arith, length-append (keep is_failed xs) (keep is_failed ys))) in
    let hosts : (t.hosts + all_hosts xs + all_hosts ys ≡ t.hosts + all_hosts (xs ++ ys)) =
      omega (arith, all_hosts-append xs ys) in
    totals-ext scanned failures hosts

pub set_last_lem : (s t : Scan) (xs : List Scan) → set_last s (xs ++ t ∷ []) ≡ xs ++ s ∷ []
unfolding set_last
set_last_lem s t [] = refl
set_last_lem s t (x ∷ []) = refl
set_last_lem s t (x ∷ y ∷ xs) = ap (λ zs. x ∷ zs) (set_last_lem s t (y ∷ xs))
