-- ===== src/ScanTasks/Runs.antt =====
-- What a run over all networks leaves: its rows of scans, its commands and the asset tables.
pub mod Sums
use kepryx.ScanTasks.Runs.Sums.{
  add_totals, add_totals_zero, all_hosts, all_hosts-append, is_failed, keep-append, set_last_lem,
  totals-ext, totals_of, totals_of-append,
}
use mathlib.Core.Path.{subst}
use mathlib.Core.List.{append_assoc, append-nil}
use kepryx.Base.{
  ℕ, ◌+◌, ◌≡◌, refl, sym, ap, ◌∙◌, String, Bool, true, false, Option, none, some, List, [], ◌∷◌,
  ◌++◌, map, keep, All, length, length-append, arith, Bool-cases, inl, inr, ◌⊎◌, Result, ok, err,
}
use kepryx.ScanAuthorization.{
  ScanError, value_error, invalid_cidr, too_many_hosts, disabled, invalid_policy, outside,
  not_a_host, authorize_scan_network,
}
use kepryx.ScanAuthorization.Answers.{authorize_scan_network_raises}
use kepryx.Reconciler.State.{Db, DbError, text}
use kepryx.ScanTasks.Hosts.{host_data}
use kepryx.Scanner.{Config}
use kepryx.Scanner.Reading.{DiscoveredHost, ScanFailure}
use kepryx.ScanTasks.{
  Scan, pending, running, completed, failed, ScanNetwork, World, is_running, is_stuck, recover,
  begin_scan, set_last, end_scan, Ending, skipped, found, ended_failed, Totals, Summary, fail_scan,
  after_hosts, after_discovery, started, scan_started, scan_checked, scan_network, count,
  after_network, scan_all, summary, run_all_network_scans, reconcile_hosts,
}

abbrev pub IsEnded : Scan → Type 0
IsEnded s = is_running s.status ≡ false

All-append : (P : Scan → Type 0) (xs ys : List Scan) → All P xs → All P ys → All P (xs ++ ys)
All-append P [] ys h k = k
All-append P (x ∷ xs) ys h k = (h.0, All-append P xs ys h.1 k)

-- The last of these rows is that of a network that failed.
pub record EndsFailed (added : List Scan) : Type 0 where
  pub earlier : List Scan
  pub last : Scan
  pub split : added ≡ earlier ++ last ∷ []
  pub failed_last : is_failed last ≡ true

append-EndsFailed : (xs ys : List Scan) → EndsFailed ys → EndsFailed (xs ++ ys)
append-EndsFailed xs ys f = record {
  earlier = xs ++ f.earlier;
  last = f.last;
  split = ap (λ zs. xs ++ zs) f.split ∙ sym (append_assoc xs f.earlier (f.last ∷ []));
  failed_last = f.failed_last;
}

module _ (Cause : World → Type 0) where
  -- What one network comes to, from the rows before it: the loop goes on, or it is left for a cause.
  record Stepped (before : List Scan) (r : Ending × World) : Type 0 where
    added : List Scan
    scans : r.1.scans ≡ before ++ added
    ended : All IsEnded added
    goes :
        ((t : Totals) (next : Totals → World → Option Totals × World)
          → after_network r.0 t next r.1 ≡ next (add_totals t (totals_of added)) r.1)
        ⊎ (((t : Totals) (next : Totals → World → Option Totals × World)
              → after_network r.0 t next r.1 ≡ (none, r.1))
            × EndsFailed added
            × Cause r.1)

  skipped-Stepped : (w : World) → Stepped w.scans (skipped, w)
  unfolding totals_of add_totals after_network count
  skipped-Stepped w = record {
    added = [];
    scans = sym (append-nil w.scans);
    ended = tt;
    goes =
        inl (λ t next. ap (λ u. next u w) (totals-ext (omega arith) (omega arith) (omega arith)));
  }

  -- The row of a network that was scanned, rewritten as it ends.
  ended-Stepped :
      (before : List Scan) (s : Scan) (e : Ending) (w : World)
      → w.scans ≡ before ++ s ∷ []
      → IsEnded s
      → ((t : Totals) (next : Totals → World → Option Totals × World)
          → after_network e t next w ≡ next (count e t) w)
      → ((t : Totals) → count e t ≡ add_totals t (totals_of (s ∷ [])))
      → Stepped before (e, w)
  ended-Stepped before s e w scans ended goes counted = record {
    added = s ∷ [];
    scans = scans;
    ended = (ended, tt);
    goes = inl (λ t next. goes t next ∙ ap (λ u. next u w) (counted t));
  }

  fail_scan-Stepped :
      (now : ℕ) (before : List Scan) (s : Scan) (w : World)
      → s.hosts_found ≡ 0
      → w.scans ≡ before ++ s ∷ []
      → Stepped before (fail_scan now s w)
  unfolding fail_scan end_scan totals_of add_totals after_network count is_failed all_hosts
      is_running
  fail_scan-Stepped now before s w h e =
      ended-Stepped before (record s { status = failed; completed_at = some now }) ended_failed _
        (ap (set_last _) e ∙ set_last_lem _ s before) refl (λ t next. refl)
        (λ t. totals-ext (omega arith) (omega arith) (omega (arith, h)))

  after_hosts-Stepped :
      (now : ℕ) (before : List Scan) (s : Scan) (n : ℕ) (r : Result DbError (Unit {0}) × Db)
      (w : World)
      → ((e : DbError) → r.0 ≡ err e → (left : World) → left.tables ≡ w.tables → Cause left)
      → s.hosts_found ≡ 0
      → w.scans ≡ before ++ s ∷ []
      → Stepped before (after_hosts now s n r w)
  unfolding after_hosts fail_scan end_scan totals_of add_totals after_network count is_failed
      all_hosts is_running
  after_hosts-Stepped now before s n (err e, tables) w c h q =
      let row = record s { status = failed; completed_at = some now } in
      record {
        added = row ∷ [];
        scans = ap (set_last _) q ∙ set_last_lem _ s before;
        ended = (refl, tt);
        goes = inr (
          (λ t next. refl),
          record { earlier = []; last = row; split = refl; failed_last = refl },
          c e refl _ refl,
        );
      }
  after_hosts-Stepped now before s n (ok u, tables) w c h q =
      ended-Stepped before
        (record s { status = completed; completed_at = some now; hosts_found = n }) (found n) _
        (ap (set_last _) q ∙ set_last_lem _ s before) refl (λ t next. refl)
        (λ t. totals-ext (omega arith) (omega arith) (omega arith))

module _ (C : Config) (same_mac : String → String → Bool) where
  open C use {texts, allowed, limit}

  -- The merge of some hosts of a network into these tables fails.
  pub record MergeFails (now : ℕ) (w : World) : Type 0 where
    pub name : String
    pub hosts : List DiscoveredHost
    pub error : DbError
    pub fails :
        (reconcile_hosts C same_mac now
          (map (host_data (text "Unknown") (text name)) hosts)
          w.tables).0
        ≡ err error

  after_discovery-Stepped :
      (now : ℕ) (before : List Scan) (n : ScanNetwork)
      (r : Result ScanFailure (List DiscoveredHost)) (w : World)
      → w.scans ≡ before ++ started now n ∷ []
      → Stepped (MergeFails now) before (after_discovery C same_mac now n (started now n) r w)
  unfolding after_discovery started
  after_discovery-Stepped now before n (err e) w q =
      fail_scan-Stepped (MergeFails now) now before _ w refl q
  after_discovery-Stepped now before n (ok hosts) w q =
      after_hosts-Stepped (MergeFails now) now before _ _ _ w
        (λ e f left same. record {
          name = n.name;
          hosts = hosts;
          error = e;
          fails =
              ap
                (λ db.
                  (reconcile_hosts C same_mac now
                    (map (host_data (text "Unknown") (text n.name)) hosts) db).0)
                same
              ∙ f;
        })
        refl q

  scan_network-Stepped :
      (now : ℕ) (n : ScanNetwork) (w : World)
      → Stepped (MergeFails now) w.scans (scan_network C same_mac now n w)
  unfolding scan_network scan_checked scan_started begin_scan
  scan_network-Stepped now n w = checked (authorize_scan_network texts allowed limit n.cidr) refl
    where
      checked :
          (r : Result ScanError String)
          → authorize_scan_network texts allowed limit n.cidr ≡ r
          → Stepped (MergeFails now) w.scans (scan_checked C same_mac now n r w)
      checked (err value_error) q =
          absurd (authorize_scan_network_raises texts allowed limit n.cidr q)
      checked (err invalid_cidr) q = skipped-Stepped (MergeFails now) w
      checked (err too_many_hosts) q = skipped-Stepped (MergeFails now) w
      checked (err disabled) q = skipped-Stepped (MergeFails now) w
      checked (err invalid_policy) q = skipped-Stepped (MergeFails now) w
      checked (err outside) q = skipped-Stepped (MergeFails now) w
      checked (err not_a_host) q = skipped-Stepped (MergeFails now) w
      checked (ok _) q = after_discovery-Stepped now w.scans n _ _ refl

  -- What the loop over the networks comes to.
  record Looped (now : ℕ) (before : List Scan) (t : Totals) (r : Option Totals × World)
      : Type 0 where
    added : List Scan
    scans : r.1.scans ≡ before ++ added
    ended : All IsEnded added
    returned :
        (r.0 ≡ some (add_totals t (totals_of added)))
        ⊎ ((r.0 ≡ none) × EndsFailed added × MergeFails now r.1)

  Stepped-Looped :
      (now : ℕ) (before : List Scan) (t : Totals) (step : Ending × World)
      (next : Totals → World → Option Totals × World)
      → ((u : Totals) (w : World) → Looped now w.scans u (next u w))
      → Stepped (MergeFails now) before step
      → Looped now before t (after_network step.0 t next step.1)
  Stepped-Looped now before t step next later s = elim s.goes [
    | inr (left, f, c) ↦
        subst (Looped now before t) (sym (left t next)) (record {
          added = s.added;
          scans = s.scans;
          ended = s.ended;
          returned = inr (refl, f, c);
        })
    | inl goes ↦
        let rest = later (add_totals t (totals_of s.added)) step.1 in
        subst (Looped now before t) (sym (goes t next)) (record {
          added = s.added ++ rest.added;
          scans =
              rest.scans
              ∙ ap (λ xs. xs ++ rest.added) s.scans
              ∙ append_assoc before s.added rest.added;
          ended = All-append IsEnded s.added rest.added s.ended rest.ended;
          returned = elim rest.returned [
            | inl e ↦ inl (e ∙ ap (λ u. some u) (totals_of-append t s.added rest.added))
            | inr (e, f, c) ↦ inr (e, append-EndsFailed s.added rest.added f, c)
          ];
        })
  ]

  scan_all-Looped :
      (now : ℕ) (networks : List ScanNetwork) (t : Totals) (w : World)
      → Looped now w.scans t (scan_all C same_mac now networks t w)
  unfolding scan_all totals_of add_totals
  scan_all-Looped now [] t w = record {
    added = [];
    scans = sym (append-nil w.scans);
    ended = tt;
    returned = inl (ap (λ u. some u) (totals-ext (omega arith) (omega arith) (omega arith)));
  }
  scan_all-Looped now (n ∷ rest) t w =
      Stepped-Looped now w.scans t (scan_network C same_mac now n w) (scan_all C same_mac now rest)
        (scan_all-Looped now rest) (scan_network-Stepped now n w)

  -- What the task comes to, from the rows before it.
  pub record Ran (timeout now : ℕ) (before : List Scan) (r : Option Summary × World) : Type 0 where
    pub added : List Scan
    pub scans : r.1.scans ≡ map (recover now timeout) before ++ added
    pub ended : All IsEnded added
    pub recovered : All (λ s. is_stuck now timeout s ≡ false) r.1.scans
    pub returned :
        (r.0 ≡ some (summary (length (keep (is_stuck now timeout) before)) (totals_of added)))
        ⊎ ((r.0 ≡ none) × EndsFailed added × MergeFails now r.1)

  recover-is_stuck :
      (now timeout : ℕ) (s : Scan) → is_stuck now timeout (recover now timeout s) ≡ false
  unfolding recover is_stuck is_running
  recover-is_stuck now timeout s = elim (Bool-cases (is_stuck now timeout s)) [
    | inl stuck ↦ rw stuck refl
    | inr fine ↦ rw (fine, fine) refl
  ]

  recovered_rows :
      (now timeout : ℕ) (ss : List Scan)
      → All (λ s. is_stuck now timeout s ≡ false) (map (recover now timeout) ss)
  recovered_rows now timeout [] = tt
  recovered_rows now timeout (s ∷ ss) =
      (recover-is_stuck now timeout s, recovered_rows now timeout ss)

  All-map : (P Q : Scan → Type 0) (ss : List Scan) → ((s : Scan) → P s → Q s) → All P ss → All Q ss
  All-map P Q [] f h = tt
  All-map P Q (s ∷ ss) f h = (f s h.0, All-map P Q ss f h.1)

  ended-is_stuck : (now timeout : ℕ) (s : Scan) → IsEnded s → is_stuck now timeout s ≡ false
  unfolding is_stuck
  ended-is_stuck now timeout s e = rw e refl

  -- The rows of scans of before keep their order, those that were stuck now failed; behind them comes
  -- one row for each network scanned, completed or failed. The task returns its summary, which counts
  -- these rows, those of them that failed, and the hosts that they have found; or an exception leaves
  -- it behind the row of a network that failed, where the merge of some hosts into the tables that are
  -- left fails. Either way no row is stuck: one that is still running started within the last two
  -- time limits.
  pub run_all_network_scans-Ran :
      (timeout now : ℕ) (networks : List ScanNetwork) (w : World)
      → Ran timeout now w.scans (run_all_network_scans C same_mac timeout now networks w)
  unfolding run_all_network_scans
  run_all_network_scans-Ran timeout now networks w =
      let looped =
        scan_all-Looped now (keep (λ n. n.enabled) networks)
          (record { scanned = 0; failures = 0; hosts = 0 })
          (record w { scans = map (recover now timeout) w.scans }) in
      record {
        added = looped.added;
        scans = looped.scans;
        ended = looped.ended;
        recovered = subst (All (λ s. is_stuck now timeout s ≡ false)) (sym looped.scans) (
            All-append _ (map (recover now timeout) w.scans) looped.added
              (recovered_rows now timeout w.scans)
              (All-map IsEnded _ looped.added (ended-is_stuck now timeout) looped.ended));
        returned = summed looped.returned;
      }
    where
      summed :
          {r : Option Totals} {added : List Scan} {left : World}
          → (r
              ≡ some
                  (add_totals (record { scanned = 0; failures = 0; hosts = 0 }) (totals_of added)))
            ⊎ ((r ≡ none) × EndsFailed added × MergeFails now left)
          → (elim r [
            | none ↦ none
            | some t ↦ some (summary (length (keep (is_stuck now timeout) w.scans)) t)
          ]
              ≡ some (summary (length (keep (is_stuck now timeout) w.scans)) (totals_of added)))
            ⊎ ((elim r [
              | none ↦ none
              | some t ↦ some (summary (length (keep (is_stuck now timeout) w.scans)) t)
            ]
                  ≡ none)
                × EndsFailed added
                × MergeFails now left)
      summed {r} {added} (inl e) = inl (
          rw e (
            ap (λ u. some (summary (length (keep (is_stuck now timeout) w.scans)) u))
              (add_totals_zero (totals_of added))))
      summed (inr (e, f, c)) = inr (rw e refl, f, c)
