-- ===== src/Compliance/Audit/Summaries.antt =====
-- What a run reports agrees with the rows of results that it adds.
use mathlib.Core.Path.{subst}
use kepryx.Base.{
  ℕ, ◌+◌, ◌*◌, ◌/◌, ◌%◌, ◌<◌, ◌≤◌, ◌==◌, ==_iff, ◌≡◌, sym, ap, ◌∙◌, String, Bool, List, [], ◌∷◌,
  map, keep, length, All, arith, each, each_keeps, Bool-cases, inl, inr,
}
use native.Mathlib.Nat.{div-add-mod', div-mul-le_self, le_of_mul-le-mul_right, le_trans}
use kepryx.Risk.{round_half_even}
use kepryx.Compliance.Catalog.{AuditedAsset, Field, Observed}
use kepryx.Compliance.Audit.{Books, MappingRow, GapAlert, RunSummary, summary_of, opened, run_audit}
use kepryx.Compliance.Audit.Counting.{Counts, total_of, FrameworkSummary, framework_summary}
use kepryx.Compliance.Audit.Work.{work, audit_item, audit_assets-work}
use kepryx.Compliance.Audit.Tally.{
  counts_of, counts_of-total_of, is_of, counts_for, IsTallied, opened-IsTallied,
  audit_item-IsTallied, rows_of, each-rows_of,
}

round_half_even_le : (n d k : ℕ) → 0 < d → n ≤ k * d → round_half_even n d ≤ k
unfolding round_half_even
round_half_even_le n d k pos h =
    let whole = div-add-mod' n d in
    let small : n / d ≤ k = le_of_mul-le-mul_right (le_trans (div-mul-le_self n d) h) pos in
    elim (Bool-cases (n / d == k)) [
      | inl full ↦
          let q = (==_iff (n / d) k).0 full in
          let exact : n % d ≡ 0 = omega (arith, subst (λ x. x * d + n % d ≡ n) q whole) in
          ground (arith, exact)
      | inr less ↦ ground (arith, less)
    ]

summed :
    (c : Counts) (n : ℕ) → total_of c ≡ n → c.compliant_count + c.partial_count + c.gap_count ≡ n
unfolding total_of
summed c n h = h

-- A percentage is at most a hundred, in hundredths.
framework_summary_le : (c : Counts) → (framework_summary c).compliance_pct ≤ 10000
unfolding framework_summary
framework_summary_le c = elim (Bool-cases (total_of c == 0)) [
  | inl none_ ↦ rw none_ (omega arith)
  | inr some_ ↦
      let pos : 0 < total_of c = ground arith in
      rw some_ (
        round_half_even_le (c.compliant_count * 10000) (total_of c) 10000 pos
          (unfold total_of in omega arith))
]

percents_le :
    (fc : List (String × Counts))
    → All
        (λ (p : String × FrameworkSummary). p.1.compliance_pct ≤ 10000)
        (map (λ p. (p.0, framework_summary p.1)) fc)
percents_le [] = tt
percents_le (p ∷ fc) = (framework_summary_le p.1, percents_le fc)

module _ (integrity_hash : List (Field × Observed) → String) (listed : String → String → Bool) where
  -- What a run reports of its rows.
  pub record IsReported (now : ℕ) (assets : List AuditedAsset) (r : RunSummary × Books)
      : Type 0 where
    pub rows : r.1.results ≡ rows_of integrity_hash listed now (work assets)
    pub results : r.0.results ≡ length r.1.results
    pub counts : r.0.status_counts ≡ counts_of r.1.results
    pub noncompliant :
        r.0.noncompliant_results + r.0.status_counts.compliant_count ≡ length r.1.results
    pub evidence : r.0.evidence_items ≡ length r.1.results
    pub frameworks :
        (f : String) → counts_for f r.1.framework_counts ≡ counts_of (keep (is_of f) r.1.results)
    pub percents : All (λ p. p.1.compliance_pct ≤ 10000) r.0.frameworks

  IsTallied-IsReported :
      (now n : ℕ) (assets : List AuditedAsset) (b : Books)
      → IsTallied b
      → b.results ≡ rows_of integrity_hash listed now (work assets)
      → IsReported now assets (summary_of n b, b)
  unfolding summary_of
  IsTallied-IsReported now n assets b t rows =
      let all_ : total_of b.status_counts ≡ length b.results =
        ap total_of t.counts ∙ counts_of-total_of b.results in
      record {
        rows = rows;
        results = all_;
        counts = t.counts;
        noncompliant =
            omega (arith, summed b.status_counts (length b.results) all_, t.noncompliant);
        evidence = t.evidence;
        frameworks = t.frameworks;
        percents = percents_le b.framework_counts;
      }

  -- A run adds one row of results for each asset and each active control of the catalogues, in
  -- their order, as the rule assesses it; the numbers that it reports are those of these rows, in
  -- all and by status, the counters of each framework count the rows of that framework, and no
  -- percentage is above a hundred.
  pub run_audit-IsReported :
      (now : ℕ) (assets : List AuditedAsset) (mappings : List MappingRow) (alerts : List GapAlert)
      → IsReported now assets (run_audit integrity_hash listed now assets mappings alerts)
  unfolding run_audit summary_of
  run_audit-IsReported now assets mappings alerts =
      let reached =
        each (audit_item integrity_hash listed now) (work assets) (opened mappings alerts) in
      subst (λ b. IsReported now assets (summary_of (length assets) b, b))
        (sym (audit_assets-work integrity_hash listed now assets (opened mappings alerts)))
        (IsTallied-IsReported now (length assets) assets reached
          (each_keeps (audit_item integrity_hash listed now) IsTallied
            (audit_item-IsTallied integrity_hash listed now) (work assets) _
            (opened-IsTallied mappings alerts))
          (each-rows_of integrity_hash listed now (work assets) (opened mappings alerts)))
