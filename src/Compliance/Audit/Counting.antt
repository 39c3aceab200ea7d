-- ===== src/Compliance/Audit/Counting.antt =====
-- app/workers/compliance_tasks.py: the counters of a run.
use kepryx.Base.{ℕ, ◌+◌, ◌*◌, String, List, [], ◌∷◌, ◌==◌, str_eq, if◌then◌else◌}
use kepryx.Risk.{round_half_even}
use kepryx.Compliance.{Status, compliant, partial, gap}

-- A counter of statuses; `_assess` gives no other.
pub record Counts : Type 0 where
  pub compliant_count : ℕ
  pub partial_count : ℕ
  pub gap_count : ℕ

abbrev pub no_counts : Counts
no_counts = record { compliant_count = 0; partial_count = 0; gap_count = 0 }

unfoldable pub bump : Status → Counts → Counts
bump compliant c = record c { compliant_count = c.compliant_count + 1 }
bump partial c = record c { partial_count = c.partial_count + 1 }
bump gap c = record c { gap_count = c.gap_count + 1 }

unfoldable pub total_of : Counts → ℕ
total_of c = c.compliant_count + c.partial_count + c.gap_count

-- `framework_counts[framework][status] += 1`.
unfoldable pub bump_framework : String → Status → List (String × Counts) → List (String × Counts)
unfolding bump
bump_framework f s [] = (f, bump s no_counts) ∷ []
bump_framework f s ((g, c) ∷ rest) =
    let later = bump_framework f s rest in
    if str_eq g f then (g, bump s c) ∷ rest else (g, c) ∷ later

pub record FrameworkSummary : Type 0 where
  pub counts : Counts
  pub total : ℕ
  pub compliance_pct : ℕ

-- The percentage in hundredths, of the exact quotient.
unfoldable pub framework_summary : Counts → FrameworkSummary
unfolding total_of
framework_summary c = record {
  counts = c;
  total = total_of c;
  compliance_pct =
      if total_of c == 0 then 0 else round_half_even (c.compliant_count * 10000) (total_of c);
}
