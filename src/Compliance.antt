-- ===== src/Compliance.antt =====
-- `_assess` of app/workers/compliance_tasks.py: the status of one control on one asset. Scores are in
-- hundredths.
pub mod Catalog
pub mod Audit
pub mod Graded
mod Tests
use kepryx.Base.{ℕ, ◌*◌, String, Bool, ◌&&◌, List, map, length, keep, ltb, if◌then◌else◌}
use kepryx.Risk.{round_half_even}
use Catalog.{AuditedAsset, Field, Observed, observe, has_observation, ControlRule}

pub data Status : Type 0 where
  compliant partial gap : Status

pub status_text : Status → String
status_text compliant = "compliant"
status_text partial = "partial"
status_text gap = "gap"

pub observed_of : ControlRule → AuditedAsset → List (Field × Observed)
unfolding observe
observed_of r a = map (λ f. (f, observe a f)) r.evidence_fields

pub present_of : ControlRule → AuditedAsset → ℕ
unfolding has_observation observed_of
present_of r a = length (keep (λ o. has_observation o.1) (observed_of r a))

-- `round(present / total, 2)`, in hundredths; a total of three or less gives no tie.
pub partial_score : ℕ → ℕ → ℕ
unfolding round_half_even
partial_score present total = round_half_even (present * 100) total

-- The status and the score.
pub grade : Bool → ℕ → ℕ → Status × ℕ
unfolding partial_score
grade check present total =
    if check
    then (compliant, 100)
    else if ltb 1 total && ltb 0 present && ltb present total
    then (partial, partial_score present total)
    else (gap, 0)

pub assess : ControlRule → AuditedAsset → Status × ℕ
unfolding grade present_of
assess r a = grade (r.check a) (present_of r a) (length r.evidence_fields)
