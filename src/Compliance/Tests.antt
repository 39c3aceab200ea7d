-- ===== src/Compliance/Tests.antt =====
-- Tests of the assessment, and instances of its theorems.
use kepryx.Base.{
  In, ◌≡◌, refl, sym, ◌∙◌, String, Bool, true, none, some, List, [], ◌∷◌, map, length, All, inl,
  inr,
}
use kepryx.Compliance.Catalog.{
  AuditedAsset, Field, Observed, cis_v8, framework_catalogs, is_monitored, is_patched,
}
use kepryx.Compliance.{compliant, partial, gap, assess, present_of}
use kepryx.Compliance.Audit.{run_audit, gap_title}
use kepryx.Compliance.Audit.Work.{work, Item}
use kepryx.Compliance.Audit.Rows.{mapping_status}
use kepryx.Compliance.Audit.Mappings.{IsKeyed, run_audit-IsMapped}
use kepryx.Compliance.Audit.Alerts.{IsPosted}
use kepryx.Compliance.Audit.Posture.{run_audit-IsPosted}
use kepryx.Compliance.Audit.Summaries.{IsReported, run_audit-IsReported}
use kepryx.Compliance.Graded.{Means, assess-Means}

abbrev server : AuditedAsset
server = record {
  id = 1;
  name = "db1";
  type = "Server";
  os = none;
  ip = some "10.1.2.7";
  edr_status = some "None";
  control_coverage = "partial";
  auth_method = "MFA";
  criticality = "high";
  software_stack = "pg" ∷ [];
  last_patch = some "2026-01-02";
  eol_status = true;
}

graded :
    map (λ c. assess c.rule server) cis_v8.controls
    ≡ (partial, 67)
      ∷ (compliant, 100)
      ∷ (compliant, 100)
      ∷ (compliant, 100)
      ∷ (compliant, 100)
      ∷ (gap, 0)
      ∷ []
unfolding assess is_patched is_monitored
graded = refl

abbrev no_hash : List (Field × Observed) → String
no_hash o = ""

abbrev all_listed : String → String → Bool
all_listed f c = true

one-IsKeyed : IsKeyed (server ∷ [])
one-IsKeyed a b p q e = only a p ∙ sym (only b q)
  where
    only : (x : AuditedAsset) → In x (server ∷ []) → x ≡ server
    only x m = elim m [ inl r ↦ r | inr n ↦ absurd n ]

assess-Means_example :
    All
      (λ f.
        All
          (λ c.
            Means
              (c.rule.check server)
              (present_of c.rule server)
              (length c.rule.evidence_fields)
              (assess c.rule server))
          f.controls)
      framework_catalogs
assess-Means_example = assess-Means server

run_audit-IsMapped_example :
    All
      (λ (x : Item).
        true ≡ true
        → mapping_status x.1.0 x.1.1.control_id x.0.id
            (run_audit no_hash all_listed 5 (server ∷ []) [] []).1.mappings
          ≡ some (assess x.1.1.rule x.0).0)
      (work (server ∷ []))
run_audit-IsMapped_example = run_audit-IsMapped no_hash all_listed 5 (server ∷ []) [] [] one-IsKeyed

run_audit-IsPosted_example :
    All
      (λ (x : Item).
        true ≡ true
        → IsPosted x.0
            (gap_title x.1.0 x.1.1.control_id x.0.name)
            (assess x.1.1.rule x.0).0
            (run_audit no_hash all_listed 5 (server ∷ []) [] []).1.alerts)
      (work (server ∷ []))
run_audit-IsPosted_example = run_audit-IsPosted no_hash all_listed 5 (server ∷ []) [] [] one-IsKeyed

run_audit-IsReported_example :
    IsReported no_hash all_listed 5
      (server ∷ [])
      (run_audit no_hash all_listed 5 (server ∷ []) [] [])
run_audit-IsReported_example = run_audit-IsReported no_hash all_listed 5 (server ∷ []) [] []
