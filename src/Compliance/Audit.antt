-- ===== src/Compliance/Audit.antt =====
-- `_run_audit` of app/workers/compliance_tasks.py, for one reading of the clock. Left out: what only
-- describes a row (the rationale, the details of an alert, the scope of the run), and texts that
-- their columns reject.
pub mod Counting
pub mod Work
pub mod Rows
pub mod Mappings
pub mod Alerts
pub mod Posture
pub mod Tally
pub mod Summaries
use kepryx.Compliance.Audit.Counting.{
  Counts, FrameworkSummary, bump, bump_framework, framework_summary, no_counts, total_of,
}
use kepryx.Base.{
  ℕ, suc, ◌+◌, ◌*◌, String, Bool, true, false, not, ◌&&◌, Option, none, some, List, [], ◌∷◌, ◌++◌,
  map, length, any, each, ◌==◌, str_eq, append, mem_text, if◌then◌else◌,
}
use kepryx.Risk.{round_half_even}
use kepryx.Compliance.Catalog.{
  AuditedAsset, Field, Observed, ControlRule, Control, Framework, framework_catalogs,
}
use kepryx.Compliance.{Status, compliant, partial, gap, status_text, observed_of, assess}

pub record EvidenceRow : Type 0 where
  pub title : String
  pub observed : List (Field × Observed)
  pub integrity_sha256 : String

pub record ResultRow : Type 0 where
  pub framework : String
  pub control_id : String
  pub asset_id : ℕ
  pub status : Status
  pub score : ℕ
  pub rule_key : String
  pub assessed_at : ℕ

pub record MappingRow : Type 0 where
  pub framework : String
  pub control_id : String
  pub asset_id : ℕ
  pub status : Status
  pub assessed_at : ℕ

pub record GapAlert : Type 0 where
  pub alert_type : String
  pub asset_id : Option ℕ
  pub title : String
  pub description : String
  pub status : String
  pub resolved_at : Option ℕ
  pub resolved_by : Option String

-- What the run has written and counted so far.
pub record Books : Type 0 where
  pub results : List ResultRow
  pub evidence : List EvidenceRow
  pub mappings : List MappingRow
  pub alerts : List GapAlert
  pub status_counts : Counts
  pub framework_counts : List (String × Counts)
  pub noncompliant_count : ℕ
  pub evidence_count : ℕ

pub is_compliant : Status → Bool
is_compliant compliant = true
is_compliant partial = false
is_compliant gap = false

-- Whether a mapping has the key `(framework, control_id, asset_id)`.
pub has_key : String → String → ℕ → MappingRow → Bool
has_key f c i m = str_eq m.framework f && str_eq m.control_id c && m.asset_id == i

-- `mapping_by_key` has the last row of a key: that one is written, or a row is added.
pub write_mapping : MappingRow → List MappingRow → List MappingRow
unfolding has_key
write_mapping n [] = n ∷ []
write_mapping n (m ∷ rest) =
    let later = write_mapping n rest in
    if has_key n.framework n.control_id n.asset_id m
      && not (any (has_key n.framework n.control_id n.asset_id) rest)
    then record m { status = n.status; assessed_at = n.assessed_at } ∷ rest
    else m ∷ later

pub gap_title : String → String → String → String
gap_title f c name =
    append "Compliance gap: " (append f (append " " (append c (append " on " name))))

-- An open alert of that asset with that title.
pub is_open_gap : ℕ → String → GapAlert → Bool
is_open_gap i title a =
    str_eq a.alert_type "compliance_gap"
    && elim a.asset_id [ none ↦ false | some j ↦ j == i ]
    && str_eq a.title title
    && str_eq a.status "open"

pub resolve : ℕ → ℕ → String → GapAlert → GapAlert
unfolding is_open_gap
resolve now i title a =
    if is_open_gap i title a
    then record a {
      status = "resolved";
      resolved_at = some now;
      resolved_by = some "compliance_audit";
    }
    else a

-- The first of the open alerts, in the order of the table, is described anew; if there is none, one is added.
pub renew : ℕ → String → String → List GapAlert → List GapAlert
unfolding is_open_gap
renew i title desc [] =
    record {
      alert_type = "compliance_gap";
      asset_id = some i;
      title = title;
      description = desc;
      status = "open";
      resolved_at = none;
      resolved_by = none;
    }
    ∷ []
renew i title desc (a ∷ rest) =
    let later = renew i title desc rest in
    if is_open_gap i title a then record a { description = desc } ∷ rest else a ∷ later

pub is_alerting : AuditedAsset → Bool
is_alerting a = mem_text a.criticality ("critical" ∷ "tier-1" ∷ "high" ∷ [])

pub settle : ℕ → AuditedAsset → String → String → Status → List GapAlert → List GapAlert
unfolding resolve renew is_alerting status_text
settle now a title desc s alerts =
    if is_compliant s
    then map (resolve now a.id title) alerts
    else if is_alerting a
    then renew a.id title (append desc (append " — " (status_text s))) alerts
    else alerts

pub record RunSummary : Type 0 where
  pub assets : ℕ
  pub results : ℕ
  pub evidence_items : ℕ
  pub noncompliant_results : ℕ
  pub status_counts : Counts
  pub frameworks : List (String × FrameworkSummary)

pub summary_of : ℕ → Books → RunSummary
unfolding total_of framework_summary
summary_of n b = record {
  assets = n;
  results = total_of b.status_counts;
  evidence_items = b.evidence_count;
  noncompliant_results = b.noncompliant_count;
  status_counts = b.status_counts;
  frameworks = map (λ p. (p.0, framework_summary p.1)) b.framework_counts;
}

-- The books of a new run.
pub opened : List MappingRow → List GapAlert → Books
opened mappings alerts = record {
  results = [];
  evidence = [];
  mappings = mappings;
  alerts = alerts;
  status_counts = no_counts;
  framework_counts = [];
  noncompliant_count = 0;
  evidence_count = 0;
}

pub mapping_row : ℕ → AuditedAsset → String → Control → MappingRow
unfolding assess
mapping_row now a f c = record {
  framework = f;
  control_id = c.control_id;
  asset_id = a.id;
  status = (assess c.rule a).0;
  assessed_at = now;
}

-- The hash of an observation, and whether the database has an active control, are arguments.
module _ (integrity_hash : List (Field × Observed) → String) (listed : String → String → Bool) where
  pub result_row : ℕ → AuditedAsset → String → Control → ResultRow
  unfolding assess
  result_row now a f c =
      let (s, score) = assess c.rule a in
      record {
        framework = f;
        control_id = c.control_id;
        asset_id = a.id;
        status = s;
        score = score;
        rule_key = c.rule.rule_key;
        assessed_at = now;
      }

  pub evidence_row : AuditedAsset → String → Control → EvidenceRow
  unfolding observed_of
  evidence_row a f c = record {
    title = append f (append " " (append c.control_id (append " evidence for " a.name)));
    observed = observed_of c.rule a;
    integrity_sha256 = integrity_hash (observed_of c.rule a);
  }

  -- The body of the loop once the control was found.
  pub audit_found : ℕ → AuditedAsset → String → Control → Books → Books
  unfolding result_row mapping_row evidence_row bump bump_framework write_mapping settle gap_title
      is_compliant
  audit_found now a f c b =
      let r = result_row now a f c in
      record {
        results = b.results ++ r ∷ [];
        evidence = b.evidence ++ evidence_row a f c ∷ [];
        mappings = write_mapping (mapping_row now a f c) b.mappings;
        alerts = settle now a (gap_title f c.control_id a.name) c.rule.desc r.status b.alerts;
        status_counts = bump r.status b.status_counts;
        framework_counts = bump_framework f r.status b.framework_counts;
        noncompliant_count =
            if is_compliant r.status then b.noncompliant_count else b.noncompliant_count + 1;
        evidence_count = b.evidence_count + 1;
      }

  pub audit_control : ℕ → AuditedAsset → String → Control → Books → Books
  unfolding audit_found
  audit_control now a f c b = if listed f c.control_id then audit_found now a f c b else b

  -- The three loops.
  pub audit_assets : ℕ → List AuditedAsset → Books → Books
  unfolding audit_control
  audit_assets now assets b =
      each (λ a. each (λ f. each (audit_control now a f.code) f.controls) framework_catalogs) assets
        b

  -- A run over the tables of mappings and alerts; its results and evidence are new rows.
  pub run_audit : ℕ → List AuditedAsset → List MappingRow → List GapAlert → RunSummary × Books
  unfolding audit_assets summary_of opened
  run_audit now assets mappings alerts =
      let b = audit_assets now assets (opened mappings alerts) in (summary_of (length assets) b, b)
