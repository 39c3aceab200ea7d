-- ===== src/Risk/Tests.antt =====
-- Tests of the score, after tests/unit/test_risk_engine.py, and instances of its theorems.
use mathlib.Core.List.{mem-cons_of_mem}
use kepryx.Base.{◌≤◌, ◌≡◌, refl, true, false, none, some, [], ◌∷◌}
use kepryx.Risk.{
  Cve, Asset, text, compute_risk, norm_cvss, norm_epss, max_of, cvss_of, epss_of, critical,
  informational,
}
use kepryx.Risk.Bounds.{IsBounded, compute_risk_bounds}
use kepryx.Risk.Monotone.{score_mono}
use kepryx.Risk.Rescore.{AssetCve, Scored}

abbrev exploited : Cve
exploited = record {
  cvss_v3 = some 98;
  cvss = none;
  epss_score = none;
  epss = some 97000;
  kev = true;
  kev_ransomware = false;
}

abbrev clean : Asset
clean = record {
  cves = [];
  control_coverage = text "full";
  network_exposure = text "isolated";
  auth_method = text "mfa+pam";
  criticality = text "low";
  data_classification = text "Public";
  eol_status = false;
}

abbrev exposed : Asset
exposed = record {
  cves = exploited ∷ [];
  control_coverage = text "none";
  network_exposure = text "internet-facing";
  auth_method = text "password-only";
  criticality = text "tier-1";
  data_classification = text "Restricted";
  eol_status = false;
}

abbrev quiet : Asset
quiet = record exposed {
  cves = record exploited { cvss_v3 = some 10; epss = none } ∷ [];
  control_coverage = text "full";
  network_exposure = text "isolated";
  auth_method = text "mfa+pam";
  criticality = text "low";
  data_classification = text "public";
}

clean_is_informational :
    ((compute_risk clean).score ≡ 100) × ((compute_risk clean).tier ≡ informational)
unfolding compute_risk norm_cvss norm_epss max_of cvss_of epss_of
clean_is_informational = (refl, refl)

exposed_is_critical :
    ((compute_risk exposed).score ≡ 500)
    × ((compute_risk exposed).tier ≡ critical)
    × ((compute_risk exposed).sla_days ≡ 7)
unfolding compute_risk norm_cvss norm_epss max_of cvss_of epss_of
exposed_is_critical = (refl, refl, refl)

compute_risk_bounds_example :
    IsBounded (compute_risk exposed).breakdown
    × (100 ≤ (compute_risk exposed).score)
    × ((compute_risk exposed).score ≤ 500)
compute_risk_bounds_example = compute_risk_bounds exposed

score_mono_example :
    (compute_risk clean).score ≤ (compute_risk (record clean { cves = exploited ∷ [] })).score
score_mono_example = score_mono clean (exploited ∷ []) (λ c m. mem-cons_of_mem exploited m)

abbrev link : AssetCve
link = record {
  cve = record { cvss_v3 = some 98; epss_score = some 97000; kev = true };
  suppressed = false;
  remediated = false;
}

abbrev stored : Scored
stored = record {
  control_coverage = "full";
  network_exposure = "dmz";
  auth_method = "mfa";
  criticality = "high";
  data_classification = "Internal";
  eol_status = false;
  links = link ∷ [];
  risk_score = 0;
  risk_tier = informational;
  risk_breakdown = (compute_risk clean).breakdown;
}
