-- ===== src/Risk/Rescore.antt =====
-- app/workers/reconcile_tasks.py, `_rescore_assets`: the scores that are stored with the assets.
use kepryx.Base.{
  ℕ, ◌≡◌, refl, ap, String, Bool, false, not, ◌&&◌, Option, none, some, List, [], ◌∷◌, map, keep,
  length, arith,
}
use kepryx.Risk.{
  text, Cve, Asset, Tier, Breakdown, compute_risk, any_ransomware, base_cve_score, cve_score_of,
  breakdown_of,
}

-- A row of `cves`; it has no column for ransomware.
pub record CveRow : Type 0 where
  pub cvss_v3 : Option ℕ
  pub epss_score : Option ℕ
  pub kev : Bool

-- A row of `asset_cves` with its `cve`.
pub record AssetCve : Type 0 where
  pub cve : CveRow
  pub suppressed : Bool
  pub remediated : Bool

-- The columns of an asset that scoring reads and writes.
pub record Scored : Type 0 where
  pub control_coverage : String
  pub network_exposure : String
  pub auth_method : String
  pub criticality : String
  pub data_classification : String
  pub eol_status : Bool
  pub links : List AssetCve
  pub risk_score : ℕ
  pub risk_tier : Tier
  pub risk_breakdown : Breakdown

pub is_open : AssetCve → Bool
is_open ac = not ac.suppressed && not ac.remediated

-- `x or 0`.
pub or_0 : Option ℕ → ℕ
or_0 none = 0
or_0 (some n) = n

pub cve_dict : AssetCve → Cve
unfolding or_0
cve_dict ac = record {
  cvss_v3 = ac.cve.cvss_v3;
  cvss = none;
  epss_score = none;
  epss = some (or_0 ac.cve.epss_score);
  kev = ac.cve.kev;
  kev_ransomware = false;
}

pub cve_data : List AssetCve → List Cve
unfolding cve_dict is_open
cve_data links = map cve_dict (keep is_open links)

pub risk_input : Scored → Asset
unfolding cve_data
risk_input a = record {
  cves = cve_data a.links;
  control_coverage = text a.control_coverage;
  network_exposure = text a.network_exposure;
  auth_method = text a.auth_method;
  criticality = text a.criticality;
  data_classification = text a.data_classification;
  eol_status = a.eol_status;
}

pub rescore : Scored → Scored
unfolding risk_input
rescore a =
    let risk = compute_risk (risk_input a) in
    record a { risk_score = risk.score; risk_tier = risk.tier; risk_breakdown = risk.breakdown }

-- The whole task, with the number of assets that it reports.
pub rescore_assets : List Scored → List Scored × ℕ
unfolding rescore
rescore_assets assets = (map rescore assets, length assets)

map-rescore_again : (assets : List Scored) → map rescore (map rescore assets) ≡ map rescore assets
unfolding rescore
map-rescore_again [] = refl
map-rescore_again (a ∷ assets) = ap (λ r. rescore a ∷ r) (map-rescore_again assets)

-- Running the task a second time changes nothing.
rescore_assets_again :
    (assets : List Scored)
    → (rescore_assets (rescore_assets assets).0).0 ≡ (rescore_assets assets).0
unfolding rescore_assets
rescore_assets_again assets = map-rescore_again assets

any_ransomware-map : (ls : List AssetCve) → any_ransomware (map cve_dict ls) ≡ false
unfolding any_ransomware cve_dict
any_ransomware-map [] = refl
any_ransomware-map (l ∷ ls) = ground (arith, any_ransomware-map ls)

-- The stored score is never boosted for ransomware, whatever the linked vulnerabilities are.
rescore_never_boosts :
    (a : Scored) → (rescore a).risk_breakdown.cve ≡ base_cve_score (cve_data a.links)
unfolding rescore compute_risk breakdown_of cve_score_of cve_data
rescore_never_boosts a = rw (any_ransomware-map (keep is_open a.links))
