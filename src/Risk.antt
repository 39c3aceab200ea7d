-- ===== src/Risk.antt =====
-- app/services/risk_engine.py: the weighted risk score of an asset.
-- Scores and weights are in hundredths, CVSS scores in tenths and EPSS probabilities in
-- hundred-thousandths, the precision in which their publishers give them.
pub mod Bounds
pub mod Monotone
pub mod Rescore
mod Tests
use kepryx.Base.{
  ℕ, ◌+◌, ◌*◌, ◌/◌, ◌%◌, min, max, String, Bool, ◌&&◌, Option, none, some, List, [], ◌∷◌, any,
  lower, codes, codes_eq, str_eq, leb, ltb, ◌==◌, if◌then◌else◌,
}

-- What `asset.get(key, …)` finds: no such key, `None`, or a text.
pub data Field : Type 0 where
  missing null : Field
  text : String → Field

abbrev pub Table : Type 0
Table = List (String × ℕ)

abbrev pub control_map : Table
control_map = ("full", 1) ∷ ("partial", 3) ∷ ("none", 5) ∷ []

abbrev pub exposure_map : Table
exposure_map =
    ("isolated", 1) ∷ ("internal", 2) ∷ ("dmz", 3) ∷ ("cloud", 4) ∷ ("internet-facing", 5) ∷ []

abbrev pub access_map : Table
access_map =
    ("mfa+pam", 1)
    ∷ ("mfa", 2)
    ∷ ("certificate", 2)
    ∷ ("password", 4)
    ∷ ("password-only", 5)
    ∷ ("none", 5)
    ∷ []

abbrev pub criticality_map : Table
criticality_map = ("low", 1) ∷ ("medium", 2) ∷ ("high", 3) ∷ ("critical", 4) ∷ ("tier-1", 5) ∷ []

abbrev pub data_classification_map : Table
data_classification_map =
    ("public", 1) ∷ ("internal", 2) ∷ ("confidential", 4) ∷ ("restricted", 5) ∷ []

-- `TABLE.get(key, default)`.
unfoldable pub table_get : Table → String → ℕ → ℕ
table_get [] key default = default
table_get ((k, v) ∷ t) key default = if str_eq k key then v else table_get t key default

-- `TABLE.get(asset.get(name, absent), default)`: `None` is no key of a table.
pub field_score : Table → Field → String → ℕ → ℕ
unfolding table_get
field_score t missing absent default = table_get t absent default
field_score t null absent default = default
field_score t (text s) absent default = table_get t s default

-- The same lookup under the code points of a lowered text.
pub lower_get : Table → List ℕ → ℕ → ℕ
lower_get [] key default = default
lower_get ((k, v) ∷ t) key default = if codes_eq (codes k) key then v else lower_get t key default

-- `str(asset.get("data_classification", "internal")).lower()`; `str(None)` is "None".
pub classification_text : Field → List ℕ
classification_text missing = lower "internal"
classification_text null = lower "None"
classification_text (text s) = lower s

pub classification_score : Field → ℕ
unfolding lower_get classification_text
classification_score f = lower_get data_classification_map (classification_text f) 2

pub record Cve : Type 0 where
  pub cvss_v3 : Option ℕ
  pub cvss : Option ℕ
  pub epss_score : Option ℕ
  pub epss : Option ℕ
  pub kev : Bool
  pub kev_ransomware : Bool

pub record Asset : Type 0 where
  pub cves : List Cve
  pub control_coverage : Field
  pub network_exposure : Field
  pub auth_method : Field
  pub criticality : Field
  pub data_classification : Field
  pub eol_status : Bool

-- `a or b or 0`: `None` and zero are both falsy.
pub or_zero : Option ℕ → Option ℕ → ℕ
or_zero (some (ℕ.suc n)) b = ℕ.suc n
or_zero _ (some n) = n
or_zero _ none = 0

pub cvss_of : Cve → ℕ
unfolding or_zero
cvss_of c = or_zero c.cvss_v3 c.cvss

pub epss_of : Cve → ℕ
unfolding or_zero
epss_of c = or_zero c.epss_score c.epss

-- `max((f(c) for c in cves), default=0)`.
pub max_of : (Cve → ℕ) → List Cve → ℕ
max_of f [] = 0
max_of f (c ∷ cs) = max (f c) (max_of f cs)

-- Python's `round(n / d)`: to the nearest integer, a tie to the even one.
unfoldable pub round_half_even : ℕ → ℕ → ℕ
round_half_even n d =
    let q = n / d in
    let twice = 2 * (n % d) in
    if ltb twice d then q else if ltb d twice then q + 1 else if q % 2 == 0 then q else q + 1

-- `round((cvss / 10) * 5)` with `cvss` in tenths.
pub norm_cvss : ℕ → ℕ
unfolding round_half_even
norm_cvss c = min 5 (max 1 (round_half_even c 20))

-- `round(epss * 5)` with `epss` in hundred-thousandths.
pub norm_epss : ℕ → ℕ
unfolding round_half_even
norm_epss e = min 5 (max 1 (round_half_even e 20000))

pub data Tier : Type 0 where
  critical high medium low informational : Tier

pub tier_of : ℕ → Tier
tier_of score =
    if leb 400 score
    then critical
    else if leb 300 score
    then high
    else if leb 200 score
    then medium
    else if leb 150 score
    then low
    else informational

pub data Action : Type 0 where
  immediate_patch priority_patch standard_track plan_replacement apply_kev monitor : Action

pub action_and_sla : Tier → Bool → Bool → Action × ℕ
action_and_sla critical eol has_kev = (immediate_patch, 7)
action_and_sla high eol has_kev = (priority_patch, 30)
action_and_sla medium eol has_kev = (standard_track, 90)
action_and_sla _ eol has_kev =
    if eol then (plan_replacement, 180) else if has_kev then (apply_kev, 14) else (monitor, 365)

pub record Breakdown : Type 0 where
  pub cve : ℕ
  pub kev : ℕ
  pub controls : ℕ
  pub exposure : ℕ
  pub access : ℕ
  pub criticality : ℕ
  pub data_classification : ℕ

pub record RiskResult : Type 0 where
  pub score : ℕ
  pub tier : Tier
  pub breakdown : Breakdown
  pub recommended_action : Action
  pub sla_days : ℕ

pub any_kev : List Cve → Bool
any_kev cs = any (λ c. c.kev) cs

pub any_ransomware : List Cve → Bool
any_ransomware cs = any (λ c. c.kev && c.kev_ransomware) cs

-- `max(_norm_cvss(max_cvss), _norm_epss(max_epss)) if cves else 1`.
pub base_cve_score : List Cve → ℕ
base_cve_score [] = 1
base_cve_score (c ∷ cs) =
    max (norm_cvss (max_of cvss_of (c ∷ cs))) (norm_epss (max_of epss_of (c ∷ cs)))

pub cve_score_of : List Cve → ℕ
unfolding base_cve_score any_ransomware
cve_score_of cs = if any_ransomware cs then min 5 (base_cve_score cs + 1) else base_cve_score cs

pub breakdown_of : Asset → Breakdown
unfolding cve_score_of any_kev field_score classification_score
breakdown_of a = record {
  cve = cve_score_of a.cves;
  kev = if any_kev a.cves then 5 else 1;
  controls = field_score control_map a.control_coverage "none" 3;
  exposure = field_score exposure_map a.network_exposure "internal" 3;
  access = field_score access_map a.auth_method "password" 3;
  criticality = field_score criticality_map a.criticality "medium" 3;
  data_classification = classification_score a.data_classification;
}

-- The weighted sum, in hundredths, so that `round(…, 2)` leaves it as it is.
pub weighted : Breakdown → ℕ
weighted b =
    b.cve * 23
    + b.kev * 18
    + b.controls * 18
    + b.exposure * 14
    + b.access * 9
    + b.criticality * 10
    + b.data_classification * 8

unfoldable pub compute_risk : Asset → RiskResult
unfolding breakdown_of weighted tier_of action_and_sla any_kev
compute_risk a =
    let b = breakdown_of a in
    let score = weighted b in
    let tier = tier_of score in
    let (action, sla) = action_and_sla tier a.eol_status (any_kev a.cves) in
    record {
      score = score;
      tier = tier;
      breakdown = b;
      recommended_action = action;
      sla_days = sla;
    }
