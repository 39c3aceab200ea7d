-- ===== src/Risk/Bounds.antt =====
-- Every factor lies between 1 and 5, so the score lies between 1.00 and 5.00.
use kepryx.Base.{Bool, ℕ, ◌≤◌, ◌≡◌, refl, String, true, false, List, [], ◌∷◌, All, arith}
use kepryx.Risk.{
  Table, Field, missing, null, text, table_get, field_score, lower_get, classification_text,
  classification_score, control_map, exposure_map, access_map, criticality_map,
  data_classification_map, Cve, Asset, norm_cvss, norm_epss, cvss_of, epss_of, max_of, any_kev,
  base_cve_score, cve_score_of, Breakdown, breakdown_of, weighted, Tier, tier_of, compute_risk, low,
  informational, action_and_sla, plan_replacement, apply_kev,
}

abbrev pub IsFactor : ℕ → Type 0
IsFactor n = (1 ≤ n) × (n ≤ 5)

pub record IsBounded (b : Breakdown) : Type 0 where
  pub cve : IsFactor b.cve
  pub kev : IsFactor b.kev
  pub controls : IsFactor b.controls
  pub exposure : IsFactor b.exposure
  pub access : IsFactor b.access
  pub criticality : IsFactor b.criticality
  pub data_classification : IsFactor b.data_classification

abbrev AllFactors : Table → Type 0
AllFactors = All (λ e. IsFactor e.1)

table_get-IsFactor :
    (t : Table) (key : String) (d : ℕ) → AllFactors t → IsFactor d → IsFactor (table_get t key d)
unfolding table_get
table_get-IsFactor [] key d ht hd = hd
table_get-IsFactor ((k, v) ∷ t) key d ht hd = ground (arith, table_get-IsFactor t key d ht.1 hd)

field_score-IsFactor :
    (t : Table) (f : Field) (absent : String) (d : ℕ)
    → AllFactors t
    → IsFactor d
    → IsFactor (field_score t f absent d)
unfolding field_score
field_score-IsFactor t missing absent d ht hd = table_get-IsFactor t absent d ht hd
field_score-IsFactor t null absent d ht hd = hd
field_score-IsFactor t (text s) absent d ht hd = table_get-IsFactor t s d ht hd

lower_get-IsFactor :
    (t : Table) (key : List ℕ) (d : ℕ) → AllFactors t → IsFactor d → IsFactor (lower_get t key d)
unfolding lower_get
lower_get-IsFactor [] key d ht hd = hd
lower_get-IsFactor ((k, v) ∷ t) key d ht hd = ground (arith, lower_get-IsFactor t key d ht.1 hd)

classification_score-IsFactor : (f : Field) → IsFactor (classification_score f)
unfolding classification_score
classification_score-IsFactor f =
    lower_get-IsFactor data_classification_map (classification_text f) 2 (omega arith) (omega arith)

pub norm_cvss-IsFactor : (n : ℕ) → IsFactor (norm_cvss n)
unfolding norm_cvss
norm_cvss-IsFactor n = omega arith

pub norm_epss-IsFactor : (n : ℕ) → IsFactor (norm_epss n)
unfolding norm_epss
norm_epss-IsFactor n = omega arith

pub base_cve_score-IsFactor : (cs : List Cve) → IsFactor (base_cve_score cs)
unfolding base_cve_score
base_cve_score-IsFactor [] = omega arith
base_cve_score-IsFactor (c ∷ cs) = omega (
  arith,
  norm_cvss-IsFactor (max_of cvss_of (c ∷ cs)),
  norm_epss-IsFactor (max_of epss_of (c ∷ cs)),
)

cve_score_of-IsFactor : (cs : List Cve) → IsFactor (cve_score_of cs)
unfolding cve_score_of
cve_score_of-IsFactor cs = ground (arith, base_cve_score-IsFactor cs)

pub breakdown_of-IsBounded : (a : Asset) → IsBounded (breakdown_of a)
unfolding breakdown_of
breakdown_of-IsBounded a = record {
  cve = cve_score_of-IsFactor a.cves;
  kev = ground arith;
  controls =
      field_score-IsFactor control_map a.control_coverage "none" 3 (omega arith) (omega arith);
  exposure =
      field_score-IsFactor exposure_map a.network_exposure "internal" 3 (omega arith) (omega arith);
  access = field_score-IsFactor access_map a.auth_method "password" 3 (omega arith) (omega arith);
  criticality =
      field_score-IsFactor criticality_map a.criticality "medium" 3 (omega arith) (omega arith);
  data_classification = classification_score-IsFactor a.data_classification;
}

weighted_bounds : (b : Breakdown) → IsBounded b → (100 ≤ weighted b) × (weighted b ≤ 500)
unfolding weighted
weighted_bounds b h = omega arith

-- For every asset each factor of the breakdown lies between 1 and 5, and the score lies between
-- 1.00 and 5.00.
pub compute_risk_bounds :
    (a : Asset)
    → IsBounded (compute_risk a).breakdown
      × (100 ≤ (compute_risk a).score)
      × ((compute_risk a).score ≤ 500)
unfolding compute_risk
compute_risk_bounds a =
    let b = breakdown_of-IsBounded a in let w = weighted_bounds (breakdown_of a) b in (b, w.0, w.1)

kev_factor : (a : Asset) → any_kev a.cves ≡ true → (breakdown_of a).kev ≡ 5
unfolding breakdown_of
kev_factor a e = rw e

weighted_kev : (b : Breakdown) → IsBounded b → b.kev ≡ 5 → 172 ≤ weighted b
unfolding weighted
weighted_kev b h e = omega arith

tier_of-ne-informational : (s : ℕ) → 172 ≤ s → ¬ (tier_of s ≡ informational)
unfolding tier_of
tier_of-ne-informational s h = ground arith

-- An asset with a known exploited vulnerability scores at least 1.72, and so is never put in the
-- informational tier.
compute_risk_kev_floor :
    (a : Asset)
    → any_kev a.cves ≡ true
    → (172 ≤ (compute_risk a).score) × ¬ ((compute_risk a).tier ≡ informational)
unfolding compute_risk
compute_risk_kev_floor a e =
    let w = weighted_kev (breakdown_of a) (breakdown_of-IsBounded a) (kev_factor a e) in
    (w, tier_of-ne-informational _ w)

-- The three fields of a result that the tier and the flags decide.
sla_of : Tier → Bool → Bool → ℕ
unfolding action_and_sla
sla_of t eol has_kev = (action_and_sla t eol has_kev).1

sla_of_antitone :
    (s t : ℕ) → s ≤ t → sla_of (tier_of t) false false ≤ sla_of (tier_of s) false false
unfolding sla_of tier_of
sla_of_antitone s t h = ground arith

sla_days-eq :
    (a : Asset)
    → (compute_risk a).sla_days
      ≡ sla_of (tier_of (compute_risk a).score) a.eol_status (any_kev a.cves)
unfolding compute_risk sla_of
sla_days-eq a = refl

-- Between two assets that are not end of life and have no known exploited vulnerability, the one
-- with the higher score has no longer a deadline.
sla_antitone :
    (a b : Asset)
    → a.eol_status ≡ false
    → b.eol_status ≡ false
    → any_kev a.cves ≡ false
    → any_kev b.cves ≡ false
    → (compute_risk a).score ≤ (compute_risk b).score
    → (compute_risk b).sla_days ≤ (compute_risk a).sla_days
sla_antitone a b ea eb ka kb h =
    simp (sla_days-eq a, sla_days-eq b, ea, eb, ka, kb)
      (sla_of_antitone (compute_risk a).score (compute_risk b).score h)

eol_first : (t : Tier) → t ≡ low → (k : Bool) → action_and_sla t true k ≡ (plan_replacement, 180)
unfolding action_and_sla
eol_first t e k = rw e

-- An end of life asset with a known exploited vulnerability in the low tier is told to plan its
-- replacement within 180 days; the same asset, were it not end of life, to apply the remediation
-- within 14 days.
eol_hides_kev :
    (a : Asset)
    → any_kev a.cves ≡ true
    → (compute_risk a).tier ≡ low
    → ((compute_risk (record a { eol_status = true })).recommended_action ≡ plan_replacement)
      × ((compute_risk (record a { eol_status = true })).sla_days ≡ 180)
      × ((compute_risk (record a { eol_status = false })).recommended_action ≡ apply_kev)
      × ((compute_risk (record a { eol_status = false })).sla_days ≡ 14)
unfolding compute_risk action_and_sla breakdown_of
eol_hides_kev a k e = rw (e, k) (refl, refl, refl, refl)
