-- ===== src/Compliance/Catalog.antt =====
-- app/services/compliance_catalog.py: the controls of the frameworks, with their checks. Titles,
-- objectives and links are left out.
use kepryx.Base.{
  ℕ, String, Bool, true, false, not, ◌&&◌, Option, none, some, List, [], ◌∷◌, length, ltb, str_eq,
  strip, codes, lower, has_part, truthy_text, mem_text,
}

-- The columns of an asset that the checks read.
pub record AuditedAsset : Type 0 where
  pub id : ℕ
  pub name : String
  pub type : String
  pub os : Option String
  pub ip : Option String
  pub edr_status : Option String
  pub control_coverage : String
  pub auth_method : String
  pub criticality : String
  pub software_stack : List String
  pub last_patch : Option String
  pub eol_status : Bool

pub data Field : Type 0 where
  name_field ip_field os_field type_field software_stack_field control_coverage_field : Field
  auth_method_field last_patch_field eol_status_field edr_status_field : Field

-- A value of a column, as `_json_value` gives it.
pub data Observed : Type 0 where
  absent : Observed
  one : String → Observed
  many : List String → Observed
  flag : Bool → Observed

unfoldable pub of_text : Option String → Observed
of_text none = absent
of_text (some s) = one s

-- `getattr(asset, name, None)`.
unfoldable pub observe : AuditedAsset → Field → Observed
unfolding of_text
observe a name_field = one a.name
observe a ip_field = of_text a.ip
observe a os_field = of_text a.os
observe a type_field = one a.type
observe a software_stack_field = many a.software_stack
observe a control_coverage_field = one a.control_coverage
observe a auth_method_field = one a.auth_method
observe a last_patch_field = of_text a.last_patch
observe a eol_status_field = flag a.eol_status
observe a edr_status_field = of_text a.edr_status

unfoldable pub has_observation : Observed → Bool
has_observation absent = false
has_observation (one s) = not (str_eq (strip s) "")
has_observation (many []) = false
has_observation (many (x ∷ xs)) = true
has_observation (flag b) = true

pub record ControlRule : Type 0 where
  pub rule_key : String
  pub desc : String
  pub check : AuditedAsset → Bool
  pub evidence_fields : List Field

pub record Control : Type 0 where
  pub control_id : String
  pub rule : ControlRule

pub record Framework : Type 0 where
  pub code : String
  pub controls : List Control

-- `bool(a.last_patch and a.last_patch != "Never")`.
unfoldable pub is_patched : AuditedAsset → Bool
is_patched a = elim a.last_patch [
  | none ↦ false
  | some p ↦ not (str_eq p "") && not (str_eq p "Never")
]

-- `bool(a.edr_status and a.edr_status not in ("None", "N/A"))`.
unfoldable pub is_monitored : AuditedAsset → Bool
is_monitored a = elim a.edr_status [
  | none ↦ false
  | some s ↦ not (str_eq s "") && not (mem_text s ("None" ∷ "N/A" ∷ []))
]

abbrev pub rule : String → String → (AuditedAsset → Bool) → List Field → ControlRule
rule key desc check fields = record {
  rule_key = key;
  desc = desc;
  check = check;
  evidence_fields = fields;
}

abbrev pub cis_v8 : Framework
cis_v8 = record {
  code = "cis-v8";
  controls =
      record {
        control_id = "1.1";
        rule =
            rule "asset_inventory" "Detailed asset inventory exists"
              (λ a. not (str_eq a.name "") && truthy_text a.ip && truthy_text a.os)
              (name_field ∷ ip_field ∷ os_field ∷ []);
      }
      ∷ record {
        control_id = "2.1";
        rule =
            rule "software_inventory" "Software inventory tracked"
              (λ a. ltb 0 (length a.software_stack)) (software_stack_field ∷ []);
      }
      ∷ record {
        control_id = "4.1";
        rule =
            rule "secure_configuration" "Encryption and hardening applied"
              (λ a. mem_text a.control_coverage ("partial" ∷ "full" ∷ []))
              (control_coverage_field ∷ []);
      }
      ∷ record {
        control_id = "6.1";
        rule =
            rule "strong_authentication" "MFA enforced"
              (λ a. has_part (codes "mfa") (lower a.auth_method)) (auth_method_field ∷ []);
      }
      ∷ record {
        control_id = "7.1";
        rule =
            rule "vulnerability_management" "Vulnerability scanning + patching" is_patched
              (last_patch_field ∷ []);
      }
      ∷ record {
        control_id = "10.1";
        rule =
            rule "endpoint_defense" "EDR/antimalware deployed" is_monitored (edr_status_field ∷ []);
      }
      ∷ [];
}

abbrev pub nist_800_53 : Framework
nist_800_53 = record {
  code = "nist-800-53";
  controls =
      record {
        control_id = "CM-8";
        rule =
            rule "system_component_inventory" "System component inventory"
              (λ a. not (str_eq a.name "") && not (str_eq a.type "") && truthy_text a.os)
              (name_field ∷ type_field ∷ os_field ∷ []);
      }
      ∷ record {
        control_id = "AC-2";
        rule =
            rule "account_management" "Strong auth controls"
              (λ a. mem_text a.auth_method ("mfa" ∷ "mfa+pam" ∷ "certificate" ∷ []))
              (auth_method_field ∷ []);
      }
      ∷ record {
        control_id = "SI-2";
        rule =
            rule "flaw_remediation" "Timely patching" (λ a. is_patched a && not a.eol_status)
              (last_patch_field ∷ eol_status_field ∷ []);
      }
      ∷ record {
        control_id = "SI-4";
        rule =
            rule "system_monitoring" "Continuous monitoring deployed" is_monitored
              (edr_status_field ∷ []);
      }
      ∷ [];
}

abbrev pub iso_27001 : Framework
iso_27001 = record {
  code = "iso-27001";
  controls =
      record {
        control_id = "A.8.1";
        rule =
            rule "asset_inventory" "Asset inventory maintained"
              (λ a. not (str_eq a.name "") && not (str_eq a.type ""))
              (name_field ∷ type_field ∷ []);
      }
      ∷ record {
        control_id = "A.8.9";
        rule =
            rule "configuration_management" "Configuration management"
              (λ a. not (str_eq a.control_coverage "none")) (control_coverage_field ∷ []);
      }
      ∷ record {
        control_id = "A.12.6";
        rule =
            rule "technical_vulnerability_management" "Technical vuln management" is_patched
              (last_patch_field ∷ []);
      }
      ∷ [];
}

abbrev pub framework_catalogs : List Framework
framework_catalogs = cis_v8 ∷ nist_800_53 ∷ iso_27001 ∷ []
