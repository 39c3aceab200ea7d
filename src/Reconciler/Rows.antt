-- ===== src/Reconciler/Rows.antt =====
-- app/services/reconciler.py: what a report makes of a row of the asset table.
use kepryx.Base.{
  ℕ, max, String, Bool, true, false, not, ◌&&◌, Option, none, some, List, [], ◌∷◌, ◌++◌, any, leb,
  str_eq, mem_text, distinct, nonempty, or_else, if◌then◌else◌,
}
use kepryx.Risk.{Table, table_get}
use kepryx.Reconciler.State.{Service, AssetRow, Entry, HostData, get, get_or}

abbrev pub source_priority : Table
source_priority =
    ("edr_crowdstrike", 10)
    ∷ ("edr_sentinelone", 10)
    ∷ ("edr_defender", 10)
    ∷ ("nac_cisco_ise", 9)
    ∷ ("nac_aruba", 9)
    ∷ ("ad_ldap", 8)
    ∷ ("azure_ad", 8)
    ∷ ("cmdb_servicenow", 7)
    ∷ ("cmdb_jira", 7)
    ∷ ("vuln_nessus", 6)
    ∷ ("vuln_qualys", 6)
    ∷ ("vuln_rapid7", 6)
    ∷ ("dhcp_dns", 5)
    ∷ ("infoblox", 5)
    ∷ ("cloud_aws", 8)
    ∷ ("cloud_azure", 8)
    ∷ ("cloud_gcp", 8)
    ∷ ("nmap_scan", 4)
    ∷ ("manual", 3)
    ∷ ("asset_api", 7)
    ∷ []

abbrev pub authoritative : List String
authoritative =
    "ad_ldap" ∷ "azure_ad" ∷ "cmdb_servicenow" ∷ "cmdb_jira" ∷ "edr_crowdstrike" ∷ "edr_sentinelone"
    ∷ "edr_defender" ∷ "cloud_aws" ∷ "cloud_azure" ∷ "cloud_gcp" ∷ "asset_api" ∷ []

unfoldable pub is_shadow_of : List String → Bool
is_shadow_of sources = not (any (λ s. mem_text s authoritative) sources)

-- `max([SOURCE_PRIORITY.get(s, 0) for s in sources], default=0)`.
unfoldable pub top_priority : List String → ℕ
top_priority [] = 0
top_priority (s ∷ ss) = max (table_get source_priority s 0) (top_priority ss)

-- The names of the services whose dict is not empty.
unfoldable pub service_names : List Service → List (Option String)
service_names [] = []
service_names (s ∷ ss) = if s.is_empty then service_names ss else s.service ∷ service_names ss

pub same_name : Option String → Option String → Bool
same_name none none = true
same_name (some a) (some b) = str_eq a b
same_name _ _ = false

pub subset_names : List (Option String) → List (Option String) → Bool
unfolding same_name
subset_names [] ys = true
subset_names (x ∷ xs) ys = any (same_name x) ys && subset_names xs ys

-- `old and new and old != new`, of the sets.
unfoldable pub drifted : List (Option String) → List (Option String) → Bool
unfolding subset_names
drifted [] new = false
drifted (o ∷ old) [] = false
drifted (o ∷ old) (n ∷ new) =
    not (subset_names (o ∷ old) (n ∷ new) && subset_names (n ∷ new) (o ∷ old))

-- `if data.get(field): setattr(asset, field, data[field])`.
pub overwrite : Entry → Option String → Option String
overwrite e old = elim (nonempty (get e)) [ none ↦ old | some s ↦ some s ]

pub set_authoritative : HostData → AssetRow → AssetRow
unfolding overwrite
set_authoritative d a = record a {
  name = overwrite d.name a.name;
  os = overwrite d.os a.os;
  ip = overwrite d.ip a.ip;
  mac = overwrite d.mac a.mac;
  segment = overwrite d.segment a.segment;
  edr_status = overwrite d.edr_status a.edr_status;
  control_coverage = overwrite d.control_coverage a.control_coverage;
  network_exposure = overwrite d.network_exposure a.network_exposure;
  auth_method = overwrite d.auth_method a.auth_method;
  criticality = overwrite d.criticality a.criticality;
  data_classification = overwrite d.data_classification a.data_classification;
}

-- `list(set(old + new))` if anything new was reported; the set's order is taken as that of `distinct`.
unfoldable pub enrich : List String → List String → List String
enrich old [] = old
enrich old (n ∷ new) = distinct (old ++ n ∷ new)

unfoldable pub record_source : String → List String → List String
record_source s ss = if mem_text s ss then ss else ss ++ s ∷ []

-- The fields of the asset after a merge, in memory.
unfoldable pub merged : ℕ → String → HostData → AssetRow → AssetRow
unfolding set_authoritative enrich record_source is_shadow_of top_priority
merged now source d a =
    let wins = leb (top_priority a.sources) (table_get source_priority source 1) in
    let b = if wins then set_authoritative d a else a in
    let sources = record_source source a.sources in
    record b {
      software_stack = enrich a.software_stack d.software_stack;
      cpe = enrich a.cpe d.cpe;
      dependencies = enrich a.dependencies d.dependencies;
      sources = sources;
      last_seen = now;
      is_stale = false;
      is_shadow = is_shadow_of sources;
      services = d.services;
    }

-- A list of sources that is not empty was changed in place and assigned to the column again:
-- SQLAlchemy compares it with itself, sees no change and leaves the column out of the UPDATE.
unfoldable pub written_sources : List String → List String → List String
written_sources [] new = new
written_sources (s ∷ old) new = s ∷ old

-- The row that the UPDATE of a merge leaves in the table.
unfoldable pub written : AssetRow → AssetRow → AssetRow
unfolding written_sources
written a m = record m { sources = written_sources a.sources m.sources }

unfoldable pub new_asset : ℕ → ℕ → String → HostData → AssetRow
unfolding is_shadow_of
new_asset id tx source d = record {
  id = id;
  name = or_else (get d.name) (or_else (get d.hostname) (get_or d.ip "unknown"));
  type = get_or d.type "Unknown";
  os = or_else (get d.os) (get d.os_guess);
  ip = get d.ip;
  mac = get d.mac;
  segment = get_or d.segment "Unknown";
  edr_status = get_or d.edr_status "None";
  control_coverage = get_or d.control_coverage "none";
  network_exposure = get_or d.network_exposure "internal";
  auth_method = get_or d.auth_method "password";
  criticality = get_or d.criticality "medium";
  data_classification = get_or d.data_classification "Internal";
  software_stack = d.software_stack;
  cpe = d.cpe;
  dependencies = d.dependencies;
  sources = source ∷ [];
  last_seen = tx;
  is_shadow = is_shadow_of (source ∷ []);
  is_stale = false;
  services = [];
}

pub is_set : Option String → Bool
is_set none = false
is_set (some s) = true

-- The columns that are NOT NULL.
unfoldable pub is_storable : AssetRow → Bool
unfolding is_set
is_storable a =
    is_set a.name
    && is_set a.type
    && is_set a.control_coverage
    && is_set a.network_exposure
    && is_set a.auth_method
    && is_set a.criticality
    && is_set a.data_classification
