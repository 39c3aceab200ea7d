-- ===== src/Sync/Tests.antt =====
-- Tests of the synchronisation, and instances of its theorems.
use kepryx.Base.{◌≡◌, refl, true, false, none, some, [], ◌∷◌, map, str_eq, arith}
use kepryx.Networks.Texts.{sample}
use kepryx.Reconciler.State.{Db, HostData, missing, null, text}
use kepryx.Reconciler.Alerts.{empty-IsDeduped}
use kepryx.Sync.{Integration, raised, sync_all, cleanup_old_data, is_prunable, count_failure}
use kepryx.Sync.Health.{IsSound, sync_all-IsSound}

abbrev crm : Integration
crm = record {
  id = "1";
  name = "crm";
  connector_type = "asset_api";
  enabled = true;
  failure_count = 4;
  last_run = none;
  last_status = "";
  assets_reported = 0;
}

abbrev empty : Db
empty = record { assets = []; alerts = []; next_id = 1 }

-- A host whose criticality is reported as null.
abbrev broken : HostData
broken = record {
  name = text "db1";
  hostname = missing;
  type = missing;
  os = missing;
  os_guess = missing;
  ip = missing;
  mac = missing;
  segment = missing;
  edr_status = missing;
  control_coverage = missing;
  network_exposure = missing;
  auth_method = missing;
  criticality = null;
  data_classification = missing;
  software_stack = [];
  cpe = [];
  dependencies = [];
  services = [];
}

fifth_failure :
    map (λ i. i.enabled) (sync_all sample str_eq (λ i. raised) none 1000 (crm ∷ []) empty).rows
    ≡ false ∷ []
unfolding sync_all count_failure
fifth_failure = refl

pruned :
    cleanup_old_data 20000000 (
      record { status = "resolved"; resolved_at = some 1000 }
      ∷ record { status = "open"; resolved_at = none }
      ∷ [])
    ≡ (1, record { status = "open"; resolved_at = none } ∷ [])
unfolding cleanup_old_data is_prunable
pruned = refl

sync_all-IsSound_example :
    IsSound 1000 (sync_all sample str_eq (λ i. raised) none 1000 (crm ∷ []) empty)
sync_all-IsSound_example =
    sync_all-IsSound sample str_eq (λ i. raised) none 1000 (crm ∷ []) empty ((λ e. omega arith), tt)
      (empty-IsDeduped 1000)
