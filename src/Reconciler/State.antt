-- ===== src/Reconciler/State.antt =====
-- The rows that app/services/reconciler.py reads and writes, and the data that a source reports.
-- The free text of an alert (title, description, details) is left out.
use kepryx.Base.{ℕ, String, Bool, Option, none, some, List}

-- An entry of a `services` list: whether the dict is empty, and its "service".
pub record Service : Type 0 where
  pub is_empty : Bool
  pub service : Option String

pub record AssetRow : Type 0 where
  pub id : ℕ
  pub name : Option String
  pub type : Option String
  pub os : Option String
  pub ip : Option String
  pub mac : Option String
  pub segment : Option String
  pub edr_status : Option String
  pub control_coverage : Option String
  pub network_exposure : Option String
  pub auth_method : Option String
  pub criticality : Option String
  pub data_classification : Option String
  pub software_stack : List String
  pub cpe : List String
  pub dependencies : List String
  pub sources : List String
  pub last_seen : ℕ
  pub is_shadow : Bool
  pub is_stale : Bool
  pub services : List Service

pub data AlertType : Type 0 where
  drift shadow_it stale_asset edr_gap : AlertType

pub data Severity : Type 0 where
  low medium high : Severity

pub record AlertRow : Type 0 where
  pub alert_type : AlertType
  pub severity : Severity
  pub asset_id : ℕ
  pub is_open : Bool
  pub created_at : ℕ

-- `next_id` is above every id in use: it stands for the fresh UUID.
pub record Db : Type 0 where
  pub assets : List AssetRow
  pub alerts : List AlertRow
  pub next_id : ℕ

-- MultipleResultsFound of `scalar_one_or_none`, and IntegrityError of a missing NOT NULL column.
pub data DbError : Type 0 where
  multiple_results integrity : DbError

-- `data.get(key)` of a reported host: no such key, `None`, or a text.
pub data Entry : Type 0 where
  missing null : Entry
  text : String → Entry

pub record HostData : Type 0 where
  pub name : Entry
  pub hostname : Entry
  pub type : Entry
  pub os : Entry
  pub os_guess : Entry
  pub ip : Entry
  pub mac : Entry
  pub segment : Entry
  pub edr_status : Entry
  pub control_coverage : Entry
  pub network_exposure : Entry
  pub auth_method : Entry
  pub criticality : Entry
  pub data_classification : Entry
  pub software_stack : List String
  pub cpe : List String
  pub dependencies : List String
  pub services : List Service

abbrev pub get : Entry → Option String
get missing = none
get null = none
get (text s) = some s

abbrev pub get_or : Entry → String → Option String
get_or missing d = some d
get_or null d = none
get_or (text s) d = some s
