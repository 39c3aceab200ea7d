-- ===== src/Access/Audit.antt =====
-- app/api/deps.py: `audit`, which adds a row to the audit log. The hash and the patterns of secrets
-- are arguments, as in Pii; a text that is longer than its column is refused by the database.
pub mod Private
mod Tests
use Prim.Native.Char.{Char, code}
use kepryx.Base.{
  ℕ, zero, suc, String, Bool, true, ◌&&◌, Option, none, some, List, [], ◌∷◌, ◌++◌, ◌==◌, append,
  codes, if◌then◌else◌, Result, ok, err,
}
use kepryx.Accounts.State.{User}
use kepryx.Access.{ApiToken, Principal, person, service, take_text}
use kepryx.Pii.{
  Text, Json, null, text, object, Fields, end, hash_value, mask_user_agent, redact_pii, take_codes,
}
use kepryx.Pii.Stored.{with_field}

-- What the code reads of a user or of an APIPrincipal.
pub record Actor : Type 0 where
  pub username : String
  pub id : Option String

pub actor_of : Principal → Actor
actor_of (person u) = record { username = u.username; id = some u.id }
actor_of (service t) = record { username = append "api_token:" t.name; id = none }

pub record Action : Type 0 where
  pub action : String
  pub resource_type : Option String
  pub resource_id : Option String
  pub severity : String
  pub details : Option Fields

-- `request.client.host` and the User-Agent header, empty if there is none.
pub record Caller : Type 0 where
  pub host : Option Text
  pub user_agent : Text

pub record AuditEntry : Type 0 where
  pub username : Option String
  pub user_id : Option String
  pub action : String
  pub resource_type : Option String
  pub resource_id : Option String
  pub ip_address : Option String
  pub user_agent : Text
  pub severity : String
  pub details : Json

pub data AuditError : Type 0 where
  value_too_long : AuditError

-- `s[n:]`.
pub drop_text : ℕ → String → String
drop_text zero s = s
drop_text (suc n) String.[] = String.[]
drop_text (suc n) (String.◌∷◌ c s) = drop_text n s

pub all_spaces : String → Bool
all_spaces String.[] = true
all_spaces (String.◌∷◌ c s) = code c == 32 && all_spaces s

-- PostgreSQL refuses a text that is longer than its column, unless only spaces are beyond.
pub fits : ℕ → Option String → Bool
unfolding drop_text all_spaces
fits n none = true
fits n (some s) = all_spaces (drop_text n s)

-- What it then stores.
pub narrow : ℕ → Option String → Option String
narrow n none = none
narrow n (some s) = some (take_text n s)

-- The widths of the columns of `audit_log`.
pub is_storable : AuditEntry → Bool
unfolding fits
is_storable r =
    fits 64 r.username
    && fits 128 (some r.action)
    && fits 64 r.resource_type
    && fits 64 r.resource_id
    && fits 16 (some r.severity)

pub stored : AuditEntry → AuditEntry
unfolding narrow
stored r = record r {
  username = narrow 64 r.username;
  action = take_text 128 r.action;
  resource_type = narrow 64 r.resource_type;
  resource_id = narrow 64 r.resource_id;
  severity = take_text 16 r.severity;
}

pub flush : AuditEntry → List AuditEntry → Result AuditError (List AuditEntry)
unfolding is_storable stored
flush r log = if is_storable r then ok (log ++ stored r ∷ []) else err value_too_long

pub username_of : Option Actor → Option String
username_of none = none
username_of (some a) = some a.username

pub id_of : Option Actor → Option String
id_of none = none
id_of (some a) = a.id

-- `details or {}`.
pub fields_of : Option Fields → Fields
fields_of none = end
fields_of (some fs) = fs

abbrev pub source_ip_hash : Text
source_ip_hash = codes "source_ip_hash"

module _ (sha256 : Text → Text) (patterns : List (Text → Text)) where
  pub source_of : Option Text → Json
  source_of none = null
  source_of (some host) = text (hash_value sha256 patterns host "audit-ip")

  pub entry_of : Caller → Option Actor → Action → AuditEntry
  unfolding username_of id_of fields_of source_of
  entry_of c user a = record {
    username = username_of user;
    user_id = id_of user;
    action = a.action;
    resource_type = a.resource_type;
    resource_id = a.resource_id;
    ip_address = none;
    user_agent = take_codes 512 (mask_user_agent c.user_agent);
    severity = a.severity;
    details =
        redact_pii sha256 patterns
          (object (with_field source_ip_hash (source_of c.host) (fields_of a.details)));
  }

  pub audit : Caller → Option Actor → Action → List AuditEntry → Result AuditError (List AuditEntry)
  unfolding flush entry_of
  audit c user a log = flush (entry_of c user a) log
