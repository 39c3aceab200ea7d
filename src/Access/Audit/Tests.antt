-- ===== src/Access/Audit/Tests.antt =====
-- Tests of the audit log, and instances of its theorems.
use kepryx.Base.{false, none, some, [], ◌∷◌, codes}
use kepryx.Pii.{Text, text, end, field}
use kepryx.Access.{ApiToken}
use kepryx.Access.Audit.{Action, Caller}
use kepryx.Access.Audit.Private.{Audited, audit-IsPrivate}

abbrev no_hash : Text → Text
no_hash s = s

abbrev caller : Caller
caller = record { host = some (codes "10.1.2.7"); user_agent = codes "curl/8" }

abbrev resolving : Action
resolving = record {
  action = "alert_resolved";
  resource_type = some "alert";
  resource_id = none;
  severity = "info";
  details = some (field (codes "token") (text (codes "x")) end);
}

abbrev token : ApiToken
token = record {
  id = "1";
  name = "a service that reads the inventory for the nightly report";
  token_hash = "h";
  token_prefix = "kpx_abcdefgh";
  scopes = "alerts:resolve" ∷ [];
  expires_at = none;
  last_used = none;
  revoked = false;
  usage_count = 0;
}

audit-IsPrivate_example :
    Audited no_hash [] caller (some (record { username = "alice"; id = some "2" })) resolving []
audit-IsPrivate_example =
    audit-IsPrivate no_hash [] caller (some (record { username = "alice"; id = some "2" }))
      resolving []
