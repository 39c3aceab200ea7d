-- ===== src/Access/Audit/Private.antt =====
-- What the audit log keeps of a request, and which rows it refuses.
use kepryx.Base.{
  ◌&&◌, Bool, ◌≡◌, refl, ap, ◌∙◌, true, false, ◌⊎◌, inl, inr, Option, none, some, List, [], ◌∷◌,
  ◌++◌, arith, Bool-cases, codes_eq, ok, err,
}
use kepryx.Pii.{
  Text, Json, null, text, object, Fields, hash_value, mask_user_agent, redact_fields, redact_string,
  is_secret,
}
use kepryx.Pii.Clean.{IsClean, redact_pii-IsClean}
use kepryx.Pii.Stored.{
  with_field, find, find-with_field, find-with_field_other, find-redact_fields, shown_if,
  shown_source, redact_pii-object, mask_user_agent-kept,
}
use kepryx.Access.Audit.{
  Actor, Action, Caller, AuditEntry, value_too_long, fits, is_storable, flush, stored, narrow,
  username_of, fields_of, source_of, source_ip_hash, entry_of, audit,
}

module _ (sha256 : Text → Text) (patterns : List (Text → Text)) where
  -- The hash of the client's address, searched for secrets as any text is.
  pub hashed : Option Text → Json
  hashed none = null
  hashed (some host) = text (redact_string patterns (hash_value sha256 patterns host "audit-ip"))

  -- What a row has of the request: no address in its column, the hash, the mask of the user agent, and
  -- the fields of the details as their redactions.
  pub record IsPrivate (c : Caller) (a : Action) (r : AuditEntry) : Type 0 where
    pub no_address : r.ip_address ≡ none
    pub agent : r.user_agent ≡ mask_user_agent c.user_agent
    pub fields : Fields
    pub shape : r.details ≡ object fields
    pub clean : IsClean (is_secret sha256 patterns) r.details
    pub source : find source_ip_hash fields ≡ some (hashed c.host)
    pub others :
        (k : Text)
        → codes_eq source_ip_hash k ≡ false
        → find k fields ≡ shown_if sha256 patterns k (find k (fields_of a.details))

  shown-source_of :
      (host : Option Text)
      → shown_if sha256 patterns source_ip_hash (some (source_of sha256 patterns host))
        ≡ some (hashed host)
  unfolding shown_if source_of hashed
  shown-source_of none = ap some (shown_source sha256 patterns []).1
  shown-source_of (some h) =
      ap some (shown_source sha256 patterns (hash_value sha256 patterns h "audit-ip")).0

  entry_of-IsPrivate :
      (c : Caller) (user : Option Actor) (a : Action)
      → IsPrivate c a (stored (entry_of sha256 patterns c user a))
  unfolding entry_of stored
  entry_of-IsPrivate c user a =
      let fs = with_field source_ip_hash (source_of sha256 patterns c.host) (fields_of a.details) in
      record {
        no_address = refl;
        agent = mask_user_agent-kept 512 c.user_agent (omega arith);
        fields = redact_fields sha256 patterns fs;
        shape = redact_pii-object sha256 patterns fs;
        clean = (redact_pii-IsClean sha256 patterns (object fs)).0;
        source =
            find-redact_fields sha256 patterns source_ip_hash fs
            ∙ ap (shown_if sha256 patterns source_ip_hash) (
                find-with_field source_ip_hash (source_of sha256 patterns c.host)
                  (fields_of a.details))
            ∙ shown-source_of c.host;
        others = λ k h.
            find-redact_fields sha256 patterns k fs
            ∙ ap (shown_if sha256 patterns k) (
                find-with_field_other k source_ip_hash (source_of sha256 patterns c.host)
                  (fields_of a.details) h);
      }

  -- Whether every text is within its column.
  abbrev pub all_fit : Option Actor → Action → Bool
  all_fit user a =
      fits 64 (username_of user)
      && fits 128 (some a.action)
      && fits 64 a.resource_type
      && fits 64 a.resource_id
      && fits 16 (some a.severity)

  -- How an audit ends: with one more row, or, if a text is wider than its column, with an error.
  pub record Audited (c : Caller) (user : Option Actor) (a : Action) (log : List AuditEntry)
      : Type 0 where
    pub entry : AuditEntry
    pub private : IsPrivate c a entry
    pub names : entry.username ≡ narrow 64 (username_of user)
    pub result :
        ((all_fit user a ≡ true) × (audit sha256 patterns c user a log ≡ ok (log ++ entry ∷ [])))
        ⊎ ((all_fit user a ≡ false) × (audit sha256 patterns c user a log ≡ err value_too_long))

  -- For every request, user and action: the log gains one row if every text is within its column,
  -- and the call raises if not. The address column of the row is empty, `source_ip_hash`
  -- has the hash of the client's address, the user agent is the mask, every field of a secret name has
  -- the redacted text at every depth, and each field of the details but `source_ip_hash` is there, as
  -- its redaction.
  pub audit-IsPrivate :
      (c : Caller) (user : Option Actor) (a : Action) (log : List AuditEntry) → Audited c user a log
  unfolding audit flush entry_of stored is_storable
  audit-IsPrivate c user a log = record {
    entry = stored (entry_of sha256 patterns c user a);
    private = entry_of-IsPrivate c user a;
    names = refl;
    result = elim (Bool-cases (is_storable (entry_of sha256 patterns c user a))) [
      | inl e ↦ inl (e, rw e refl)
      | inr e ↦ inr (e, rw e refl)
    ];
  }
