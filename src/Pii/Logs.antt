-- ===== src/Pii/Logs.antt =====
-- app/core/pii.py: the filter of log records. Names of fields are texts, so that the redaction of the
-- arguments raises nothing.
use kepryx.Base.{◌≡◌, refl, Bool, true, List, map}
use kepryx.Pii.{
  Text, Json, null, flag, number, text, items, object, Fields, redact_string, redact_pii,
  redact_fields, is_secret,
}
use kepryx.Pii.Clean.{IsClean, redact_pii-IsClean}

-- The arguments of a record: none, a dict, a tuple, or another value.
pub data Args : Type 0 where
  no_args : Args
  named : Fields → Args
  positional : List Json → Args
  single : Json → Args

pub record LogRecord : Type 0 where
  pub msg : Json
  pub args : Args

module _ (sha256 : Text → Text) (patterns : List (Text → Text)) where
  -- A value that is a text is searched; others are kept.
  pub redact_if_text : Json → Json
  redact_if_text (text s) = text (redact_string patterns s)
  redact_if_text null = null
  redact_if_text (flag b) = flag b
  redact_if_text (number n) = number n
  redact_if_text (items xs) = items xs
  redact_if_text (object fs) = object fs

  pub redact_args : Args → Args
  unfolding redact_if_text
  redact_args no_args = no_args
  redact_args (named fs) = named (redact_fields sha256 patterns fs)
  redact_args (positional vs) = positional (map redact_if_text vs)
  redact_args (single v) = single v

  -- The record as it is logged; the filter keeps every record.
  pub filter : LogRecord → Bool × LogRecord
  unfolding redact_args
  filter r = (true, record { msg = redact_if_text r.msg; args = redact_args r.args })

  -- The dict of a record is clean, and the record is kept.
  filter-IsClean :
      (m : Json) (fs : Fields)
      → let out = filter (record { msg = m; args = named fs }) in
        (out.0 ≡ true)
        × ((gs : Fields) × (out.1.args ≡ named gs)
            × IsClean (is_secret sha256 patterns) (object gs))
  unfolding filter redact_pii
  filter-IsClean m fs = (
    refl,
    (redact_fields sha256 patterns fs, refl, (redact_pii-IsClean sha256 patterns (object fs)).0),
  )
