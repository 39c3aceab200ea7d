-- ===== src/Pii/Tests.antt =====
-- Tests of the redaction, and instances of its theorems.
use kepryx.Base.{◌≡◌, refl, [], codes}
use kepryx.Pii.{
  Text, Json, number, text, items, object, nil, cons, end, field, redact_pii, redact_text,
  is_secret, os_family,
}

abbrev no_hash : Text → Text
no_hash s = s

abbrev log_in : Json
log_in = object (
    field (codes "Password") (number (codes "1")) (
      field (codes "users")
        (items (cons (object (field (codes "email") (text (codes "alice@example.com")) end)) nil))
        (field (codes "phone") (text (codes "5550100")) end)))

redacted_log_in :
    redact_pii no_hash [] log_in
    ≡ object (
        field (codes "Password") (text (codes "***REDACTED***")) (
          field
            (codes "users")
            (items
              (cons (object (field (codes "email") (text (codes "a***@example.com")) end)) nil))
            (field (codes "phone") (text (codes "5550100")) end)))
unfolding redact_pii is_secret redact_text
redacted_log_in = refl

-- The user agent of a phone names the kernel, or macOS, first.
phones :
    (os_family (codes "Mozilla/5.0 (Linux; Android 10; K)") ≡ codes "Linux")
    × (os_family (codes "Mozilla/5.0 (iPhone; CPU iPhone OS 16_0 like Mac OS X)") ≡ codes "macOS")
unfolding os_family
phones = (refl, refl)
