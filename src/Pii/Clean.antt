-- ===== src/Pii/Clean.antt =====
-- What a redacted value no longer has.
use kepryx.Base.{◌≡◌, refl, Bool, true, false, List, inl, inr, ◌⊎◌, if◌then◌else◌}
use kepryx.Pii.{
  Text, Json, null, flag, number, text, items, object, Jsons, nil, cons, Fields, end, field,
  redacted, is_secret, redact_pii, redact_items, redact_fields, redact_field,
}

-- At every depth, a field of a secret name has the redacted text.
mutual
  pub IsClean : (Text → Bool) → Json → Type 0
  IsClean secret null = Unit
  IsClean secret (flag b) = Unit
  IsClean secret (number n) = Unit
  IsClean secret (text s) = Unit
  IsClean secret (items xs) = CleanItems secret xs
  IsClean secret (object fs) = CleanFields secret fs

  CleanItems : (Text → Bool) → Jsons → Type 0
  CleanItems secret nil = Unit
  CleanItems secret (cons x xs) = IsClean secret x × CleanItems secret xs

  CleanFields : (Text → Bool) → Fields → Type 0
  CleanFields secret end = Unit
  CleanFields secret (field k v fs) =
      (secret k ≡ true → v ≡ text redacted) × (IsClean secret v × CleanFields secret fs)

-- The values of both trees have one shape, and their fields one name each.
mutual
  pub IsShaped : Json → Json → Type 0
  IsShaped (items xs) (items ys) = ShapedItems xs ys
  IsShaped (object fs) (object gs) = ShapedFields fs gs
  IsShaped (text s) (text t) = Unit
  IsShaped v w = v ≡ w

  ShapedItems : Jsons → Jsons → Type 0
  ShapedItems nil nil = Unit
  ShapedItems (cons x xs) (cons y ys) = IsShaped x y × ShapedItems xs ys
  ShapedItems _ _ = ⊥

  ShapedFields : Fields → Fields → Type 0
  ShapedFields end end = Unit
  ShapedFields (field k v fs) (field j w gs) =
      (k ≡ j) × (((w ≡ text redacted) ⊎ IsShaped v w) × ShapedFields fs gs)
  ShapedFields _ _ = ⊥

module _ (sha256 : Text → Text) (patterns : List (Text → Text)) where
  abbrev secret : Text → Bool
  secret k = is_secret sha256 patterns k

  chosen :
      (b : Bool) (v : Json) (w : Json)
      → (IsClean secret w × IsShaped v w)
      → (b ≡ true → (if b then text redacted else w) ≡ text redacted)
        × (IsClean secret (if b then text redacted else w)
            × (((if b then text redacted else w) ≡ text redacted)
                ⊎ IsShaped v (if b then text redacted else w)))
  unfolding IsClean
  chosen true v w h = ((λ e. refl), (tt, inl refl))
  chosen false v w h = ((λ e. cc), (h.0, inr h.1))

  mutual
    unfolding IsClean IsShaped redact_pii

    clean :
        (v : Json)
        → IsClean secret (redact_pii sha256 patterns v) × IsShaped v (redact_pii sha256 patterns v)
    clean null = (tt, refl)
    clean (flag b) = (tt, refl)
    clean (number n) = (tt, refl)
    clean (text s) = (tt, tt)
    clean (items xs) = clean_items xs
    clean (object fs) = clean_fields fs

    clean_items :
        (xs : Jsons)
        → CleanItems secret (redact_items sha256 patterns xs)
          × ShapedItems xs (redact_items sha256 patterns xs)
    clean_items nil = (tt, tt)
    clean_items (cons x xs) =
        let (a, b) = clean x in let (c, d) = clean_items xs in ((a, c), (b, d))

    clean_fields :
        (fs : Fields)
        → CleanFields secret (redact_fields sha256 patterns fs)
          × ShapedFields fs (redact_fields sha256 patterns fs)
    clean_fields end = (tt, tt)
    clean_fields (field k v fs) =
        let (a, (b, c)) =
          chosen (secret k) v (redact_field sha256 patterns k v) (clean_field k v) in
        let (d, e) = clean_fields fs in ((a, (b, d)), (refl, (c, e)))

    clean_field :
        (k : Text) (v : Json)
        → IsClean secret (redact_field sha256 patterns k v)
          × IsShaped v (redact_field sha256 patterns k v)
    clean_field k null = (tt, refl)
    clean_field k (flag b) = (tt, refl)
    clean_field k (number n) = (tt, refl)
    clean_field k (text s) = (tt, tt)
    clean_field k (items xs) = clean_items xs
    clean_field k (object fs) = clean_fields fs

  pub redact_pii-IsClean :
      (v : Json)
      → IsClean secret (redact_pii sha256 patterns v) × IsShaped v (redact_pii sha256 patterns v)
  redact_pii-IsClean v = clean v
