-- ===== src/Connectors/Fields.antt =====
-- The fields of settings that are written and sealed.

use kepryx.Base.{
  ◌≡◌, refl, sym, ap, ◌∙◌, String, true, false, Option, none, some, List, [], ◌∷◌, str_eq, eq_iff,
  eq_refl, mem_text, Bool-cases, Option-cases, inl, inr, if◌then◌else◌,
}
use kepryx.Connectors.{Outside, str_of, seal_field, seal_fields}
use kepryx.Connectors.Schemas.{
  Value, null, flag, number, text, texts, members, sealed, Settings, get, put, is_blank,
}

pub get-put_same : (k : String) (v : Value) (c : Settings) → get k (put k v c) ≡ some v
unfolding get put
get-put_same k v [] = rw (eq_refl k) refl
get-put_same k v ((j, w) ∷ rest) = elim (Bool-cases (str_eq j k)) [
  | inl same ↦ rw (same, same) refl
  | inr other ↦ rw (other, other) (get-put_same k v rest)
]

pub get-put_other :
    (k f : String) (v : Value) (c : Settings) → str_eq f k ≡ false → get k (put f v c) ≡ get k c
unfolding get put
get-put_other k f v [] h = rw h refl
get-put_other k f v ((j, w) ∷ rest) h = elim (Bool-cases (str_eq j f)) [
  | inl same ↦ let apart : str_eq j k ≡ false = rw ((eq_iff j f).0 same) h in rw (same, apart) refl
  | inr past ↦ elim (Bool-cases (str_eq j k)) [
    | inl here ↦ rw (past, here) refl
    | inr no_ ↦ rw (past, no_) (get-put_other k f v rest h)
  ]
]

-- A list of names without repetition.
unfoldable pub IsDistinct : List String → Type 0
IsDistinct [] = Unit
IsDistinct (f ∷ fs) = (mem_text f fs ≡ false) × IsDistinct fs

-- A secret is missing, null or a text.
unfoldable pub IsPlain : Option Value → Type 0
IsPlain none = Unit
IsPlain (some null) = Unit
IsPlain (some (text s)) = Unit
IsPlain (some (flag b)) = ⊥
IsPlain (some (number n)) = ⊥
IsPlain (some (texts xs)) = ⊥
IsPlain (some (members b)) = ⊥
IsPlain (some (sealed c salt)) = ⊥

pub apart : (k f : String) → str_eq k f ≡ false → str_eq f k ≡ false
apart k f h = elim (Bool-cases (str_eq f k)) [
  | inr no_ ↦ no_
  | inl yes_ ↦ let same : str_eq k f ≡ true = (eq_iff k f).1 (sym ((eq_iff f k).0 yes_)) in cc
]

module _ (o : Outside) (salts : String → String) where
  open o use {encrypt, decrypt}

  unfoldable pub sealed_value : String → Option Value → Option Value
  sealed_value f none = none
  sealed_value f (some v) =
      if is_blank v then some v else some (sealed (encrypt (str_of o v) (salts f)) (salts f))

  seal_field-same :
      (f : String) (c : Settings) → get f (seal_field o salts f c) ≡ sealed_value f (get f c)
  unfolding seal_field sealed_value
  seal_field-same f c = elim (Option-cases (get f c)) [
    | inl e ↦ rw (seal_field, e) e
    | inr (v, e) ↦ elim (Bool-cases (is_blank v)) [
      | inl blank ↦ rw (seal_field, e, blank) e
      | inr set ↦ rw (seal_field, e, set) (get-put_same f _ c)
    ]
  ]

  seal_field-other :
      (k f : String) (c : Settings) → str_eq f k ≡ false → get k (seal_field o salts f c) ≡ get k c
  unfolding seal_field
  seal_field-other k f c h = elim (Option-cases (get f c)) [
    | inl e ↦ rw (seal_field, e) refl
    | inr (v, e) ↦ elim (Bool-cases (is_blank v)) [
      | inl blank ↦ rw (seal_field, e, blank) refl
      | inr set ↦ rw (seal_field, e, set) (get-put_other k f _ c h)
    ]
  ]

  -- The second settings are the first with these fields sealed.
  unfoldable pub IsSealed : List String → Settings → Settings → Type 0
  IsSealed fs c d =
      (k : String) → get k d ≡ (if mem_text k fs then sealed_value k (get k c) else get k c)

  pub seal_fields-IsSealed :
      (fs : List String) (c : Settings) → IsDistinct fs → IsSealed fs c (seal_fields o salts fs c)
  unfolding seal_fields IsSealed IsDistinct
  seal_fields-IsSealed [] c u k = refl
  seal_fields-IsSealed (f ∷ fs) c u k =
      let later = seal_fields-IsSealed fs (seal_field o salts f c) u.1 k in
      elim (Bool-cases (str_eq k f)) [
        | inl same ↦
            let e : k ≡ f = (eq_iff k f).0 same in
            let out : mem_text k fs ≡ false = ap (λ x. mem_text x fs) e ∙ u.0 in
            let here : get k (seal_field o salts f c) ≡ sealed_value k (get k c) =
              ap (λ x. get x (seal_field o salts f c)) e
              ∙ seal_field-same f c
              ∙ ap (λ x. sealed_value x (get x c)) (sym e) in
            later ∙ rw (out, same, here) refl
        | inr other ↦
            let here = seal_field-other k f c (apart k f other) in later ∙ rw (other, here) refl
      ]
