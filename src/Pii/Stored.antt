-- ===== src/Pii/Stored.antt =====
-- The fields of a JSON object, set and looked up, and what the redaction and the masks make of them.
use kepryx.Base.{
  ℕ, zero, suc, ◌≤◌, ◌≡◌, refl, ap, ◌∙◌, true, false, Option, none, some, List, [], ◌∷◌, ◌++◌,
  length, length-append, both, ==_iff, ◌==◌, codes, codes_eq, arith, Bool-cases, inl, inr,
  if◌then◌else◌,
}
use kepryx.Pii.{
  Text, Json, Fields, end, field, text, redacted, is_secret, redact_fields, redact_field, browser,
  os_family, mask_user_agent, take_codes, object, null, redact_pii, redact_string, redact_text,
  is_named,
}

-- `{**fields, name: value}`: a name that is there keeps its place.
pub with_field : Text → Json → Fields → Fields
with_field k v end = field k v end
with_field k v (field j w fs) =
    let later = with_field k v fs in if codes_eq j k then field j v fs else field j w later

-- `fields.get(name)`.
pub find : Text → Fields → Option Json
find k end = none
find k (field j w fs) = let later = find k fs in if codes_eq j k then some w else later

codes_eq_refl : (k : Text) → codes_eq k k ≡ true
codes_eq_refl [] = refl
codes_eq_refl (c ∷ k) = ground (arith, codes_eq_refl k)

codes_eq_same : (j k : Text) → codes_eq j k ≡ true → j ≡ k
codes_eq_same [] [] h = refl
codes_eq_same [] (c ∷ k) h = cc
codes_eq_same (c ∷ j) [] h = cc
codes_eq_same (c ∷ j) (d ∷ k) h =
    let (a, b) = both (c == d) (codes_eq j k) h in
    let q : c ≡ d = (==_iff c d).0 a in ap (λ x. x ∷ j) q ∙ ap (◌∷◌ d) (codes_eq_same j k b)

pub find-with_field : (k : Text) (v : Json) (fs : Fields) → find k (with_field k v fs) ≡ some v
unfolding find with_field
find-with_field k v end = rw (codes_eq_refl k) refl
find-with_field k v (field j w fs) = elim (Bool-cases (codes_eq j k)) [
  | inl same ↦ rw (same, same) refl
  | inr other ↦ rw (other, other) (find-with_field k v fs)
]

pub find-with_field_other :
    (k j : Text) (v : Json) (fs : Fields)
    → codes_eq j k ≡ false
    → find k (with_field j v fs) ≡ find k fs
unfolding find with_field
find-with_field_other k j v end h = rw h refl
find-with_field_other k j v (field i w fs) h = elim (Bool-cases (codes_eq i j)) [
  | inl same ↦
      let apart : codes_eq i k ≡ false = rw (codes_eq_same i j same) h in rw (same, apart) refl
  | inr past ↦ elim (Bool-cases (codes_eq i k)) [
    | inl here ↦ rw (past, here) refl
    | inr no_ ↦ rw (past, no_) (find-with_field_other k j v fs h)
  ]
]

module _ (sha256 : Text → Text) (patterns : List (Text → Text)) where
  -- What is stored under a field.
  pub shown : Text → Json → Json
  shown k v =
      if is_secret sha256 patterns k then text redacted else redact_field sha256 patterns k v

  unfoldable pub shown_if : Text → Option Json → Option Json
  shown_if k none = none
  shown_if k (some v) = some (shown k v)

  pub find-redact_fields :
      (k : Text) (fs : Fields) → find k (redact_fields sha256 patterns fs) ≡ shown_if k (find k fs)
  unfolding find redact_fields shown_if shown
  find-redact_fields k end = refl
  find-redact_fields k (field j w fs) = elim (Bool-cases (codes_eq j k)) [
    | inl same ↦ let q : j ≡ k = codes_eq_same j k same in rw (same, q) refl
    | inr other ↦ rw other (find-redact_fields k fs)
  ]

browser_short : (ua : Text) → length (browser ua) ≤ 7
unfolding browser
browser_short ua = ground arith

os_family_short : (ua : Text) → length (os_family ua) ≤ 7
unfolding os_family
os_family_short ua = ground arith

around : (x y : Text) → length x ≤ 7 → length y ≤ 7 → length (x ++ codes "/" ++ y) ≤ 15
around x y a b = omega (arith, length-append (x ++ codes "/") y, length-append x (codes "/"))

-- A mask has at most fifteen characters.
mask_user_agent_short : (ua : Text) → length (mask_user_agent ua) ≤ 15
unfolding mask_user_agent
mask_user_agent_short [] = omega arith
mask_user_agent_short (c ∷ s) =
    around (browser (c ∷ s)) (os_family (c ∷ s)) (browser_short (c ∷ s)) (os_family_short (c ∷ s))

take_codes-all : (n : ℕ) (s : Text) → length s ≤ n → take_codes n s ≡ s
unfolding take_codes
take_codes-all zero [] h = refl
take_codes-all zero (c ∷ s) h = absurd (omega arith)
take_codes-all (suc n) [] h = refl
take_codes-all (suc n) (c ∷ s) h = ap (◌∷◌ c) (take_codes-all n s (omega arith))

pub mask_user_agent-kept :
    (n : ℕ) (ua : Text) → 15 ≤ n → take_codes n (mask_user_agent ua) ≡ mask_user_agent ua
mask_user_agent-kept n ua h =
    take_codes-all n (mask_user_agent ua) (omega (arith, mask_user_agent_short ua))

module _ (sha256 : Text → Text) (patterns : List (Text → Text)) where
  pub redact_pii-object :
      (fs : Fields)
      → redact_pii sha256 patterns (object fs) ≡ object (redact_fields sha256 patterns fs)
  unfolding redact_pii
  redact_pii-object fs = refl

  -- The hash of an address stands under a name that is neither secret nor masked.
  pub shown_source :
      (s : Text)
      → (shown sha256 patterns (codes "source_ip_hash") (text s) ≡ text (redact_string patterns s))
        × (shown sha256 patterns (codes "source_ip_hash") null ≡ null)
  unfolding shown is_secret is_named redact_field redact_text
  shown_source s = (refl, refl)
