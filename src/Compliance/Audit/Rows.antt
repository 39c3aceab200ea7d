-- ===== src/Compliance/Audit/Rows.antt =====
-- The status that a reader of the table of mappings finds, and what a write changes.

use kepryx.Base.{
  ℕ, ◌≡◌, refl, sym, ap, ◌∙◌, String, Bool, true, false, not, ◌&&◌, Option, none, some, List, [],
  ◌∷◌, any, ◌==◌, ==_iff, both, not-false, str_eq, eq_iff, eq_refl, arith, Bool-cases, Option-cases,
  inl, inr, if◌then◌else◌,
}
use kepryx.Compliance.{Status}
use kepryx.Compliance.Audit.{MappingRow, has_key, write_mapping}

-- The status of a key, as `mapping_by_key` finds it.
pub mapping_status : String → String → ℕ → List MappingRow → Option Status
mapping_status f c i [] = none
mapping_status f c i (m ∷ rest) = elim (mapping_status f c i rest) [
  | some s ↦ some s
  | none ↦ if has_key f c i m then some m.status else none
]

pub same_key : String → String → ℕ → String → String → ℕ → Bool
same_key f c i g d j = str_eq f g && str_eq c d && i == j

any-mapping_status :
    (f c : String) (i : ℕ) (ms : List MappingRow)
    → any (has_key f c i) ms ≡ false
    → mapping_status f c i ms ≡ none
unfolding mapping_status
any-mapping_status f c i [] h = refl
any-mapping_status f c i (m ∷ ms) h =
    let here : has_key f c i m ≡ false = ground arith in
    let later : any (has_key f c i) ms ≡ false = ground arith in
    rw (any-mapping_status f c i ms later, here) refl

mapping_status-any :
    (f c : String) (i : ℕ) (ms : List MappingRow)
    → any (has_key f c i) ms ≡ true
    → (s : Status) × (mapping_status f c i ms ≡ some s)
unfolding mapping_status
mapping_status-any f c i [] h = cc
mapping_status-any f c i (m ∷ ms) h = elim (Bool-cases (any (has_key f c i) ms)) [
  | inl later ↦ let (s, e) = mapping_status-any f c i ms later in (s, rw e refl)
  | inr no_ ↦
      let here : has_key f c i m ≡ true = ground arith in
      (m.status, rw (any-mapping_status f c i ms no_, here) refl)
]

module _ (f c : String) (i : ℕ) (m : MappingRow) where
  mapping_status-congr :
      (xs ys : List MappingRow)
      → mapping_status f c i xs ≡ mapping_status f c i ys
      → mapping_status f c i (m ∷ xs) ≡ mapping_status f c i (m ∷ ys)
  unfolding mapping_status
  mapping_status-congr xs ys e =
      ap
        (λ o. elim o as (λ _. Option Status) [
          | some s ↦ some s
          | none ↦ if has_key f c i m then some m.status else none
        ])
        e

  mapping_status-later :
      (ms : List MappingRow) (s : Status)
      → mapping_status f c i ms ≡ some s
      → mapping_status f c i (m ∷ ms) ≡ some s
  unfolding mapping_status
  mapping_status-later ms s e = rw e refl

  mapping_status-first :
      (ms : List MappingRow)
      → mapping_status f c i ms ≡ none
      → has_key f c i m ≡ true
      → mapping_status f c i (m ∷ ms) ≡ some m.status
  unfolding mapping_status
  mapping_status-first ms e h = rw (e, h) refl

  mapping_status-skip :
      (ms : List MappingRow)
      → has_key f c i m ≡ false
      → mapping_status f c i (m ∷ ms) ≡ mapping_status f c i ms
  unfolding mapping_status
  mapping_status-skip ms h = elim (Option-cases (mapping_status f c i ms)) [
    | inl e ↦ rw (e, h) refl
    | inr (s, e) ↦ rw e refl
  ]

has_key_update :
    (f c : String) (i : ℕ) (m : MappingRow) (s : Status) (t : ℕ)
    → has_key f c i (record m { status = s; assessed_at = t }) ≡ has_key f c i m
unfolding has_key
has_key_update f c i m s t = refl

-- Whether the row written over is this one.
written_over : MappingRow → MappingRow → List MappingRow → Bool
written_over n m ms =
    has_key n.framework n.control_id n.asset_id m
    && not (any (has_key n.framework n.control_id n.asset_id) ms)

over_parts :
    (n m : MappingRow) (ms : List MappingRow)
    → written_over n m ms ≡ true
    → (has_key n.framework n.control_id n.asset_id m ≡ true)
      × (any (has_key n.framework n.control_id n.asset_id) ms ≡ false)
unfolding written_over
over_parts n m ms h =
    let (p, q) =
      both (has_key n.framework n.control_id n.asset_id m)
        (not (any (has_key n.framework n.control_id n.asset_id) ms)) h in
    (p, not-false _ q)

write_mapping-over :
    (n m : MappingRow) (ms : List MappingRow)
    → written_over n m ms ≡ true
    → write_mapping n (m ∷ ms) ≡ record m { status = n.status; assessed_at = n.assessed_at } ∷ ms
unfolding write_mapping written_over
write_mapping-over n m ms h = rw h refl

write_mapping-past :
    (n m : MappingRow) (ms : List MappingRow)
    → written_over n m ms ≡ false
    → write_mapping n (m ∷ ms) ≡ m ∷ write_mapping n ms
unfolding write_mapping written_over
write_mapping-past n m ms h = rw h refl

has_key_own : (n : MappingRow) → has_key n.framework n.control_id n.asset_id n ≡ true
unfolding has_key
has_key_own n =
    rw (eq_refl n.framework, eq_refl n.control_id) ((==_iff n.asset_id n.asset_id).1 refl)

pub mapping_status-here :
    (n : MappingRow) (ms : List MappingRow)
    → mapping_status n.framework n.control_id n.asset_id (write_mapping n ms) ≡ some n.status
unfolding mapping_status write_mapping
mapping_status-here n [] = rw (has_key_own n) refl
mapping_status-here n (m ∷ ms) =
    let f = n.framework in
    let c = n.control_id in
    elim (Bool-cases (written_over n m ms)) [
      | inl over ↦
          let (here, left) = over_parts n m ms over in
          ap (mapping_status f c n.asset_id) (write_mapping-over n m ms over)
          ∙ mapping_status-first f c n.asset_id
              (record m { status = n.status; assessed_at = n.assessed_at }) ms
              (any-mapping_status f c n.asset_id ms left)
              (has_key_update f c n.asset_id m n.status n.assessed_at ∙ here)
      | inr past ↦
          ap (mapping_status f c n.asset_id) (write_mapping-past n m ms past)
          ∙ mapping_status-later f c n.asset_id m (write_mapping n ms) n.status
              (mapping_status-here n ms)
    ]

has_key_parts :
    (f c : String) (i : ℕ) (m : MappingRow)
    → has_key f c i m ≡ true
    → (m.framework ≡ f) × (m.control_id ≡ c) × (m.asset_id ≡ i)
unfolding has_key
has_key_parts f c i m h =
    let (q, s) = both (str_eq m.framework f && str_eq m.control_id c) (m.asset_id == i) h in
    let (p, r) = both (str_eq m.framework f) (str_eq m.control_id c) q in
    ((eq_iff m.framework f).0 p, (eq_iff m.control_id c).0 r, (==_iff m.asset_id i).0 s)

same_key_eq : (f c g d : String) (i j : ℕ) → f ≡ g → c ≡ d → i ≡ j → same_key f c i g d j ≡ true
unfolding same_key
same_key_eq f c g d i j p q r = rw ((eq_iff f g).1 p, (eq_iff c d).1 q) ((==_iff i j).1 r)

has_key_apart :
    (f c g d : String) (i j : ℕ) (m : MappingRow)
    → same_key f c i g d j ≡ false
    → has_key g d j m ≡ true
    → has_key f c i m ≡ false
has_key_apart f c g d i j m apart h = elim (Bool-cases (has_key f c i m)) [
  | inr no_ ↦ no_
  | inl yes_ ↦
      let (p, q, r) = has_key_parts f c i m yes_ in
      let (t, u, v) = has_key_parts g d j m h in
      let e = same_key_eq f c g d i j (sym p ∙ t) (sym q ∙ u) (sym r ∙ v) in cc
]

pub mapping_status-elsewhere :
    (f c : String) (i : ℕ) (n : MappingRow) (ms : List MappingRow)
    → same_key f c i n.framework n.control_id n.asset_id ≡ false
    → mapping_status f c i (write_mapping n ms) ≡ mapping_status f c i ms
unfolding mapping_status write_mapping
mapping_status-elsewhere f c i n [] apart =
    rw (has_key_apart f c n.framework n.control_id i n.asset_id n apart (has_key_own n)) refl
mapping_status-elsewhere f c i n (m ∷ ms) apart = elim (Bool-cases (written_over n m ms)) [
  | inl over ↦
      let gone : has_key f c i m ≡ false =
        has_key_apart f c n.framework n.control_id i n.asset_id m apart
          (over_parts n m ms over).0 in
      ap (mapping_status f c i) (write_mapping-over n m ms over)
      ∙ mapping_status-skip f c i (record m { status = n.status; assessed_at = n.assessed_at }) ms
          (has_key_update f c i m n.status n.assessed_at ∙ gone)
      ∙ sym (mapping_status-skip f c i m ms gone)
  | inr past ↦
      ap (mapping_status f c i) (write_mapping-past n m ms past)
      ∙ mapping_status-congr f c i m (write_mapping n ms) ms
          (mapping_status-elsewhere f c i n ms apart)
]

pub same_key_parts :
    (f c g d : String) (i j : ℕ) → same_key f c i g d j ≡ true → (f ≡ g) × (c ≡ d) × (i ≡ j)
unfolding same_key
same_key_parts f c g d i j h =
    let (q, s) = both (str_eq f g && str_eq c d) (i == j) h in
    let (p, r) = both (str_eq f g) (str_eq c d) q in
    ((eq_iff f g).0 p, (eq_iff c d).0 r, (==_iff i j).0 s)
