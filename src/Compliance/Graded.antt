-- ===== src/Compliance/Graded.antt =====
-- The status that an assessment gives and its score.
use kepryx.Base.{
  ℕ, ◌≤◌, ◌<◌, ◌≡◌, ◌==◌, ◌⊎◌, refl, Bool, true, false, ◌&&◌, List, [], ◌∷◌, length, All, ltb, both,
  ltb→lt, arith, Bool-cases, inl, inr,
}
use kepryx.Risk.{round_half_even}
use kepryx.Compliance.Catalog.{
  AuditedAsset, Control, framework_catalogs, cis_v8, nist_800_53, iso_27001,
}
use kepryx.Compliance.{Status, compliant, partial, gap, partial_score, grade, present_of, assess}

-- What a status says of the check and the evidence, and what it says of the score.
pub Means : Bool → ℕ → ℕ → Status × ℕ → Type 0
Means check present total (compliant, score) = (check ≡ true) × (score ≡ 100)
Means check present total (partial, score) =
    (check ≡ false) × (0 < present) × (present < total) × (0 < score) × (score < 100)
Means check present total (gap, score) = (check ≡ false) × (score ≡ 0)

few :
    (p t : ℕ)
    → 0 < p
    → p < t
    → t ≤ 3
    → ((p ≡ 1) × (t ≡ 2)) ⊎ (((p ≡ 1) × (t ≡ 3)) ⊎ ((p ≡ 2) × (t ≡ 3)))
few p t a b c = elim (Bool-cases (t == 2)) [
  | inl two ↦ inl (ground arith, ground arith)
  | inr three ↦ elim (Bool-cases (p == 1)) [
    | inl one ↦ inr (inl (ground arith, ground arith))
    | inr more ↦ inr (inr (ground arith, ground arith))
  ]
]

-- Of at most three fields.
partial_score_between :
    (present total : ℕ)
    → 0 < present
    → present < total
    → total ≤ 3
    → (0 < partial_score present total) × (partial_score present total < 100)
unfolding partial_score round_half_even
partial_score_between present total p q r = elim (few present total p q r) [
  | inl (a, b) ↦ rw (a, b) (omega arith, omega arith)
  | inr (inl (a, b)) ↦ rw (a, b) (omega arith, omega arith)
  | inr (inr (a, b)) ↦ rw (a, b) (omega arith, omega arith)
]

grade-Means :
    (check : Bool) (present total : ℕ)
    → total ≤ 3
    → Means check present total (grade check present total)
unfolding grade Means
grade-Means true present total h = (refl, refl)
grade-Means false present total h =
    elim (Bool-cases (ltb 1 total && ltb 0 present && ltb present total)) [
      | inl some_ ↦
          let (u, below) = both (ltb 1 total && ltb 0 present) (ltb present total) some_ in
          let (v, above) = both (ltb 1 total) (ltb 0 present) u in
          let lower = ltb→lt 0 present above in
          let upper = ltb→lt present total below in
          let (x, y) = partial_score_between present total lower upper h in
          rw some_ (refl, lower, upper, x, y)
      | inr none_ ↦ rw none_ (refl, refl)
    ]

-- The controls have at most three fields of evidence.
abbrev IsSmall : Control → Type 0
IsSmall c = length c.rule.evidence_fields ≤ 3

controls-Means :
    (a : AuditedAsset) (cs : List Control)
    → All IsSmall cs
    → All
        (λ c.
          Means
            (c.rule.check a)
            (present_of c.rule a)
            (length c.rule.evidence_fields)
            (assess c.rule a))
        cs
unfolding assess
controls-Means a [] h = tt
controls-Means a (c ∷ cs) h = (
  grade-Means (c.rule.check a) (present_of c.rule a) (length c.rule.evidence_fields) h.0,
  controls-Means a cs h.1,
)

-- For every asset and every control of the catalogues: it is compliant if and only if the check
-- holds, and then scores 1.0; it is partial only if some and not all fields have an observation, and
-- then scores strictly between 0 and 1; otherwise it is a gap and scores 0.
pub assess-Means :
    (a : AuditedAsset)
    → All
        (λ f.
          All
            (λ c.
              Means
                (c.rule.check a)
                (present_of c.rule a)
                (length c.rule.evidence_fields)
                (assess c.rule a))
            f.controls)
        framework_catalogs
assess-Means a = (
  controls-Means a cis_v8.controls
      (omega arith, (omega arith, (omega arith, (omega arith, (omega arith, (omega arith, tt)))))),
  (
    controls-Means a nist_800_53.controls
        (omega arith, (omega arith, (omega arith, (omega arith, tt)))),
    (controls-Means a iso_27001.controls (omega arith, (omega arith, (omega arith, tt))), tt),
  ),
)
