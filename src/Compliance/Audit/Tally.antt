-- ===== src/Compliance/Audit/Tally.antt =====
-- The counters of a run count the rows of results that it has added so far.
use mathlib.Core.Path.{subst}
use mathlib.Core.List.{append_assoc, append-nil}
use kepryx.Base.{
  ℕ, ◌+◌, ◌≡◌, refl, sym, ap, ◌∙◌, String, Bool, false, List, [], ◌∷◌, ◌++◌, keep, length,
  length-append, str_eq, eq_iff, eq_refl, arith, each, Bool-cases, inl, inr, if◌then◌else◌,
}
use kepryx.Compliance.Catalog.{Field, Observed}
use kepryx.Compliance.{Status, compliant, partial, gap}
use kepryx.Compliance.Audit.{
  Books, MappingRow, GapAlert, ResultRow, result_row, is_compliant, audit_found, opened,
}
use kepryx.Compliance.Audit.Counting.{Counts, no_counts, bump, bump_framework, total_of}
use kepryx.Compliance.Audit.Work.{Item, audit_item, audit_item-listed, audit_item-unlisted}

-- The statuses of rows, counted.
pub counts_of : List ResultRow → Counts
counts_of [] = no_counts
counts_of (r ∷ rs) = bump r.status (counts_of rs)

bump_comm : (s t : Status) (c : Counts) → bump s (bump t c) ≡ bump t (bump s c)
unfolding bump
bump_comm compliant compliant c = refl
bump_comm compliant partial c = refl
bump_comm compliant gap c = refl
bump_comm partial compliant c = refl
bump_comm partial partial c = refl
bump_comm partial gap c = refl
bump_comm gap compliant c = refl
bump_comm gap partial c = refl
bump_comm gap gap c = refl

counts_of-append :
    (rs : List ResultRow) (r : ResultRow) → counts_of (rs ++ r ∷ []) ≡ bump r.status (counts_of rs)
unfolding counts_of
counts_of-append [] r = refl
counts_of-append (q ∷ rs) r =
    ap (bump q.status) (counts_of-append rs r) ∙ bump_comm q.status r.status (counts_of rs)

bump-total_of : (s : Status) (c : Counts) → total_of (bump s c) ≡ total_of c + 1
unfolding bump total_of
bump-total_of compliant c = omega arith
bump-total_of partial c = omega arith
bump-total_of gap c = omega arith

pub counts_of-total_of : (rs : List ResultRow) → total_of (counts_of rs) ≡ length rs
unfolding counts_of
counts_of-total_of [] = unfold total_of in omega arith
counts_of-total_of (r ∷ rs) =
    bump-total_of r.status (counts_of rs) ∙ omega (arith, counts_of-total_of rs)

pub is_of : String → ResultRow → Bool
is_of f r = str_eq r.framework f

-- The counter of a framework; a framework that was not counted has an empty one.
pub counts_for : String → List (String × Counts) → Counts
counts_for f [] = no_counts
counts_for f ((g, c) ∷ rest) = let later = counts_for f rest in if str_eq g f then c else later

counts_for-same :
    (f : String) (s : Status) (fc : List (String × Counts))
    → counts_for f (bump_framework f s fc) ≡ bump s (counts_for f fc)
unfolding counts_for bump_framework
counts_for-same f s [] = rw (eq_refl f) refl
counts_for-same f s ((g, c) ∷ rest) = elim (Bool-cases (str_eq g f)) [
  | inl same ↦ rw (same, same) refl
  | inr other ↦ rw (other, other) (counts_for-same f s rest)
]

counts_for-other :
    (f g : String) (s : Status) (fc : List (String × Counts))
    → str_eq g f ≡ false
    → counts_for f (bump_framework g s fc) ≡ counts_for f fc
unfolding counts_for bump_framework
counts_for-other f g s [] other = rw other refl
counts_for-other f g s ((h, c) ∷ rest) other = elim (Bool-cases (str_eq h g)) [
  | inl same ↦
      let e = (eq_iff h g).0 same in
      let apart : str_eq h f ≡ false = rw e other in rw (same, apart) refl
  | inr no_ ↦ elim (Bool-cases (str_eq h f)) [
    | inl here ↦ rw (no_, here) refl
    | inr past ↦ rw (no_, past) (counts_for-other f g s rest other)
  ]
]

-- What the counters are, of the rows added so far.
pub record IsTallied (b : Books) : Type 0 where
  pub counts : b.status_counts ≡ counts_of b.results
  pub noncompliant :
      b.noncompliant_count ≡ b.status_counts.partial_count + b.status_counts.gap_count
  pub evidence : b.evidence_count ≡ length b.results
  pub frameworks :
      (f : String) → counts_for f b.framework_counts ≡ counts_of (keep (is_of f) b.results)

pub opened-IsTallied :
    (mappings : List MappingRow) (alerts : List GapAlert) → IsTallied (opened mappings alerts)
unfolding opened counts_for counts_of
opened-IsTallied mappings alerts = record {
  counts = refl;
  noncompliant = omega arith;
  evidence = refl;
  frameworks = λ f. refl;
}

bumped-noncompliant :
    (s : Status) (n : ℕ) (c : Counts)
    → n ≡ c.partial_count + c.gap_count
    → (if is_compliant s then n else n + 1) ≡ (bump s c).partial_count + (bump s c).gap_count
unfolding bump is_compliant
bumped-noncompliant compliant n c h = h
bumped-noncompliant partial n c h = omega (arith, h)
bumped-noncompliant gap n c h = omega (arith, h)

keep-append :
    (f : String) (rs : List ResultRow) (r : ResultRow)
    → keep (is_of f) (rs ++ r ∷ [])
      ≡ (if is_of f r then keep (is_of f) rs ++ r ∷ [] else keep (is_of f) rs)
keep-append f [] r = ground arith
keep-append f (q ∷ rs) r = ground (arith, keep-append f rs r)

bumped-frameworks :
    (f : String) (r : ResultRow) (rs : List ResultRow) (fc : List (String × Counts))
    → counts_for f fc ≡ counts_of (keep (is_of f) rs)
    → counts_for f (bump_framework r.framework r.status fc)
      ≡ counts_of (keep (is_of f) (rs ++ r ∷ []))
unfolding is_of
bumped-frameworks f r rs fc h = elim (Bool-cases (str_eq r.framework f)) [
  | inl same ↦
      ap (λ g. counts_for f (bump_framework g r.status fc)) ((eq_iff r.framework f).0 same)
      ∙ counts_for-same f r.status fc
      ∙ ap (bump r.status) h
      ∙ sym (counts_of-append (keep (is_of f) rs) r)
      ∙ ap counts_of (sym (keep-append f rs r ∙ (rw same)))
  | inr other ↦
      counts_for-other f r.framework r.status fc other
      ∙ h
      ∙ ap counts_of (sym (keep-append f rs r ∙ (rw other)))
]

module _ (integrity_hash : List (Field × Observed) → String) (listed : String → String → Bool) where
  audit_found-IsTallied :
      (now : ℕ) (x : Item) (b : Books)
      → IsTallied b
      → IsTallied (audit_found integrity_hash listed now x.0 x.1.0 x.1.1 b)
  unfolding audit_found
  audit_found-IsTallied now x b h =
      let r = result_row integrity_hash listed now x.0 x.1.0 x.1.1 in
      record {
        counts = ap (bump r.status) h.counts ∙ sym (counts_of-append b.results r);
        noncompliant =
            bumped-noncompliant r.status b.noncompliant_count b.status_counts h.noncompliant;
        evidence = omega (arith, h.evidence, length-append b.results (r ∷ []));
        frameworks = λ f. bumped-frameworks f r b.results b.framework_counts (h.frameworks f);
      }

  pub audit_item-IsTallied :
      (now : ℕ) (x : Item) (b : Books)
      → IsTallied b
      → IsTallied (audit_item integrity_hash listed now x b)
  audit_item-IsTallied now x b h = elim (Bool-cases (listed x.1.0 x.1.1.control_id)) [
    | inl yes_ ↦
        subst IsTallied (sym (audit_item-listed integrity_hash listed now x b yes_))
          (audit_found-IsTallied now x b h)
    | inr no_ ↦ subst IsTallied (sym (audit_item-unlisted integrity_hash listed now x b no_)) h
  ]

  -- The rows that a run is to add.
  pub rows_of : ℕ → List Item → List ResultRow
  rows_of now [] = []
  rows_of now (x ∷ xs) =
      let later = rows_of now xs in
      if listed x.1.0 x.1.1.control_id
      then result_row integrity_hash listed now x.0 x.1.0 x.1.1 ∷ later
      else later

  pub each-rows_of :
      (now : ℕ) (xs : List Item) (b : Books)
      → (each (audit_item integrity_hash listed now) xs b).results ≡ b.results ++ rows_of now xs
  unfolding rows_of audit_found
  each-rows_of now [] b = sym (append-nil b.results)
  each-rows_of now (x ∷ xs) b = elim (Bool-cases (listed x.1.0 x.1.1.control_id)) [
    | inl yes_ ↦
        each-rows_of now xs (audit_item integrity_hash listed now x b)
        ∙ ap (λ c. c.results ++ rows_of now xs)
            (audit_item-listed integrity_hash listed now x b yes_)
        ∙ append_assoc b.results (result_row integrity_hash listed now x.0 x.1.0 x.1.1 ∷ [])
            (rows_of now xs)
        ∙ ap (λ rs. b.results ++ rs) (sym (rw yes_))
    | inr no_ ↦
        each-rows_of now xs (audit_item integrity_hash listed now x b)
        ∙ ap (λ c. c.results ++ rows_of now xs)
            (audit_item-unlisted integrity_hash listed now x b no_)
        ∙ ap (λ rs. b.results ++ rs) (sym (rw no_))
  ]
