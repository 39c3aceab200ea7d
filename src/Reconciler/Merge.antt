-- ===== src/Reconciler/Merge.antt =====
-- What a report of a source does to an asset, and to the table.
use kepryx.Base.{
  ℕ, ◌≡◌, refl, ap, ◌∙◌, String, true, false, ◌||◌, List, [], ◌∷◌, ◌++◌, leb, str_eq, eq_iff,
  eq_refl, mem_text, distinct, arith, Bool-cases, inl, inr,
}
use kepryx.Risk.{table_get}
use kepryx.Reconciler.State.{AssetRow, HostData}
use kepryx.Reconciler.Rows.{
  source_priority, is_shadow_of, top_priority, enrich, record_source, merged,
}

pub mem_text_self : (s : String) (ss : List String) → mem_text s (s ∷ ss) ≡ true
mem_text_self s ss = rw (eq_refl s)

mem_text-append :
    (s : String) (xs ys : List String) → mem_text s (xs ++ ys) ≡ (mem_text s xs || mem_text s ys)
mem_text-append s [] ys = refl
mem_text-append s (x ∷ xs) ys = ground (arith, mem_text-append s xs ys)

-- `distinct` keeps the members.
mem_text-distinct : (s : String) (xs : List String) → mem_text s (distinct xs) ≡ mem_text s xs
mem_text-distinct s [] = refl
mem_text-distinct s (x ∷ xs) = elim (Bool-cases (mem_text x (distinct xs))) [
  | inl e ↦ rw e (elim (Bool-cases (str_eq s x)) [
    | inl q ↦
        let same : s ≡ x = (eq_iff s x).0 q in rw q (ap (λ y. mem_text y (distinct xs)) same ∙ e)
    | inr q ↦ rw q (mem_text-distinct s xs)
  ])
  | inr e ↦ rw e (ap (λ b. str_eq s x || b) (mem_text-distinct s xs))
]

mem_text-enrich :
    (s : String) (old new : List String)
    → mem_text s (enrich old new) ≡ (mem_text s old || mem_text s new)
unfolding enrich
mem_text-enrich s old [] = ground arith
mem_text-enrich s old (n ∷ new) =
    mem_text-distinct s (old ++ n ∷ new) ∙ mem_text-append s old (n ∷ new)

mem_text-record_source :
    (t s : String) (ss : List String)
    → mem_text t (record_source s ss) ≡ (mem_text t ss || str_eq t s)
unfolding record_source
mem_text-record_source t s ss = elim (Bool-cases (mem_text s ss)) [
  | inl e ↦ rw e (elim (Bool-cases (str_eq t s)) [
    | inl q ↦
        let here : mem_text t ss ≡ true = ap (λ y. mem_text y ss) ((eq_iff t s).0 q) ∙ e in
        rw (q, here)
    | inr q ↦ rw q (ground arith)
  ])
  | inr e ↦ rw e (mem_text-append t ss (s ∷ []) ∙ ground arith)
]

-- What a merge accumulates, for one asset.
pub record Accumulates (now : ℕ) (source : String) (d : HostData) (a b : AssetRow) : Type 0 where
  pub id : b.id ≡ a.id
  pub sources : (s : String) → mem_text s b.sources ≡ (mem_text s a.sources || str_eq s source)
  pub software :
      (s : String)
      → mem_text s b.software_stack ≡ (mem_text s a.software_stack || mem_text s d.software_stack)
  pub cpe : (s : String) → mem_text s b.cpe ≡ (mem_text s a.cpe || mem_text s d.cpe)
  pub dependencies :
      (s : String)
      → mem_text s b.dependencies ≡ (mem_text s a.dependencies || mem_text s d.dependencies)
  pub seen : b.last_seen ≡ now
  pub fresh : b.is_stale ≡ false
  pub shadow : b.is_shadow ≡ is_shadow_of b.sources

-- Whatever its priority, a source is added to the asset's sources, and its software, CPEs and
-- dependencies to the asset's: nothing is lost and nothing else appears. The asset is seen now, no
-- longer stale, and is shadow IT exactly if no authoritative source is among its sources.
pub merged-Accumulates :
    (now : ℕ) (source : String) (d : HostData) (a : AssetRow)
    → Accumulates now source d a (merged now source d a)
unfolding merged
merged-Accumulates now source d a = record {
  id = elim (Bool-cases (leb (top_priority a.sources) (table_get source_priority source 1))) [
    | inl e ↦ rw e refl
    | inr e ↦ rw e refl
  ];
  sources = λ s. mem_text-record_source s source a.sources;
  software = λ s. mem_text-enrich s a.software_stack d.software_stack;
  cpe = λ s. mem_text-enrich s a.cpe d.cpe;
  dependencies = λ s. mem_text-enrich s a.dependencies d.dependencies;
  seen = refl;
  fresh = refl;
  shadow = refl;
}
