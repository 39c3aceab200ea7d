-- ===== src/Compliance/Audit/Mappings.antt =====
-- The mapping of each asset and control is the last row of its key: after a run it has the status
-- that the assessment gives, and the other keys are as before.
use mathlib.Core.Path.{subst}
use kepryx.Base.{
  In, ℕ, ◌≡◌, refl, sym, ap, ◌∙◌, String, Bool, true, some, List, All, each_reaches, Bool-cases,
  inl, inr,
}
use kepryx.Compliance.Catalog.{AuditedAsset, Field, Observed}
use kepryx.Compliance.{Status, assess}
use kepryx.Compliance.Audit.{
  Books, MappingRow, GapAlert, mapping_row, write_mapping, audit_found, run_audit,
}
use kepryx.Compliance.Audit.Work.{
  Item, work, audit_item, audit_assets-work, audit_item-listed, audit_item-unlisted, status_of,
  InCatalog-same, IsAudited, work-IsAudited,
}
use kepryx.Compliance.Audit.Rows.{
  mapping_status, same_key, mapping_status-here, mapping_status-elsewhere, same_key_parts,
}

-- Rows of one identifier are one row: it is the primary key.
abbrev pub IsKeyed : List AuditedAsset → Type 0
IsKeyed assets = (a b : AuditedAsset) → In a assets → In b assets → a.id ≡ b.id → a ≡ b

module _ (integrity_hash : List (Field × Observed) → String) (listed : String → String → Bool) where
  -- What is to hold of an audited pair.
  abbrev IsMapped : Item → Books → Type 0
  IsMapped x b =
      listed x.1.0 x.1.1.control_id ≡ true
      → mapping_status x.1.0 x.1.1.control_id x.0.id b.mappings ≡ some (status_of x)

  audit_found-mappings :
      (now : ℕ) (x : Item) (b : Books)
      → (audit_found integrity_hash listed now x.0 x.1.0 x.1.1 b).mappings
        ≡ write_mapping (mapping_row now x.0 x.1.0 x.1.1) b.mappings
  unfolding audit_found
  audit_found-mappings now x b = refl

  audit_item-mappings :
      (now : ℕ) (x : Item) (b : Books)
      → listed x.1.0 x.1.1.control_id ≡ true
      → (audit_item integrity_hash listed now x b).mappings
        ≡ write_mapping (mapping_row now x.0 x.1.0 x.1.1) b.mappings
  audit_item-mappings now x b h =
      ap (λ c. c.mappings) (audit_item-listed integrity_hash listed now x b h)
      ∙ audit_found-mappings now x b

  audit_item-IsMapped :
      (now : ℕ) (x : Item) (b : Books) → IsMapped x (audit_item integrity_hash listed now x b)
  unfolding mapping_row
  audit_item-IsMapped now x b h =
      ap (mapping_status x.1.0 x.1.1.control_id x.0.id) (audit_item-mappings now x b h)
      ∙ mapping_status-here (mapping_row now x.0 x.1.0 x.1.1) b.mappings

  -- Pairs of one key have one status.
  same_key-status_of :
      (assets : List AuditedAsset) (x y : Item)
      → IsKeyed assets
      → IsAudited assets x
      → IsAudited assets y
      → same_key x.1.0 x.1.1.control_id x.0.id y.1.0 y.1.1.control_id y.0.id ≡ true
      → status_of y ≡ status_of x
  same_key-status_of assets x y keyed p q same =
      let (f, c, i) =
        same_key_parts x.1.0 x.1.1.control_id y.1.0 y.1.1.control_id x.0.id y.0.id same in
      let rules = InCatalog-same x.1 y.1 p.ruled q.ruled f c in
      let assets_ = keyed x.0 y.0 p.asset q.asset i in
      ap (λ r. (assess r y.0).0) (sym rules) ∙ ap (λ a. (assess x.1.1.rule a).0) (sym assets_)

  write_mapping-status :
      (f c : String) (i : ℕ) (n : MappingRow) (ms : List MappingRow) (s : Status)
      → (same_key f c i n.framework n.control_id n.asset_id ≡ true → n.status ≡ s)
      → mapping_status f c i ms ≡ some s
      → mapping_status f c i (write_mapping n ms) ≡ some s
  write_mapping-status f c i n ms s agree e =
      elim (Bool-cases (same_key f c i n.framework n.control_id n.asset_id)) [
        | inr apart ↦ mapping_status-elsewhere f c i n ms apart ∙ e
        | inl same ↦
            let (p, q, r) = same_key_parts f c n.framework n.control_id i n.asset_id same in
            rw (p, q, r) (mapping_status-here n ms ∙ ap (λ x. some x) (agree same))
      ]

  audit_item_keeps-IsMapped :
      (now : ℕ) (assets : List AuditedAsset)
      → IsKeyed assets
      → (x y : Item) (b : Books) → IsAudited assets x
      → IsAudited assets y
      → IsMapped x b
      → IsMapped x (audit_item integrity_hash listed now y b)
  unfolding mapping_row
  audit_item_keeps-IsMapped now assets keyed x y b p q m h =
      elim (Bool-cases (listed y.1.0 y.1.1.control_id)) [
        | inr no_ ↦
            ap (λ c. mapping_status x.1.0 x.1.1.control_id x.0.id c.mappings)
              (audit_item-unlisted integrity_hash listed now y b no_)
            ∙ m h
        | inl yes_ ↦
            ap (mapping_status x.1.0 x.1.1.control_id x.0.id) (audit_item-mappings now y b yes_)
            ∙ write_mapping-status x.1.0 x.1.1.control_id x.0.id (mapping_row now y.0 y.1.0 y.1.1)
                b.mappings (status_of x) (same_key-status_of assets x y keyed p q) (m h)
      ]

  -- After a run over assets of distinct identifiers, each active control of the catalogues has, for
  -- each asset, the status that its rule gives for the asset: this is what a reader of the table
  -- finds who takes the last row of a key.
  pub run_audit-IsMapped :
      (now : ℕ) (assets : List AuditedAsset) (mappings : List MappingRow) (alerts : List GapAlert)
      → IsKeyed assets
      → let b = (run_audit integrity_hash listed now assets mappings alerts).1 in
        All
          (λ x.
            listed x.1.0 x.1.1.control_id ≡ true
            → mapping_status x.1.0 x.1.1.control_id x.0.id b.mappings
              ≡ some (assess x.1.1.rule x.0).0)
          (work assets)
  unfolding run_audit
  run_audit-IsMapped now assets mappings alerts keyed =
      subst (λ b. All (λ x. IsMapped x b) (work assets))
        (sym (audit_assets-work integrity_hash listed now assets _))
        (each_reaches (audit_item integrity_hash listed now) (IsAudited assets) IsMapped
          (λ x s p. audit_item-IsMapped now x s) (audit_item_keeps-IsMapped now assets keyed)
          (work assets) (work-IsAudited assets assets (λ a m. m)) _)
