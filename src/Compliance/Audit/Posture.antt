-- ===== src/Compliance/Audit/Posture.antt =====
-- The open alerts of an audited asset and control agree with its status.
use mathlib.Core.Path.{subst}
use kepryx.Base.{
  ℕ, ◌≡◌, refl, sym, ap, ◌∙◌, String, Bool, true, List, All, each_reaches, Bool-cases, inl, inr,
}
use kepryx.Compliance.Catalog.{AuditedAsset, Field, Observed}
use kepryx.Compliance.{assess}
use kepryx.Compliance.Audit.{
  Books, MappingRow, GapAlert, settle, gap_title, audit_found, run_audit, result_row,
}
use kepryx.Compliance.Audit.Work.{
  Item, work, status_of, audit_item, audit_item-listed, audit_item-unlisted, audit_assets-work,
  IsTitled-same, IsAudited, work-IsAudited,
}
use kepryx.Compliance.Audit.Mappings.{IsKeyed}
use kepryx.Compliance.Audit.Alerts.{
  is_about, is_about_parts, IsPosted, settle-IsPosted, IsPosted-settle,
}

title_of : Item → String
title_of x = gap_title x.1.0 x.1.1.control_id x.0.name

module _ (integrity_hash : List (Field × Observed) → String) (listed : String → String → Bool) where
  abbrev Agrees : Item → Books → Type 0
  Agrees x b =
      listed x.1.0 x.1.1.control_id ≡ true
      → IsPosted x.0 (gap_title x.1.0 x.1.1.control_id x.0.name) (status_of x) b.alerts

  audit_found-alerts :
      (now : ℕ) (x : Item) (b : Books)
      → (audit_found integrity_hash listed now x.0 x.1.0 x.1.1 b).alerts
        ≡ settle now x.0
            (gap_title x.1.0 x.1.1.control_id x.0.name)
            x.1.1.rule.desc
            (status_of x)
            b.alerts
  unfolding audit_found result_row
  audit_found-alerts now x b = refl

  audit_item-alerts :
      (now : ℕ) (x : Item) (b : Books)
      → listed x.1.0 x.1.1.control_id ≡ true
      → (audit_item integrity_hash listed now x b).alerts
        ≡ settle now x.0
            (gap_title x.1.0 x.1.1.control_id x.0.name)
            x.1.1.rule.desc
            (status_of x)
            b.alerts
  audit_item-alerts now x b h =
      ap (λ c. c.alerts) (audit_item-listed integrity_hash listed now x b h)
      ∙ audit_found-alerts now x b

  audit_item-Agrees :
      (now : ℕ) (x : Item) (b : Books) → Agrees x (audit_item integrity_hash listed now x b)
  audit_item-Agrees now x b h =
      subst (IsPosted x.0 (gap_title x.1.0 x.1.1.control_id x.0.name) (status_of x))
        (sym (audit_item-alerts now x b h))
        (settle-IsPosted now x.0 (gap_title x.1.0 x.1.1.control_id x.0.name) x.1.1.rule.desc
          (status_of x) b.alerts)

  settled :
      (now : ℕ) (assets : List AuditedAsset)
      → IsKeyed assets
      → (x y : Item) (rs : List GapAlert) → IsAudited assets x
      → IsAudited assets y
      → IsPosted x.0 (title_of x) (status_of x) rs
      → IsPosted x.0
          (title_of x)
          (status_of x)
          (settle now y.0 (title_of y) y.1.1.rule.desc (status_of y) rs)
  unfolding title_of
  settled now assets keyed x y rs p q h =
      elim (Bool-cases (is_about x.0.id (title_of x) y.0.id (title_of y))) [
        | inr apart ↦
            IsPosted-settle now x.0 y.0 (title_of x) (title_of y) y.1.1.rule.desc (status_of x)
              (status_of y) rs apart h
        | inl same ↦
            let (i, t) = is_about_parts x.0.id (title_of x) y.0.id (title_of y) same in
            let one_asset : x.0 ≡ y.0 = keyed x.0 y.0 p.asset q.asset i in
            let titles : gap_title x.1.0 x.1.1.control_id x.0.name
                ≡ gap_title y.1.0 y.1.1.control_id x.0.name =
              t ∙ ap (λ a. gap_title y.1.0 y.1.1.control_id a.name) (sym one_asset) in
            let rules = IsTitled-same x.1 y.1 x.0.name p.titled q.titled titles in
            let statuses : status_of y ≡ status_of x =
              ap (λ r. (assess r y.0).0) (sym rules)
              ∙ ap (λ a. (assess x.1.1.rule a).0) (sym one_asset) in
            let left = settle now y.0 (title_of y) y.1.1.rule.desc (status_of y) rs in
            subst (λ s. IsPosted x.0 (title_of x) s left) statuses
              (subst (λ u. IsPosted x.0 u (status_of y) left) (sym t)
                (subst (λ a. IsPosted a (title_of y) (status_of y) left) (sym one_asset)
                  (settle-IsPosted now y.0 (title_of y) y.1.1.rule.desc (status_of y) rs)))
      ]

  audit_item_keeps-Agrees :
      (now : ℕ) (assets : List AuditedAsset)
      → IsKeyed assets
      → (x y : Item) (b : Books) → IsAudited assets x
      → IsAudited assets y
      → Agrees x b
      → Agrees x (audit_item integrity_hash listed now y b)
  unfolding title_of
  audit_item_keeps-Agrees now assets keyed x y b p q m h =
      elim (Bool-cases (listed y.1.0 y.1.1.control_id)) [
        | inr no_ ↦
            subst (λ c. IsPosted x.0 (title_of x) (status_of x) c.alerts)
              (sym (audit_item-unlisted integrity_hash listed now y b no_)) (m h)
        | inl yes_ ↦
            subst (IsPosted x.0 (title_of x) (status_of x)) (sym (audit_item-alerts now y b yes_))
              (settled now assets keyed x y b.alerts p q (m h))
      ]

  -- After a run over assets of distinct identifiers, for each asset and each active control of the
  -- catalogues: if the asset complies, no alert of that gap is open; if it does not and its
  -- criticality is high, critical or tier-1, at least one is.
  pub run_audit-IsPosted :
      (now : ℕ) (assets : List AuditedAsset) (mappings : List MappingRow) (alerts : List GapAlert)
      → IsKeyed assets
      → let b = (run_audit integrity_hash listed now assets mappings alerts).1 in
        All
          (λ x.
            listed x.1.0 x.1.1.control_id ≡ true
            → IsPosted x.0
                (gap_title x.1.0 x.1.1.control_id x.0.name)
                (assess x.1.1.rule x.0).0
                b.alerts)
          (work assets)
  unfolding run_audit
  run_audit-IsPosted now assets mappings alerts keyed =
      subst (λ b. All (λ x. Agrees x b) (work assets))
        (sym (audit_assets-work integrity_hash listed now assets _))
        (each_reaches (audit_item integrity_hash listed now) (IsAudited assets) Agrees
          (λ x s p. audit_item-Agrees now x s) (audit_item_keeps-Agrees now assets keyed)
          (work assets) (work-IsAudited assets assets (λ a m. m)) _)
