-- ===== src/Compliance/Audit/Work.antt =====
-- The nested loops of an audit as one loop over all pairs of an asset and a control.
use kepryx.Base.{
  In, inl, inr, ℕ, ◌≡◌, refl, sym, ap, ◌∙◌, String, Bool, true, false, Option, none, some, List, [],
  ◌∷◌, ◌++◌, map, All, ◌&&◌, str_eq, append, append_assoc, append_cancel, each, flat, each-flat,
  each_ext, each-map, if◌then◌else◌,
}
use kepryx.Compliance.Catalog.{
  AuditedAsset, Field, Observed, ControlRule, Control, framework_catalogs,
}
use kepryx.Compliance.{Status, assess}
use kepryx.Compliance.Audit.{Books, gap_title, audit_control, audit_found, audit_assets}

abbrev pub Entry : Type 0
Entry = String × Control

abbrev pub catalog : List Entry
catalog = flat (λ f. map (λ c. (f.code, c)) f.controls) framework_catalogs

abbrev pub Item : Type 0
Item = AuditedAsset × Entry

pub work : List AuditedAsset → List Item
work assets = flat (λ a. map (λ e. (a, e)) catalog) assets

-- The rule of a control, `CONTROL_RULES[framework][control_id]`.
find_rule : String → String → List Entry → Option ControlRule
find_rule f i [] = none
find_rule f i ((g, c) ∷ rest) =
    let later = find_rule f i rest in
    if str_eq g f && str_eq c.control_id i then some c.rule else later

pub InCatalog : Entry → Type 0
InCatalog e = find_rule e.0 e.1.control_id catalog ≡ some e.1.rule

catalog-InCatalog : All InCatalog catalog
unfolding InCatalog find_rule
catalog-InCatalog = (
  refl,
  (
    refl,
    (refl, (refl, (refl, (refl, (refl, (refl, (refl, (refl, (refl, (refl, (refl, tt))))))))))),
  ),
)

-- What an alert's title says of the control, before the name of the asset.
head_of : String → String → String
head_of f c = append "Compliance gap: " (append f (append " " (append c " on ")))

gap_title-head_of : (f c name : String) → gap_title f c name ≡ append (head_of f c) name
unfolding gap_title head_of
gap_title-head_of f c name = sym (
    append_assoc "Compliance gap: " (append f (append " " (append c " on "))) name
    ∙ ap (append "Compliance gap: ") (
        append_assoc f (append " " (append c " on ")) name
        ∙ ap (append f) (
            append_assoc " " (append c " on ") name
            ∙ ap (append " ") (append_assoc c " on " name))))

find_head : String → List Entry → Option ControlRule
unfolding head_of
find_head t [] = none
find_head t ((f, c) ∷ rest) =
    let later = find_head t rest in if str_eq (head_of f c.control_id) t then some c.rule else later

pub IsTitled : Entry → Type 0
IsTitled e = find_head (head_of e.0 e.1.control_id) catalog ≡ some e.1.rule

catalog-IsTitled : All IsTitled catalog
unfolding IsTitled find_head
catalog-IsTitled = (
  refl,
  (
    refl,
    (refl, (refl, (refl, (refl, (refl, (refl, (refl, (refl, (refl, (refl, (refl, tt))))))))))),
  ),
)

-- Two controls of the catalogues with one framework and identifier have one rule.
pub InCatalog-same :
    (e d : Entry)
    → InCatalog e
    → InCatalog d
    → e.0 ≡ d.0
    → e.1.control_id ≡ d.1.control_id
    → e.1.rule ≡ d.1.rule
unfolding InCatalog
InCatalog-same e d p q f c =
    let h : some e.1.rule ≡ some d.1.rule =
      sym p
      ∙ ap (λ x. find_rule x e.1.control_id catalog) f
      ∙ ap (λ x. find_rule d.0 x catalog) c
      ∙ q in
    cc

-- So have two whose alerts have one title.
pub IsTitled-same :
    (e d : Entry) (name : String)
    → IsTitled e
    → IsTitled d
    → gap_title e.0 e.1.control_id name ≡ gap_title d.0 d.1.control_id name
    → e.1.rule ≡ d.1.rule
unfolding IsTitled
IsTitled-same e d name p q t =
    let heads : head_of e.0 e.1.control_id ≡ head_of d.0 d.1.control_id = append_cancel _ _ name (
      sym (gap_title-head_of e.0 e.1.control_id name)
      ∙ t
      ∙ gap_title-head_of d.0 d.1.control_id name) in
    let h : some e.1.rule ≡ some d.1.rule = sym p ∙ ap (λ x. find_head x catalog) heads ∙ q in cc

-- What each pair of a run is known to be.
pub record IsAudited (assets : List AuditedAsset) (x : Item) : Type 0 where
  pub asset : In x.0 assets
  pub ruled : InCatalog x.1
  pub titled : IsTitled x.1

All-append : (P : Item → Type 0) (xs ys : List Item) → All P xs → All P ys → All P (xs ++ ys)
All-append P [] ys h k = k
All-append P (x ∷ xs) ys h k = (h.0, All-append P xs ys h.1 k)

catalog-IsAudited :
    (assets : List AuditedAsset) (a : AuditedAsset)
    → In a assets
    → (es : List Entry) → All InCatalog es
    → All IsTitled es
    → All (IsAudited assets) (map (λ e. (a, e)) es)
catalog-IsAudited assets a h [] p q = tt
catalog-IsAudited assets a h (e ∷ es) p q =
    (record { asset = h; ruled = p.0; titled = q.0 }, catalog-IsAudited assets a h es p.1 q.1)

pub work-IsAudited :
    (assets : List AuditedAsset) (some_of : List AuditedAsset)
    → ((a : AuditedAsset) → In a some_of → In a assets)
    → All (IsAudited assets) (work some_of)
unfolding work
work-IsAudited assets [] h = tt
work-IsAudited assets (a ∷ rest) h =
    All-append (IsAudited assets) (map (λ e. (a, e)) catalog) (work rest)
      (catalog-IsAudited assets a (h a (inl refl)) catalog catalog-InCatalog catalog-IsTitled)
      (work-IsAudited assets rest (λ b m. h b (inr m)))

abbrev pub status_of : Item → Status
status_of x = (assess x.1.1.rule x.0).0

module _ (integrity_hash : List (Field × Observed) → String) (listed : String → String → Bool) where
  pub audit_item : ℕ → Item → Books → Books
  audit_item now (a, (f, c)) b = audit_control integrity_hash listed now a f c b

  pub audit_assets-work :
      (now : ℕ) (assets : List AuditedAsset) (b : Books)
      → audit_assets integrity_hash listed now assets b ≡ each (audit_item now) (work assets) b
  unfolding audit_assets audit_item work
  audit_assets-work now assets b =
      each_ext (λ a b. each-catalog a b) assets b
      ∙ each-flat (audit_item now) (λ a. map (λ e. (a, e)) catalog) assets b
    where
      each-catalog :
          (a : AuditedAsset) (b : Books)
          → each
              (λ f. each (audit_control integrity_hash listed now a f.code) f.controls)
              framework_catalogs
              b
            ≡ each (audit_item now) (map (λ e. (a, e)) catalog) b
      each-catalog a b =
          let body : Entry → Books → Books =
            λ e. audit_control integrity_hash listed now a e.0 e.1 in
          each_ext (λ f s. each-map body (λ c. (f.code, c)) f.controls s) framework_catalogs b
          ∙ each-flat body (λ f. map (λ c. (f.code, c)) f.controls) framework_catalogs b
          ∙ each-map (audit_item now) (λ e. (a, e)) catalog b

  pub audit_item-listed :
      (now : ℕ) (x : Item) (b : Books)
      → listed x.1.0 x.1.1.control_id ≡ true
      → audit_item now x b ≡ audit_found integrity_hash listed now x.0 x.1.0 x.1.1 b
  unfolding audit_item audit_control
  audit_item-listed now x b h = rw h refl

  pub audit_item-unlisted :
      (now : ℕ) (x : Item) (b : Books)
      → listed x.1.0 x.1.1.control_id ≡ false
      → audit_item now x b ≡ b
  unfolding audit_item audit_control
  audit_item-unlisted now x b h = rw h refl
