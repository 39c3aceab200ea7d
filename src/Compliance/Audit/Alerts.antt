-- ===== src/Compliance/Audit/Alerts.antt =====
-- The open alerts of an asset with a title, before and after one control is settled.
use mathlib.Core.Path.{subst}
use kepryx.Base.{
  ℕ, ◌+◌, ◌≤◌, ◌≡◌, refl, sym, ap, ◌∙◌, String, Bool, true, false, ◌&&◌, Option, none, some, List,
  [], ◌∷◌, map, keep, length, ◌==◌, ==_iff, both, str_eq, eq_iff, eq_refl, arith, Bool-cases, inl,
  inr, if◌then◌else◌, append,
}
use kepryx.Compliance.Catalog.{AuditedAsset}
use kepryx.Compliance.{Status, status_text}
use kepryx.Compliance.Audit.{
  GapAlert, is_compliant, is_open_gap, resolve, renew, is_alerting, settle,
}

-- How many open alerts an asset has with a title.
pub open_count : ℕ → String → List GapAlert → ℕ
open_count i t alerts = length (keep (is_open_gap i t) alerts)

pub is_about : ℕ → String → ℕ → String → Bool
is_about i t j u = i == j && str_eq t u

pub is_about_parts :
    (i : ℕ) (t : String) (j : ℕ) (u : String) → is_about i t j u ≡ true → (i ≡ j) × (t ≡ u)
unfolding is_about
is_about_parts i t j u h =
    let (p, q) = both (i == j) (str_eq t u) h in ((==_iff i j).0 p, (eq_iff t u).0 q)

has_asset : ℕ → Option ℕ → Bool
has_asset i o = elim o [ none ↦ false | some j ↦ j == i ]

is_open_gap_parts :
    (i : ℕ) (t : String) (r : GapAlert)
    → is_open_gap i t r ≡ true
    → (r.asset_id ≡ some i) × (r.title ≡ t)
unfolding is_open_gap has_asset
is_open_gap_parts i t r h =
    let (p, q) =
      both (str_eq r.alert_type "compliance_gap" && has_asset i r.asset_id && str_eq r.title t)
        (str_eq r.status "open") h in
    let (u, v) =
      both (str_eq r.alert_type "compliance_gap" && has_asset i r.asset_id) (str_eq r.title t) p in
    (owner r.asset_id (both (str_eq r.alert_type "compliance_gap") _ u).1, (eq_iff r.title t).0 v)
  where
    owner : (o : Option ℕ) → has_asset i o ≡ true → o ≡ some i
    owner none k = cc
    owner (some j) k = ap (λ x. some x) ((==_iff j i).0 k)

module _ (i : ℕ) (t : String) (j : ℕ) (u : String) where
  is_open_gap_apart :
      (r : GapAlert)
      → is_about i t j u ≡ false
      → is_open_gap j u r ≡ true
      → is_open_gap i t r ≡ false
  unfolding is_about
  is_open_gap_apart r apart h = elim (Bool-cases (is_open_gap i t r)) [
    | inr no_ ↦ no_
    | inl yes_ ↦
        let (a, b) = is_open_gap_parts i t r yes_ in
        let (c, d) = is_open_gap_parts j u r h in
        let e : some i ≡ some j = sym a ∙ c in
        let same_id : (i == j) ≡ true = (==_iff i j).1 (cc) in
        let same_title : str_eq t u ≡ true = (eq_iff t u).1 (sym b ∙ d) in
        let both_ : is_about i t j u ≡ true = rw (same_id, same_title) refl in cc
  ]

closed :
    (now : ℕ) (i : ℕ) (t : String) (r : GapAlert)
    → is_open_gap i t (record r {
      status = "resolved";
      resolved_at = some now;
      resolved_by = some "compliance_audit";
    })
      ≡ false
unfolding is_open_gap
closed now i t r = and_false _
  where
    and_false : (b : Bool) → (b && false) ≡ false
    and_false true = refl
    and_false false = refl

described :
    (i : ℕ) (t d : String) (r : GapAlert)
    → is_open_gap i t (record r { description = d }) ≡ is_open_gap i t r
unfolding is_open_gap
described i t d r = refl

open_count-cons :
    (i : ℕ) (t : String) (r : GapAlert) (rs : List GapAlert)
    → open_count i t (r ∷ rs) ≡ (if is_open_gap i t r then 1 else 0) + open_count i t rs
unfolding open_count
open_count-cons i t r rs = elim (Bool-cases (is_open_gap i t r)) [
  | inl yes_ ↦ rw (yes_) (omega arith)
  | inr no_ ↦ rw (no_) (omega arith)
]

open_count-congr :
    (i : ℕ) (t : String) (r s : GapAlert) (rs ss : List GapAlert)
    → is_open_gap i t r ≡ is_open_gap i t s
    → open_count i t rs ≡ open_count i t ss
    → open_count i t (r ∷ rs) ≡ open_count i t (s ∷ ss)
open_count-congr i t r s rs ss p q =
    open_count-cons i t r rs ∙ rw (p, q) (sym (open_count-cons i t s ss))

resolve-is_open_gap :
    (now i j : ℕ) (t u : String) (r : GapAlert)
    → is_about i t j u ≡ false
    → is_open_gap i t (resolve now j u r) ≡ is_open_gap i t r
unfolding resolve
resolve-is_open_gap now i j t u r apart = elim (Bool-cases (is_open_gap j u r)) [
  | inl yes_ ↦ rw yes_ (closed now i t r ∙ sym (is_open_gap_apart i t j u r apart yes_))
  | inr no_ ↦ rw no_ refl
]

resolve_own : (now i : ℕ) (t : String) (r : GapAlert) → is_open_gap i t (resolve now i t r) ≡ false
unfolding resolve
resolve_own now i t r = elim (Bool-cases (is_open_gap i t r)) [
  | inl yes_ ↦ rw yes_ (closed now i t r)
  | inr no_ ↦ rw (no_) no_
]

resolve_all :
    (now i : ℕ) (t : String) (rs : List GapAlert) → open_count i t (map (resolve now i t) rs) ≡ 0
unfolding open_count
resolve_all now i t [] = refl
resolve_all now i t (r ∷ rs) = rw (resolve_own now i t r) (resolve_all now i t rs)

resolve_apart :
    (now i j : ℕ) (t u : String) (rs : List GapAlert)
    → is_about i t j u ≡ false
    → open_count i t (map (resolve now j u) rs) ≡ open_count i t rs
resolve_apart now i j t u [] apart = refl
resolve_apart now i j t u (r ∷ rs) apart =
    open_count-congr i t (resolve now j u r) r (map (resolve now j u) rs) rs
      (resolve-is_open_gap now i j t u r apart) (resolve_apart now i j t u rs apart)

-- The row that is added where none was found.
abbrev fresh : ℕ → String → String → GapAlert
fresh i t d = record {
  alert_type = "compliance_gap";
  asset_id = some i;
  title = t;
  description = d;
  status = "open";
  resolved_at = none;
  resolved_by = none;
}

fresh_open : (i : ℕ) (t d : String) → is_open_gap i t (fresh i t d) ≡ true
unfolding is_open_gap
fresh_open i t d = rw (eq_refl t, (==_iff i i).1 refl) refl

renew-cons :
    (i : ℕ) (t d : String) (r : GapAlert) (rs : List GapAlert)
    → renew i t d (r ∷ rs)
      ≡ (if is_open_gap i t r then record r { description = d } ∷ rs else r ∷ renew i t d rs)
unfolding renew
renew-cons i t d r rs = refl

renew_own : (i : ℕ) (t d : String) (rs : List GapAlert) → 1 ≤ open_count i t (renew i t d rs)
unfolding renew
renew_own i t d [] =
    let e : open_count i t (fresh i t d ∷ []) ≡ 1 + open_count i t [] =
      open_count-cons i t (fresh i t d) []
      ∙ ap (λ b. (if b then 1 else 0) + open_count i t []) (fresh_open i t d) in
    subst (λ n. 1 ≤ n) (sym e) (omega arith)
renew_own i t d (r ∷ rs) = elim (Bool-cases (is_open_gap i t r)) [
  | inl yes_ ↦ rw yes_ (
      rw (open_count-cons i t (record r { description = d }) rs, described i t d r, yes_)
        (omega arith))
  | inr no_ ↦
      rw no_ (rw (open_count-cons i t r (renew i t d rs)) (omega (arith, renew_own i t d rs)))
]

renew_apart :
    (i j : ℕ) (t u d : String) (rs : List GapAlert)
    → is_about i t j u ≡ false
    → open_count i t (renew j u d rs) ≡ open_count i t rs
unfolding renew
renew_apart i j t u d [] apart =
    open_count-cons i t (fresh j u d) []
    ∙ rw (is_open_gap_apart i t j u (fresh j u d) apart (fresh_open j u d)) (omega arith)
renew_apart i j t u d (r ∷ rs) apart = elim (Bool-cases (is_open_gap j u r)) [
  | inl yes_ ↦
      rw yes_ (open_count-congr i t (record r { description = d }) r rs rs (described i t d r) refl)
  | inr no_ ↦
      rw no_ (open_count-congr i t r r (renew j u d rs) rs refl (renew_apart i j t u d rs apart))
]

-- The alerts of other assets and titles are left alone.
pub settle_apart :
    (now : ℕ) (a : AuditedAsset) (i : ℕ) (t u d : String) (s : Status) (rs : List GapAlert)
    → is_about i t a.id u ≡ false
    → open_count i t (settle now a u d s rs) ≡ open_count i t rs
unfolding settle
settle_apart now a i t u d s rs apart = elim (Bool-cases (is_compliant s)) [
  | inl yes_ ↦ rw yes_ (resolve_apart now i a.id t u rs apart)
  | inr no_ ↦ elim (Bool-cases (is_alerting a)) [
    | inl high ↦
        rw (no_, high) (renew_apart i a.id t u (append d (append " — " (status_text s))) rs apart)
    | inr low ↦ rw (no_, low) refl
  ]
]

-- The alerts of the asset and title agree with the status.
pub record IsPosted (a : AuditedAsset) (t : String) (s : Status) (rs : List GapAlert) : Type 0 where
  pub closed : is_compliant s ≡ true → open_count a.id t rs ≡ 0
  pub raised : is_compliant s ≡ false → is_alerting a ≡ true → 1 ≤ open_count a.id t rs

pub settle-IsPosted :
    (now : ℕ) (a : AuditedAsset) (t d : String) (s : Status) (rs : List GapAlert)
    → IsPosted a t s (settle now a t d s rs)
unfolding settle
settle-IsPosted now a t d s rs = record {
  closed = λ h. rw h (resolve_all now a.id t rs);
  raised = λ h k. rw (h, k) (renew_own a.id t (append d (append " — " (status_text s))) rs);
}

pub IsPosted-settle :
    (now : ℕ) (a b : AuditedAsset) (t u d : String) (s r : Status) (rs : List GapAlert)
    → is_about a.id t b.id u ≡ false
    → IsPosted a t s rs
    → IsPosted a t s (settle now b u d r rs)
IsPosted-settle now a b t u d s r rs apart p =
    let e = settle_apart now b a.id t u d r rs apart in
    record { closed = λ h. e ∙ p.closed h; raised = λ h k. rw e (p.raised h k) }
