-- ===== src/Risk/Monotone.antt =====
-- The score depends only on which vulnerabilities are present, and never falls when some are added.
use mathlib.Core.List.{Mem, mem-cons, not-mem-nil, mem-cons_of_mem, mem-cons_self}
use mathlib.Core.Logic.Or
use native.Mathlib.Bridge.{le_prop}
use mathlib.Core.Bool.{Bool-set}
use kepryx.Base.{
  ap, if◌then◌else◌, min, ◌&&◌, ℕ, ◌≤◌, ◌+◌, ◌≡◌, Bool, true, List, [], ◌∷◌, any, arith, Bool-cases,
  inl, inr,
}
use kepryx.Risk.{
  Cve, Asset, round_half_even, norm_cvss, norm_epss, cvss_of, epss_of, max_of, any_kev,
  any_ransomware, base_cve_score, cve_score_of, breakdown_of, compute_risk,
}
use kepryx.Risk.Bounds.{base_cve_score-IsFactor}

-- Every member of the first list is a member of the second.
abbrev pub Within : List Cve → List Cve → Type 0
Within xs ys = (c : Cve) → Mem c xs → Mem c ys

le-max_of : (f : Cve → ℕ) (c : Cve) (ys : List Cve) → Mem c ys → f c ≤ max_of f ys
unfolding max_of
le-max_of f c [] m = absurd (not-mem-nil m)
le-max_of f c (y ∷ ys) m =
    Or.elim le_prop (mem-cons.0 m) (λ e. rw e (omega arith))
      (λ t. omega (arith, le-max_of f c ys t))

max_of_mono : (f : Cve → ℕ) (xs ys : List Cve) → Within xs ys → max_of f xs ≤ max_of f ys
unfolding max_of
max_of_mono f [] ys h = omega arith
max_of_mono f (x ∷ xs) ys h = omega (
  arith,
  le-max_of f x ys (h x mem-cons_self),
  max_of_mono f xs ys (λ c m. h c (mem-cons_of_mem x m)),
)

-- Rounding half to even is monotone at the two divisors that are used.
round_20_mono : (a b : ℕ) → a ≤ b → round_half_even a 20 ≤ round_half_even b 20
unfolding round_half_even
round_20_mono a b h = ground arith

round_20000_mono : (a b : ℕ) → a ≤ b → round_half_even a 20000 ≤ round_half_even b 20000
unfolding round_half_even
round_20000_mono a b h = ground arith

norm_cvss_mono : (a b : ℕ) → a ≤ b → norm_cvss a ≤ norm_cvss b
unfolding norm_cvss
norm_cvss_mono a b h =
    let r : round_half_even a 20 ≤ round_half_even b 20 = round_20_mono a b h in omega arith

norm_epss_mono : (a b : ℕ) → a ≤ b → norm_epss a ≤ norm_epss b
unfolding norm_epss
norm_epss_mono a b h =
    let r : round_half_even a 20000 ≤ round_half_even b 20000 = round_20000_mono a b h in
    omega arith

any_of_mem : (p : Cve → Bool) (c : Cve) (ys : List Cve) → Mem c ys → p c ≡ true → any p ys ≡ true
any_of_mem p c [] m e = absurd (not-mem-nil m)
any_of_mem p c (y ∷ ys) m e =
    Or.elim (Bool-set _ _) (mem-cons.0 m) (λ q. ground (arith, ap p q))
      (λ t. ground (arith, any_of_mem p c ys t e))

any_mono : (p : Cve → Bool) (xs ys : List Cve) → Within xs ys → any p xs ≡ true → any p ys ≡ true
any_mono p [] ys h e = cc
any_mono p (x ∷ xs) ys h e = elim (Bool-cases (p x)) [
  | inl q ↦ any_of_mem p x ys (h x mem-cons_self) q
  | inr q ↦ any_mono p xs ys (λ c m. h c (mem-cons_of_mem x m)) (ground arith)
]

base_cve_score_mono : (xs ys : List Cve) → Within xs ys → base_cve_score xs ≤ base_cve_score ys
unfolding base_cve_score
base_cve_score_mono [] ys h = (base_cve_score-IsFactor ys).0
base_cve_score_mono (x ∷ xs) [] h = absurd (not-mem-nil (h x mem-cons_self))
base_cve_score_mono (x ∷ xs) (y ∷ ys) h =
    let v = norm_cvss_mono _ _ (max_of_mono cvss_of (x ∷ xs) (y ∷ ys) h) in
    let e = norm_epss_mono _ _ (max_of_mono epss_of (x ∷ xs) (y ∷ ys) h) in omega arith

boost : Bool → ℕ → ℕ
boost b n = if b then min 5 (n + 1) else n

boost_mono : (b c : Bool) (m n : ℕ) → (b ≡ true → c ≡ true) → m ≤ n → n ≤ 5 → boost b m ≤ boost c n
unfolding boost
boost_mono b c m n h le top = ground arith

cve_score_of_mono : (xs ys : List Cve) → Within xs ys → cve_score_of xs ≤ cve_score_of ys
unfolding cve_score_of boost
cve_score_of_mono xs ys h =
    boost_mono (any_ransomware xs) (any_ransomware ys) (base_cve_score xs) (base_cve_score ys)
      (any_mono (λ c. c.kev && c.kev_ransomware) xs ys h) (base_cve_score_mono xs ys h)
      (base_cve_score-IsFactor ys).1

kev_mono : (b c : Bool) → (b ≡ true → c ≡ true) → (if b then 5 else 1) ≤ (if c then 5 else 1)
kev_mono b c h = ground arith

-- Two assets that differ only in their vulnerabilities: if every one of the first is one of the
-- second's, the first scores no higher. So a vulnerability that is added never lowers the score,
-- and order and repetition do not matter.
pub score_mono :
    (a : Asset) (cs : List Cve)
    → Within a.cves cs
    → (compute_risk a).score ≤ (compute_risk (record a { cves = cs })).score
unfolding compute_risk breakdown_of
score_mono a cs h =
    let c = cve_score_of_mono a.cves cs h in
    let k =
      kev_mono (any_kev a.cves) (any_kev cs)
        (unfold any_kev in any_mono (λ c. c.kev) a.cves cs h) in
    omega arith
