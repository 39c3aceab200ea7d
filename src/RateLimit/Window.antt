-- ===== src/RateLimit/Window.antt =====
-- How many requests of one subject pass in a window.
use kepryx.Base.{
  ℕ, suc, ◌+◌, ◌-◌, ◌*◌, ◌≤◌, ◌<◌, ◌≡◌, ◌≢◌, ap, ◌∙◌, min, true, false, Option, none, some, List,
  [], ◌∷◌, All, length, ltb, ◌==◌, arith, Bool-cases, Option-cases, inl, inr, if◌then◌else◌,
}
use mathlib.Core.Path.{subst}
use kepryx.Counters.{Counters, BucketKey}
use kepryx.RateLimit.{
  Verdict, failed, within, over, over_limit, judge_count, after_expire, after_incr, count_request,
}

-- The number of requests that pass.
pub passed : List Verdict → ℕ
passed [] = 0
passed (within ∷ vs) = suc (passed vs)
passed (failed ∷ vs) = passed vs
passed (over t ∷ vs) = passed vs

module _ (C : Counters) (limit window : ℕ) (k : BucketKey) where
  open C use {State, bucket, incr, expire, ttl}

  -- The requests of one subject, in the order in which Redis serves them.
  unfoldable pub serve : List ℕ → State → List Verdict
  serve [] s = []
  serve (now ∷ later) s = let (v, s') = count_request C now limit window k s in v ∷ serve later s'

  abbrev Before : Option ℕ → ℕ → Type 0
  Before none t = Unit
  Before (some d) t = t < d

  -- The times are in order, and before the deadline if there is one.
  abbrev pub InOrder : ℕ → Option ℕ → List ℕ → Type 0
  InOrder u dl [] = Unit
  InOrder u dl (t ∷ ts) = (u ≤ t) × Before dl t × InOrder t dl ts

  abbrev Standing : ℕ → Option ℕ → ℕ → State → Type 0
  Standing n dl u s =
      (t : ℕ) → u ≤ t → Before dl t → bucket s t k ≡ some (record { count = n; deadline = dl })

  judge_count-state : (now count : ℕ) (s : State) → (judge_count C now limit k count s).1 ≡ s
  unfolding judge_count
  judge_count-state now count s = ground arith

  judge_count-over :
      (now count : ℕ) (s : State)
      → limit < count
      → (judge_count C now limit k count s).0 ≡ within
      → ⊥
  unfolding judge_count over_limit
  judge_count-over now count s h e = ground arith

  judge_count-within :
      (now count : ℕ) (s : State) → count ≤ limit → (judge_count C now limit k count s).0 ≡ within
  unfolding judge_count
  judge_count-within now count s h = ground arith

  -- One more request on a bucket that already counts.
  old_verdict :
      (now m : ℕ) (s : State)
      → (incr now k s).0 ≡ some m
      → 1 < m
      → count_request C now limit window k s ≡ judge_count C now limit k m (incr now k s).1
  unfolding count_request after_incr
  old_verdict now m s e h =
      let other : (m == 1) ≡ false = ground arith in rw (e, after_incr) (rw other)

  new_verdict :
      (now : ℕ) (s : State)
      → (incr now k s).0 ≡ some 1
      → count_request C now limit window k s
        ≡ after_expire C now limit k 1 (expire now k window (incr now k s).1)
  unfolding count_request after_incr
  new_verdict now s e = rw (e, after_incr)

  lost_verdict :
      (now : ℕ) (s : State)
      → (incr now k s).0 ≡ none
      → (count_request C now limit window k s).0 ≡ failed
  unfolding count_request after_incr
  lost_verdict now s e = rw (e, after_incr)

  -- What a request that Redis answers adds to the requests that passed.
  weight : ℕ → ℕ
  weight m = if ltb limit m then 0 else 1

  passed-judge :
      (now m : ℕ) (s : State) (vs : List Verdict)
      → passed ((judge_count C now limit k m s).0 ∷ vs) ≡ weight m + passed vs
  unfolding judge_count over_limit passed weight
  passed-judge now m s vs = ground arith

  Standing-incr :
      (n u now m : ℕ) (dl : Option ℕ) (s : State)
      → Standing n dl u s
      → u ≤ now
      → Before dl now
      → (incr now k s).0 ≡ some m
      → (m ≡ n + 1) × Standing (n + 1) dl now (incr now k s).1
  Standing-incr n u now m none s st le b e =
      let o = C.incr_old now m k s (record { count = n; deadline = none }) (st now le tt) e in
      (o.0, λ t lo _. o.1 t lo (λ d q. cc))
  Standing-incr n u now m (some d) s st le b e =
      let o = C.incr_old now m k s (record { count = n; deadline = some d }) (st now le b) e in
      (o.0, λ t lo lt. o.1 t lo (λ d' q. let same : d ≡ d' = cc in subst (λ x. t < x) same lt))

  serve-old :
      (now m : ℕ) (ts : List ℕ) (s : State)
      → (incr now k s).0 ≡ some m
      → 1 < m
      → serve (now ∷ ts) s
        ≡ (judge_count C now limit k m (incr now k s).1).0 ∷ serve ts (incr now k s).1
  unfolding serve
  serve-old now m ts s e h = rw (old_verdict now m s e h) (
      ap (λ x. (judge_count C now limit k m (incr now k s).1).0 ∷ serve ts x)
        (judge_count-state now m (incr now k s).1))

  step_total :
      (now n : ℕ) (ts : List ℕ) (s : State)
      → (incr now k s).0 ≡ some (n + 1)
      → 1 ≤ n
      → passed (serve (now ∷ ts) s) ≡ weight (n + 1) + passed (serve ts (incr now k s).1)
  step_total now n ts s e pos =
      rw (serve-old now (n + 1) ts s e (omega arith))
        (passed-judge now (n + 1) (incr now k s).1 (serve ts (incr now k s).1))

  weight-min : (n len : ℕ) → weight (n + 1) + min (limit - (n + 1)) len ≡ min (limit - n) (suc len)
  unfolding weight
  weight-min n len = ground arith

  -- From a bucket that counts `n`, all the requests together pass `limit - n` times.
  passed-serve :
      (n u : ℕ) (dl : Option ℕ) (ts : List ℕ) (s : State)
      → 1 ≤ n
      → Standing n dl u s
      → InOrder u dl ts
      → All (λ v. v ≢ failed) (serve ts s)
      → passed (serve ts s) ≡ min (limit - n) (length ts)
  passed-serve n u dl [] s pos st order answered = unfold serve passed in omega arith
  passed-serve n u dl (now ∷ ts) s pos st (le, b, order) answered =
      elim (Option-cases (incr now k s).0) [
        | inl e ↦
            let first : (count_request C now limit window k s).0 ≢ failed =
              unfold serve in answered.0 in
            absurd (first (lost_verdict now s e))
        | inr (m, e) ↦
            let (q, standing) = Standing-incr n u now m dl s st le b e in
            let e' : (incr now k s).0 ≡ some (n + 1) = rw (← q) e in
            let tail_answered : All (λ v. v ≢ failed) (serve ts (incr now k s).1) =
              (subst (All (λ v. v ≢ failed)) (serve-old now (n + 1) ts s e' (omega arith))
                answered).1 in
            step_total now n ts s e' pos
            ∙ ap (λ x. weight (n + 1) + x)
                (passed-serve (n + 1) now dl ts (incr now k s).1 (omega arith) standing order
                  tail_answered)
            ∙ weight-min n (length ts)
      ]

  -- A first EXPIRE that is answered starts the window.
  Standing-first :
      (now : ℕ) (s : State)
      → bucket s now k ≡ none
      → (incr now k s).0 ≡ some 1
      → (expire now k window (incr now k s).1).0 ≡ true
      → Standing 1 (some (now + window * 1000)) now (expire now k window (incr now k s).1).1
  Standing-first now s fresh e x =
      let b = (C.incr_new now 1 k s fresh e).1 now (omega arith) in
      λ t lo lt.
        C.expire_done now k window (incr now k s).1 (record { count = 1; deadline = none }) b x t lo
          lt

  first_step :
      (now : ℕ) (ts : List ℕ) (s : State)
      → (incr now k s).0 ≡ some 1
      → (expire now k window (incr now k s).1).0 ≡ true
      → serve (now ∷ ts) s
        ≡ (judge_count C now limit k 1 (expire now k window (incr now k s).1).1).0
          ∷ serve ts (expire now k window (incr now k s).1).1
  unfolding serve after_expire
  first_step now ts s e x = rw (new_verdict now s e) (
      rw (x, after_expire)
        (ap
          (λ y.
            (judge_count C now limit k 1 (expire now k window (incr now k s).1).1).0 ∷ serve ts y)
          (judge_count-state now 1 (expire now k window (incr now k s).1).1)))

  failed_first :
      (now : ℕ) (s : State)
      → (incr now k s).0 ≡ some 1
      → (expire now k window (incr now k s).1).0 ≡ false
      → count_request C now limit window k s ≡ (failed, (expire now k window (incr now k s).1).1)
  unfolding after_expire
  failed_first now s e x = new_verdict now s e ∙ (rw (x, after_expire))

  head_answered :
      (now : ℕ) (ts : List ℕ) (s : State)
      → All (λ v. v ≢ failed) (serve (now ∷ ts) s)
      → (count_request C now limit window k s).0 ≢ failed
  unfolding serve
  head_answered now ts s a = a.0

  window_from_one :
      (now : ℕ) (ts : List ℕ) (s : State)
      → bucket s now k ≡ none
      → InOrder now (some (now + window * 1000)) ts
      → All (λ v. v ≢ failed) (serve (now ∷ ts) s)
      → (incr now k s).0 ≡ some 1
      → (expire now k window (incr now k s).1).0 ≡ true
      → passed (serve (now ∷ ts) s) ≡ min limit (suc (length ts))
  window_from_one now ts s fresh order answered e x =
      let s2 = (expire now k window (incr now k s).1).1 in
      let eq = first_step now ts s e x in
      let rest : All (λ v. v ≢ failed) (serve ts s2) =
        (subst (All (λ v. v ≢ failed)) eq answered).1 in
      ap passed eq
      ∙ passed-judge now 1 s2 (serve ts s2)
      ∙ ap (λ y. weight 1 + y)
          (passed-serve 1 now (some (now + window * 1000)) ts s2 (omega arith)
            (Standing-first now s fresh e x) order rest)
      ∙ weight_min_zero (length ts)
    where
      weight_min_zero : (len : ℕ) → weight 1 + min (limit - 1) len ≡ min limit (suc len)
      weight_min_zero len = unfold weight in ground arith

  -- If the bucket of a subject is empty at the first request, the later ones come in order and before
  -- the end of the window, and every call of Redis is answered, then as many requests pass as there
  -- are, up to the limit.
  pub window_limit :
      (now : ℕ) (ts : List ℕ) (s : State)
      → bucket s now k ≡ none
      → InOrder now (some (now + window * 1000)) ts
      → All (λ v. v ≢ failed) (serve (now ∷ ts) s)
      → passed (serve (now ∷ ts) s) ≡ min limit (suc (length ts))
  window_limit now ts s fresh order answered = elim (Option-cases (incr now k s).0) [
    | inl e ↦ absurd (head_answered now ts s answered (lost_verdict now s e))
    | inr (m, e) ↦
        let one : (incr now k s).0 ≡ some 1 = rw (← (C.incr_new now m k s fresh e).0) e in
        elim (Bool-cases (expire now k window (incr now k s).1).0) [
          | inl x ↦ window_from_one now ts s fresh order answered one x
          | inr x ↦
              absurd (head_answered now ts s answered (ap (λ r. r.0) (failed_first now s one x)))
        ]
  ]
