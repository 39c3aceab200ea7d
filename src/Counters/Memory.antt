-- ===== src/Counters/Memory.antt =====
-- Counters kept as what they show at each later time, with an EXPIRE that works or always raises.
use kepryx.Base.{
  ℕ, ◌+◌, ◌*◌, ◌≤◌, ◌<◌, ◌≡◌, refl, Bool, true, false, ◌&&◌, Option, none, some, ltb, lt→ltb,
  str_eq, eq_refl, if◌then◌else◌,
}
use kepryx.Counters.{Counters, BucketKey, per_user, per_ip, Bucket, no_deadline}

abbrev pub Shown : Type 0
Shown = ℕ → BucketKey → Option Bucket

unfoldable pub same_key : BucketKey → BucketKey → Bool
same_key (per_user a b) (per_user c d) = str_eq a c && str_eq b d
same_key (per_ip a b) (per_ip c d) = str_eq a c && str_eq b d
same_key _ _ = false

same_key_refl : (k : BucketKey) → same_key k k ≡ true
unfolding same_key
same_key_refl (per_user a b) = rw (eq_refl a, eq_refl b)
same_key_refl (per_ip a b) = rw (eq_refl a, eq_refl b)

unfoldable pub alive : Option ℕ → ℕ → Bool
alive none t = true
alive (some d) t = ltb t d

unfoldable pub bumped : Option Bucket → ℕ → Option Bucket
unfolding alive
bumped none t = some (record { count = 1; deadline = none })
bumped (some b) t = if alive b.deadline t then some (record b { count = b.count + 1 }) else none

unfoldable pub next_count : Option Bucket → ℕ
next_count none = 1
next_count (some b) = b.count + 1

unfoldable pub incr : ℕ → BucketKey → Shown → Option ℕ × Shown
unfolding bumped next_count same_key
incr now k s =
    (some (next_count (s now k)), λ t j. if same_key j k then bumped (s now k) t else s t j)

unfoldable pub windowed : Option Bucket → ℕ → ℕ → Option Bucket
windowed none d t = none
windowed (some b) d t = if ltb t d then some (record b { deadline = some d }) else none

unfoldable pub expire : Bool → ℕ → BucketKey → ℕ → Shown → Bool × Shown
unfolding windowed same_key
expire true now k window s =
    (true, λ t j. if same_key j k then windowed (s now k) (now + window * 1000) t else s t j)
expire false now k window s = (false, s)

alive_before : (o : Option ℕ) (t : ℕ) → ((d : ℕ) → o ≡ some d → t < d) → alive o t ≡ true
unfolding alive
alive_before none t h = refl
alive_before (some d) t h = lt→ltb t d (h d refl)

pub incr_new :
    (now n : ℕ) (k : BucketKey) (s : Shown)
    → s now k ≡ none
    → (incr now k s).0 ≡ some n
    → (n ≡ 1)
      × ((t : ℕ) → now ≤ t → (incr now k s).1 t k ≡ some (record { count = 1; deadline = none }))
unfolding incr bumped next_count
incr_new now n k s e h =
    let one : some n ≡ some 1 = rw (← h, e, next_count) in
    (cc one, λ t le. rw (same_key_refl k) (rw (e, bumped)))

pub incr_old :
    (now n : ℕ) (k : BucketKey) (s : Shown) (b : Bucket)
    → s now k ≡ some b
    → (incr now k s).0 ≡ some n
    → (n ≡ b.count + 1)
      × ((t : ℕ)
          → now ≤ t
          → ((d : ℕ) → b.deadline ≡ some d → t < d)
          → (incr now k s).1 t k ≡ some (record b { count = b.count + 1 }))
unfolding incr bumped next_count
incr_old now n k s b e h =
    let next : some n ≡ some (b.count + 1) = rw (← h, e, next_count) in
    (cc next, λ t le d. rw (same_key_refl k) (rw (e, bumped) (rw (alive_before b.deadline t d))))

pub expire_done :
    (works : Bool) (now : ℕ) (k : BucketKey) (window : ℕ) (s : Shown) (b : Bucket)
    → s now k ≡ some b
    → (expire works now k window s).0 ≡ true
    → (t : ℕ) → now ≤ t
    → t < now + window * 1000
    → (expire works now k window s).1 t k
      ≡ some (record b { deadline = some (now + window * 1000) })
unfolding expire windowed
expire_done true now k window s b e h t le lt =
    rw (same_key_refl k) (rw (e, windowed) (rw (lt→ltb t (now + window * 1000) lt)))
expire_done false now k window s b e h t le lt = cc

abbrev pub counters : Bool → Counters
counters works = record {
  State = Shown;
  bucket = λ s t k. s t k;
  incr = incr;
  expire = expire works;
  ttl = λ now k s. some no_deadline;
  incr_new = incr_new;
  incr_old = incr_old;
  expire_done = expire_done works;
}

abbrev pub empty : Shown
empty = λ t k. none
