-- ===== src/Redis/Memory.antt =====
-- A Redis that never fails, as what it shows at each later time: the interface can be met.
use kepryx.Base.{
  ℕ, ◌+◌, ◌*◌, ◌≡◌, ◌≢◌, refl, ◌⊎◌, inl, inr, Bool, true, false, Option, none, some, ltb, lt→ltb,
  sym, false≢true, if◌then◌else◌,
}
use kepryx.Redis.{Redis, Key, Value, Same, Written, key-cases}

abbrev pub Shown : Type 0
Shown = ℕ → Key → Option Value

write_at : {j k : Key} → (j ≡ k) ⊎ (j ≢ k) → Option Value → Option Value → Option Value
write_at (inl e) new old = new
write_at (inr n) new old = old

unfoldable pub set_value : ℕ → Key → ℕ → Value → Shown → Shown
unfolding write_at key-cases
set_value now k ttl v s t j =
    write_at (key-cases j k) (if ltb t (now + ttl * 1000) then some v else none) (s t j)

unfoldable pub view : Shown → ℕ → Key → Option Value
view s t k = s t k

write_at_self :
    {j k : Key} (d : (j ≡ k) ⊎ (j ≢ k)) (a b : Option Value) → j ≡ k → write_at d a b ≡ a
unfolding write_at
write_at_self (inl e) a b p = refl
write_at_self (inr n) a b p = absurd (n p)

write_at_ne : {j k : Key} (d : (j ≡ k) ⊎ (j ≢ k)) (a b : Option Value) → j ≢ k → write_at d a b ≡ b
unfolding write_at
write_at_ne (inl e) a b n = absurd (n e)
write_at_ne (inr m) a b n = refl

pub set_value-Written :
    (now : ℕ) (k : Key) (ttl : ℕ) (v : Value) (s : Shown)
    → Written view now k ttl v s (set_value now k ttl v s)
unfolding view set_value
set_value-Written now k ttl v s = record {
  held = λ t le lt. rw (write_at_self (key-cases k k) _ _ refl) (rw (lt→ltb _ _ lt));
  others = λ t j le n. write_at_ne (key-cases j k) _ _ n;
}

unfoldable pub set_if_none : Option Value → ℕ → Key → ℕ → Value → Shown → Option Bool × Shown
set_if_none none now k ttl v s = (some true, set_value now k ttl v s)
set_if_none (some w) now k ttl v s = (some false, s)

unfoldable pub set_nx : ℕ → Key → ℕ → Value → Shown → Option Bool × Shown
unfolding set_if_none set_value
set_nx now k ttl v s = set_if_none (s now k) now k ttl v s

pub set_if_none_done :
    (o : Option Value) (now : ℕ) (k : Key) (ttl : ℕ) (v : Value) (s : Shown)
    → (set_if_none o now k ttl v s).0 ≡ some true
    → (o ≡ none) × Written view now k ttl v s (set_if_none o now k ttl v s).1
unfolding set_if_none
set_if_none_done none now k ttl v s e = (refl, set_value-Written now k ttl v s)
set_if_none_done (some w) now k ttl v s e = cc

pub set_if_none_refused :
    (o : Option Value) (now : ℕ) (k : Key) (ttl : ℕ) (v : Value) (s : Shown)
    → (set_if_none o now k ttl v s).0 ≡ some false
    → (o ≢ none) × Same view now s (set_if_none o now k ttl v s).1
unfolding set_if_none view
set_if_none_refused none now k ttl v s e = cc
set_if_none_refused (some w) now k ttl v s e = (λ p. cc, λ t j le. refl)

pub set_if_none_failed :
    (o : Option Value) (now : ℕ) (k : Key) (ttl : ℕ) (v : Value) (s : Shown)
    → (set_if_none o now k ttl v s).0 ≢ none
unfolding set_if_none
set_if_none_failed none now k ttl v s e = cc
set_if_none_failed (some w) now k ttl v s e = cc

pub mget_shown :
    (now : ℕ) (j k : Key) (s : Shown) (a b : Option Value)
    → ◌≡◌ {A = Option (Option Value × Option Value)} (some (s now j, s now k)) (some (a, b))
    → (a ≡ view s now j) × (b ≡ view s now k)
unfolding view
mget_shown now j k s a b e = (cc, cc)

pub set_nx_done :
    (now : ℕ) (k : Key) (ttl : ℕ) (v : Value) (s : Shown)
    → (set_nx now k ttl v s).0 ≡ some true
    → (view s now k ≡ none) × Written view now k ttl v s (set_nx now k ttl v s).1
unfolding set_nx view
set_nx_done now k ttl v s e = set_if_none_done (s now k) now k ttl v s e

pub set_nx_refused :
    (now : ℕ) (k : Key) (ttl : ℕ) (v : Value) (s : Shown)
    → (set_nx now k ttl v s).0 ≡ some false
    → (view s now k ≢ none) × Same view now s (set_nx now k ttl v s).1
unfolding set_nx view
set_nx_refused now k ttl v s e = set_if_none_refused (s now k) now k ttl v s e

pub set_nx_answers :
    (now : ℕ) (k : Key) (ttl : ℕ) (v : Value) (s : Shown) → (set_nx now k ttl v s).0 ≢ none
unfolding set_nx
set_nx_answers now k ttl v s e = set_if_none_failed (s now k) now k ttl v s e

abbrev pub memory : Redis
memory = record {
  State = Shown;
  view = view;
  mget = λ now j k s. some (s now j, s now k);
  setex = λ now k ttl v s. (true, set_value now k ttl v s);
  set_nx = set_nx;
  mget_view = mget_shown;
  setex_done = λ now k ttl v s e. set_value-Written now k ttl v s;
  setex_failed = λ now k ttl v s e. absurd (false≢true (sym e));
  set_nx_done = set_nx_done;
  set_nx_refused = set_nx_refused;
  set_nx_failed = λ now k ttl v s e. absurd (set_nx_answers now k ttl v s e);
}

abbrev pub empty : Shown
empty = λ t j. none
