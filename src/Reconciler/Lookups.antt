-- ===== src/Reconciler/Lookups.antt =====
-- Lookups in the asset table, in order.
use mathlib.Core.Path.{subst}
use kepryx.Base.{
  ◌≡◌, refl, sym, ap, ◌∙◌, String, Bool, true, false, ◌||◌, Option, none, some, List, [], ◌∷◌, ◌++◌,
  keep, str_eq, nonempty, or_else, arith, Bool-cases, Option-cases, inl, inr, Result, ok, err,
  if◌then◌else◌, resume, chain,
}
use kepryx.Networks.{Address, Version, v4, v6, same_version}
use kepryx.Reconciler.State.{Db, DbError, AssetRow}
use kepryx.Reconciler.{one_or_none, find_asset, find_by, or_find, DbAction}

-- A lookup leaves the tables as they are.
abbrev pub Looks : {A : Type 0} → DbAction A → Type 0
Looks {A} m = (db : Db) → (m db).1 ≡ db

pub find_by-Looks :
    {K : Type 0} (k : Option K) (test : K → AssetRow → Bool) → Looks (find_by k test)
unfolding find_by find_asset
find_by-Looks none test db = refl
find_by-Looks (some k) test db = refl

pub or_find-Looks :
    (f : Option AssetRow) (next : DbAction (Option AssetRow)) → Looks next → Looks (or_find f next)
unfolding or_find
or_find-Looks (some a) next h db = refl
or_find-Looks none next h db = h db

pub resume-Looks :
    {A B : Type 0} (r : Result DbError A) (next : A → DbAction B)
    → ((a : A) → Looks (next a))
    → Looks (resume r next)
resume-Looks (ok a) next h db = h a db
resume-Looks (err e) next h db = refl

pub chain-Looks :
    {A B : Type 0} (m : DbAction A) (next : A → DbAction B)
    → Looks m
    → ((a : A) → Looks (next a))
    → Looks (chain m next)
chain-Looks m next h k db = resume-Looks (m db).0 next k (m db).1 ∙ h db

-- The value of a lookup in a table to which one row was added, if there was none before.
pub hit : {K : Type 0} → Option K → (K → AssetRow → Bool) → AssetRow → Option AssetRow
hit none test a = none
hit (some k) test a = if test k a then some a else none

pub one_or_none-none : {A : Type 0} (xs : List A) → one_or_none xs ≡ ok none → xs ≡ []
unfolding one_or_none
one_or_none-none [] e = refl
one_or_none-none (x ∷ []) e = cc
one_or_none-none (x ∷ y ∷ rest) e = cc

pub keep-added :
    (p : AssetRow → Bool) (xs : List AssetRow) (a : AssetRow)
    → keep p xs ≡ []
    → keep p (xs ++ a ∷ []) ≡ (if p a then a ∷ [] else [])
keep-added p [] a e = ground arith
keep-added p (x ∷ xs) a e = elim (Bool-cases (p x)) [
  | inl q ↦ cc
  | inr q ↦ rw q (keep-added p xs a (ground arith))
]

pub one_or_none-if :
    {A : Type 0} (b : Bool) (a : A)
    → one_or_none (if b then a ∷ [] else []) ≡ ok (if b then some a else none)
unfolding one_or_none
one_or_none-if true a = refl
one_or_none-if false a = refl

pub find_by-added :
    {K : Type 0} (k : Option K) (test : K → AssetRow → Bool) (db db2 : Db) (a : AssetRow)
    → (find_by k test db).0 ≡ ok none
    → db2.assets ≡ db.assets ++ a ∷ []
    → find_by k test db2 ≡ (ok (hit k test a), db2)
unfolding find_by find_asset hit
find_by-added none test db db2 a e g = refl
find_by-added (some k) test db db2 a e g =
    ap (λ r. (r, db2))
      (ap (λ xs. one_or_none (keep (test k) xs)) g
        ∙ ap one_or_none
            (keep-added (test k) db.assets a (one_or_none-none (keep (test k) db.assets) e))
        ∙ one_or_none-if (test k a) a)

-- A chain of lookups that finds nothing: none of them found anything.
pub or_find-none :
    (f : Option AssetRow) (next : DbAction (Option AssetRow)) (db : Db)
    → (or_find f next db).0 ≡ ok none
    → (f ≡ none) × ((next db).0 ≡ ok none)
unfolding or_find
or_find-none (some a) next db e = cc
or_find-none none next db e = (refl, e)

pub resume-none :
    (r : Result DbError (Option AssetRow)) (next : Option AssetRow → DbAction (Option AssetRow))
    (db : Db)
    → ((f : Option AssetRow) → (next f db).0 ≡ ok none → f ≡ none)
    → (resume r next db).0 ≡ ok none
    → (r ≡ ok none) × ((next none db).0 ≡ ok none)
resume-none (ok f) next db h e =
    let p = h f e in (ap ok p, subst (λ f. (next f db).0 ≡ ok none) p e)
resume-none (err x) next db h e = cc

abbrev pub present : {K : Type 0} → Option K → Bool
present none = false
present (some k) = true

pub hit-present :
    {K : Type 0} (k : Option K) (test : K → AssetRow → Bool) (a : AssetRow)
    → ((x : K) → k ≡ some x → test x a ≡ true)
    → hit k test a ≡ (if present k then some a else none)
unfolding hit
hit-present none test a h = refl
hit-present (some k) test a h = rw (h k refl) refl

pub nonempty-some : (o : Option String) (s : String) → nonempty o ≡ some s → o ≡ some s
nonempty-some none s e = cc
nonempty-some (some t) s e = elim (Bool-cases (str_eq t "")) [
  | inl q ↦ ground arith
  | inr q ↦ ground arith
]

pub or_else-none : (a b : Option String) → nonempty a ≡ none → or_else a b ≡ b
or_else-none a b q = rw (or_else, q)

pub or_else-some : (a b : Option String) (t : String) → nonempty a ≡ some t → or_else a b ≡ some t
or_else-some a b t q = rw (or_else, q)

pub or_else_or :
    (a b c : Option String) (s : String)
    → nonempty (or_else a b) ≡ some s
    → or_else a (or_else b c) ≡ some s
or_else_or a b c s e = elim (Option-cases (nonempty a)) [
  | inl q ↦
      or_else-none a (or_else b c) q
      ∙ or_else-some b c s (ap nonempty (sym (or_else-none a b q)) ∙ e)
  | inr (t, q) ↦
      or_else-some a (or_else b c) t q
      ∙ nonempty-some (some t) s (ap nonempty (sym (or_else-some a b t q)) ∙ e)
]

pub address_text :
    (o : Option String) (f : String → Option Address) (v : Address)
    → (elim o [ none ↦ none | some s ↦ f s ]) ≡ some v
    → (s : String) × (o ≡ some s) × (f s ≡ some v)
address_text none f v e = cc
address_text (some s) f v e = (s, refl, e)

pub same_version_refl : (v : Version) → same_version v v ≡ true
unfolding same_version
same_version_refl v4 = refl
same_version_refl v6 = refl

pub find_in_order :
    (m1 m2 m3 : DbAction (Option AssetRow)) (db : Db) (a : AssetRow) (p1 p2 p3 : Bool)
    → m1 db ≡ (ok (if p1 then some a else none), db)
    → m2 db ≡ (ok (if p2 then some a else none), db)
    → m3 db ≡ (ok (if p3 then some a else none), db)
    → (p1 || p2 || p3) ≡ true
    → chain m1 (λ f. chain (or_find f m2) (λ g. or_find g m3)) db ≡ (ok (some a), db)
unfolding or_find
find_in_order m1 m2 m3 db a true p2 p3 e1 e2 e3 h = rw e1
find_in_order m1 m2 m3 db a false true p3 e1 e2 e3 h = rw (e1, e2)
find_in_order m1 m2 m3 db a false false true e1 e2 e3 h = rw (e1, e2, e3)
find_in_order m1 m2 m3 db a false false false e1 e2 e3 h = cc
