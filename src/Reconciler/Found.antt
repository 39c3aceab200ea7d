-- ===== src/Reconciler/Found.antt =====
-- A row that the lookups find is a row of the table.
use mathlib.Core.Path.{subst}
use kepryx.Base.{
  ◌≡◌, refl, ap, String, ◌∙◌, Bool, ◌⊎◌, inl, inr, Option, none, some, List, [], ◌∷◌, In, keep,
  Bool-cases, nonempty, or_else, Result, ok, err, resume, chain,
}
use kepryx.Networks.{IpTexts}
use kepryx.Reconciler.State.{Db, DbError, AssetRow, HostData, get}
use kepryx.Reconciler.{
  one_or_none, find_by, find_asset, or_find, DbAction, has_text, has_mac, has_ip, ip_value,
  match_host,
}
use kepryx.Reconciler.Lookups.{find_by-Looks, or_find-Looks}

In-keep : (p : AssetRow → Bool) (xs : List AssetRow) (a : AssetRow) → In a (keep p xs) → In a xs
In-keep p [] a h = h
In-keep p (x ∷ xs) a h = elim (Bool-cases (p x)) [
  | inl e ↦ kept (In-keep p xs a) (rw e at h)
  | inr e ↦ inr (In-keep p xs a (rw e at h))
]
  where
    kept : (In a (keep p xs) → In a xs) → In a (x ∷ keep p xs) → In a (x ∷ xs)
    kept later (inl q) = inl q
    kept later (inr q) = inr (later q)

one_or_none-In : (xs : List AssetRow) (a : AssetRow) → one_or_none xs ≡ ok (some a) → In a xs
unfolding one_or_none
one_or_none-In [] a e = cc
one_or_none-In (x ∷ []) a e = inl (cc)
one_or_none-In (x ∷ y ∷ rest) a e = cc

find_by-In :
    {K : Type 0} (k : Option K) (test : K → AssetRow → Bool) (db : Db) (a : AssetRow)
    → (find_by k test db).0 ≡ ok (some a)
    → In a db.assets
unfolding find_by find_asset
find_by-In none test db a e = cc
find_by-In (some k) test db a e =
    In-keep (test k) db.assets a (one_or_none-In (keep (test k) db.assets) a e)

or_find-some :
    (f : Option AssetRow) (next : DbAction (Option AssetRow)) (db : Db) (a : AssetRow)
    → (or_find f next db).0 ≡ ok (some a)
    → (f ≡ some a) ⊎ ((next db).0 ≡ ok (some a))
unfolding or_find
or_find-some (some b) next db a e = inl (cc)
or_find-some none next db a e = inr e

resume-some :
    (r : Result DbError (Option AssetRow)) (next : Option AssetRow → DbAction (Option AssetRow))
    (db : Db) (a : AssetRow)
    → (resume r next db).0 ≡ ok (some a)
    → (f : Option AssetRow) × (r ≡ ok f) × ((next f db).0 ≡ ok (some a))
resume-some (ok f) next db a e = (f, refl, e)
resume-some (err x) next db a e = cc

module _ (texts : IpTexts) (same_mac : String → String → Bool) where
  pub match_host-In :
      (d : HostData) (db : Db) (a : AssetRow)
      → (match_host texts same_mac d db).0 ≡ ok (some a)
      → In a db.assets
  unfolding match_host
  match_host-In d db a e =
      let k1 = nonempty (get d.mac) in
      let k2 = ip_value texts same_mac d.ip in
      let k3 = nonempty (or_else (get d.name) (get d.hostname)) in
      let m1 = find_by k1 (has_mac texts same_mac) in
      let m2 = find_by k2 (has_ip texts same_mac) in
      let m3 = find_by k3 (has_text (λ x. x.name)) in
      let s = (m1 db).1 in
      let to_db : s ≡ db = find_by-Looks k1 (has_mac texts same_mac) db in
      let (f, p, q) = resume-some (m1 db).0 (λ x. chain (or_find x m2) (λ g. or_find g m3)) s a e in
      let (g, u, v) = resume-some (or_find f m2 s).0 (λ x. or_find x m3) (or_find f m2 s).1 a q in
      let here : (or_find f m2 s).1 ≡ s =
        or_find-Looks f m2 (find_by-Looks k2 (has_ip texts same_mac)) s in
      elim (or_find-some g m3 (or_find f m2 s).1 a v) [
        | inr third ↦
            subst (λ t. In a t.assets) (here ∙ to_db)
              (find_by-In k3 (has_text (λ x. x.name)) (or_find f m2 s).1 a third)
        | inl first ↦ elim (or_find-some f m2 s a (u ∙ ap ok first)) [
          | inr second ↦
              subst (λ t. In a t.assets) to_db (find_by-In k2 (has_ip texts same_mac) s a second)
          | inl one ↦ find_by-In k1 (has_mac texts same_mac) db a (p ∙ ap ok one)
        ]
      ]
