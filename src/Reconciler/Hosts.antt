-- ===== src/Reconciler/Hosts.antt =====
-- The row created for a report is the one that the report finds.
use mathlib.Core.Path.{subst}
use kepryx.Base.{
  ℕ, ◌≡◌, ap, ◌∙◌, String, Bool, true, false, ◌&&◌, ◌||◌, Option, none, some, [], ◌∷◌, ◌++◌, ◌==◌,
  eq_refl, nonempty, or_else, arith, ok, if◌then◌else◌, chain,
}
use kepryx.Networks.{IpTexts, Address, same_version}
use kepryx.Reconciler.State.{get_or, Db, AssetRow, HostData, get}
use kepryx.Reconciler.{find_by, or_find, has_text, has_mac, has_ip, ip_value, match_host}
use kepryx.Reconciler.Rows.{new_asset}
use kepryx.Reconciler.Lookups.{
  Looks, find_by-Looks, or_find-Looks, chain-Looks, hit, find_by-added, or_find-none, resume-none,
  present, hit-present, nonempty-some, or_else_or, address_text, same_version_refl, find_in_order,
}

-- The keys of a reported host.
abbrev mac_key : HostData → Option String
mac_key d = nonempty (get d.mac)

abbrev name_key : HostData → Option String
name_key d = nonempty (or_else (get d.name) (get d.hostname))

module _ (texts : IpTexts) (same_mac : String → String → Bool) where
  pub match_host-Looks : (d : HostData) → Looks (match_host texts same_mac d)
  unfolding match_host
  match_host-Looks d =
      chain-Looks (find_by (mac_key d) (has_mac texts same_mac)) _
        (find_by-Looks (mac_key d) (has_mac texts same_mac))
        (λ f.
          chain-Looks (or_find f (find_by (ip_value texts same_mac d.ip) (has_ip texts same_mac))) _
            (or_find-Looks f _
              (find_by-Looks (ip_value texts same_mac d.ip) (has_ip texts same_mac)))
            (λ g. or_find-Looks g _ (find_by-Looks (name_key d) (has_text (λ a. a.name)))))

  open texts use {ip_address}

  -- None of the three lookups finds a row.
  record Unknown (d : HostData) (db : Db) : Type 0 where
    by_mac : (find_by (mac_key d) (has_mac texts same_mac) db).0 ≡ ok none
    by_ip : (find_by (ip_value texts same_mac d.ip) (has_ip texts same_mac) db).0 ≡ ok none
    by_name : (find_by (name_key d) (has_text (λ a. a.name)) db).0 ≡ ok none

  match_host-Unknown :
      (d : HostData) (db : Db) → (match_host texts same_mac d db).0 ≡ ok none → Unknown d db
  unfolding match_host
  match_host-Unknown d db e =
      let m1 = find_by (mac_key d) (has_mac texts same_mac) in
      let m2 = find_by (ip_value texts same_mac d.ip) (has_ip texts same_mac) in
      let m3 = find_by (name_key d) (has_text (λ a. a.name)) in
      let s = (m1 db).1 in
      let to_db : s ≡ db = find_by-Looks (mac_key d) (has_mac texts same_mac) db in
      let in_s : (m2 s).1 ≡ s =
        find_by-Looks (ip_value texts same_mac d.ip) (has_ip texts same_mac) s in
      let second : (f : Option AssetRow) (t : Db)
          → (chain (or_find f m2) (λ g. or_find g m3) t).0 ≡ ok none
          → ((or_find f m2 t).0 ≡ ok none) × ((or_find none m3 (or_find f m2 t).1).0 ≡ ok none) =
        λ f t.
          resume-none (or_find f m2 t).0 (λ g. or_find g m3) (or_find f m2 t).1
            (λ g q. (or_find-none g m3 _ q).0) in
      let p =
        resume-none (m1 db).0 (λ f. chain (or_find f m2) (λ g. or_find g m3)) s
          (λ f q. (or_find-none f m2 s (second f s q).0).0) e in
      let q = second none s p.1 in
      record {
        by_mac = p.0;
        by_ip = subst (λ t. (m2 t).0 ≡ ok none) to_db q.0;
        by_name = subst (λ t. (m3 t).0 ≡ ok none) (in_s ∙ to_db) q.1;
      }

  -- The reported host has a MAC, a valid IP or a name.
  abbrev pub is_identified : HostData → Bool
  is_identified d =
      present (mac_key d) || present (ip_value texts same_mac d.ip) || present (name_key d)

  hit_mac :
      (id tx : ℕ) (source : String) (d : HostData)
      → ((m : String) → same_mac m m ≡ true)
      → hit (mac_key d) (has_mac texts same_mac) (new_asset id tx source d)
        ≡ (if present (mac_key d) then some (new_asset id tx source d) else none)
  unfolding has_mac new_asset
  hit_mac id tx source d h =
      hit-present (mac_key d) (has_mac texts same_mac) (new_asset id tx source d)
        (λ m e. rw (nonempty-some (get d.mac) m e) (h m))

  has_ip-some :
      (v : Address) (a : AssetRow) (s : String)
      → a.ip ≡ some s
      → texts.ip_address s ≡ some v
      → has_ip texts same_mac v a ≡ true
  unfolding has_ip
  has_ip-some v a s p q =
      ap (λ o. elim o [ none ↦ false | some t ↦ same_address (ip_address t) ]) p
      ∙ ap same_address q
      ∙ (rw (same_version_refl v.version) (ground arith))
    where
      same_address : Option Address → Bool
      same_address none = false
      same_address (some w) = same_version w.version v.version && (w.value == v.value)

  hit_ip :
      (id tx : ℕ) (source : String) (d : HostData)
      → hit (ip_value texts same_mac d.ip) (has_ip texts same_mac) (new_asset id tx source d)
        ≡ (if present (ip_value texts same_mac d.ip) then some (new_asset id tx source d) else none)
  unfolding new_asset ip_value
  hit_ip id tx source d =
      hit-present (ip_value texts same_mac d.ip) (has_ip texts same_mac) (new_asset id tx source d)
        (λ v e.
          let (s, p, q) = address_text (nonempty (get d.ip)) texts.ip_address v e in
          has_ip-some v (new_asset id tx source d) s (nonempty-some (get d.ip) s p) q)

  hit_name :
      (id tx : ℕ) (source : String) (d : HostData)
      → hit (name_key d) (has_text (λ a. a.name)) (new_asset id tx source d)
        ≡ (if present (name_key d) then some (new_asset id tx source d) else none)
  unfolding has_text new_asset
  hit_name id tx source d =
      hit-present (name_key d) (has_text (λ a. a.name)) (new_asset id tx source d) (λ n e.
        rw (or_else_or (get d.name) (get d.hostname) (get_or d.ip "unknown") n e) (eq_refl n))

  -- A row created for a report is found again by that report.
  pub match_host-added :
      (d : HostData) (db db2 : Db) (id tx : ℕ) (source : String)
      → ((m : String) → same_mac m m ≡ true)
      → is_identified d ≡ true
      → (match_host texts same_mac d db).0 ≡ ok none
      → db2.assets ≡ db.assets ++ new_asset id tx source d ∷ []
      → match_host texts same_mac d db2 ≡ (ok (some (new_asset id tx source d)), db2)
  unfolding match_host or_find
  match_host-added d db db2 id tx source h i e g =
      let u = match_host-Unknown d db e in
      let a = new_asset id tx source d in
      let one =
        find_by-added (mac_key d) (has_mac texts same_mac) db db2 a u.by_mac g
        ∙ ap (λ f. (ok f, db2)) (hit_mac id tx source d h) in
      let two =
        find_by-added (ip_value texts same_mac d.ip) (has_ip texts same_mac) db db2 a u.by_ip g
        ∙ ap (λ f. (ok f, db2)) (hit_ip id tx source d) in
      let three =
        find_by-added (name_key d) (has_text (λ a. a.name)) db db2 a u.by_name g
        ∙ ap (λ f. (ok f, db2)) (hit_name id tx source d) in
      find_in_order (find_by (mac_key d) (has_mac texts same_mac))
        (find_by (ip_value texts same_mac d.ip) (has_ip texts same_mac))
        (find_by (name_key d) (has_text (λ a. a.name))) db2 a (present (mac_key d))
        (present (ip_value texts same_mac d.ip)) (present (name_key d)) one two three i
