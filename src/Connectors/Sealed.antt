-- ===== src/Connectors/Sealed.antt =====
-- Settings that were sealed are unsealed again.
use mathlib.Core.Path.{subst}
use kepryx.Base.{
  ◌≡◌, refl, sym, ap, ◌∙◌, String, true, false, Option, none, some, List, [], ◌∷◌, All, str_eq,
  eq_iff, eq_refl, mem_text, Bool-cases, inl, inr, Result, ok, ◌>>=◌, if◌then◌else◌,
}
use kepryx.Connectors.{
  Outside, str_of, seal_fields, unseal, unseal_field, unseal_fields, validate_connector_config,
  protect_connector_config, resolve_connector_config,
}
use kepryx.Connectors.Schemas.{
  Value, null, flag, number, text, texts, members, sealed, Settings, Schema, ConfigError, get, put,
  is_blank, find_schema, schemas,
}
use kepryx.Connectors.Fields.{
  get-put_same, get-put_other, apart, IsDistinct, IsPlain, sealed_value, IsSealed,
  seal_fields-IsSealed,
}

module _ (o : Outside) (salts : String → String) where
  open o use {encrypt, decrypt}

  -- What unsealing the fields comes to.
  record IsUnsealed (c : Settings) (r : Result ConfigError Settings) : Type 0 where
    after : Settings
    returned : r ≡ ok after
    same : (k : String) → get k after ≡ get k c

  unseal_blank :
      (f : String) (d : Settings) (v : Value)
      → get f d ≡ some v
      → is_blank v ≡ true
      → unseal_field o f d ≡ ok d
  unfolding unseal_field
  unseal_blank f d v e b = rw (unseal_field, e, b) refl

  unseal_missing : (f : String) (d : Settings) → get f d ≡ none → unseal_field o f d ≡ ok d
  unfolding unseal_field
  unseal_missing f d e = rw (unseal_field, e) refl

  unseal-sealed :
      (s salt : String)
      → decrypt (encrypt s salt) salt ≡ some s
      → unseal o (sealed (encrypt s salt) salt) ≡ ok (text s)
  unfolding unseal
  unseal-sealed s salt cipher = rw (unseal, cipher) refl

  unseal_sealed :
      (f : String) (d : Settings) (s : String)
      → decrypt (encrypt s (salts f)) (salts f) ≡ some s
      → get f d ≡ some (sealed (encrypt s (salts f)) (salts f))
      → unseal_field o f d ≡ ok (put f (text s) d)
  unfolding unseal_field is_blank
  unseal_sealed f d s cipher e = rw (unseal_field, e, unseal-sealed s (salts f) cipher) refl

  -- One field of sealed settings.
  record Opened (f : String) (c d : Settings) (r : Result ConfigError Settings) : Type 0 where
    left : Settings
    returned : r ≡ ok left
    here : get f left ≡ get f c
    others : (k : String) → str_eq f k ≡ false → get k left ≡ get k d

  unseal_field-Opened :
      (f : String) (c d : Settings)
      → ((s salt : String) → decrypt (encrypt s salt) salt ≡ some s)
      → IsPlain (get f c)
      → get f d ≡ sealed_value o salts f (get f c)
      → Opened f c d (unseal_field o f d)
  unfolding sealed_value IsPlain str_of is_blank
  unseal_field-Opened f c d cipher plain h = opened (get f c) refl plain h
    where
      opened :
          (v : Option Value)
          → get f c ≡ v
          → IsPlain v
          → get f d ≡ sealed_value o salts f v
          → Opened f c d (unseal_field o f d)
      opened none e p q = record {
        left = d;
        returned = unseal_missing f d q;
        here = q ∙ sym e;
        others = λ k n. refl;
      }
      opened (some null) e p q = record {
        left = d;
        returned = unseal_blank f d null q refl;
        here = q ∙ sym e;
        others = λ k n. refl;
      }
      opened (some (text s)) e p q = elim (Bool-cases (str_eq s "")) [
        | inl blank ↦
            let now : get f d ≡ some (text s) = q ∙ (rw blank) in
            record {
              left = d;
              returned = unseal_blank f d (text s) now blank;
              here = now ∙ sym e;
              others = λ k n. refl;
            }
        | inr set ↦
            let now : get f d ≡ some (sealed (encrypt s (salts f)) (salts f)) = q ∙ (rw set) in
            record {
              left = put f (text s) d;
              returned = unseal_sealed f d s (cipher s (salts f)) now;
              here = get-put_same f (text s) d ∙ sym e;
              others = λ k n. get-put_other k f (text s) d n;
            }
      ]
      opened (some (flag b)) e p q = absurd p
      opened (some (number n)) e p q = absurd p
      opened (some (texts xs)) e p q = absurd p
      opened (some (members b)) e p q = absurd p
      opened (some (sealed x y)) e p q = absurd p

  IsSealed-rest :
      (f : String) (fs : List String) (c d e : Settings)
      → mem_text f fs ≡ false
      → IsSealed o salts (f ∷ fs) c d
      → get f e ≡ get f c
      → ((k : String) → str_eq f k ≡ false → get k e ≡ get k d)
      → IsSealed o salts fs c e
  unfolding IsSealed
  IsSealed-rest f fs c d e out h here others k = elim (Bool-cases (str_eq k f)) [
    | inl same ↦
        let q : k ≡ f = (eq_iff k f).0 same in
        let gone : mem_text k fs ≡ false = ap (λ x. mem_text x fs) q ∙ out in
        let now : get k e ≡ get k c = ap (λ x. get x e) q ∙ here ∙ ap (λ x. get x c) (sym q) in
        rw gone now
    | inr other ↦ others k (apart k f other) ∙ h k ∙ (rw other)
  ]

  IsSealed-here :
      (f : String) (fs : List String) (c d : Settings)
      → IsSealed o salts (f ∷ fs) c d
      → get f d ≡ sealed_value o salts f (get f c)
  unfolding IsSealed
  IsSealed-here f fs c d h = h f ∙ (rw (eq_refl f))

  unseal_fields-IsUnsealed :
      (fs : List String) (c d : Settings)
      → ((s salt : String) → decrypt (encrypt s salt) salt ≡ some s)
      → IsDistinct fs
      → All (λ f. IsPlain (get f c)) fs
      → IsSealed o salts fs c d
      → IsUnsealed c (unseal_fields o fs d)
  unfolding unseal_fields IsDistinct
  unseal_fields-IsUnsealed [] c d cipher u plain h = record {
    after = d;
    returned = refl;
    same = unfold IsSealed in h;
  }
  unseal_fields-IsUnsealed (f ∷ fs) c d cipher u plain h =
      let one = unseal_field-Opened f c d cipher plain.0 (IsSealed-here f fs c d h) in
      let rest =
        unseal_fields-IsUnsealed fs c one.left cipher u.1 plain.1
          (IsSealed-rest f fs c d one.left u.0 h one.here one.others) in
      record {
        after = rest.after;
        returned = ap (λ r. r >>= unseal_fields o fs) one.returned ∙ rest.returned;
        same = rest.same;
      }

find_schema-All :
    (P : Schema → Type 0) (t : String) (ss : List (String × Schema)) (s : Schema)
    → All (λ x. P x.1) ss
    → find_schema t ss ≡ some s
    → P s
unfolding find_schema
find_schema-All P t [] s h e = cc
find_schema-All P t ((u, r) ∷ rest) s h e = elim (Bool-cases (str_eq u t)) [
  | inl same ↦ let q : some r ≡ some s = rw same at e in let p : r ≡ s = cc in subst P p h.0
  | inr other ↦ find_schema-All P t rest s h.1 (rw other at e)
]

schemas-IsDistinct : All (λ (x : String × Schema). IsDistinct x.1.secret) schemas
unfolding IsDistinct
schemas-IsDistinct = (
  (refl, tt),
  (
    ((refl, (refl, tt))),
    ((refl, tt), ((refl, (refl, tt)), ((refl, (refl, tt)), ((refl, tt), tt)))),
  ),
)

module _ (o : Outside) (salts : String → String) where
  open o use {encrypt, decrypt}

  -- What protecting checked settings and resolving them comes to.
  pub record RoundTrip (t : String) (secret : List String) (c d : Settings) : Type 0 where
    pub stored : Settings
    pub read : Settings
    pub protected : protect_connector_config o salts t c ≡ ok stored
    pub hidden :
        (k : String) → mem_text k secret ≡ true → get k stored ≡ sealed_value o salts k (get k d)
    pub resolved : resolve_connector_config o t stored ≡ ok read
    pub same : (k : String) → get k read ≡ get k d

  -- For a cipher that deciphers what it has enciphered: settings that were checked, and whose secrets
  -- are missing, null or texts, are stored with each secret that is set sealed, and are read back with
  -- the value of every field.
  pub protect-RoundTrip :
      (t : String) (s : Schema) (c d : Settings)
      → ((v salt : String) → decrypt (encrypt v salt) salt ≡ some v)
      → find_schema t schemas ≡ some s
      → validate_connector_config o t c ≡ ok d
      → All (λ f. IsPlain (get f d)) s.secret
      → RoundTrip t s.secret c d
  protect-RoundTrip t s c d cipher found valid plain =
      let u = find_schema-All (λ r. IsDistinct r.secret) t schemas s schemas-IsDistinct found in
      let sealed_ = seal_fields-IsSealed o salts s.secret d u in
      let back =
        unseal_fields-IsUnsealed o salts s.secret d (seal_fields o salts s.secret d) cipher u plain
          sealed_ in
      record {
        stored = seal_fields o salts s.secret d;
        read = back.after;
        protected = stored_as t s c d found valid;
        hidden = λ k m. hidden_as s.secret d k m sealed_;
        resolved = read_as t s (seal_fields o salts s.secret d) found ∙ back.returned;
        same = back.same;
      }
    where
      stored_as :
          (u : String) (r : Schema) (a b : Settings)
          → find_schema u schemas ≡ some r
          → validate_connector_config o u a ≡ ok b
          → protect_connector_config o salts u a ≡ ok (seal_fields o salts r.secret b)
      stored_as u r a b e v = unfold protect_connector_config in rw (v, e) refl

      read_as :
          (u : String) (r : Schema) (a : Settings)
          → find_schema u schemas ≡ some r
          → resolve_connector_config o u a ≡ unseal_fields o r.secret a
      read_as u r a e = unfold resolve_connector_config in rw (resolve_connector_config, e) refl

      hidden_as :
          (fs : List String) (a : Settings) (k : String)
          → mem_text k fs ≡ true
          → IsSealed o salts fs a (seal_fields o salts fs a)
          → get k (seal_fields o salts fs a) ≡ sealed_value o salts k (get k a)
      hidden_as fs a k m h =
          let q : get k (seal_fields o salts fs a)
              ≡ (if mem_text k fs then sealed_value o salts k (get k a) else get k a) =
            unfold IsSealed in h k in
          q ∙ (rw m)
