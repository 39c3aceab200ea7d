-- ===== src/PasswordPolicy/Strong.antt =====
-- What an accepted password is like.
use kepryx.Base.{
  ℕ, ◌≤◌, ◌<◌, ◌≡◌, ◌≢◌, refl, sym, ap, ◌∙◌, String, Bool, true, false, false≢true, ◌&&◌, ◌||◌,
  Option, none, some, List, [], ◌∷◌, ◌++◌, any, All, length, ltb, leb, codes, lower, codes_eq,
  nonempty, arith, Bool-cases, inl, inr, ◌⊎◌, ok,
}
use kepryx.PasswordPolicy.{
  common_passwords, PolicyError, starts_with, contains_text, has_name, is_upper, is_lower,
  is_ascii_digit, is_special, starts_run, has_run, first_error, checks, validate_password,
}

-- Some character of the text has the property.
pub record Has (P : ℕ → Type 0) (cs : List ℕ) : Type 0 where
  pub character : ℕ
  pub pre : List ℕ
  pub post : List ℕ
  pub place : cs ≡ pre ++ character ∷ post
  pub holds : P character

any-Has :
    (p : ℕ → Bool) (P : ℕ → Type 0) (cs : List ℕ)
    → ((c : ℕ) → p c ≡ true → P c)
    → any p cs ≡ true
    → Has P cs
any-Has p P [] f e = cc
any-Has p P (c ∷ cs) f e = elim (Bool-cases (p c)) [
  | inl q ↦ record { character = c; pre = []; post = cs; place = refl; holds = f c q }
  | inr q ↦
      let h = any-Has p P cs f (ground arith) in
      record {
        character = h.character;
        pre = c ∷ h.pre;
        post = h.post;
        place = ap (λ xs. c ∷ xs) h.place;
        holds = h.holds;
      }
]

starts_with-append : (xs ys : List ℕ) → starts_with xs (xs ++ ys) ≡ true
unfolding starts_with
starts_with-append [] ys = refl
starts_with-append (x ∷ xs) ys = ground (arith, starts_with-append xs ys)

contains_text-append : (pre part post : List ℕ) → contains_text part (pre ++ part ++ post) ≡ true
unfolding contains_text
contains_text-append [] part post = go (part ++ post) (starts_with-append part post)
  where
    go : (ys : List ℕ) → starts_with part ys ≡ true → contains_text part ys ≡ true
    go [] e = e
    go (y ∷ ys) e = rw e refl
contains_text-append (x ∷ pre) part post = ground (arith, contains_text-append pre part post)

has_run-append :
    (pre post : List ℕ) (c : ℕ) → has_run (pre ++ c ∷ c ∷ c ∷ c ∷ post) ≡ false → c ≡ 10
unfolding has_run starts_run
has_run-append [] post c e = ground arith
has_run-append (x ∷ pre) post c e = has_run-append pre post c (ground arith)

first_error-ok :
    (ts : List (Bool × PolicyError)) → first_error ts ≡ ok tt → All (λ t. t.0 ≡ false) ts
unfolding first_error
first_error-ok [] e = tt
first_error-ok ((test, x) ∷ ts) e = elim (Bool-cases test) [
  | inl q ↦ cc (rw q at e)
  | inr q ↦ (q, first_error-ok ts (ground arith))
]

codes_eq_refl : (xs : List ℕ) → codes_eq xs xs ≡ true
codes_eq_refl [] = refl
codes_eq_refl (x ∷ xs) = ground (arith, codes_eq_refl xs)

none_equal :
    (cs : List ℕ) (ws : List String)
    → any (λ w. codes_eq cs (codes w)) ws ≡ false
    → All (λ w. cs ≢ codes w) ws
none_equal cs [] e = tt
none_equal cs (w ∷ ws) e = (
  (λ same.
      let q : codes_eq cs (codes w) ≡ true = ap (codes_eq cs) (sym same) ∙ codes_eq_refl cs in
      cc (rw q at e)),
  none_equal cs ws (ground arith),
)

no_name :
    (username : Option String) (password name : String) (pre post : List ℕ)
    → has_name username password ≡ false
    → nonempty username ≡ some name
    → lower password ≢ pre ++ lower name ++ post
unfolding has_name
no_name username password name pre post e n same =
    let q : contains_text (lower name) (lower password) ≡ true =
      ap (contains_text (lower name)) same ∙ contains_text-append pre (lower name) post in
    let r : contains_text (lower name) (lower password) ≡ false =
      ap (λ o. elim o [ none ↦ false | some m ↦ contains_text (lower m) (lower password) ]) (sym n)
      ∙ e in
    false≢true (sym r ∙ q)

-- What a strong password is: long enough and not too long, none of the common ones and without the
-- user's name (in any case), with an upper case letter, a lower case letter, a digit and another
-- character, and without four equal characters in a row.
pub record IsStrong (other_digit : ℕ → Bool) (min_len : ℕ) (password : String)
    (username : Option String) : Type 0 where
  pub long : min_len ≤ length (codes password)
  pub short : length (codes password) ≤ 128
  pub uncommon : All (λ w. lower password ≢ codes w) common_passwords
  pub nameless :
      (name : String) (pre post : List ℕ)
      → nonempty username ≡ some name
      → lower password ≢ pre ++ lower name ++ post
  pub upper : Has (λ c. (65 ≤ c) × (c ≤ 90)) (codes password)
  pub lower_case : Has (λ c. (97 ≤ c) × (c ≤ 122)) (codes password)
  pub digit : Has (λ c. ((48 ≤ c) × (c ≤ 57)) ⊎ (other_digit c ≡ true)) (codes password)
  pub special :
      Has
        (λ c. (c < 48) ⊎ ((57 < c) × (c < 65)) ⊎ ((90 < c) × (c < 97)) ⊎ (122 < c))
        (codes password)
  pub varied : (pre post : List ℕ) (c : ℕ) → codes password ≡ pre ++ c ∷ c ∷ c ∷ c ∷ post → c ≡ 10

special_range :
    (c : ℕ)
    → is_special c ≡ true
    → (c < 48) ⊎ ((57 < c) × (c < 65)) ⊎ ((90 < c) × (c < 97)) ⊎ (122 < c)
unfolding is_special is_upper is_lower is_ascii_digit
special_range c q = elim (Bool-cases (ltb c 48)) [
  | inl a ↦ inl (ground arith)
  | inr a ↦ elim (Bool-cases (ltb c 65)) [
    | inl b ↦ inr (inl (ground arith))
    | inr b ↦ elim (Bool-cases (ltb c 97)) [
      | inl d ↦ inr (inr (inl (ground arith)))
      | inr d ↦ inr (inr (inr (ground arith)))
    ]
  ]
]

-- An accepted password is strong.
pub validate_password-IsStrong :
    (other_digit : ℕ → Bool) (min_len : ℕ) (password : String) (username : Option String)
    → validate_password other_digit min_len password username ≡ ok tt
    → IsStrong other_digit min_len password username
unfolding validate_password checks is_upper is_lower is_ascii_digit
validate_password-IsStrong other_digit min_len password username e =
    let t = first_error-ok (checks other_digit min_len password username) e in
    record {
      long = ground (arith, t.0);
      short = ground (arith, t.1.0);
      uncommon = none_equal (lower password) common_passwords t.1.1.0;
      nameless = λ name pre post n. no_name username password name pre post t.1.1.1.0 n;
      upper =
          any-Has is_upper _ (codes password) (λ c q. ground arith) (ground (arith, t.1.1.1.1.0));
      lower_case =
          any-Has is_lower _ (codes password) (λ c q. ground arith) (ground (arith, t.1.1.1.1.1.0));
      digit =
          any-Has (λ c. is_ascii_digit c || other_digit c) _ (codes password)
            (λ c q. elim (Bool-cases (leb 48 c && leb c 57)) [
              | inl a ↦ inl (ground arith)
              | inr a ↦ inr (ground arith)
            ])
            (ground (arith, t.1.1.1.1.1.1.0));
      special =
          any-Has is_special _ (codes password) (λ c q. special_range c q)
            (ground (arith, t.1.1.1.1.1.1.1.0));
      varied = λ pre post c place.
          has_run-append pre post c (ap has_run (sym place) ∙ t.1.1.1.1.1.1.1.1.0);
    }
