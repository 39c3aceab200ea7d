-- ===== src/Pii/Hidden.antt =====
-- What the masks do not show.
use kepryx.Base.{
  ℕ, ◌≡◌, refl, sym, ap, ◌∙◌, true, false, none, some, List, [], ◌∷◌, ◌++◌, ◌==◌, ==_iff, codes,
  arith, Bool-cases, inl, inr,
}
use kepryx.Pii.{
  Text, split_last, split_on, has_code, first_code, four_parts, add_code, mask_email, mask_ip,
}

has_code-cons :
    (k c : ℕ) (s : Text) → has_code k (c ∷ s) ≡ false → ((c == k) ≡ false) × (has_code k s ≡ false)
unfolding has_code
has_code-cons k c s h = (ground arith, ground arith)

split_last-none : (k : ℕ) (s : Text) → has_code k s ≡ false → split_last k s ≡ none
unfolding split_last
split_last-none k [] h = refl
split_last-none k (c ∷ s) h =
    let (a, b) = has_code-cons k c s h in rw (split_last-none k s b, a) refl

split_last-append :
    (k : ℕ) (s d : Text) → has_code k d ≡ false → split_last k (s ++ k ∷ d) ≡ some (s, d)
unfolding split_last
split_last-append k [] d h = rw (split_last-none k d h, (==_iff k k).1 refl) refl
split_last-append k (c ∷ s) d h = rw (split_last-append k s d h) refl

split_on-last : (k : ℕ) (s : Text) → has_code k s ≡ false → split_on k s ≡ s ∷ []
unfolding split_on add_code
split_on-last k [] h = refl
split_on-last k (c ∷ s) h = let (a, b) = has_code-cons k c s h in rw (a, split_on-last k s b) refl

split_on-append :
    (k : ℕ) (s d : Text) → has_code k s ≡ false → split_on k (s ++ k ∷ d) ≡ s ∷ split_on k d
unfolding split_on add_code
split_on-append k [] d h = rw ((==_iff k k).1 refl) refl
split_on-append k (c ∷ s) d h =
    let (a, b) = has_code-cons k c s h in rw (a, split_on-append k s d b) refl

has_code-append : (k : ℕ) (s d : Text) → has_code k (s ++ k ∷ d) ≡ true
unfolding has_code
has_code-append k [] d = rw ((==_iff k k).1 refl) refl
has_code-append k (c ∷ s) d = elim (Bool-cases (c == k)) [
  | inl same ↦ rw same refl
  | inr other ↦ rw other (has_code-append k s d)
]

-- The text of an address in four parts.
abbrev pub dotted : Text → Text → Text → Text → Text
dotted a b c d = a ++ 46 ∷ (b ++ 46 ∷ (c ++ 46 ∷ d))

split_dotted :
    (a b c d : Text)
    → has_code 46 a ≡ false
    → has_code 46 b ≡ false
    → has_code 46 c ≡ false
    → has_code 46 d ≡ false
    → split_on 46 (dotted a b c d) ≡ a ∷ b ∷ c ∷ d ∷ []
split_dotted a b c d p q r s =
    split_on-append 46 a (b ++ 46 ∷ (c ++ 46 ∷ d)) p
    ∙ ap (λ t. a ∷ t)
        (split_on-append 46 b (c ++ 46 ∷ d) q
          ∙ ap (λ t. b ∷ t) (split_on-append 46 c d r ∙ ap (λ t. c ∷ t) (split_on-last 46 d s)))

module _ (sha256 : Text → Text) (patterns : List (Text → Text)) where
  mask_ip-dotted :
      (a b c d : Text)
      → has_code 46 a ≡ false
      → has_code 46 b ≡ false
      → has_code 46 c ≡ false
      → has_code 46 d ≡ false
      → mask_ip sha256 patterns (dotted a b c d)
        ≡ a ++ codes "." ++ b ++ codes "." ++ c ++ codes ".x"
  unfolding mask_ip four_parts
  mask_ip-dotted a b c d p q r s =
      rw (has_code-append 46 a (b ++ 46 ∷ (c ++ 46 ∷ d)), split_dotted a b c d p q r s) refl

  mask_email-at :
      (s d : Text)
      → has_code 64 d ≡ false
      → mask_email sha256 patterns (s ++ 64 ∷ d) ≡ first_code s ++ codes "***@" ++ d
  unfolding mask_email
  mask_email-at s d h = rw (mask_email, split_last-append 64 s d h) refl

  -- Of a mail address the mask shows at most the first character before the last at sign, and of an
  -- address in four parts nothing of the fourth: addresses that differ only there have one mask.
  masks_hide :
      (first : ℕ) (l m domain a b c d e : Text)
      → has_code 64 domain ≡ false
      → has_code 46 a ≡ false
      → has_code 46 b ≡ false
      → has_code 46 c ≡ false
      → has_code 46 d ≡ false
      → has_code 46 e ≡ false
      → (mask_email sha256 patterns ((first ∷ l) ++ 64 ∷ domain)
          ≡ mask_email sha256 patterns ((first ∷ m) ++ 64 ∷ domain))
        × (mask_ip sha256 patterns (dotted a b c d) ≡ mask_ip sha256 patterns (dotted a b c e))
  unfolding first_code
  masks_hide first l m domain a b c d e h p q r s t = (
    mask_email-at (first ∷ l) domain h ∙ sym (mask_email-at (first ∷ m) domain h),
    mask_ip-dotted a b c d p q r s ∙ sym (mask_ip-dotted a b c e p q r t),
  )
