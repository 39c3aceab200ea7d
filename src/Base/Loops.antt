-- ===== src/Base/Loops.antt =====
-- `for` loops: what they keep, what they reach, and nested ones.
use mathlib.Core.Path.{◌≡◌, refl, sym, ap, ◌∙◌}
use mathlib.Core.List.{List, [], ◌∷◌, ◌++◌, map}
use kepryx.Base.Lists.{each, All}

abbrev pub flat {ℓ κ} : {A : Type ℓ} → {B : Type κ} → (A → List B) → List A → List B
flat items [] = []
flat items (x ∷ xs) = items x ++ flat items xs

module _ {A S : Type 0} (body : A → S → S) where
  pub each-append :
      (xs ys : List A) (s : S) → each body (xs ++ ys) s ≡ each body ys (each body xs s)
  each-append [] ys s = refl
  each-append (x ∷ xs) ys s = each-append xs ys (body x s)

  pub each_keeps :
      (P : S → Type 0)
      → ((x : A) (s : S) → P s → P (body x s))
      → (xs : List A) (s : S) → P s
      → P (each body xs s)
  each_keeps P step [] s h = h
  each_keeps P step (x ∷ xs) s h = each_keeps P step xs (body x s) (step x s h)

  each_keeps_in :
      (Q : A → Type 0) (P : S → Type 0)
      → ((x : A) (s : S) → Q x → P s → P (body x s))
      → (xs : List A) → All Q xs
      → (s : S) → P s
      → P (each body xs s)
  each_keeps_in Q P step [] q s h = h
  each_keeps_in Q P step (x ∷ xs) q s h = each_keeps_in Q P step xs q.1 (body x s) (step x s q.0 h)

  -- If the body makes `P` true of its item and keeps it for the other items, then it is true of all.
  pub each_reaches :
      (Q : A → Type 0) (P : A → S → Type 0)
      → ((x : A) (s : S) → Q x → P x (body x s))
      → ((x y : A) (s : S) → Q x → Q y → P x s → P x (body y s))
      → (xs : List A) → All Q xs
      → (s : S) → All (λ x. P x (each body xs s)) xs
  each_reaches Q P makes keeps [] q s = tt
  each_reaches Q P makes keeps (x ∷ xs) q s = (
    each_keeps_in Q (P x) (λ y r u. keeps x y r q.0 u) xs q.1 (body x s) (makes x s q.0),
    each_reaches Q P makes keeps xs q.1 (body x s),
  )

pub each-flat :
    {A B S : Type 0}
    → (body : B → S → S) (items : A → List B) (xs : List A) (s : S)
    → each (λ x. each body (items x)) xs s ≡ each body (flat items xs) s
each-flat body items [] s = refl
each-flat body items (x ∷ xs) s =
    each-flat body items xs (each body (items x) s)
    ∙ sym (each-append body (items x) (flat items xs) s)

pub each-map :
    {A B S : Type 0}
    → (body : B → S → S) (h : A → B) (xs : List A) (s : S)
    → each (λ x. body (h x)) xs s ≡ each body (map h xs) s
each-map body h [] s = refl
each-map body h (x ∷ xs) s = each-map body h xs (body (h x) s)

pub each_ext :
    {A S : Type 0}
    → {f g : A → S → S} → ((x : A) (s : S) → f x s ≡ g x s)
    → (xs : List A) (s : S) → each f xs s ≡ each g xs s
each_ext h [] s = refl
each_ext {f = f} {g = g} h (x ∷ xs) s = ap (each f xs) (h x s) ∙ each_ext h xs (g x s)
