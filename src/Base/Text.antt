-- ===== src/Base/Text.antt =====
-- Python's `str.lower` over ASCII, and the code points of a text.
use Prim.Native.Char.{Char, code}
use Prim.Native.Nat.{ℕ, suc, ◌+◌}
use mathlib.Core.Path.{◌≡◌, refl, ap, ◌∙◌}
use native.Mathlib.Omega.{arith}
use Prim.Native.String.{String}
use mathlib.Core.Option.{Option, none, some}
use text.Mathlib.Text.{◌==◌ as str_eq}
use mathlib.Core.Bool.{Bool, true, false, not, ◌&&◌, ◌||◌}
use mathlib.Core.List.{List, [], ◌∷◌, map}
use kepryx.Base.Tests.{leb, ◌==◌, if◌then◌else◌}

abbrev pub codes : String → List ℕ
codes String.[] = []
codes (String.◌∷◌ c s) = code c ∷ codes s

abbrev pub lower_code : ℕ → ℕ
lower_code c = if leb 65 c && leb c 90 then c + 32 else c

-- The code points of `s.lower()`.
abbrev pub lower : String → List ℕ
lower s = map lower_code (codes s)

abbrev pub codes_eq : List ℕ → List ℕ → Bool
codes_eq [] [] = true
codes_eq (a ∷ as') (b ∷ bs) = a == b && codes_eq as' bs
codes_eq _ _ = false

-- `str.isspace` of one character.
abbrev pub is_space : ℕ → Bool
is_space c =
    (leb 9 c && leb c 13)
    || (leb 28 c && leb c 32)
    || c == 133
    || c == 160
    || c == 5760
    || (leb 8192 c && leb c 8202)
    || c == 8232
    || c == 8233
    || c == 8239
    || c == 8287
    || c == 12288

abbrev pub strip_start : String → String
strip_start String.[] = String.[]
strip_start (String.◌∷◌ c s) =
    let rest = strip_start s in if is_space (code c) then rest else String.◌∷◌ c s

abbrev pub unless_blank : Char → String → String
unless_blank c String.[] = if is_space (code c) then String.[] else String.◌∷◌ c String.[]
unless_blank c (String.◌∷◌ d s) = String.◌∷◌ c (String.◌∷◌ d s)

abbrev pub strip_end : String → String
strip_end String.[] = String.[]
strip_end (String.◌∷◌ c s) = unless_blank c (strip_end s)

-- `s.strip()`.
abbrev pub strip : String → String
strip s = strip_end (strip_start s)

-- `s.split(sep, 1)[0]` for a separator of one character.
abbrev pub before : ℕ → String → String
before sep String.[] = String.[]
before sep (String.◌∷◌ c s) =
    let rest = String.◌∷◌ c (before sep s) in if code c == sep then String.[] else rest

-- `s in texts`.
abbrev pub mem_text : String → List String → Bool
mem_text s [] = false
mem_text s (t ∷ ts) = str_eq s t || mem_text s ts

-- The members of `set(texts)`, each once.
abbrev pub distinct : List String → List String
distinct [] = []
distinct (s ∷ ss) = let rest = distinct ss in if mem_text s rest then rest else s ∷ rest

-- Python's truth of a text that may be `None`.
abbrev pub nonempty : Option String → Option String
nonempty none = none
nonempty (some s) = if str_eq s "" then none else some s

-- `a or b` of such texts.
abbrev pub or_else : Option String → Option String → Option String
or_else a b = elim (nonempty a) [ none ↦ b | some s ↦ some s ]

-- `s[len(prefix):]` if the text starts with the prefix.
abbrev pub drop_prefix : String → String → Option String
drop_prefix String.[] s = some s
drop_prefix (String.◌∷◌ c p) String.[] = none
drop_prefix (String.◌∷◌ c p) (String.◌∷◌ d s) =
    let rest = drop_prefix p s in if code c == code d then rest else none

-- `s.split(sep, 1)[1]` for a separator of one character that the text has.
abbrev pub after : ℕ → String → Option String
after sep String.[] = none
after sep (String.◌∷◌ c s) = let rest = after sep s in if code c == sep then some s else rest

-- `a + b`.
abbrev pub append : String → String → String
append String.[] t = t
append (String.◌∷◌ c s) t = String.◌∷◌ c (append s t)

-- `sep.join(texts)`.
abbrev pub join : String → List String → String
join sep [] = ""
join sep (s ∷ []) = s
join sep (s ∷ t ∷ rest) = append s (append sep (join sep (t ∷ rest)))

abbrev pub starts_with : List ℕ → List ℕ → Bool
starts_with [] s = true
starts_with (p ∷ ps) [] = false
starts_with (p ∷ ps) (c ∷ s) = p == c && starts_with ps s

-- `part in s`, of code points.
abbrev pub has_part : List ℕ → List ℕ → Bool
has_part part [] = starts_with part []
has_part part (c ∷ s) = starts_with part (c ∷ s) || has_part part s

-- Python's truth of a text that may be `None`.
abbrev pub truthy_text : Option String → Bool
truthy_text none = false
truthy_text (some s) = not (str_eq s "")

pub append_assoc : (s t u : String) → append (append s t) u ≡ append s (append t u)
append_assoc String.[] t u = refl
append_assoc (String.◌∷◌ c s) t u = ap (String.◌∷◌ c) (append_assoc s t u)

-- `len(s)`.
abbrev text_length : String → ℕ
text_length String.[] = 0
text_length (String.◌∷◌ c s) = suc (text_length s)

append-text_length : (s t : String) → text_length (append s t) ≡ text_length s + text_length t
append-text_length String.[] t = omega arith
append-text_length (String.◌∷◌ c s) t = omega (arith, append-text_length s t)

tail_of : String → String
tail_of String.[] = String.[]
tail_of (String.◌∷◌ c s) = s

first_of : Char → String → Char
first_of d String.[] = d
first_of d (String.◌∷◌ c s) = c

pub append_cancel : (s t u : String) → append s u ≡ append t u → s ≡ t
unfolding tail_of first_of
append_cancel String.[] String.[] u e = refl
append_cancel String.[] (String.◌∷◌ d t) u e =
    let f : text_length u ≡ suc (text_length (append t u)) = ap text_length e in
    absurd (omega (arith, append-text_length t u))
append_cancel (String.◌∷◌ c s) String.[] u e =
    let f : suc (text_length (append s u)) ≡ text_length u = ap text_length e in
    absurd (omega (arith, append-text_length s u))
append_cancel (String.◌∷◌ c s) (String.◌∷◌ d t) u e =
    let h : c ≡ d = ap (first_of c) e in
    let r : append s u ≡ append t u = ap tail_of e in
    ap (λ k. String.◌∷◌ k s) h ∙ ap (String.◌∷◌ d) (append_cancel s t u r)
