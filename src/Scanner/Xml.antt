-- ===== src/Scanner/Xml.antt =====
-- Element trees, read as `find`, `findall` and `get` of ElementTree read them for a plain tag. The
-- text of an element without text is taken as the empty text.
use kepryx.Base.{String, Option, none, some, List, [], ◌∷◌, str_eq, if◌then◌else◌}

mutual
  pub data Element : Type 0 where
    element : String → List (String × String) → String → Elements → Element

  pub data Elements : Type 0 where
    nil : Elements
    cons : Element → Elements → Elements

unfoldable pub tag : Element → String
tag (element t attributes text children) = t

-- The children of that tag.
unfoldable pub of_tag : String → Elements → List Element
unfolding tag
of_tag t nil = []
of_tag t (cons e rest) = let later = of_tag t rest in if str_eq (tag e) t then e ∷ later else later

unfoldable pub findall : String → Element → List Element
unfolding of_tag
findall t (element _ attributes text children) = of_tag t children

unfoldable pub first : List Element → Option Element
first [] = none
first (e ∷ rest) = some e

unfoldable pub find : String → Element → Option Element
unfolding findall first
find t e = first (findall t e)

unfoldable pub lookup_text : String → List (String × String) → Option String
lookup_text k [] = none
lookup_text k ((j, v) ∷ rest) =
    let later = lookup_text k rest in if str_eq j k then some v else later

unfoldable pub attribute : String → Element → Option String
unfolding lookup_text
attribute k (element _ attributes text children) = lookup_text k attributes

-- The same of an element that may be missing.
unfoldable pub attribute_of : String → Option Element → Option String
unfolding attribute
attribute_of k none = none
attribute_of k (some e) = attribute k e

unfoldable pub find_in : String → Option Element → Option Element
unfolding find
find_in t none = none
find_in t (some e) = find t e

unfoldable pub findall_in : String → Option Element → List Element
unfolding findall
findall_in t none = []
findall_in t (some e) = findall t e

unfoldable pub text_of : Element → String
text_of (element _ attributes text children) = text
