-- ===== src/Html.antt =====
-- What a page renders, as a tree of elements. Attributes that only style, icons and event handlers
-- are left out of the trees; a handler is a function beside them.
pub mod Form
use autospace_parking.Prelude.{
  String, Bool, Option, none, some, List, [], ◌∷◌, ◌++◌, ◌==◌, if◌then◌else◌,
}

mutual
  pub data Element : Type 0 where
    text : String → Element
    element : String → List (String × String) → Elements → Element

  pub data Elements : Type 0 where
    no_more : Elements
    child : Element → Elements → Elements

abbrev pub elements : List Element → Elements
elements [] = no_more
elements (e ∷ es) = child e (elements es)

abbrev pub node : String → List (String × String) → List Element → Element
node tag attributes children = element tag attributes (elements children)

-- An attribute without a value, such as `checked`, stands only where a test holds.
abbrev pub flag : Bool → String → List (String × String) → List (String × String)
flag test name attributes = if test then (name, "") ∷ attributes else attributes

-- An attribute whose value may be undefined.
abbrev pub optional : String → Option String → List (String × String) → List (String × String)
optional name none attributes = attributes
optional name (some value) attributes = (name, value) ∷ attributes

abbrev pub attribute : String → List (String × String) → Option String
attribute name [] = none
attribute name ((n, value) ∷ more) = if n == name then some value else attribute name more

-- The elements of a tree that have a tag.
unfoldable mutual
  pub tagged : String → Element → List Element
  tagged name (text s) = []
  tagged name (element tag attributes children) =
      (if tag == name then element tag attributes children ∷ [] else []) ++ all_tagged name children

  pub all_tagged : String → Elements → List Element
  all_tagged name no_more = []
  all_tagged name (child e es) = tagged name e ++ all_tagged name es
