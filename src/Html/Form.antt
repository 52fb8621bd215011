-- ===== src/Html/Form.antt =====
-- What a browser does with a form: it refuses to submit while a required input is empty, and sends
-- a name and a value for each input, in order; of radio buttons only for the one that is checked.
use autospace_parking.Prelude.{
  String, Bool, true, false, not, ◌&&◌, ◌||◌, Option, none, some, List, [], ◌∷◌, ◌++◌, ◌==◌,
  if◌then◌else◌,
}
use autospace_parking.Js.Text.{truthy, or_default}
use autospace_parking.Html.{Element, text, element, Elements, no_more, child, attribute}

abbrev has_attribute : Option String → Bool
has_attribute none = false
has_attribute (some value) = true

is_radio : List (String × String) → Bool
is_radio attributes = or_default (attribute "type" attributes) "text" == "radio"

-- `typed` is what the user has put into the inputs, by name.
entry : (String → String) → List (String × String) → Option String → List (String × String)
unfolding is_radio
entry typed attributes none = []
entry typed attributes (some name) =
    if is_radio attributes
    then (if has_attribute (attribute "checked" attributes)
        then (name, or_default (attribute "value" attributes) "on") ∷ []
        else [])
    else (name, typed name) ∷ []

accepts : (String → String) → List (String × String) → Option String → Bool
accepts typed attributes none = true
accepts typed attributes (some name) =
    not (has_attribute (attribute "required" attributes)) || truthy (typed name)

unfoldable mutual
  unfolding entry

  pub form_data : (String → String) → Element → List (String × String)
  form_data typed (text s) = []
  form_data typed (element tag attributes children) =
      (if tag == "input" then entry typed attributes (attribute "name" attributes) else [])
      ++ children_data typed children

  pub children_data : (String → String) → Elements → List (String × String)
  children_data typed no_more = []
  children_data typed (child e es) = form_data typed e ++ children_data typed es

unfoldable mutual
  unfolding accepts

  pub is_complete : (String → String) → Element → Bool
  is_complete typed (text s) = true
  is_complete typed (element tag attributes children) =
      (if tag == "input" then accepts typed attributes (attribute "name" attributes) else true)
      && are_complete typed children

  pub are_complete : (String → String) → Elements → Bool
  are_complete typed no_more = true
  are_complete typed (child e es) = is_complete typed e && are_complete typed es

unfoldable pub submit : (String → String) → Element → Option (List (String × String))
submit typed form = if is_complete typed form then some (form_data typed form) else none
