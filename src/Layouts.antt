-- ===== src/Layouts.antt =====
-- apps/web, apps/web-admin, apps/web-manager, apps/web-valet and libs/ui: the layouts of the sites
-- (src/app/layout.tsx of each) with their titles and menus, and the health routes. A component from
-- elsewhere is an element with its name.
mod Tests
use autospace_parking.Prelude.{String, Option, none, some, List, [], ◌∷◌}
use autospace_parking.Html.{Element, node}

pub record MenuItem : Type 0 where
  pub label : String
  pub href : String

abbrev item : String → String → MenuItem
item label href = record { label = label; href = href }

-- The title of a page that has none, and the template for one that has.
pub record Metadata : Type 0 where
  pub default : String
  pub template : Option String
  pub description : String

abbrev metadata : String → Option String → String → Metadata
metadata default template description = record {
  default = default;
  template = template;
  description = description;
}

-- The kind of a header, if one is given.
abbrev kind : Option String → List (String × String)
kind none = []
kind (some type) = ("type", type) ∷ []

abbrev links : List MenuItem → List (String × String)
links [] = []
links (item ∷ items) = (item.label, item.href) ∷ links items

-- `<Header type=… menuItems=… />`
abbrev header : Option String → List MenuItem → Element
header type items = node "Header" (kind type) (node "menuItems" (links items) [] ∷ [])

-- The layout that three of the sites share.
abbrev staff_layout : String → List MenuItem → List Element → Element
staff_layout type items children = node "html" (("lang", "en") ∷ []) (
    node "body" [] (
      node "SessionProvider" [] (
        node "ApolloProvider" [] (header (some type) items ∷ node "Container" [] children ∷ [])
        ∷ [])
      ∷ node "ToastContainer" [] []
      ∷ [])
    ∷ [])

abbrev pub web_metadata : Metadata
web_metadata =
    metadata "Autospace — Find parking that fits your journey" (some "%s | Autospace")
      "Find and reserve trusted hourly, daily, monthly, and airport parking with Autospace."

abbrev pub web_menu : List MenuItem
web_menu = item "Search" "/search" ∷ item "Bookings" "/bookings" ∷ []

unfoldable pub web_layout : List Element → Element
web_layout children = node "html" (("lang", "en") ∷ []) (
    node "SessionProvider" [] (
      node "ApolloProvider" [] (
        node "body" []
          (header none web_menu ∷ node "Container" [] children ∷ node "ToastContainer" [] [] ∷ [])
        ∷ [])
      ∷ [])
    ∷ [])

abbrev pub admin_metadata : Metadata
admin_metadata =
    metadata "Autospace Operations" (some "%s | Autospace Operations")
      "Operate Autospace users, listings, bookings, and payments."

abbrev pub admin_menu : List MenuItem
admin_menu = item "Listings" "/" ∷ item "Admins" "/manageAdmins" ∷ []

unfoldable pub admin_layout : List Element → Element
admin_layout = staff_layout "admin" admin_menu

abbrev pub manager_metadata : Metadata
manager_metadata = metadata "Autospace | Manager" none "Generated by create next app"

abbrev pub manager_menu : List MenuItem
manager_menu = item "New Garage" "/new-garage" ∷ item "Valets" "/valets" ∷ []

unfoldable pub manager_layout : List Element → Element
manager_layout = staff_layout "manager" manager_menu

abbrev pub valet_metadata : Metadata
valet_metadata = metadata "Autospace | Valet" none "Generated by create next app"

abbrev pub valet_menu : List MenuItem
valet_menu = item "My Trips" "/my-trips" ∷ []

unfoldable pub valet_layout : List Element → Element
valet_layout = staff_layout "valet" valet_menu

-- The layout of the library of components.
abbrev pub ui_metadata : Metadata
ui_metadata = metadata "Create Next App" none "Generated by create next app"

unfoldable pub ui_layout : List Element → Element
ui_layout children = node "html" (("lang", "en") ∷ []) (node "body" [] children ∷ [])

-- `GET` of a health route: the status, and the name of the service.
abbrev pub health : String → List (String × String)
health service = ("status", "ok") ∷ ("service", service) ∷ []

abbrev pub web_health : List (String × String)
web_health = health "web"

abbrev pub admin_health : List (String × String)
admin_health = health "web-admin"

abbrev pub manager_health : List (String × String)
manager_health = health "web-manager"

abbrev pub valet_health : List (String × String)
valet_health = health "web-valet"
