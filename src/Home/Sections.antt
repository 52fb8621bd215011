-- ===== src/Home/Sections.antt =====
-- apps/web/src/app/page.tsx: the sections of the page around the form, and the whole page.
use autospace_parking.Prelude.{String, Option, List, [], ◌∷◌}
use mathlib.Core.List.{map}
use autospace_parking.Html.{Element, text, node}
use autospace_parking.Home.{Mode, search_form, explore, provider_url}

abbrev pub benefits : List (String × String)
benefits =
    ("Space guaranteed", "Your confirmed space is held for the full booking window.")
    ∷ ("Clear, upfront prices", "See the complete price before you reserve—without surprises.")
    ∷ ("Manage it anywhere", "View instructions, manage bookings, and get support online.")
    ∷ []

abbrev item : String → Element
item promise = node "span" [] (node "span" [] [] ∷ text promise ∷ [])

unfoldable pub hero : Element
hero = node "div" [] (
    node "p" [] (text "Parking that fits your journey" ∷ [])
    ∷ node "h1" [] (text "Park closer." ∷ node "span" [] (text "Move easier." ∷ []) ∷ [])
    ∷ node "p" [] (
        text
          "Find and reserve trusted parking for a few hours, a month, or your next flight—all from one place."
        ∷ [])
    ∷ node "div" [] (map item ("Secure checkout" ∷ "Flexible options" ∷ "Trusted spaces" ∷ []))
    ∷ [])

unfoldable pub benefit : String × String → Element
benefit (title, body) =
    node "article" []
      (node "span" [] [] ∷ node "h2" [] (text title ∷ []) ∷ node "p" [] (text body ∷ []) ∷ [])

abbrev point : String → Element
point promise = node "li" [] (text promise ∷ [])

-- The section for the owners of spaces, with the address of the providers' site.
unfoldable pub owners : String → Element
owners url = node "section" [] (
    node "div" [] (
      node "div" [] (
        node "div" [] (
          node "span" [] []
          ∷ node "div" [] (
              node "p" [] (text "One space." ∷ [])
              ∷ node "p" [] (text "Extra monthly income." ∷ [])
              ∷ [])
          ∷ [])
        ∷ [])
      ∷ [])
    ∷ node "div" [] (
        node "p" [] (text "For space owners" ∷ [])
        ∷ node "h2" [] (text "Put an empty parking space to work." ∷ [])
        ∷ node "p" [] (
            text
              "Choose when drivers can book, set your rules, and manage earnings from a straightforward provider dashboard."
            ∷ [])
        ∷ node "ul" [] (
            map point (
              "Free to create a listing" ∷ "Control prices and availability"
              ∷ "Track bookings and payouts" ∷ []))
        ∷ node "a" (("href", url) ∷ []) (text "List your space" ∷ [])
        ∷ [])
    ∷ [])

-- The page, in a mode.
unfoldable pub home : (String → String) → (String → String) → Option String → Mode → Element
unfolding hero benefit owners search_form explore provider_url
home lower_case encode set m = node "main" [] (
    node "section" [] (node "div" [] (hero ∷ search_form m ∷ []) ∷ [])
    ∷ node "section" [] (node "div" [] (map benefit benefits) ∷ [])
    ∷ owners (provider_url set)
    ∷ explore lower_case encode
    ∷ [])
