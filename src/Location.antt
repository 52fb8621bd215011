-- ===== src/Location.antt =====
-- libs/util/hooks/location.ts: `useSearchLocation`. The effect runs once for each debounced text;
-- its request is answered later, and is aborted when the effect runs again or the component goes.
pub mod Places
pub mod Latest
mod Tests
use autospace_parking.Prelude.{
  ℕ, ◌+◌, ◌<◌, ◌≡◌, ◌≢◌, String, ◌<>◌, Bool, true, false, not, ◌||◌, Option, none, some, List, [],
  ◌∷◌, if◌then◌else◌, eqb, ◌==◌,
}
use autospace_parking.Js.Exec.{Thrown, error, value}
use autospace_parking.Js.Text.{truthy, truthy?, trim, or_default}
use autospace_parking.Location.Places.{LocationInfo, MapboxFeature, places}

-- How a request ends: with the features of a response that is in order, with a response that is
-- not, or with an error.
pub data Answer (C : Type 0) : Type 0 where
  features : Option (List (MapboxFeature C)) → Answer C
  not_ok : Answer C
  failed : Thrown → Answer C

-- The request of the last run of the effect, by number: there is none, it is on its way, it has
-- been answered.
pub data Request : Type 0 where
  absent : Request
  waiting answered : ℕ → Request

-- What `fetch` is called with; `encodeURIComponent` is a parameter.
unfoldable pub request_url : (String → String) → String → String → String
request_url encode token text =
    "https://api.mapbox.com/geocoding/v5/mapbox.places/"
    <> (encode text <> (".json?fuzzyMatch=true&access_token=" <> token))

module _ (C : Type 0) where
  -- The state of the hook, with the number of the next request.
  pub record Search : Type 0 where
    pub loading : Bool
    pub location_info : List (LocationInfo C)
    pub request : Request
    pub next : ℕ

  abbrev pub new_search : Search
  new_search = record { loading = false; location_info = []; request = absent; next = 0 }

  -- The cleanup of the last run: its request, if it has one, is aborted.
  unfoldable pub cleanup : Search → Search
  cleanup s = record s { request = absent }

  -- The effect for a text, where the variable with the access token has this value.
  unfoldable pub effect : Option String → String → Search → Search
  unfolding cleanup
  effect token text s =
      if not (truthy (trim text)) || not (truthy? token)
      then record (cleanup s) { location_info = []; loading = false }
      else record (cleanup s) { loading = true; request = waiting s.next; next = s.next + 1 }

  -- `error instanceof Error && error.name !== 'AbortError'`
  abbrev pub clears : Thrown → Bool
  clears (error name message) = not (name == "AbortError")
  clears (value text) = false

  -- The two `then`s and the `catch`.
  unfoldable pub show : Answer C → Search → Search
  show (features found) s = record s { location_info = places (or_default found []) }
  show not_ok s = record s { location_info = [] }
  show (failed thrown) s = if clears thrown then record s { location_info = [] } else s

  unfoldable pub is_current : ℕ → Request → Bool
  is_current i absent = false
  is_current i (waiting j) = eqb i j
  is_current i (answered j) = eqb i j

  -- `finally`: a request that is not the last one has been aborted.
  unfoldable pub finish : ℕ → Search → Search
  unfolding is_current
  finish i s =
      if is_current i s.request then record s { loading = false; request = answered i } else s

  unfoldable pub settle : ℕ → Answer C → Search → Search
  unfolding show finish
  settle i answer s = finish i (show answer s)

  abbrev pub Aborted : Answer C → Type 0
  Aborted answer = (message : String) × (answer ≡ failed (error "AbortError" message))

  -- What may happen while the component stands: the effect runs, the last request is answered, or an
  -- aborted one is rejected, as `fetch` does it.
  pub data Step : Search → Search → Type 0 where
    searches : (token : Option String) (text : String) (s : Search) → Step s (effect token text s)
    answers :
        (i : ℕ) (answer : Answer C) (s : Search)
        → s.request ≡ waiting i
        → Step s (settle i answer s)
    rejects :
        (i : ℕ) (answer : Answer C) (s : Search)
        → (s.request ≢ waiting i)
        → (s.request ≢ answered i)
        → Aborted answer
        → Step s (settle i answer s)

  -- Requests that end, in this order.
  unfoldable pub settle_all : List (ℕ × Answer C) → Search → Search
  settle_all [] s = s
  settle_all ((i, answer) ∷ more) s = settle_all more (settle i answer s)

  pub data Reach : Search → Type 0 where
    mounted : Reach new_search
    later : {s u : Search} → Reach s → Step s u → Reach u
