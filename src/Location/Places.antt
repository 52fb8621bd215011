-- ===== src/Location/Places.antt =====
-- The places that a response is filtered and turned into.
use autospace_parking.Prelude.{
  String, ◌≡◌, refl, ◌⊎◌, inl, inr, true, Option, none, some, List, [], ◌∷◌, if◌then◌else◌,
  Bool-cases,
}
use mathlib.Core.List.{Memᴰ}
use mathlib.Core.List.Memᴰ
use autospace_parking.Js.Text.{truthy}

pub record LocationInfo (C : Type 0) : Type 0 where
  pub place_name : String
  pub lat_lng : C × C

pub record MapboxFeature (C : Type 0) : Type 0 where
  pub place_name : Option String
  pub center : Option (C × C)

module _ {C : Type 0} where
  -- One feature: its centre is a longitude before a latitude.
  unfoldable pub place_of :
      Option String → Option (C × C) → List (LocationInfo C) → List (LocationInfo C)
  place_of (some name) (some (lng, lat)) rest =
      if truthy name then record { place_name = name; lat_lng = (lat, lng) } ∷ rest else rest
  place_of _ _ rest = rest

  unfoldable pub places : List (MapboxFeature C) → List (LocationInfo C)
  places [] = []
  places (f ∷ fs) = place_of f.place_name f.center (places fs)

  -- The feature is complete, and this is its place.
  pub record IsPlaceOf (p : LocationInfo C) (f : MapboxFeature C) : Type 0 where
    pub named : f.place_name ≡ some p.place_name
    pub nonempty : truthy p.place_name ≡ true
    pub swapped : f.center ≡ some (p.lat_lng.1, p.lat_lng.0)

  abbrev Completes : Option String → Option (C × C) → LocationInfo C → Type 0
  Completes name center p =
      (name ≡ some p.place_name)
      × (truthy p.place_name ≡ true)
      × (center ≡ some (p.lat_lng.1, p.lat_lng.0))

  place_of_cases :
      (name : Option String) (center : Option (C × C)) (rest : List (LocationInfo C))
      (p : LocationInfo C)
      → Memᴰ p (place_of name center rest)
      → Memᴰ p rest ⊎ Completes name center p
  unfolding place_of
  place_of_cases (some name) (some (lng, lat)) rest p m = elim (Bool-cases (truthy name)) [
    | inr empty ↦ inl (rw empty at m)
    | inl given ↦ elim (Memᴰ.cases_cons (rw given at m)) [
      | inl same ↦ inr (rw same (refl, given, refl))
      | inr among ↦ inl among
    ]
  ]
  place_of_cases none center rest p m = inl m
  place_of_cases (some name) none rest p m = inl m

  -- The places shown are those of features that have a name that is not empty and a centre, with
  -- the latitude put first.
  places-IsPlaceOf :
      (fs : List (MapboxFeature C)) (p : LocationInfo C)
      → Memᴰ p (places fs)
      → (f : MapboxFeature C) × Memᴰ f fs × IsPlaceOf p f
  unfolding places
  places-IsPlaceOf [] p m = elim m [ ]
  places-IsPlaceOf (f ∷ fs) p m = elim (place_of_cases f.place_name f.center (places fs) p m) [
    | inr (name, nonempty, center) ↦
        (f, Memᴰ.head refl, record { named = name; nonempty = nonempty; swapped = center })
    | inl among ↦ let (g, here, is_its) = places-IsPlaceOf fs p among in (g, Memᴰ.tail here, is_its)
  ]
