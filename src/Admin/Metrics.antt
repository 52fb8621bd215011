-- ===== src/Admin/Metrics.antt =====
-- The figures agree with the lists that the filter shows.
use autospace_parking.Prelude.{
  ℕ, ◌+◌, ◌-◌, ◌≡◌, refl, sym, ◌∙◌, ap, String, Bool, true, not, List, [], ◌∷◌, length, arith,
}
use autospace_parking.Js.Text.{trim}
use autospace_parking.Admin.Listings.{
  Garage, all, pending, verified, is_verified, garages_that, verified_count, pending_count,
  matches_status, matches_query, filtered_garages,
}

garages_that_ext :
    (f g : Garage → Bool)
    → ((garage : Garage) → f garage ≡ g garage)
    → (garages : List Garage) → garages_that f garages ≡ garages_that g garages
unfolding garages_that
garages_that_ext f g same [] = refl
garages_that_ext f g same (x ∷ xs) = rw (same x, garages_that_ext f g same xs) refl

garages_that_all : (garages : List Garage) → garages_that (λ _. true) garages ≡ garages
unfolding garages_that
garages_that_all [] = refl
garages_that_all (x ∷ xs) = ap (λ (rest : List Garage). x ∷ rest) (garages_that_all xs)

length-garages_that :
    (test : Garage → Bool) (garages : List Garage)
    → length (garages_that test garages) + length (garages_that (λ g. not (test g)) garages)
      ≡ length garages
unfolding garages_that
length-garages_that test [] = omega arith
length-garages_that test (x ∷ xs) = ground (arith, length-garages_that test xs)

difference : (a b n : ℕ) → a + b ≡ n → n - a ≡ b
difference a b n h = omega (arith, h)

-- With a blank query the filter shows every garage, the verified ones or the others; the figures
-- of verified and awaiting garages are the lengths of these two lists, and add up to all of them;
-- where lower-casing keeps the empty text.
metrics_lem :
    (lower_case : String → String)
    → lower_case "" ≡ ""
    → (query : String) (garages : List Garage) → trim query ≡ ""
    → (filtered_garages lower_case all query garages ≡ garages)
      × (verified_count garages ≡ length (filtered_garages lower_case verified query garages))
      × (pending_count garages ≡ length (filtered_garages lower_case pending query garages))
      × (verified_count garages + pending_count garages ≡ length garages)
unfolding filtered_garages matches_status matches_query verified_count pending_count
metrics_lem lower_case keeps_empty query garages blank =
    let count = length-garages_that is_verified garages in
    rw (blank, keeps_empty)
      (
        garages_that_ext _ (λ _. true) (λ g. refl) garages ∙ garages_that_all garages,
        ap length (garages_that_ext _ _ (λ g. ground arith) garages),
        difference _ _ _ count ∙ sym (ap length (garages_that_ext _ _ (λ g. ground arith) garages)),
        omega (arith, count),
      )
