-- ===== src/Admin/Tests.antt =====
-- A page of two garages, one verified and one not.
use autospace_parking.Prelude.{ℕ, false, not, String, ◌≡◌, refl, true, none, some, List, [], ◌∷◌}
use autospace_parking.Js.Text.{is_space, trim, includes, starts_with}
use autospace_parking.Admin.Listings.{
  Garage, is_verified, all, pending, verified, garages_that, counts_from, spaces_from,
  spaces_on_page, filtered_garages, matches_status, matches_query, has_value,
}
use mathlib.Core.List.{map}
use autospace_parking.Html.{tagged}
use autospace_parking.Admin.Dashboard.{Query, Review, create_button, shown, queue}
use autospace_parking.Admin.Queue.{queue_lem}

abbrev quay : Garage
quay = record {
  id = "g1";
  display_name = some "quay";
  address = none;
  verification = some true;
  slot_counts = 3 ∷ 4 ∷ [];
}

abbrev mews : Garage
mews = record {
  id = "g2";
  display_name = none;
  address = some "mews lane";
  verification = none;
  slot_counts = 5 ∷ [];
}

abbrev page : List Garage
page = quay ∷ mews ∷ []

abbrev lower_case : String → String
lower_case text = text

spaces_run : spaces_on_page page ≡ 12
unfolding spaces_on_page counts_from spaces_from
spaces_run = refl

query_run : filtered_garages lower_case all " lane " page ≡ mews ∷ []
unfolding filtered_garages garages_that includes starts_with matches_status matches_query has_value
    is_space trim
query_run = refl

abbrev answered : Query
answered = record {
  answer = some (record { garages_count = 40; garages = page });
  loading = false;
  error = none;
  skip = 0;
  take = 12;
}

abbrev reviewing : Review
reviewing = record { query = ""; verification_filter = pending }

-- Numbers are written with one sign here.
abbrev digits : ℕ → String
digits n = "#"

queue_lem_example :
    (tagged "CreateVerificationButton" (queue digits digits lower_case answered reviewing)
      ≡ map create_button (
          garages_that
            (λ g. not (is_verified g))
            (shown digits digits lower_case answered reviewing)))
    × (pending ≡ pending
        → tagged "RemoveVerificationButton" (queue digits digits lower_case answered reviewing)
          ≡ [])
    × (pending ≡ verified
        → tagged "CreateVerificationButton" (queue digits digits lower_case answered reviewing)
          ≡ [])
queue_lem_example = queue_lem digits digits lower_case answered reviewing false
