-- ===== src/Layouts/Tests.antt =====
-- The layout of the administrators' site.
use autospace_parking.Prelude.{◌≡◌, refl, []}
use autospace_parking.Html.{tagged}
use autospace_parking.Layouts.{admin_layout}

-- It imports the check of the user's role, and does not use it.
unguarded_run : tagged "IsAdmin" (admin_layout []) ≡ []
unfolding tagged admin_layout
unguarded_run = refl
