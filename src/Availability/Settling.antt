-- ===== src/Availability/Settling.antt =====
-- How the promise of a call settles.
use autospace_parking.Prelude.{◌≡◌, refl, Option, none, some, List, [], ◌∷◌}
use autospace_parking.Js.Exec.{Outcome, Thrown, resolved, rejected}
use autospace_parking.Availability.{Reply, waiting, settled, callback, callbacks}

module _ (Response : Type 0) where
  stays :
      (replies : List (Reply Response)) (o : Outcome (Option Response))
      → callbacks Response replies (settled o) ≡ settled o
  unfolding callbacks callback
  stays [] o = refl
  stays (reply ∷ replies) o = stays replies o

  -- The first reply to a call settles its promise, by its error if it has one and by its response
  -- otherwise, and no later reply changes that.
  pub callbacks_lem :
      (first : Reply Response) (replies : List (Reply Response))
      → ((error : Thrown)
          → first.error ≡ some error
          → callbacks Response (first ∷ replies) waiting ≡ settled (rejected error))
        × (first.error ≡ none
            → callbacks Response (first ∷ replies) waiting ≡ settled (resolved first.response))
  unfolding callbacks callback
  callbacks_lem first replies = (
    λ error failed. rw failed (stays replies (rejected error)),
    λ fine. rw fine (stays replies (resolved first.response)),
  )
