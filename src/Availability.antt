-- ===== src/Availability.antt =====
-- apps/api/src/common/availability/availability-grpc.client.ts: `getAvailability`, one call of the
-- gRPC client with a deadline, as a promise.
pub mod Settling
pub mod Service
pub mod Client
pub mod Answering
mod Tests
use autospace_parking.Prelude.{
  ℕ, ◌+◌, String, Bool, Option, none, some, List, [], ◌∷◌, if◌then◌else◌,
}
use autospace_parking.Js.Exec.{Outcome, Thrown, resolved, rejected}
use autospace_parking.Js.Text.{truthy, or_default}

abbrev pub deadline_ms : ℕ
deadline_ms = 2000

-- `AVAILABILITY_GRPC_ADDRESS`
unfoldable pub address : Option String → String
address set = or_default set "localhost:9091"

-- What the client is called with.
pub record Call : Type 0 where
  pub parking_space_ids : List String
  pub metadata : List (String × String)
  pub deadline : ℕ

correlation : Option String → List (String × String)
correlation none = []
correlation (some id) = if truthy id then ("x-correlation-id", id) ∷ [] else []

unfoldable pub call : ℕ → List String → Option String → Call
unfolding correlation
call now parking_space_ids correlation_id = record {
  parking_space_ids = parking_space_ids;
  metadata = correlation correlation_id;
  deadline = now + deadline_ms;
}

module _ (Response : Type 0) where
  -- The arguments of the callback: an error or `null`, and a response.
  pub record Reply : Type 0 where
    pub error : Option Thrown
    pub response : Option Response

  pub data Promise : Type 0 where
    waiting : Promise
    settled : Outcome (Option Response) → Promise

  abbrev outcome : Option Thrown → Option Response → Outcome (Option Response)
  outcome none response = resolved response
  outcome (some thrown) response = rejected thrown

  -- The callback. `resolve` and `reject` do nothing to a promise that is settled.
  unfoldable pub callback : Reply → Promise → Promise
  callback reply (settled o) = settled o
  callback reply waiting = settled (outcome reply.error reply.response)

  unfoldable pub callbacks : List Reply → Promise → Promise
  callbacks [] p = p
  callbacks (reply ∷ replies) p = callbacks replies (callback reply p)
