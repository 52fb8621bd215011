-- ===== src/Hold/Coordinator.antt =====
-- apps/services/go/availability/internal/coordination/redis.go: `HoldCoordinator`, on a store of keys
-- with the times at which they expire. Times are milliseconds; that Redis fails is left out.
use autospace_parking.Prelude.{
  ℕ, String, Bool, true, false, Option, none, some, List, [], ◌∷◌, ◌<>◌, ◌==◌, leb, if◌then◌else◌,
}
use autospace_parking.Js.Text.{truthy}

abbrev pub Store : Type 0
Store = String → Option ℕ

pub data CoordinationError : Type 0 where
  expiry_in_the_past already_coordinated : CoordinationError

-- `NewHoldCoordinator`: the prefix of its keys.
unfoldable pub new_hold_coordinator : String → String
new_hold_coordinator environment =
    (if truthy environment then environment else "development") <> ":availability:hold:"

abbrev pub key : String → String → String
key prefix hold_id = prefix <> hold_id

-- A key stands until it expires.
abbrev pub is_live : ℕ → Option ℕ → Bool
is_live now none = false
is_live now (some expiry) = if leb expiry now then false else true

abbrev pub put : String → Option ℕ → Store → Store
put k value store j = if k == j then value else store j

-- `SetNX` and `Del`
unfoldable pub set_nx : ℕ → String → ℕ → Store → Store × Bool
set_nx now k expiry store =
    if is_live now (store k) then (store, false) else (put k (some expiry) store, true)

created_or : Store × Bool → Store × Option CoordinationError
created_or (store, true) = (store, none)
created_or (store, false) = (store, some already_coordinated)

module _ (prefix : String) where
  unfoldable pub acquire : ℕ → String → ℕ → Store → Store × Option CoordinationError
  unfolding set_nx created_or
  acquire now hold_id expires_at store =
      if leb expires_at now
      then (store, some expiry_in_the_past)
      else created_or (set_nx now (key prefix hold_id) expires_at store)

  unfoldable pub release : String → Store → Store
  release hold_id store = put (key prefix hold_id) none store

  -- The calls of all who share the store, with the times at which they are made.
  pub data Call : Type 0 where
    acquires : ℕ → String → ℕ → Call
    releases : String → Call

  unfoldable pub perform : Call → Store → Store
  perform (acquires now hold_id expires_at) store = (acquire now hold_id expires_at store).0
  perform (releases hold_id) store = release hold_id store

  unfoldable pub perform_all : List Call → Store → Store
  perform_all [] store = store
  perform_all (c ∷ cs) store = perform_all cs (perform c store)
