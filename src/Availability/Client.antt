-- ===== src/Availability/Client.antt =====
-- availability-grpc.client.ts: the constructor, and the end of the module. What it loads is read by
-- the gRPC library; `join` of paths is a parameter.
use autospace_parking.Prelude.{String, Bool, true, false, Option, List, [], ◌∷◌}
use autospace_parking.Availability.{address}

-- The options of `loadSync`.
pub record LoadOptions : Type 0 where
  pub include_dirs : List String
  pub keep_case : Bool
  pub longs : String
  pub enums : String
  pub defaults : Bool
  pub oneofs : Bool

-- The client: what is loaded, the names that lead to the service in it, where it is connected to,
-- with or without encryption, and whether it is open.
pub record Client : Type 0 where
  pub proto : String
  pub options : LoadOptions
  pub service : List String
  pub address : String
  pub insecure : Bool
  pub is_open : Bool

-- From `process.cwd()` and `AVAILABILITY_GRPC_ADDRESS`.
unfoldable pub new_client : (String → String → String) → String → Option String → Client
new_client join cwd set = record {
  proto = join cwd "../../libs/contracts/proto/autospace/availability/v1/availability.proto";
  options = record {
    include_dirs = join cwd "../../libs/contracts/proto" ∷ [];
    keep_case = false;
    longs = "String";
    enums = "String";
    defaults = true;
    oneofs = true;
  };
  service = "autospace" ∷ "availability" ∷ "v1" ∷ "AvailabilityService" ∷ [];
  address = address set;
  insecure = true;
  is_open = true;
}

-- `this.client.close()`
unfoldable pub on_module_destroy : Client → Client
on_module_destroy client = record client { is_open = false }
