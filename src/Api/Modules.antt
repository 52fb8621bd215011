-- ===== src/Api/Modules.antt =====
-- outbox.module.ts, availability.module.ts and app.module.ts: what each module of the API imports,
-- provides and exports, and the constructors of the classes that the modules provide.
use autospace_parking.Prelude.{String, Bool, true, false, Option, List, [], ◌∷◌}
use autospace_parking.Js.Exec.{Outcome, resolved, rejected}
use autospace_parking.Api.{JwtOptions, jwt_options}
use autospace_parking.Database.Options.{
  Environment, Options, Entity, outbox_event, consumed_event, database_options,
}

pub data Class : Type 0 where
  outbox_service outbox_relay_service outbox_relay_worker kafka_event_consumer
        kafka_outbox_publisher availability_grpc_client app_controller app_service :
      Class

-- What a constructor asks for: a class, `OUTBOX_PUBLISHER`, `Repository<…>` or `DataSource`.
pub data Token : Type 0 where
  class : Class → Token
  outbox_publisher : Token
  repository : Entity → Token
  data_source : Token

-- A class under its own name, or `{ provide, useExisting }`.
pub data Provider : Type 0 where
  own : Class → Provider
  existing : Token → Class → Provider

pub data ModuleName : Type 0 where
  outbox availability : ModuleName

pub data Import : Type 0 where
  config : Bool → Import
  type_orm_root : Options → Import
  type_orm_feature : List Entity → Import
  jwt : JwtOptions → Import
  local : ModuleName → Import

pub record Metadata : Type 0 where
  pub is_global : Bool
  pub imports : List Import
  pub controllers : List Class
  pub providers : List Provider
  pub exports : List Class

unfoldable pub outbox_module : Metadata
outbox_module = record {
  is_global = true;
  imports = type_orm_feature (outbox_event ∷ consumed_event ∷ []) ∷ [];
  controllers = [];
  providers =
      own outbox_service
      ∷ own outbox_relay_service
      ∷ own outbox_relay_worker
      ∷ own kafka_event_consumer
      ∷ own kafka_outbox_publisher
      ∷ existing outbox_publisher kafka_outbox_publisher
      ∷ [];
  exports = outbox_service ∷ outbox_relay_service ∷ [];
}

unfoldable pub availability_module : Metadata
availability_module = record {
  is_global = true;
  imports = [];
  controllers = [];
  providers = own availability_grpc_client ∷ [];
  exports = availability_grpc_client ∷ [];
}

and_then {ℓ} : {A B : Type ℓ} → Outcome A → (A → Outcome B) → Outcome B
and_then (resolved a) f = f a
and_then (rejected t) f = rejected t

-- The module of the application: `databaseOptions()` is called as the file is loaded, and throws
-- there.
unfoldable pub app_module : Environment → Option String → Outcome Metadata
unfolding and_then
app_module env jwt_secret = and_then (database_options env) λ options. resolved (record {
  is_global = false;
  imports =
      config true
      ∷ type_orm_root options
      ∷ jwt (jwt_options jwt_secret)
      ∷ local outbox
      ∷ local availability
      ∷ [];
  controllers = app_controller ∷ [];
  providers = own app_service ∷ [];
  exports = [];
})

-- The arguments of the constructors.
abbrev pub outbox_service_needs : List Token
outbox_service_needs = repository outbox_event ∷ []

abbrev pub relay_needs : List Token
relay_needs = data_source ∷ repository outbox_event ∷ outbox_publisher ∷ []

abbrev pub worker_needs : List Token
worker_needs = class outbox_relay_service ∷ []

abbrev pub consumer_needs : List Token
consumer_needs = repository consumed_event ∷ []

abbrev pub controller_needs : List Token
controller_needs = class app_service ∷ []

unfoldable pub needs : Class → List Token
needs outbox_service = outbox_service_needs
needs outbox_relay_service = relay_needs
needs outbox_relay_worker = worker_needs
needs kafka_event_consumer = consumer_needs
needs kafka_outbox_publisher = []
needs availability_grpc_client = []
needs app_controller = controller_needs
needs app_service = []

-- `class KafkaOutboxPublisher implements OutboxPublisher`
pub data Implements : Class → Token → Type 0 where
  implements_publisher : Implements kafka_outbox_publisher outbox_publisher
