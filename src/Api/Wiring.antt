-- ===== src/Api/Wiring.antt =====
-- How the framework finds what the constructors ask for in the modules of the API.
use mathlib.Core.List.{Memᴰ}
use autospace_parking.Prelude.{
  String, ◌≡◌, refl, sym, subst, ap, inl, inr, true, false, arith, Option, List, [], ◌∷◌, All,
}
use autospace_parking.Js.Exec.{resolved}
use autospace_parking.Js.Exec.Keeps.{Outcome-cases}
use autospace_parking.Api.{jwt_options}
use autospace_parking.Api.Modules.{
  Class, outbox_relay_service, kafka_outbox_publisher, app_controller, app_service, Token, class,
  outbox_publisher, repository, data_source, Provider, own, existing, outbox, availability, Import,
  config, type_orm_root, type_orm_feature, jwt, local, Metadata, outbox_module, availability_module,
  app_module, needs, Implements, implements_publisher,
}
use autospace_parking.Database.Options.{
  Environment, Options, Entity, outbox_event, consumed_event, database_options,
  database_options-lists,
}

-- What a module finds by the framework's documentation: a class or another token that it provides, a
-- repository of an entity that it imports and the connection knows, and the data source of the connection, which is global.
pub data Finds (app m : Metadata) : Token → Type 0 where
  by_class : (c : Class) → Memᴰ (own c) m.providers → Finds app m (class c)
  by_token :
      (t : Token) (c : Class)
      → Implements c t
      → Memᴰ (existing t c) m.providers
      → Memᴰ (own c) m.providers
      → Finds app m t
  by_entity :
      (e : Entity) (es : List Entity) (o : Options)
      → Memᴰ (type_orm_feature es) m.imports
      → Memᴰ e es
      → Memᴰ (type_orm_root o) app.imports
      → Memᴰ e o.entities
      → Finds app m (repository e)
  by_connection : (o : Options) → Memᴰ (type_orm_root o) app.imports → Finds app m data_source

-- A class is made of what its constructor asks for, and an alias stands for a class that is there.
abbrev pub IsMade : Metadata → Metadata → Provider → Type 0
IsMade app m (own c) = All (Finds app m) (needs c)
IsMade app m (existing t c) = Memᴰ (own c) m.providers × Implements c t

-- All that a module lists can be made.
pub record IsWired (app m : Metadata) : Type 0 where
  pub provided : All (IsMade app m) m.providers
  pub controlled : All (λ c. All (Finds app m) (needs c)) m.controllers
  pub exported : All (λ c. Memᴰ (own c) m.providers) m.exports

abbrev root_imports : Options → Option String → List Import
root_imports o secret =
    config true
    ∷ type_orm_root o
    ∷ jwt (jwt_options secret)
    ∷ local outbox
    ∷ local availability
    ∷ []

connected :
    (app : Metadata) (o : Options) (secret : Option String)
    → app.imports ≡ root_imports o secret
    → Memᴰ (type_orm_root o) app.imports
connected app o secret same = subst (Memᴰ (type_orm_root o)) (sym same) (Memᴰ.tail (Memᴰ.head refl))

-- The place of a provider in a list.
abbrev first {ℓ} : {A : Type ℓ} {a : A} {rest : List A} → Memᴰ a (a ∷ rest)
first = Memᴰ.head refl

outbox_module-IsWired :
    (app : Metadata) (o : Options)
    → o.entities ≡ outbox_event ∷ consumed_event ∷ []
    → Memᴰ (type_orm_root o) app.imports
    → IsWired app outbox_module
unfolding outbox_module needs
outbox_module-IsWired app o known there =
    let events =
      by_entity outbox_event _ o first first there (subst (Memᴰ outbox_event) (sym known) first) in
    let consumed =
      by_entity consumed_event _ o first (Memᴰ.tail first) there
        (subst (Memᴰ consumed_event) (sym known) (Memᴰ.tail first)) in
    let publisher : Memᴰ (own kafka_outbox_publisher) outbox_module.providers =
      Memᴰ.tail (Memᴰ.tail (Memᴰ.tail (Memᴰ.tail first))) in
    let alias = Memᴰ.tail (Memᴰ.tail (Memᴰ.tail (Memᴰ.tail (Memᴰ.tail first)))) in
    record {
      provided = (
        (events, tt),
        (
          (
            by_connection o there,
            (
              events,
              (
                by_token outbox_publisher kafka_outbox_publisher implements_publisher alias
                    publisher,
                tt,
              ),
            ),
          ),
          (
            (by_class outbox_relay_service (Memᴰ.tail first), tt),
            ((consumed, tt), (tt, ((publisher, implements_publisher), tt))),
          ),
        ),
      );
      controlled = tt;
      exported = (first, (Memᴰ.tail first, tt));
    }

availability_module-IsWired : (app : Metadata) → IsWired app availability_module
unfolding availability_module needs
availability_module-IsWired app = record {
  provided = (tt, tt);
  controlled = tt;
  exported = (first, tt);
}

-- If the module of the application is made from the settings, then each class that its modules
-- provide, and its controller, asks in its constructor only for what its module finds: a class
-- that the module provides, a token for which the module provides a class that implements it, a
-- repository of an entity that it imports and that the options of the connection list, or the data
-- source of the connection; and each class that a module exports is provided by it.
pub app_module-IsWired :
    (env : Environment) (secret : Option String) (app : Metadata)
    → app_module env secret ≡ resolved app
    → IsWired app app × IsWired app outbox_module × IsWired app availability_module
unfolding app_module needs
app_module-IsWired env secret app made = elim (Outcome-cases (database_options env)) [
  | inr (t, threw) ↦ absurd (ground (arith, made, threw))
  | inl (o, given) ↦
      let it : app ≡ record {
        is_global = false;
        imports = root_imports o secret;
        controllers = app_controller ∷ [];
        providers = own app_service ∷ [];
        exports = [];
      } =
        ground (arith, made, given) in
      let there = connected app o secret (ap (λ (m : Metadata). m.imports) it) in
      (
        subst (λ (m : Metadata). IsWired m m) (sym it)
            (record {
              provided = (tt, tt);
              controlled = ((by_class app_service first, tt), tt);
              exported = tt;
            }),
        outbox_module-IsWired app o (database_options-lists env o given).0 there,
        availability_module-IsWired app,
      )
]
