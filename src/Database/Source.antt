-- ===== src/Database/Source.antt =====
-- data-source.ts: the data source by which the command line of TypeORM runs the migrations, which is
-- made of the options. The class of the data source is a parameter.
use autospace_parking.Prelude.{◌≡◌, refl, ap, ◌∙◌, All}
use mathlib.Core.List.{Memᴰ}
use autospace_parking.Js.Exec.{Outcome, resolved, rejected}
use autospace_parking.Database.Options.{
  Environment, Options, Entity, Migration, create_platform_foundation, create_consumed_events,
  database_options, database_options-lists,
}
use autospace_parking.Database.Migrations.Tables.{
  IsCreated, outbox_event-IsCreated, consumed_event-IsCreated,
}

made_of : {D : Type 0} → (Options → D) → Outcome Options → Outcome D
made_of new_source (resolved o) = resolved (new_source o)
made_of new_source (rejected t) = rejected t

unfoldable pub data_source : {D : Type 0} → (Options → D) → Environment → Outcome D
unfolding made_of
data_source new_source env = made_of new_source (database_options env)

made_of-resolved :
    {D : Type 0} (new_source : Options → D) (r : Outcome Options) (d : D)
    → made_of new_source r ≡ resolved d
    → (o : Options) × (r ≡ resolved o) × (new_source o ≡ d)
unfolding made_of
made_of-resolved new_source (resolved o) d h = (o, refl, cc h)
made_of-resolved new_source (rejected t) d h = cc h

-- Each entity of the data source has a migration of the list that creates its table.
abbrev pub HasTable : Options → Entity → Type 0
HasTable source e = (m : Migration) × Memᴰ m source.migrations × IsCreated m e

-- If a data source is made from the settings, then for each entity that it lists one of the
-- migrations that it lists creates the table of the entity: one column for each column of the
-- entity and no other, with the same name and type, NULL allowed in the same ones, and a default
-- exactly where the entity names one, which is that one, or leaves the value to the database; its
-- primary key is that of the entity; after the table come its indexes, each of columns that the
-- table has, and those that the entity names are among them with their columns; and the way back
-- of that migration is to drop the table.
pub data_source-HasTable :
    (env : Environment) (source : Options)
    → data_source (λ o. o) env ≡ resolved source
    → All (HasTable source) source.entities
unfolding data_source
data_source-HasTable env source made =
    let (o, given, same) = made_of-resolved (λ x. x) (database_options env) source made in
    let (entities, migrations) = database_options-lists env source (given ∙ ap resolved same) in
    rw (entities, migrations)
      (
        (create_platform_foundation, Memᴰ.head refl, outbox_event-IsCreated),
        ((create_consumed_events, Memᴰ.tail (Memᴰ.head refl), consumed_event-IsCreated), tt),
      )
