-- ===== src/Database/Migrations/Tables.antt =====
-- The tables that the migrations create beside those that the entities describe.
use autospace_parking.Prelude.{
  String, ◌≡◌, refl, Bool, true, false, Option, none, some, List, [], ◌∷◌, ◌++◌, ◌==◌,
  if◌then◌else◌, All,
}
use mathlib.Core.List.{Memᴰ}
use autospace_parking.Database.Options.{
  Entity, outbox_event, consumed_event, Migration, create_platform_foundation,
  create_consumed_events,
}
use autospace_parking.Database.Entities.{
  Default, absent, generated, given, Declared, DeclaredIndex, table_of, declared, declared_indexes,
  primary_columns, column_of,
}
use autospace_parking.Database.Migrations.Statements.{
  Column, Index, Statement, create_extension, create_table, create_index, drop_table, has_text,
}
use autospace_parking.Database.Migrations.{
  outbox_table, outbox_columns, consumed_columns, unpublished_index, aggregate_index, foundation_up,
  foundation_down, consumed_up, consumed_down,
}

abbrev pub up_of : Migration → List Statement
up_of create_platform_foundation = foundation_up
up_of create_consumed_events = consumed_up

abbrev pub down_of : Migration → List Statement
down_of create_platform_foundation = foundation_down
down_of create_consumed_events = consumed_down

-- The table has a default where the entity leaves the value to the database, the one that it names.
abbrev Supplies : Default → Option String → Type 0
Supplies absent default = default ≡ none
Supplies generated default = (s : String) × (default ≡ some s)
Supplies (given s) default = default ≡ some s

pub record Agrees (d : Declared) (c : Column) : Type 0 where
  pub name : d.name ≡ c.name
  pub type : d.type ≡ c.type
  pub nullable : d.nullable ≡ c.nullable
  pub default : Supplies d.default c.default

-- One column for each that is declared, and no other.
abbrev AllAgree : List Declared → List Column → Type 0
AllAgree [] [] = Unit
AllAgree [] (c ∷ cs) = ⊥
AllAgree (d ∷ ds) [] = ⊥
AllAgree (d ∷ ds) (c ∷ cs) = Agrees d c × AllAgree ds cs

abbrev names : List Column → List String
names [] = []
names (c ∷ cs) = c.name ∷ names cs

abbrev columns_of : List Declared → List String → List String
columns_of ds [] = []
columns_of ds (p ∷ ps) = column_of ds p ++ columns_of ds ps

-- The indexes that the statements create on a table.
abbrev indexes_on : String → List Statement → List Index
indexes_on table [] = []
indexes_on table (create_index name index ∷ more) =
    let rest = indexes_on table more in if name == table then index ∷ rest else rest
indexes_on table (statement ∷ more) = indexes_on table more

-- The migration creates the table of the entity with the columns and the key that are declared, and
-- then its indexes, those that are declared among them, each of columns that the table has; and the
-- way back is to drop the table.
pub record IsCreated (m : Migration) (e : Entity) : Type 0 where
  pub before : List Statement
  pub after : List Statement
  pub if_not_exists : Bool
  pub columns : List Column
  pub created :
      up_of m
      ≡ before
        ++ create_table if_not_exists (table_of e) columns (primary_columns (declared e)) ∷ after
  pub agree : AllAgree (declared e) columns
  pub none_before : indexes_on (table_of e) before ≡ []
  pub indexed :
      All
        (λ (d : DeclaredIndex).
          Memᴰ
            (record {
              name = d.name;
              columns = columns_of (declared e) d.properties;
              condition = none;
            })
            (indexes_on (table_of e) after))
        (declared_indexes e)
  pub sound :
      All
        (λ (index : Index). All (λ n. has_text n (names columns) ≡ true) index.columns)
        (indexes_on (table_of e) after)
  pub if_exists : Bool
  pub dropped : down_of m ≡ drop_table if_exists (table_of e) ∷ []

agrees :
    {d : Declared} {c : Column}
    → d.name ≡ c.name
    → d.type ≡ c.type
    → d.nullable ≡ c.nullable
    → Supplies d.default c.default
    → Agrees d c
agrees p q r s = record { name = p; type = q; nullable = r; default = s }

pub outbox_event-IsCreated : IsCreated create_platform_foundation outbox_event
unfolding foundation_up foundation_down
outbox_event-IsCreated = record {
  before = create_extension "postgis" ∷ create_extension "pgcrypto" ∷ [];
  after =
      create_index outbox_table unpublished_index ∷ create_index outbox_table aggregate_index ∷ [];
  if_not_exists = true;
  columns = outbox_columns;
  created = refl;
  agree = (
    agrees refl refl refl ("gen_random_uuid()", refl),
    (
      agrees refl refl refl refl,
      (
        agrees refl refl refl refl,
        (
          agrees refl refl refl refl,
          (
            agrees refl refl refl refl,
            (
              agrees refl refl refl refl,
              (
                agrees refl refl refl refl,
                (
                  agrees refl refl refl ("now()", refl),
                  (
                    agrees refl refl refl refl,
                    (agrees refl refl refl refl, (agrees refl refl refl refl, tt)),
                  ),
                ),
              ),
            ),
          ),
        ),
      ),
    ),
  );
  none_before = refl;
  indexed = (Memᴰ.tail (Memᴰ.head refl), tt);
  sound = ((refl, (refl, tt)), ((refl, (refl, (refl, tt))), tt));
  if_exists = true;
  dropped = refl;
}

pub consumed_event-IsCreated : IsCreated create_consumed_events consumed_event
unfolding consumed_up consumed_down
consumed_event-IsCreated = record {
  before = [];
  after = [];
  if_not_exists = false;
  columns = consumed_columns;
  created = refl;
  agree = (
    agrees refl refl refl refl,
    (
      agrees refl refl refl refl,
      (agrees refl refl refl refl, (agrees refl refl refl ("now()", refl), tt)),
    ),
  );
  none_before = refl;
  indexed = tt;
  sound = tt;
  if_exists = false;
  dropped = refl;
}
