-- ===== src/Database/Migrations/Statements.antt =====
-- Statements of PostgreSQL, as far as the migrations use them.
use autospace_parking.Prelude.{String, Bool, false, ◌||◌, Option, List, [], ◌∷◌, ◌==◌}

pub record Column : Type 0 where
  pub name : String
  pub type : String
  pub nullable : Bool
  pub default : Option String

abbrev pub column : String → String → Bool → Option String → Column
column name type nullable default = record {
  name = name;
  type = type;
  nullable = nullable;
  default = default;
}

pub record Index : Type 0 where
  pub name : String
  pub columns : List String
  pub condition : Option String

-- The flag is IF NOT EXISTS or IF EXISTS; extensions and indexes are always created with it.
pub data Statement : Type 0 where
  create_extension : String → Statement
  create_table : Bool → String → List Column → List String → Statement
  create_index : String → Index → Statement
  drop_table : Bool → String → Statement

abbrev pub has_text : String → List String → Bool
has_text name [] = false
has_text name (n ∷ names) = n == name || has_text name names
