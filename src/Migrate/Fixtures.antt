-- ===== src/Migrate/Fixtures.antt =====
-- Sample schemas and a sample runtime for the tests of the migration engine (migrate/).
use Prim.Native.Char.{code}
use Prim.Native.String.{char_at}
use mathlib.Core.List.Permᴰ
use prisma_go.Base.{
  ◌==◌, if◌then◌else◌, Bool, true, false, List, [], ◌∷◌, Option, none, some, Unicode, Runtime,
  IsRuntime,
}
use prisma_go.Migrate.Schema.{Column, Index, ForeignKey, Table, DatabaseSchema}
use prisma_go.Migrate.Flavour.{postgres_flavour, mysql_flavour}
use prisma_go.Migrate.Differ.{Differ}

-- Only the letters that the examples need are mapped.
abbrev pub sample_unicode : Unicode
sample_unicode = record {
  to_upper = λ c. if code c == 117 then char_at "U" 0 else c;
  to_lower = λ c. if code c == 85 then char_at "u" 0 else c;
  to_title = λ c. if code c == 97 then char_at "A" 0 else c;
  is_space = λ c. code c == 32;
  is_letter = λ c. false;
  is_digit = λ c. false;
}

-- A loop goes through a map in the order of its entries, and nothing is valid JSON.
abbrev pub sample_runtime : Runtime
sample_runtime = record {
  unicode = sample_unicode;
  Json = Bool;
  unmarshal = λ s. none;
  marshal = λ b. none;
  visit = λ loop m. m;
}

pub sample_runtime-IsRuntime : IsRuntime sample_runtime
sample_runtime-IsRuntime = record { visits = λ loop m. Permᴰ.refl m }

abbrev pub id_column : Column
id_column = record {
  name = "id";
  type = "INT";
  nullable = false;
  default_value = none;
  auto_increment = true;
}

abbrev pub name_column : Column
name_column = record {
  name = "name";
  type = "TEXT";
  nullable = true;
  default_value = some "x";
  auto_increment = false;
}

abbrev pub by_name : Index
by_name = record { name = "by_name"; columns = "name" ∷ []; is_unique = false }

abbrev pub to_team : ForeignKey
to_team = record {
  name = "to_team";
  columns = "team" ∷ [];
  referenced_table = "teams";
  referenced_columns = "id" ∷ [];
  on_delete = "CASCADE";
  on_update = "";
}

abbrev pub users : List Column → Table
users columns = record {
  name = "Users";
  schema = "";
  columns = columns;
  primary_key = none;
  indexes = by_name ∷ [];
  foreign_keys = to_team ∷ [];
}

abbrev pub teams : Table
teams = record {
  name = "teams";
  schema = "";
  columns = id_column ∷ [];
  primary_key = none;
  indexes = [];
  foreign_keys = [];
}

abbrev pub schema_of : List Table → Option DatabaseSchema
schema_of tables = some (record {
  tables = tables;
  enums = [];
  views = [];
  sequences = [];
  check_constraints = [];
  triggers = [];
  stored_procedures = [];
})

-- A column is added to the one table, and the other is new.
abbrev pub old_schema : Option DatabaseSchema
old_schema = schema_of (users (id_column ∷ []) ∷ [])

abbrev pub new_schema : Option DatabaseSchema
new_schema = schema_of (teams ∷ users (id_column ∷ name_column ∷ []) ∷ [])

abbrev pub postgres_differ : Differ
postgres_differ = record { provider = "postgresql"; flavour = postgres_flavour }

abbrev pub mysql_differ : Differ
mysql_differ = record { provider = "mysql"; flavour = mysql_flavour }
