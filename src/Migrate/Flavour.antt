-- ===== src/Migrate/Flavour.antt =====
-- The comparison of schemas per database (migrate/diff/flavour/). The three databases compare
-- indexes, foreign keys and types by the same code, which stands here once.
pub mod Matching
use prisma_go.Base.{
  ◌==◌, if◌then◌else◌, Bool, true, false, not, ◌&&◌, String, ◌<>◌, str_eq, List, [], ◌∷◌, Option,
  none, some, length, leb, ltb,
}
use prisma_go.Migrate.Schema.{Column, Index, ForeignKey}

pub record ColumnTypeChange : Type 0 where
  pub from_type : String
  pub to_type : String
  pub is_safe : Bool

pub record DifferFlavour : Type 0 where
  pub indexes_match : Index → Index → Bool
  pub foreign_keys_match : ForeignKey → ForeignKey → Bool
  pub column_type_change : Column → Column → Option ColumnTypeChange
  pub should_redefine_table : String → List String → Bool
  pub can_rename_index : Bool
  pub can_rename_foreign_key : Bool
  pub index_should_be_renamed : Index → Index → Bool
  pub lower_cases_table_names : Bool
  pub table_should_be_ignored : String → Bool

-- Go's `==` on bools.
abbrev pub bool_eq : Bool → Bool → Bool
bool_eq true b = b
bool_eq false b = not b

-- The loop that compares two slices of the same length element by element.
unfoldable pub same_texts : List String → List String → Bool
same_texts [] ys = true
same_texts (x ∷ xs) [] = false
same_texts (x ∷ xs) (y ∷ ys) = str_eq x y && same_texts xs ys

unfoldable pub indexes_match_by_structure : Index → Index → Bool
unfolding same_texts
indexes_match_by_structure prev next =
    if not (length prev.columns == length next.columns)
    then false
    else if not (bool_eq prev.is_unique next.is_unique)
    then false
    else same_texts prev.columns next.columns

unfoldable pub foreign_keys_match_by_structure : ForeignKey → ForeignKey → Bool
unfolding same_texts
foreign_keys_match_by_structure prev next =
    if not (length prev.columns == length next.columns)
    then false
    else if not (str_eq prev.referenced_table next.referenced_table)
    then false
    else if not (length prev.referenced_columns == length next.referenced_columns)
    then false
    else if not (same_texts prev.columns next.columns)
    then false
    else if not (same_texts prev.referenced_columns next.referenced_columns)
    then false
    else if not (str_eq prev.on_delete next.on_delete)
    then false
    else str_eq prev.on_update next.on_update

-- A change of the type is never safe.
unfoldable pub type_change : Column → Column → Option ColumnTypeChange
type_change prev next =
    if str_eq prev.type next.type
    then none
    else some (record { from_type = prev.type; to_type = next.type; is_safe = false })

unfoldable pub renamed_by_structure : Index → Index → Bool
unfolding indexes_match_by_structure
renamed_by_structure prev next =
    indexes_match_by_structure prev next && not (str_eq prev.name next.name)

unfoldable pub is_migrations_table : String → Bool
is_migrations_table table_name = str_eq table_name "_prisma_migrations"

unfoldable pub postgres_flavour : DifferFlavour
unfolding indexes_match_by_structure foreign_keys_match_by_structure type_change
    renamed_by_structure is_migrations_table
postgres_flavour = record {
  indexes_match = indexes_match_by_structure;
  foreign_keys_match = foreign_keys_match_by_structure;
  column_type_change = type_change;
  should_redefine_table = λ table_name changes. false;
  can_rename_index = true;
  can_rename_foreign_key = true;
  index_should_be_renamed = renamed_by_structure;
  lower_cases_table_names = false;
  table_should_be_ignored = is_migrations_table;
}

unfoldable pub mysql_flavour : DifferFlavour
unfolding indexes_match_by_structure foreign_keys_match_by_structure type_change
    renamed_by_structure is_migrations_table
mysql_flavour = record {
  indexes_match = indexes_match_by_structure;
  foreign_keys_match = foreign_keys_match_by_structure;
  column_type_change = type_change;
  should_redefine_table = λ table_name changes. false;
  can_rename_index = true;
  can_rename_foreign_key = true;
  index_should_be_renamed = renamed_by_structure;
  lower_cases_table_names = true;
  table_should_be_ignored = is_migrations_table;
}

unfoldable pub sqlite_flavour : DifferFlavour
unfolding indexes_match_by_structure foreign_keys_match_by_structure type_change is_migrations_table
sqlite_flavour = record {
  indexes_match = indexes_match_by_structure;
  foreign_keys_match = foreign_keys_match_by_structure;
  column_type_change = type_change;
  should_redefine_table = λ table_name changes. ltb 0 (length changes);
  can_rename_index = false;
  can_rename_foreign_key = false;
  index_should_be_renamed = λ prev next. false;
  lower_cases_table_names = false;
  table_should_be_ignored = is_migrations_table;
}

-- A value, or the text of an error.
pub data Result (A : Type 0) : Type 0 where
  ok : A → Result A
  err : String → Result A

unfoldable pub get_flavour : String → Result DifferFlavour
get_flavour provider =
    if str_eq provider "postgresql"
    then ok postgres_flavour
    else if str_eq provider "postgres"
    then ok postgres_flavour
    else if str_eq provider "mysql"
    then ok mysql_flavour
    else if str_eq provider "sqlite"
    then ok sqlite_flavour
    else err ("unsupported provider: " <> provider)
