-- ===== src/Migrate/Columns.antt =====
-- The changes of a column (migrate/diff/column_differ.go).
pub mod Detecting
use prisma_go.Base.{
  if◌then◌else◌, Bool, true, false, not, ◌&&◌, ◌||◌, String, str_eq, Option, none, some, Unicode,
  upper_text, contains, has_prefix, trim_space, trim, Runtime,
}
use prisma_go.Migrate.Schema.{Column}
use prisma_go.Migrate.Flavour.{ColumnTypeChange, DifferFlavour, bool_eq}

pub record ColumnChanges : Type 0 where
  pub type_changed : Bool
  pub nullable_changed : Bool
  pub default_changed : Bool
  pub auto_increment_changed : Bool
  pub type_change : Option ColumnTypeChange

module _ (u : Unicode) where
  unfoldable pub is_json_type : String → Bool
  unfolding upper_text contains
  is_json_type col_type = contains (upper_text u col_type) "JSON"

  unfoldable pub is_date_time_type : String → Bool
  unfolding upper_text contains
  is_date_time_type col_type =
      let upper = upper_text u col_type in
      contains upper "TIMESTAMP"
      || (contains upper "DATETIME" || (contains upper "DATE" || contains upper "TIME"))

  unfoldable pub is_enum_type : String → Bool
  unfolding upper_text contains
  is_enum_type col_type = contains (upper_text u col_type) "ENUM"

  unfoldable pub is_numeric_type : String → Bool
  unfolding upper_text contains
  is_numeric_type col_type =
      let upper = upper_text u col_type in
      contains upper "INT"
      || (contains upper "FLOAT"
          || (contains upper "DOUBLE"
              || (contains upper "DECIMAL" || (contains upper "NUMERIC" || contains upper "REAL"))))

  unfoldable pub is_date_time_function : String → Bool
  unfolding upper_text contains has_prefix trim_space
  is_date_time_function val =
      let upper = upper_text u (trim_space u val) in
      has_prefix upper "NOW()"
      || (has_prefix upper "CURRENT_TIMESTAMP"
          || (has_prefix upper "CURRENT_DATE"
              || (has_prefix upper "CURRENT_TIME"
                  || (contains upper "NOW()" || contains upper "CURRENT_TIMESTAMP"))))

module _ (r : Runtime) where
  unfoldable pub compare_json_values : r.Json → r.Json → Bool
  compare_json_values a b = elim (r.marshal a) [
    | none ↦ false
    | some a_bytes ↦ elim (r.marshal b) [ none ↦ false | some b_bytes ↦ str_eq a_bytes b_bytes ]
  ]

  unfoldable pub json_defaults_match : String → String → Bool
  unfolding compare_json_values
  json_defaults_match prev next = elim (r.unmarshal prev) [
    | none ↦ str_eq prev next
    | some prev_json ↦ elim (r.unmarshal next) [
      | none ↦ str_eq prev next
      | some next_json ↦ compare_json_values prev_json next_json
    ]
  ]

  -- Two defaults of columns of two types.
  unfoldable pub values_match : String → String → String → String → Bool
  unfolding json_defaults_match is_json_type is_date_time_type is_date_time_function is_enum_type
      is_numeric_type trim trim_space
  values_match prev_type next_type prev_val next_val =
      if str_eq prev_val next_val
      then true
      else if is_json_type r.unicode prev_type || is_json_type r.unicode next_type
      then json_defaults_match prev_val next_val
      else if is_date_time_type r.unicode prev_type || is_date_time_type r.unicode next_type
      then if is_date_time_function r.unicode prev_val && is_date_time_function r.unicode next_val
        then true
        else str_eq prev_val next_val
      else if is_enum_type r.unicode prev_type || is_enum_type r.unicode next_type
      then str_eq (trim prev_val "\"'") (trim next_val "\"'")
      else if is_numeric_type r.unicode prev_type && is_numeric_type r.unicode next_type
      then str_eq (trim_space r.unicode prev_val) (trim_space r.unicode next_val)
      else str_eq prev_val next_val

  unfoldable pub optional_values_match : String → String → Option String → Option String → Bool
  unfolding values_match
  optional_values_match prev_type next_type none none = true
  optional_values_match prev_type next_type none (some _) = false
  optional_values_match prev_type next_type (some _) none = false
  optional_values_match prev_type next_type (some prev_val) (some next_val) =
      values_match prev_type next_type prev_val next_val

  unfoldable pub defaults_match : Column → Column → Bool
  unfolding optional_values_match
  defaults_match prev next =
      optional_values_match prev.type next.type prev.default_value next.default_value

  unfoldable pub all_column_changes : Column → Column → DifferFlavour → ColumnChanges
  unfolding defaults_match
  all_column_changes prev next f =
      let changed = f.column_type_change prev next in
      record {
        type_changed = elim changed [ none ↦ false | some _ ↦ true ];
        nullable_changed = not (bool_eq prev.nullable next.nullable);
        default_changed = not (defaults_match prev next);
        auto_increment_changed = not (bool_eq prev.auto_increment next.auto_increment);
        type_change = changed;
      }

unfoldable pub differs_in_something : ColumnChanges → Bool
differs_in_something c =
    c.type_changed || (c.nullable_changed || (c.default_changed || c.auto_increment_changed))
