-- ===== src/Migrate/Columns/Detecting.antt =====
-- When a change of a column is detected (migrate/diff/column_differ.go).
use prisma_go.Base.{
  ◌≡◌, refl, ◌↔◌, inl, inr, Bool, true, false, ◌&&◌, ◌||◌, String, str_eq, eq_iff, eq_refl, Option,
  none, some, arith, Option-cases, Runtime, trim_space, trim,
}
use prisma_go.Migrate.Schema.{Column}
use prisma_go.Migrate.Flavour.{DifferFlavour}
use prisma_go.Migrate.Flavour.Matching.{IsByStructure, bool_eq_iff}
use prisma_go.Migrate.Columns.{
  is_json_type, is_date_time_type, is_enum_type, is_numeric_type, is_date_time_function,
  compare_json_values, json_defaults_match, values_match, optional_values_match, defaults_match,
  all_column_changes, differs_in_something,
}

str_eq_sym : (a b : String) → str_eq a b ≡ str_eq b a
str_eq_sym a b = ground (arith, eq_iff a b, eq_iff b a)

or_comm : (a b : Bool) → (a || b) ≡ (b || a)
or_comm a b = ground arith

and_comm : (a b : Bool) → (a && b) ≡ (b && a)
and_comm a b = ground arith

module _ (r : Runtime) where
  compare_json_values_sym : (a b : r.Json) → compare_json_values r a b ≡ compare_json_values r b a
  unfolding compare_json_values
  compare_json_values_sym a b = elim (Option-cases (r.marshal a)) [
    | inl e ↦ elim (Option-cases (r.marshal b)) [
      | inl f ↦ simp (e, f, compare_json_values) refl
      | inr (y, f) ↦ simp (e, f, compare_json_values) refl
    ]
    | inr (x, e) ↦ elim (Option-cases (r.marshal b)) [
      | inl f ↦ simp (e, f, compare_json_values) refl
      | inr (y, f) ↦ simp (e, f, compare_json_values) (str_eq_sym x y)
    ]
  ]

  json_defaults_match_sym : (a b : String) → json_defaults_match r a b ≡ json_defaults_match r b a
  unfolding json_defaults_match
  json_defaults_match_sym a b = elim (Option-cases (r.unmarshal a)) [
    | inl e ↦ elim (Option-cases (r.unmarshal b)) [
      | inl f ↦ simp (e, f, json_defaults_match) (str_eq_sym a b)
      | inr (y, f) ↦ simp (e, f, json_defaults_match) (str_eq_sym a b)
    ]
    | inr (x, e) ↦ elim (Option-cases (r.unmarshal b)) [
      | inl f ↦ simp (e, f, json_defaults_match) (str_eq_sym a b)
      | inr (y, f) ↦ simp (e, f, json_defaults_match) (compare_json_values_sym x y)
    ]
  ]

  values_match_sym : (s t a b : String) → values_match r s t a b ≡ values_match r t s b a
  unfolding values_match
  values_match_sym s t a b =
      let u = r.unicode in
      rw
        (
          str_eq_sym a b,
          json_defaults_match_sym a b,
          or_comm (is_json_type u s) (is_json_type u t),
          or_comm (is_date_time_type u s) (is_date_time_type u t),
          or_comm (is_enum_type u s) (is_enum_type u t),
          and_comm (is_numeric_type u s) (is_numeric_type u t),
          and_comm (is_date_time_function u a) (is_date_time_function u b),
          str_eq_sym (trim_space u a) (trim_space u b),
          str_eq_sym (trim a "\"'") (trim b "\"'"),
        )
        refl

  values_match_refl : (s t a : String) → values_match r s t a a ≡ true
  unfolding values_match
  values_match_refl s t a = rw (eq_refl a) refl

  optional_values_match_sym :
      (s t : String) (a b : Option String)
      → optional_values_match r s t a b ≡ optional_values_match r t s b a
  unfolding optional_values_match
  optional_values_match_sym s t none none = refl
  optional_values_match_sym s t none (some b) = refl
  optional_values_match_sym s t (some a) none = refl
  optional_values_match_sym s t (some a) (some b) = values_match_sym s t a b

  optional_values_match_refl :
      (s t : String) (a : Option String) → optional_values_match r s t a a ≡ true
  unfolding optional_values_match
  optional_values_match_refl s t none = refl
  optional_values_match_refl s t (some a) = values_match_refl s t a

  -- Whether the defaults of two columns match does not depend on which comes first, and equal
  -- defaults match, whatever the types are.
  pub defaults_match_sym :
      (prev next : Column)
      → (defaults_match r prev next ≡ defaults_match r next prev)
        × (prev.default_value ≡ next.default_value → defaults_match r prev next ≡ true)
  unfolding defaults_match
  defaults_match_sym prev next = (
    optional_values_match_sym prev.type next.type prev.default_value next.default_value,
    λ e. rw e (optional_values_match_refl prev.type next.type next.default_value),
  )

  -- `DiffersInSomething` holds of the detected changes of two columns just when the types differ
  -- as texts, or one is nullable or counts up and the other does not, or the defaults do not match.
  pub all_column_changes_iff :
      (prev next : Column) (f : DifferFlavour)
      → IsByStructure f
      → (differs_in_something (all_column_changes r prev next f) ≡ false) ↔ (
          (prev.type ≡ next.type)
          × (prev.nullable ≡ next.nullable)
          × (defaults_match r prev next ≡ true)
          × (prev.auto_increment ≡ next.auto_increment))
  unfolding all_column_changes differs_in_something
  all_column_changes_iff prev next f s = ground (
    arith,
    s.types prev next,
    bool_eq_iff prev.nullable next.nullable,
    bool_eq_iff prev.auto_increment next.auto_increment,
  )
