-- ===== src/Migrate/Flavour/Matching.antt =====
-- What the comparisons of indexes and foreign keys decide, and which providers have them
-- (migrate/diff/flavour/, migrate/diff/differ.go).
use prisma_go.Base.{
  ◌≡◌, refl, sym, subst, ◌∙◌, ◌↔◌, ◌≢◌, ◌⊎◌, inl, inr, Bool, true, String, str_eq, eq_iff, ◌<>◌,
  List, [], none, ◌∷◌, length, arith, Bool-cases,
}
use prisma_go.Migrate.Schema.{Column, Index, ForeignKey}
use prisma_go.Migrate.Flavour.{
  DifferFlavour, bool_eq, same_texts, indexes_match_by_structure, foreign_keys_match_by_structure,
  type_change, renamed_by_structure, postgres_flavour, mysql_flavour, sqlite_flavour, ok, err,
  get_flavour,
}

pub bool_eq_iff : (a b : Bool) → (bool_eq a b ≡ true) ↔ (a ≡ b)
bool_eq_iff a b = ground arith

-- The comparison of two slices decides whether they are equal, once their lengths are.
pub same_texts_iff :
    (xs ys : List String) → length xs ≡ length ys → (same_texts xs ys ≡ true) ↔ (xs ≡ ys)
unfolding same_texts
same_texts_iff [] [] h = (λ _. refl, λ _. refl)
same_texts_iff [] (y ∷ ys) h = absurd (ground arith)
same_texts_iff (x ∷ xs) [] h = absurd (ground arith)
same_texts_iff (x ∷ xs) (y ∷ ys) h = ground (arith, eq_iff x y, same_texts_iff xs ys (omega arith))

-- The structure of an index and of a foreign key: all but the name.
abbrev pub SameIndex : Index → Index → Type 0
SameIndex a b = (a.columns ≡ b.columns) × (a.is_unique ≡ b.is_unique)

pub record SameForeignKey (a b : ForeignKey) : Type 0 where
  pub columns : a.columns ≡ b.columns
  pub table : a.referenced_table ≡ b.referenced_table
  pub referenced : a.referenced_columns ≡ b.referenced_columns
  pub on_delete : a.on_delete ≡ b.on_delete
  pub on_update : a.on_update ≡ b.on_update

pub indexes_match_iff : (a b : Index) → (indexes_match_by_structure a b ≡ true) ↔ SameIndex a b
unfolding indexes_match_by_structure
indexes_match_iff a b =
    ground (arith, bool_eq_iff a.is_unique b.is_unique, same_texts_iff a.columns b.columns)

pub foreign_keys_match_iff :
    (a b : ForeignKey) → (foreign_keys_match_by_structure a b ≡ true) ↔ SameForeignKey a b
unfolding foreign_keys_match_by_structure
foreign_keys_match_iff a b = ground (
  arith,
  same_texts_iff a.columns b.columns,
  same_texts_iff a.referenced_columns b.referenced_columns,
  eq_iff a.referenced_table b.referenced_table,
  eq_iff a.on_delete b.on_delete,
  eq_iff a.on_update b.on_update,
)

-- What a flavour does with indexes, foreign keys and types.
pub record IsByStructure (f : DifferFlavour) : Type 0 where
  pub indexes : (a b : Index) → (f.indexes_match a b ≡ true) ↔ SameIndex a b
  pub foreign_keys : (a b : ForeignKey) → (f.foreign_keys_match a b ≡ true) ↔ SameForeignKey a b
  pub types : (a b : Column) → (f.column_type_change a b ≡ none) ↔ (a.type ≡ b.type)
  pub renames :
      (a b : Index)
      → (f.index_should_be_renamed a b ≡ true)
        ↔ ((f.can_rename_index ≡ true) × SameIndex a b × (a.name ≢ b.name))

type_change_iff : (a b : Column) → (type_change a b ≡ none) ↔ (a.type ≡ b.type)
unfolding type_change
type_change_iff a b = ground (arith, eq_iff a.type b.type)

renamed_iff :
    (a b : Index)
    → (renamed_by_structure a b ≡ true) ↔ ((true ≡ true) × SameIndex a b × (a.name ≢ b.name))
unfolding renamed_by_structure
renamed_iff a b = ground (arith, indexes_match_iff a b, eq_iff a.name b.name)

postgres_flavour-IsByStructure : IsByStructure postgres_flavour
unfolding postgres_flavour
postgres_flavour-IsByStructure = record {
  indexes = indexes_match_iff;
  foreign_keys = foreign_keys_match_iff;
  types = type_change_iff;
  renames = renamed_iff;
}

mysql_flavour-IsByStructure : IsByStructure mysql_flavour
unfolding mysql_flavour
mysql_flavour-IsByStructure = record {
  indexes = indexes_match_iff;
  foreign_keys = foreign_keys_match_iff;
  types = type_change_iff;
  renames = renamed_iff;
}

sqlite_flavour-IsByStructure : IsByStructure sqlite_flavour
unfolding sqlite_flavour
sqlite_flavour-IsByStructure = record {
  indexes = indexes_match_iff;
  foreign_keys = foreign_keys_match_iff;
  types = type_change_iff;
  renames = λ a b. ground arith;
}

-- The providers that `getFlavour` knows.
abbrev pub IsProvider : String → Type 0
IsProvider p = (p ≡ "postgresql") ⊎ (p ≡ "postgres") ⊎ (p ≡ "mysql") ⊎ (p ≡ "sqlite")

get_flavour_cases :
    (provider : String)
    → (IsProvider provider × (f : DifferFlavour) × (get_flavour provider ≡ ok f) × IsByStructure f)
      ⊎ ((¬ IsProvider provider)
          × (get_flavour provider ≡ err ("unsupported provider: " <> provider)))
unfolding get_flavour
get_flavour_cases provider = elim (Bool-cases (str_eq provider "postgresql")) [
  | inl a ↦
      rw a (inl (inl ((eq_iff _ _).0 a), postgres_flavour, refl, postgres_flavour-IsByStructure))
  | inr a ↦ elim (Bool-cases (str_eq provider "postgres")) [
    | inl b ↦
        rw (a, b)
          (inl
            (inr (inl ((eq_iff _ _).0 b)), postgres_flavour, refl, postgres_flavour-IsByStructure))
    | inr b ↦ elim (Bool-cases (str_eq provider "mysql")) [
      | inl c ↦
          rw (a, b, c)
            (inl (
              inr (inr (inl ((eq_iff _ _).0 c))),
              mysql_flavour,
              refl,
              mysql_flavour-IsByStructure,
            ))
      | inr c ↦ elim (Bool-cases (str_eq provider "sqlite")) [
        | inl d ↦
            rw (a, b, c, d)
              (inl (
                inr (inr (inr ((eq_iff _ _).0 d))),
                sqlite_flavour,
                refl,
                sqlite_flavour-IsByStructure,
              ))
        | inr d ↦
            rw (a, b, c, d)
              (inr (
                ground (
                  arith,
                  eq_iff provider "postgresql",
                  eq_iff provider "postgres",
                  eq_iff provider "mysql",
                  eq_iff provider "sqlite",
                ),
                refl,
              ))
      ]
    ]
  ]
]

ok-ne-err : {A : Type 0} {a : A} {e : String} → ok a ≡ err e → ⊥
ok-ne-err h = ground arith

ok_injective : {A : Type 0} {a b : A} → ok a ≡ ok b → a ≡ b
ok_injective h = ground arith

-- The flavour that `getFlavour` returns for a provider compares two indexes by their columns and
-- uniqueness, two foreign keys by everything but the name, and two column types as texts; it
-- renames an index just when it can rename indexes at all, and the two have one structure and
-- different names.
pub get_flavour-IsByStructure :
    (provider : String) (f : DifferFlavour) → get_flavour provider ≡ ok f → IsByStructure f
get_flavour-IsByStructure provider f h = elim (get_flavour_cases provider) [
  | inl (_, g, e, s) ↦ subst IsByStructure (ok_injective (sym e ∙ h)) s
  | inr (_, e) ↦ absurd (ok-ne-err (sym h ∙ e))
]

-- `NewDiffer` refuses a provider just when it is none of "postgresql", "postgres", "mysql" and
-- "sqlite", with an error that names it.
pub new_differ-refuses :
    (provider : String)
    → (get_flavour provider ≡ err ("unsupported provider: " <> provider)) ↔ (¬ IsProvider provider)
new_differ-refuses provider = elim (get_flavour_cases provider) [
  | inl (p, g, e, s) ↦ (λ h. absurd (ok-ne-err (sym e ∙ h)), λ n. absurd (n p))
  | inr (n, e) ↦ (λ _. n, λ _. e)
]
