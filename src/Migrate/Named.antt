-- ===== src/Migrate/Named.antt =====
-- Elements with names, compared by structure: the loops that `compareIndexes` and
-- `compareForeignKeys` of migrate/diff/table_differ.go share.
pub mod Renaming
pub mod Comparing
pub mod Pairing
use prisma_go.Base.{
  ◌==◌, if◌then◌else◌, Bool, true, false, not, ◌&&◌, String, ◌<>◌, str_eq, List, [], ◌∷◌, ◌++◌,
  Option, none, some, length, for_each, gather, join, title, Runtime, Dict, entry, put, fill,
  under_key,
}
use prisma_go.Migrate.Schema.{Column, PrimaryKey, Index, ForeignKey, Table}
use prisma_go.Migrate.Flavour.{DifferFlavour, same_texts}
use prisma_go.Migrate.Change.{
  ChangeType, alter_column, add_column, drop_column, create_index, drop_index, rename_index,
  create_foreign_key, drop_foreign_key, rename_foreign_key, ColumnMetadata, Change,
}
use prisma_go.Migrate.Columns.{ColumnChanges, differs_in_something}
use prisma_go.Migrate.Tables.{text_if}
use prisma_go.Migrate.Database.{
  or_false, DifferDatabase, ColumnPair, column_pairs, created_columns, dropped_columns,
  column_changes_of,
}

-- The state of the loop over the pairs of names, for indexes and for foreign keys.
pub record Renames : Type 0 where
  pub changes : List Change
  pub matched_prev : Dict Bool
  pub matched_next : Dict Bool

abbrev pub no_renames : Renames
no_renames = record { changes = []; matched_prev = []; matched_next = [] }

-- `changes = append(changes, …)` and the two marks.
unfoldable pub add_rename : Change → String → String → Renames → Renames
unfolding put
add_rename change prev_name next_name s = record {
  changes = s.changes ++ (change ∷ []);
  matched_prev = put prev_name true s.matched_prev;
  matched_next = put next_name true s.matched_next;
}

-- `matched[name]`
unfoldable pub is_matched : String → Dict Bool → Bool
unfolding entry
is_matched name matched = or_false (entry name matched)

-- The single name of a list, if it has one element.
abbrev pub the_only : List String → Option String
the_only [] = none
the_only (x ∷ []) = some x
the_only (x ∷ y ∷ rest) = none

-- The names of the next elements that match, and the pairs of an element with its only match.
unfoldable pub matches_of :
    {T : Type 0} → Runtime → String → (T → T → Bool) → Dict T → T → List String
matches_of r loop match nexts prev = gather (λ e. text_if (match prev e.1) e.0) (r.visit loop nexts)

unfoldable pub find_pairs :
    {T : Type 0} → Runtime → String → (T → T → Bool) → Dict T → Dict T → Dict String
unfolding matches_of
find_pairs r loop match prevs nexts =
    fill
      (under_key (λ prev_name prev.
        the_only (matches_of r (loop <> (": next of " <> prev_name)) match nexts prev)))
      (r.visit (loop <> ": previous") prevs) []

-- A test on the two elements of a pair of names. Both names have an element where it is used.
abbrev pub both_test : {T : Type 0} → (T → T → Bool) → Option T → Option T → Bool
both_test test (some prev) (some next) = test prev next
both_test test (some prev) none = false
both_test test none next = false

abbrev pub both_named : {T : Type 0} → (T → T → Bool) → Dict T → Dict T → String → String → Bool
both_named test prevs nexts prev_name next_name =
    both_test test (entry prev_name prevs) (entry next_name nexts)

unfoldable pub rename_if_matched :
    (String → String → Bool) → (String → String → Change) → String × String → Renames → Renames
unfolding add_rename
rename_if_matched test change (prev_name, next_name) s =
    if test prev_name next_name
    then add_rename (change prev_name next_name) prev_name next_name s
    else s

-- The renamings, then what is created and dropped of what is in no renaming.
unfoldable pub compare_named :
    {T : Type 0}
    → Runtime
    → String
    → (String → String → Bool)
    → (String → String → Change)
    → (String → T → Change)
    → (String → T → Change)
    → Dict String
    → Dict T
    → Dict T
    → List Change
unfolding rename_if_matched is_matched
compare_named r loop renamed rename create drop pairs prevs nexts =
    let s =
      for_each (rename_if_matched renamed rename) (r.visit (loop <> ": renames") pairs)
        no_renames in
    s.changes
    ++ (gather (λ e. if is_matched e.0 s.matched_next then [] else create e.0 e.1 ∷ [])
          (r.visit (loop <> ": created") nexts)
        ++ gather (λ e. if is_matched e.0 s.matched_prev then [] else drop e.0 e.1 ∷ [])
            (r.visit (loop <> ": dropped") prevs))
