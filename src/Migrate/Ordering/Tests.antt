-- ===== src/Migrate/Ordering/Tests.antt =====
-- Runs of `OrderChanges` (migrate/diff/step_ordering.go), and its theorems at concrete changes.
use prisma_go.Base.{
  ℕ, ◌<◌, ◌≡◌, refl, ap, zero, suc, List, [], ◌∷◌, ◌++◌, map, some, length, Perm, arith, eq_iff,
}
use prisma_go.Migrate.Change.{
  ChangeType, create_table, drop_table, drop_index, create_index, create_foreign_key, Change,
  bare_change,
}
use prisma_go.Migrate.Ordering.{order_changes, step_of, step_at, dependency_graph, MigrationStep}
use prisma_go.Migrate.Ordering.Rank.{MustPrecede, type_precedes}
use prisma_go.Migrate.Ordering.Graph.{IsSound}
use prisma_go.Migrate.Ordering.Build.{map-AllBuilt, dependency_graph-IsSound}
use prisma_go.Migrate.Ordering.Leftover.{Key, repeats}
use prisma_go.Migrate.Ordering.Repeats.{change_at, HasDistinctKeys}
use prisma_go.Migrate.Ordering.Order.{
  IsOrdering, order_changes-IsOrdering, order_changes-perm, order_changes_duplicates,
}

-- A table, its index and a dropped table with its index, in the wrong order.
abbrev sample : List Change
sample =
    bare_change create_index "t"
    ∷ bare_change drop_table "u"
    ∷ bare_change drop_index "u"
    ∷ bare_change create_table "t"
    ∷ []

order_changes_run :
    order_changes sample
    ≡ some (
        bare_change drop_index "u"
        ∷ bare_change drop_table "u"
        ∷ bare_change create_table "t"
        ∷ bare_change create_index "t"
        ∷ [])
unfolding order_changes
order_changes_run = refl

-- Two foreign keys that one table gains, as the table differ emits them.
abbrev two_keys : List Change
two_keys = bare_change create_foreign_key "t" ∷ bare_change create_foreign_key "t" ∷ []

two_keys_run :
    order_changes two_keys
    ≡ some (
        bare_change create_foreign_key "t"
        ∷ bare_change create_foreign_key "t"
        ∷ bare_change create_foreign_key "t"
        ∷ [])
unfolding order_changes
two_keys_run = refl

order_changes-IsOrdering_example :
    (out : List ℕ) × (order_changes sample ≡ some (map (change_at sample) out ++ repeats sample))
    × IsOrdering sample out
order_changes-IsOrdering_example = order_changes-IsOrdering sample

abbrev type_at : Change → ChangeType
type_at c = c.type

sample-HasDistinctKeys : HasDistinctKeys sample
sample-HasDistinctKeys zero (suc zero) h l e = cc (ap (λ (k : Key). k.type) e)
sample-HasDistinctKeys zero (suc (suc zero)) h l e = cc (ap (λ (k : Key). k.type) e)
sample-HasDistinctKeys zero (suc (suc (suc zero))) h l e = cc (ap (λ (k : Key). k.type) e)
sample-HasDistinctKeys (suc zero) (suc (suc zero)) h l e = cc (ap (λ (k : Key). k.type) e)
sample-HasDistinctKeys (suc zero) (suc (suc (suc zero))) h l e = cc (ap (λ (k : Key). k.type) e)
sample-HasDistinctKeys (suc (suc zero)) (suc (suc (suc zero))) h l e =
    cc (ap (λ (k : Key). k.type) e)
sample-HasDistinctKeys _ _ h l e = absurd (omega arith)

order_changes-perm_example :
    (result : List Change) × (order_changes sample ≡ some result) × Perm result sample
order_changes-perm_example = order_changes-perm sample sample-HasDistinctKeys

order_changes_duplicates_example :
    (result : List Change) × (order_changes two_keys ≡ some result) × (2 < length result)
order_changes_duplicates_example =
    order_changes_duplicates two_keys 0 1 (omega arith) (omega arith) refl

abbrev sample_steps : List MigrationStep
sample_steps = map step_of sample

dependency_graph-IsSound_example :
    IsSound 4 (λ i. (step_at sample_steps i).change.type) (dependency_graph sample_steps)
dependency_graph-IsSound_example = dependency_graph-IsSound sample_steps (map-AllBuilt sample)

drop_order : MustPrecede (bare_change drop_index "u") (bare_change drop_table "u")
unfolding type_precedes
drop_order = record { types = refl; named = λ e. ground (arith, eq_iff "u" ""); same_table = refl }
