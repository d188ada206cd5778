-- ===== src/Migrate/Ordering.antt =====
-- The ordering of changes by their dependencies (migrate/diff/step_ordering.go): extraction of
-- dependencies, the graph with its special rules, and Kahn's algorithm over it.
--
-- A Go map from ints is a function, with the zero value where no key was written. `kahn` takes
-- fuel and is `none` when it runs out.

pub mod Rank
pub mod Graph
pub mod Build
pub mod Edges
pub mod Position
pub mod Kahn
pub mod Leftover
pub mod Repeats
pub mod Order
pub mod Members
mod Tests
use mathlib.Core.Option
use prisma_go.Base.{
  ℕ, zero, suc, ◌+◌, ◌-◌, ◌==◌, if◌then◌else◌, Bool, true, false, ◌&&◌, ◌||◌, String, ◌<>◌, str_eq,
  List, [], ◌∷◌, ◌++◌, map, Option, none, some, length, get_or, enumerate_from, for_each, sort_ints,
  ◌≡◌,
}
use prisma_go.Migrate.Change.{
  ChangeType, create_table, drop_table, alter_table, add_column, drop_column, alter_column,
  create_index, drop_index, rename_index, create_foreign_key, drop_foreign_key, same_type, Change,
  bare_change,
}

pub record MigrationStep : Type 0 where
  pub change : Change
  pub dependencies : List String
  pub provides : List String

-- `if change.Table != "" { deps = append(deps, "table:"+change.Table) }`
pub needs_table : Change → List String
needs_table c = if str_eq c.table "" then [] else ("table:" <> c.table) ∷ []

pub extract_dependencies : Change → List String
unfolding needs_table
extract_dependencies c = elim c.type [
  | alter_table ↦ needs_table c
  | alter_column ↦ needs_table c
  | add_column ↦ needs_table c
  | create_index ↦ needs_table c
  | drop_index ↦ needs_table c
  | rename_index ↦ needs_table c
  | drop_column ↦ needs_table c
  | _ ↦ []
]

pub extract_provides : Change → List String
extract_provides c = elim c.type [
  | create_table ↦ if str_eq c.table "" then [] else ("table:" <> c.table) ∷ []
  | add_column ↦
      if str_eq c.table "" || str_eq c.column ""
      then []
      else ("column:" <> (c.table <> ("." <> c.column))) ∷ []
  | create_index ↦
      if str_eq c.table "" || str_eq c.index ""
      then []
      else ("index:" <> (c.table <> ("." <> c.index))) ∷ []
  | create_foreign_key ↦
      if str_eq c.table "" then [] else ("fk:" <> (c.table <> ("." <> c.index))) ∷ []
  | _ ↦ []
]

pub step_of : Change → MigrationStep
unfolding extract_dependencies extract_provides
step_of c = record {
  change = c;
  dependencies = extract_dependencies c;
  provides = extract_provides c;
}

-- The maps `graph` and `inDegree`.
pub record DependencyGraph : Type 0 where
  pub next : ℕ → List ℕ
  pub in_degree : ℕ → ℕ

pub contains_int : List ℕ → ℕ → Bool
contains_int [] val = false
contains_int (v ∷ slice) val = (v == val) || contains_int slice val

-- `graph[i] = append(graph[i], j); inDegree[j]++`
pub add_edge : ℕ → ℕ → DependencyGraph → DependencyGraph
add_edge i j g = record {
  next = λ u. if u == i then g.next i ++ (j ∷ []) else g.next u;
  in_degree = λ v. if v == j then g.in_degree j + 1 else g.in_degree v;
}

-- `if !containsInt(graph[i], j) { … }`
pub add_edge_once : ℕ → ℕ → DependencyGraph → DependencyGraph
unfolding add_edge contains_int
add_edge_once i j g = if contains_int (g.next i) j then g else add_edge i j g

-- The innermost loop: an edge for each dependency that is what step `i` provides.
pub link_dependency : ℕ → ℕ → String → String → DependencyGraph → DependencyGraph
unfolding add_edge
link_dependency i j provided dep g = if str_eq dep provided then add_edge i j g else g

pub link_step : ℕ → String → ℕ × MigrationStep → DependencyGraph → DependencyGraph
unfolding link_dependency
link_step i provided (j, other) g =
    if i == j then g else for_each (link_dependency i j provided) other.dependencies g

pub link_provides : List MigrationStep → ℕ × MigrationStep → DependencyGraph → DependencyGraph
unfolding link_step
link_provides steps (i, step) g =
    for_each (λ provided g'. for_each (link_step i provided) (enumerate_from 0 steps) g')
      step.provides g

-- The tests of the special rules on the type of the other step.
pub made_on_table : ChangeType → Bool
unfolding same_type
made_on_table t =
    same_type t create_index || (same_type t create_foreign_key || same_type t rename_index)

pub dropped_from_table : ChangeType → Bool
unfolding same_type
dropped_from_table t =
    same_type t drop_foreign_key || (same_type t drop_index || same_type t rename_index)

-- The body of each inner loop of `applySpecialOrderingRules`, by the type of the outer step.
pub rule_create_table : ℕ → Change → ℕ × MigrationStep → DependencyGraph → DependencyGraph
unfolding add_edge_once made_on_table
rule_create_table i c (j, other) g =
    if i == j
    then g
    else if made_on_table other.change.type && str_eq other.change.table c.table
    then add_edge_once i j g
    else g

pub rule_drop_table : ℕ → Change → ℕ × MigrationStep → DependencyGraph → DependencyGraph
unfolding add_edge_once dropped_from_table
rule_drop_table i c (j, other) g =
    if i == j
    then g
    else if dropped_from_table other.change.type && str_eq other.change.table c.table
    then add_edge_once j i g
    else g

pub rule_drop_index : ℕ → Change → ℕ × MigrationStep → DependencyGraph → DependencyGraph
unfolding add_edge_once same_type
rule_drop_index i c (j, other) g =
    if i == j
    then g
    else if same_type other.change.type alter_table && str_eq other.change.table c.table
    then add_edge_once i j g
    else g

pub special_rule : List MigrationStep → ℕ × MigrationStep → DependencyGraph → DependencyGraph
unfolding rule_create_table rule_drop_table rule_drop_index
special_rule steps (i, step) g = elim step.change.type [
  | create_table ↦ for_each (rule_create_table i step.change) (enumerate_from 0 steps) g
  | drop_table ↦ for_each (rule_drop_table i step.change) (enumerate_from 0 steps) g
  | drop_index ↦ for_each (rule_drop_index i step.change) (enumerate_from 0 steps) g
  | _ ↦ g
]

pub apply_special_ordering_rules : List MigrationStep → DependencyGraph → DependencyGraph
unfolding special_rule
apply_special_ordering_rules steps g = for_each (special_rule steps) (enumerate_from 0 steps) g

abbrev pub no_edges : DependencyGraph
no_edges = record { next = λ _. []; in_degree = λ _. 0 }

pub dependency_graph : List MigrationStep → DependencyGraph
unfolding link_provides apply_special_ordering_rules
dependency_graph steps =
    apply_special_ordering_rules steps
      (for_each (link_provides steps) (enumerate_from 0 steps) no_edges)

-- What the loop of Kahn's algorithm changes: `inDegree` and `queue`.
pub record Frontier : Type 0 where
  pub in_degree : ℕ → ℕ
  pub queue : List ℕ

-- `inDegree[dependent]--`, and the dependent joins the queue at 0.
pub release : ℕ → Frontier → Frontier
release dependent s =
    let degree = s.in_degree dependent - 1 in
    record {
      in_degree = λ v. if v == dependent then degree else s.in_degree v;
      queue = if degree == 0 then s.queue ++ (dependent ∷ []) else s.queue;
    }

module _ {A : Type 0} (steps_at : ℕ → A) (next : ℕ → List ℕ) where
  -- The loop `for len(queue) > 0`. `none` means that the fuel ran out.
  pub kahn : ℕ → Frontier → List A → Option (List A)
  unfolding release sort_ints
  kahn zero s result = none
  kahn (suc fuel) s result = elim (sort_ints s.queue) [
    | [] ↦ some result
    | current ∷ rest ↦
        kahn fuel (for_each release (next current) (record s { queue = rest }))
          (result ++ (steps_at current ∷ []))
  ]

-- `for i := range steps { if inDegree[i] == 0 { queue = append(queue, i) } }`
pub initial_queue : (ℕ → ℕ) → ℕ → ℕ → List ℕ
initial_queue in_degree k zero = []
initial_queue in_degree k (suc n) =
    let rest = initial_queue in_degree (suc k) n in if in_degree k == 0 then k ∷ rest else rest

-- The comparison by which a placed step is found again among the steps.
pub same_step : Change → Change → Bool
unfolding same_type
same_step c d =
    same_type c.type d.type
    && (str_eq c.table d.table && (str_eq c.column d.column && str_eq c.index d.index))

-- `added[i] = true` for the first step that compares equal.
pub mark_first : MigrationStep → ℕ → List MigrationStep → (ℕ → Bool) → ℕ → Bool
unfolding same_step
mark_first step i [] added = added
mark_first step i (s ∷ steps) added =
    let rest = mark_first step (suc i) steps added in
    if same_step step.change s.change then (λ v. if v == i then true else added v) else rest

-- The steps that were not marked, in order.
pub append_missing : (ℕ → Bool) → ℕ → List MigrationStep → List MigrationStep
append_missing added i [] = []
append_missing added i (s ∷ steps) =
    let rest = append_missing added (suc i) steps in if added i then rest else s ∷ rest

pub add_remaining : List MigrationStep → List MigrationStep → List MigrationStep
unfolding mark_first append_missing
add_remaining steps result =
    let added = for_each (λ step added. mark_first step 0 steps added) result (λ _. false) in
    result ++ append_missing added 0 steps

-- Never read: every index stays below the number of steps.
abbrev pub no_step : MigrationStep
no_step = record { change = bare_change create_table ""; dependencies = []; provides = [] }

-- `steps[i]`
abbrev pub step_at : List MigrationStep → ℕ → MigrationStep
step_at steps i = get_or steps i no_step

pub topological_sort : List MigrationStep → Option (List MigrationStep)
unfolding dependency_graph kahn initial_queue add_remaining
topological_sort steps =
    let g = dependency_graph steps in
    let n = length steps in
    Option.map (add_remaining steps) (
      kahn (step_at steps) g.next (suc n)
        (record { in_degree = g.in_degree; queue = initial_queue g.in_degree 0 n }) [])

unfoldable pub order_changes : List Change → Option (List Change)
unfolding step_of topological_sort
order_changes [] = some []
order_changes (c ∷ changes) =
    Option.map (map (λ (s : MigrationStep). s.change))
      (topological_sort (map step_of (c ∷ changes)))
