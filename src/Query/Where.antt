-- ===== src/Query/Where.antt =====
-- WHERE clauses and their SQL (`buildWhereRecursive`, query/sqlgen/buildwhere.go), on the conditions
-- of Condition.
pub mod Pieces
pub mod Binding
pub mod Writing
pub mod Clause
use prisma_go.Base.{
  ℕ, ◌+◌, if◌then◌else◌, Bool, true, false, ◌||◌, String, ◌<>◌, str_eq, List, [], ◌∷◌, ◌++◌, Option,
  none, some, length, for_each, ℤ,
}
use prisma_go.Query.Condition.{
  Dynamic, Condition, WhereClause, where_clause, Groups, no_groups, nil_group, group, is_empty,
  Built, join, nothing, build_condition,
}

-- `parts`, `args` and the counter in `buildWhereRecursive`.
pub record Parts (V : Type 0) : Type 0 where
  pub parts : List String
  pub args : List V
  pub next : ℕ

module _ (dyn : Dynamic) (placeholder : ℕ → String) (quoter : String → String)
    (provider : String) where
  open dyn use {Value}

  -- The body of the loop over the conditions.
  unfoldable pub add_condition : Condition Value → Parts Value → Parts Value
  unfolding build_condition
  add_condition cond p =
      let b = build_condition dyn placeholder quoter provider cond p.next in
      if str_eq b.sql ""
      then record p { next = b.next }
      else record { parts = p.parts ++ (b.sql ∷ []); args = p.args ++ b.args; next = b.next }

  -- The body of the loop over the groups, after the recursive call.
  unfoldable pub add_group : Built Value → Parts Value → Parts Value
  add_group b p = if str_eq b.sql "" then record p { next = b.next } else record {
    parts = p.parts ++ (("(" <> (b.sql <> ")")) ∷ []);
    args = p.args ++ b.args;
    next = b.next;
  }

  -- The end of `buildWhereRecursive`: the parts joined, and NOT.
  unfoldable pub finish : String → Bool → Parts Value → Built Value
  unfolding join
  finish operator is_not p = elim p.parts [
    | [] ↦ nothing dyn placeholder quoter provider p.next
    | s ∷ rest ↦
        let op = if str_eq operator "OR" || str_eq operator "or" then "OR" else "AND" in
        let result = join (" " <> (op <> " ")) (s ∷ rest) in
        record {
          sql = if is_not then "NOT (" <> (result <> ")") else result;
          args = p.args;
          next = p.next;
        }
  ]

  -- `buildWhereRecursive` on a clause that is not nil.
  unfoldable mutual
    unfolding is_empty add_condition add_group finish

    pub build_where : WhereClause Value → ℕ → Built Value
    build_where (where_clause conditions groups operator is_not) i =
        let built = finish operator is_not (
          build_groups groups
            (for_each add_condition conditions (record { parts = []; args = []; next = i }))) in
        if is_empty conditions groups then nothing dyn placeholder quoter provider i else built

    pub build_groups : Groups Value → Parts Value → Parts Value
    build_groups no_groups p = p
    build_groups (nil_group groups) p = build_groups groups p
    build_groups (group w groups) p = build_groups groups (add_group (build_where w p.next) p)
