-- ===== src/Migrate/Planner/Steps.antt =====
-- What a plan consists of (migrate/planner/planner.go).
use prisma_go.Base.{
  ◌≡◌, refl, sym, ◌⊎◌, inl, inr, ap, ap₂, ◌∙◌, ltb, if◌then◌else◌, Bool, true, false, not, ◌&&◌,
  String, ◌<>◌, List, [], ◌∷◌, ◌++◌, map, append-nil, append_assoc, length, for_each, gather, arith,
}
use prisma_go.Migrate.Schema.{DatabaseSchema}
use prisma_go.Migrate.Flavour.{Result, ok, err}
use prisma_go.Migrate.Change.{Change, type_name}
use prisma_go.Migrate.Differ.{DiffResult}
use prisma_go.Migrate.Planner.{
  MigrationStep, MigrationPlan, Planner, step_for, add_step, no_op, add_no_op, plan_migration,
}

Result-cases : {A : Type 0} (x : Result A) → ((a : A) × (x ≡ ok a)) ⊎ ((e : String) × (x ≡ err e))
Result-cases (ok a) = inl (a, refl)
Result-cases (err e) = inr (e, refl)

-- A step for a change with its SQL.
step_with : String → String → Change → MigrationStep
step_with sql rollback c = record {
  type = type_name c.type;
  description = c.description;
  sql = sql;
  rollback = rollback;
  is_safe = c.is_safe;
  warnings = c.warnings;
}

-- The steps of a plan: one for each change, in order, of which the first has all of the SQL; one
-- that does nothing where there is no change.
pub steps_of : String → String → List Change → List MigrationStep
steps_of sql rollback [] = no_op ∷ []
steps_of sql rollback (c ∷ cs) = step_with sql rollback c ∷ map (step_with "" "") cs

-- All changes are safe.
pub all_safe : List Change → Bool
all_safe [] = true
all_safe (c ∷ cs) = c.is_safe && all_safe cs

abbrev warnings_of : List Change → List String
warnings_of = gather (λ (c : Change). c.warnings)

abbrev made : String → List MigrationStep → Bool → List String → MigrationPlan
made name steps is_safe warnings = record {
  name = name;
  steps = steps;
  is_safe = is_safe;
  warnings = warnings;
}

made_cong :
    (name : String) {steps steps' : List MigrationStep} {b b' : Bool} {ws ws' : List String}
    → steps ≡ steps'
    → b ≡ b'
    → ws ≡ ws'
    → made name steps b ws ≡ made name steps' b' ws'
made_cong name {steps} {steps'} {b} {b'} {ws} {ws'} e f g =
    ap (λ x. made name x b ws) e ∙ ap₂ (made name steps') f g

and_true : (b : Bool) → b ≡ (b && true)
and_true b = ground arith

and_assoc : (a b c : Bool) → ((a && b) && c) ≡ (a && (b && c))
and_assoc a b c = ground arith

safe_so_far : (a b : Bool) → (if not a then false else b) ≡ (b && a)
safe_so_far a b = ground arith

add_warnings :
    (ws more : List String) → (if ltb 0 (length more) then ws ++ more else ws) ≡ ws ++ more
add_warnings ws [] = sym (append-nil ws)
add_warnings ws (w ∷ more) = ground arith

one_step :
    (sql rollback name : String) (c : Change) (steps : List MigrationStep) (b : Bool)
    (ws : List String)
    → add_step sql rollback c (made name steps b ws)
      ≡ made name
          (steps ++ (step_for sql rollback steps c ∷ []))
          (b && c.is_safe)
          (ws ++ c.warnings)
unfolding add_step
one_step sql rollback name c steps b ws =
    ap₂ (made name (steps ++ (step_for sql rollback steps c ∷ []))) (safe_so_far c.is_safe b)
      (add_warnings ws c.warnings)

later_step :
    (sql rollback : String) (c : Change) (s : MigrationStep) (steps : List MigrationStep)
    → step_for sql rollback (s ∷ steps) c ≡ step_with "" "" c
unfolding step_for step_with
later_step sql rollback c s steps = ground arith

-- The loop, once there is a step.
more_steps :
    (sql rollback name : String) (cs : List Change) (s : MigrationStep) (steps : List MigrationStep)
    (b : Bool) (ws : List String)
    → for_each (add_step sql rollback) cs (made name (s ∷ steps) b ws)
      ≡ made name
          ((s ∷ steps) ++ map (step_with "" "") cs)
          (b && all_safe cs)
          (ws ++ warnings_of cs)
unfolding all_safe
more_steps sql rollback name [] s steps b ws =
    made_cong name (sym (append-nil (s ∷ steps))) (and_true b) (sym (append-nil ws))
more_steps sql rollback name (c ∷ cs) s steps b ws =
    ap (for_each (add_step sql rollback) cs) (
      one_step sql rollback name c (s ∷ steps) b ws
      ∙ ap (λ t. made name ((s ∷ steps) ++ (t ∷ [])) (b && c.is_safe) (ws ++ c.warnings))
          (later_step sql rollback c s steps))
    ∙ more_steps sql rollback name cs s (steps ++ (step_with "" "" c ∷ [])) (b && c.is_safe)
        (ws ++ c.warnings)
    ∙ made_cong name (append_assoc (s ∷ steps) (step_with "" "" c ∷ []) (map (step_with "" "") cs))
        (and_assoc b c.is_safe (all_safe cs)) (append_assoc ws c.warnings (warnings_of cs))

-- Nothing is added where there is a step.
with_steps :
    (name : String) (s : MigrationStep) (rest : List MigrationStep) (b : Bool) (ws : List String)
    → add_no_op (made name (s ∷ rest) b ws) ≡ made name (s ∷ rest) b ws
unfolding add_no_op
with_steps name s rest b ws = ground arith

run_steps :
    (sql rollback name : String) (cs : List Change)
    → add_no_op (for_each (add_step sql rollback) cs (made name [] true []))
      ≡ made name (steps_of sql rollback cs) (all_safe cs) (warnings_of cs)
unfolding steps_of all_safe step_for step_with
run_steps sql rollback name [] = unfold add_no_op in refl
run_steps sql rollback name (c ∷ cs) =
    ap add_no_op (
      ap (for_each (add_step sql rollback) cs) (one_step sql rollback name c [] true [])
      ∙ more_steps sql rollback name cs (step_for sql rollback [] c) [] c.is_safe c.warnings)
    ∙ with_steps name (step_with sql rollback c) (map (step_with "" "") cs)
        (c.is_safe && all_safe cs) (c.warnings ++ warnings_of cs)

-- The plan for what the generator returns for the migration and for the rollback.
pub planned : Result String → Result String → String → List Change → Result MigrationPlan
planned (err e) rollback name cs = err ("failed to generate migration SQL: " <> e)
planned (ok sql) (err e) name cs = err ("failed to generate rollback SQL: " <> e)
planned (ok sql) (ok rollback) name cs = ok (record {
  name = name;
  steps = steps_of sql rollback cs;
  is_safe = all_safe cs;
  warnings = gather (λ (c : Change). c.warnings) cs;
})

-- `Plan` returns, where the generator returns both texts, a plan with one step for each change, in
-- order, of which the first has all of the SQL and the rollback, or with one step that does nothing
-- where there is no change; it is safe just when all changes are, and has their warnings in order.
-- Where the generator returns an error, `Plan` returns it, the one for the migration first.
pub plan_migration-planned :
    (p : Planner) (diff : DiffResult) (name : String) (schema : DatabaseSchema)
    → plan_migration p diff name schema
      ≡ planned
          (p.generator.generate_migration_sql diff schema)
          (p.generator.generate_rollback_sql diff schema)
          name
          diff.changes
unfolding plan_migration planned
plan_migration-planned p diff name schema =
    elim (Result-cases (p.generator.generate_migration_sql diff schema)) [
      | inr (e, h) ↦ simp (h, plan_migration, planned) refl
      | inl (sql, h) ↦ elim (Result-cases (p.generator.generate_rollback_sql diff schema)) [
        | inr (e, k) ↦ simp (h, k, plan_migration, planned) refl
        | inl (rollback, k) ↦
            simp (h, k, plan_migration, planned) (ap ok (run_steps sql rollback name diff.changes))
      ]
    ]
