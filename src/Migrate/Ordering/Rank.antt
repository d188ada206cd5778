-- ===== src/Migrate/Ordering/Rank.antt =====
-- Which changes must come before which, stated apart from the code, and the rank by which every
-- edge of the dependency graph goes up.
use text.Mathlib.TextLemmas.{cons-append}
use Prim.Native.Char.{Char, code}
use prisma_go.Base.{
  ℕ, ◌<◌, ◌≡◌, sym, ap, ◌∙◌, ◌≢◌, Bool, true, false, String, ◌<>◌, In, eq_iff, arith,
}
use prisma_go.Migrate.Change.{
  ChangeType, create_table, drop_table, alter_table, redefine_table, drop_index, rename_index,
  drop_foreign_key, rename_foreign_key, Change,
}
use prisma_go.Migrate.Ordering.{extract_dependencies, extract_provides}

-- A table is created before anything is done to it; its indexes and foreign keys are dropped or
-- renamed before it is dropped; an index is dropped before its table is altered.
unfoldable pub type_precedes : ChangeType → ChangeType → Bool
type_precedes create_table b = elim b [
  | create_table ↦ false
  | drop_table ↦ false
  | redefine_table ↦ false
  | drop_foreign_key ↦ false
  | rename_foreign_key ↦ false
  | _ ↦ true
]
type_precedes drop_foreign_key drop_table = true
type_precedes drop_index drop_table = true
type_precedes rename_index drop_table = true
type_precedes drop_index alter_table = true
type_precedes _ _ = false

-- The order that two changes of one named table must keep.
pub record MustPrecede (a b : Change) : Type 0 where
  pub types : type_precedes a.type b.type ≡ true
  pub named : a.table ≢ ""
  pub same_table : a.table ≡ b.table

unfoldable pub rank : ChangeType → ℕ
rank create_table = 0
rank drop_table = 2
rank alter_table = 2
rank _ = 1

In-extract_dependencies :
    (s : String) (d : Change)
    → In s (extract_dependencies d)
    → (s ≡ "table:" <> d.table) × (0 < rank d.type)
unfolding extract_dependencies rank
In-extract_dependencies s d m = ground arith

-- The first character, which tells the kinds of names apart.
abbrev first : String → ℕ
first String.[] = 0
first (String.◌∷◌ c _) = code c

first-append : (c : Char) (s r : String) → first (String.◌∷◌ c s <> r) ≡ code c
first-append c s r = ap first (cons-append c s r)

ne_of_first :
    (c d : Char) (s r t u : String) → code c ≢ code d → String.◌∷◌ c s <> t ≢ String.◌∷◌ d r <> u
ne_of_first c d s r t u n e =
    absurd (n (sym (first-append c s t) ∙ ap first e ∙ first-append d r u))

table-ne-column : (t r : String) → "table:" <> t ≢ "column:" <> r
table-ne-column t r = ne_of_first "t" "c" "able:" "olumn:" t r (omega arith)

table-ne-index : (t r : String) → "table:" <> t ≢ "index:" <> r
table-ne-index t r = ne_of_first "t" "i" "able:" "ndex:" t r (omega arith)

table-ne-fk : (t r : String) → "table:" <> t ≢ "fk:" <> r
table-ne-fk t r = ne_of_first "t" "f" "able:" "k:" t r (omega arith)

-- Only the creation of a table provides what a dependency can name.
In-extract_provides :
    (t : String) (c : Change) → In ("table:" <> t) (extract_provides c) → c.type ≡ create_table
unfolding extract_provides
In-extract_provides t c m = ground (
  arith,
  table-ne-column t (c.table <> ("." <> c.column)),
  table-ne-index t (c.table <> ("." <> c.index)),
  table-ne-fk t (c.table <> ("." <> c.index)),
)

-- An edge that a dependency makes goes up in rank.
pub provides_rank :
    (s : String) (c d : Change)
    → In s (extract_provides c)
    → In s (extract_dependencies d)
    → rank c.type < rank d.type
provides_rank s c d p q =
    let (e, pos) = In-extract_dependencies s d q in
    let first_type : c.type ≡ create_table = In-extract_provides d.table c (rw e at p) in
    rw first_type (unfold rank in pos)

-- A pair that must keep its order, with `create_table` in front and a type that has
-- dependencies: the first provides what the second depends on.
pub table_provided :
    (c : Change)
    → c.type ≡ create_table
    → c.table ≢ ""
    → In ("table:" <> c.table) (extract_provides c)
unfolding extract_provides
table_provided c e n = ground (arith, eq_iff c.table "")
