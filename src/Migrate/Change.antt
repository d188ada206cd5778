-- ===== src/Migrate/Change.antt =====
-- The changes of a schema diff (migrate/diff/diff.go).
use prisma_go.Base.{
  sym, ◌∙◌, eq_refl, if◌then◌else◌, ◌≡◌, refl, ap, Bool, true, String, str_eq, eq_iff, List, [],
  Option, none, ◌↔◌,
}

-- The `ChangeType…` constants: the values that `Change.Type` takes.
pub data ChangeType : Type 0 where
  create_table drop_table alter_table redefine_table : ChangeType
  add_column drop_column alter_column : ChangeType
  create_index drop_index rename_index : ChangeType
  create_foreign_key drop_foreign_key rename_foreign_key : ChangeType

-- The text of each constant.
unfoldable pub type_name : ChangeType → String
type_name create_table = "CreateTable"
type_name drop_table = "DropTable"
type_name alter_table = "AlterTable"
type_name redefine_table = "RedefineTable"
type_name add_column = "AddColumn"
type_name drop_column = "DropColumn"
type_name alter_column = "AlterColumn"
type_name create_index = "CreateIndex"
type_name drop_index = "DropIndex"
type_name rename_index = "RenameIndex"
type_name create_foreign_key = "CreateForeignKey"
type_name drop_foreign_key = "DropForeignKey"
type_name rename_foreign_key = "RenameForeignKey"

-- `Change.Type == Change.Type`: a comparison of the texts.
unfoldable pub same_type : ChangeType → ChangeType → Bool
unfolding type_name
same_type a b = str_eq (type_name a) (type_name b)

pub record ColumnMetadata : Type 0 where
  pub type : String
  pub nullable : Bool
  pub default_value : Option String
  pub auto_increment : Bool
  pub old_type : String
  pub old_nullable : Option Bool

pub record Change : Type 0 where
  pub type : ChangeType
  pub table : String
  pub column : String
  pub index : String
  pub description : String
  pub sql : String
  pub is_safe : Bool
  pub warnings : List String
  pub column_metadata : Option ColumnMetadata
  pub old_name : String
  pub new_name : String

-- A change with its type and table alone, every other field the zero value.
abbrev pub bare_change : ChangeType → String → Change
bare_change type table = record {
  type = type;
  table = table;
  column = "";
  index = "";
  description = "";
  sql = "";
  is_safe = true;
  warnings = [];
  column_metadata = none;
  old_name = "";
  new_name = "";
}

of_name : String → ChangeType
unfolding type_name
of_name s =
    if str_eq s "CreateTable"
    then create_table
    else if str_eq s "DropTable"
    then drop_table
    else if str_eq s "AlterTable"
    then alter_table
    else if str_eq s "RedefineTable"
    then redefine_table
    else if str_eq s "AddColumn"
    then add_column
    else if str_eq s "DropColumn"
    then drop_column
    else if str_eq s "AlterColumn"
    then alter_column
    else if str_eq s "CreateIndex"
    then create_index
    else if str_eq s "DropIndex"
    then drop_index
    else if str_eq s "RenameIndex"
    then rename_index
    else if str_eq s "CreateForeignKey"
    then create_foreign_key
    else if str_eq s "DropForeignKey"
    then drop_foreign_key
    else rename_foreign_key

of_name-type_name : (a : ChangeType) → of_name (type_name a) ≡ a
unfolding of_name
of_name-type_name create_table = refl
of_name-type_name _ = refl

-- The texts tell the types apart.
pub same_type_iff : (a b : ChangeType) → (same_type a b ≡ true) ↔ (a ≡ b)
unfolding same_type
same_type_iff a b = (
  λ h. sym (of_name-type_name a) ∙ ap of_name ((eq_iff _ _).0 h) ∙ of_name-type_name b,
  λ e. rw e (eq_refl (type_name b)),
)
