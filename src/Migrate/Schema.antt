-- ===== src/Migrate/Schema.antt =====
-- The schema of a database (migrate/introspect/introspect.go).
use prisma_go.Base.{Bool, String, List, Option, ℤ}

pub record Column : Type 0 where
  pub name : String
  pub type : String
  pub nullable : Bool
  pub default_value : Option String
  pub auto_increment : Bool

pub record PrimaryKey : Type 0 where
  pub name : String
  pub columns : List String

pub record Index : Type 0 where
  pub name : String
  pub columns : List String
  pub is_unique : Bool

pub record ForeignKey : Type 0 where
  pub name : String
  pub columns : List String
  pub referenced_table : String
  pub referenced_columns : List String
  pub on_delete : String
  pub on_update : String

pub record Table : Type 0 where
  pub name : String
  pub schema : String
  pub columns : List Column
  pub primary_key : Option PrimaryKey
  pub indexes : List Index
  pub foreign_keys : List ForeignKey

pub record Enum : Type 0 where
  pub name : String
  pub values : List String

pub record View : Type 0 where
  pub name : String
  pub definition : String

pub record Sequence : Type 0 where
  pub name : String

pub record CheckConstraint : Type 0 where
  pub name : String
  pub table_name : String
  pub definition : String

pub record Trigger : Type 0 where
  pub name : String
  pub table_name : String
  pub event : String
  pub timing : String
  pub definition : String

pub record ProcedureParameter : Type 0 where
  pub name : String
  pub type : String
  pub mode : String
  pub position : ℤ

pub record StoredProcedure : Type 0 where
  pub name : String
  pub definition : String
  pub parameters : List ProcedureParameter

pub record DatabaseSchema : Type 0 where
  pub tables : List Table
  pub enums : List Enum
  pub views : List View
  pub sequences : List Sequence
  pub check_constraints : List CheckConstraint
  pub triggers : List Trigger
  pub stored_procedures : List StoredProcedure
