-- ===== src/Grid.antt =====
-- The tables that a data grid edits (src/core/dataframe.rs, `Table` of src/core/transform.rs) and the
-- edits of src/core/grid_edit.rs.
pub mod Instant
pub mod Cells
pub mod Edit
pub mod History
use fuaran_rs.Prelude.{ℕ, String, Bool, Option, List}
use fuaran_rs.Prelude.Decimal.{ℤ}

-- What the edits carry without looking into it: a float with its `==` and its text, the metadata of a
-- schema entry, a step of a pipeline; and the decimal canonicaliser of the core spine.
pub record Compute : Type 1 where
  pub Float : Type 0
  pub Meta : Type 0
  pub Step : Type 0
  pub no_meta : Meta
  pub float_eq : Float → Float → Bool
  pub float_text : Float → String
  pub canonical : String → Option String

pub data ColumnType : Type 0 where
  int float bool str date timestamp decimal timestamp_ms timestamp_us timestamp_ns : ColumnType

pub data Cell (C : Compute) : Type 0 where
  null : Cell C
  int : ℤ → Cell C
  float : C.Float → Cell C
  bool : Bool → Cell C
  str date timestamp decimal : String → Cell C

pub record SchemaEntry (C : Compute) : Type 0 where
  pub name : String
  pub column_type : ColumnType
  pub meta : C.Meta

pub record DataColumn (C : Compute) : Type 0 where
  pub name : String
  pub column_type : ColumnType
  pub cells : List (Cell C)

pub record Table (C : Compute) : Type 0 where
  pub schema : List (SchemaEntry C)
  pub columns : List (DataColumn C)

-- `SchemaEntry::new`
abbrev pub new_entry : {C : Compute} → String → ColumnType → SchemaEntry C
new_entry {C} n ty = record { name = n; column_type = ty; meta = C.no_meta }

-- A row that is appended names a subset of the columns.
abbrev pub Row : Compute → Type 0
Row C = List (String × Cell C)

pub data ColumnOp (C : Compute) : Type 0 where
  set_cell : String → ℤ → Cell C → ColumnOp C
  set_column : DataColumn C → ColumnOp C
  insert_column : ℤ → DataColumn C → ColumnOp C
  remove_column : String → ColumnOp C
  append_rows : List (Row C) → ColumnOp C
  apply_transform : List C.Step → ColumnOp C

-- The tokens of a refusal.
-- `panicked` is no refusal of the source: it stands where an index past the end panics.
pub data EditRefusal : Type 0 where
  no_such_column row_out_of_range cell_type_mismatch column_length_mismatch : EditRefusal
  duplicate_column row_shape_unknown_column transform_rejected not_invertible : EditRefusal
  nothing_to_undo nothing_to_redo panicked : EditRefusal
