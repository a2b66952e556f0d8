-- ===== src/Tests/GridRuns.antt =====
-- Runs of the grid edits and of an edit history.
use fuaran_rs.Prelude.{ℕ, ◌≡◌, refl, true, Option, none, some, List, [], ◌∷◌, String}
use fuaran_rs.Prelude.Decimal.{pos, negsuc}
use fuaran_rs.Prelude.Outcome.{ok, err}
use fuaran_rs.Grid.{
  Compute, ColumnType, Cell, DataColumn, Table, new_entry, ColumnOp, set_cell, insert_column,
  EditRefusal,
}
use fuaran_rs.Grid.Cells.{cell_fits}
use fuaran_rs.Grid.Edit.{apply_column_op, invert_column_op, with_column}
use fuaran_rs.Grid.Edit.Written.{AreColumns}
use fuaran_rs.Grid.Edit.Schema.{Describes, IsTable}
use fuaran_rs.Grid.Edit.Inverse.{invert_column_op-Undone}
use fuaran_rs.Grid.Edit.Sound.{Sound, apply_column_op-Sound}
use fuaran_rs.Grid.History.{GridEditHistory, new_history, edit, undo_edit, redo_edit}
use fuaran_rs.Grid.History.Reached.{IsHistory, new_history-IsHistory, undo_edit-redo_edit}
use fuaran_rs.Grid.History.Gestures.{Reaches, here, next, make, Reaches-IsHistory, edit-undo_edit}

abbrev cents : Compute
cents = record {
  Float = ℕ;
  Meta = String;
  Step = Unit {0};
  no_meta = "";
  float_eq = λ a b. true;
  float_text = λ a. "0";
  canonical = λ s. some s;
}

-- A pipeline that is always rejected.
abbrev no_pipeline : List (Unit {0}) → Table cents → Option (Table cents)
no_pipeline steps t = none

abbrev ages : DataColumn cents
ages = record {
  name = "age";
  column_type = ColumnType.int;
  cells = Cell.int (pos 3) ∷ Cell.null ∷ [];
}

abbrev names : DataColumn cents
names = record {
  name = "name";
  column_type = ColumnType.str;
  cells = Cell.str "a" ∷ Cell.str "b" ∷ [];
}

abbrev people : Table cents
people = record {
  schema = new_entry "name" ColumnType.str ∷ new_entry "age" ColumnType.int ∷ [];
  columns = names ∷ ages ∷ [];
}

abbrev birthday : ColumnOp cents
birthday = set_cell "age" (pos 1) (Cell.int (pos 4))

abbrev older : Table cents
older = record {
  schema = new_entry "name" ColumnType.str ∷ new_entry "age" ColumnType.int ∷ [];
  columns = names ∷ record ages { cells = Cell.int (pos 3) ∷ Cell.int (pos 4) ∷ [] } ∷ [];
}

people-AreColumns : AreColumns people.columns
unfolding cell_fits
people-AreColumns = record {
  unique = ((refl, tt), (tt, tt));
  even = (refl, (refl, tt));
  fits = (refl, (refl, tt));
}

people-IsTable : IsTable people
people-IsTable = record { shape = people-AreColumns; described = refl }

birthday_run : apply_column_op no_pipeline birthday people ≡ ok older
unfolding apply_column_op cell_fits with_column
birthday_run = refl

-- A row before the first is refused.
row_refused :
    apply_column_op no_pipeline (set_cell "age" (negsuc 0) Cell.null) people
    ≡ err EditRefusal.row_out_of_range
unfolding apply_column_op
row_refused = refl

-- A decimal does not widen into an int column.
cell_refused :
    apply_column_op no_pipeline (set_cell "age" (pos 0) (Cell.decimal "1.5")) people
    ≡ err EditRefusal.cell_type_mismatch
unfolding apply_column_op cell_fits
cell_refused = refl

apply_column_op-Sound_example : Sound (apply_column_op no_pipeline birthday people)
apply_column_op-Sound_example = apply_column_op-Sound no_pipeline birthday people people-IsTable tt

-- A column that is to stand past the end of the schema panics.
short_schema :
    apply_column_op no_pipeline
      (insert_column (pos 2) (record ages { name = "years" }))
      (record people { schema = [] })
    ≡ err EditRefusal.panicked
unfolding apply_column_op
short_schema = refl

invert_column_op-Undone_example :
    (inv : ColumnOp cents) × (t : Table cents) × (invert_column_op no_pipeline birthday people
      ≡ ok inv)
    × (apply_column_op no_pipeline inv older ≡ ok t)
    × (t.columns ≡ people.columns)
    × Describes t.schema t.columns
invert_column_op-Undone_example =
    invert_column_op-Undone no_pipeline birthday people older people-IsTable refl birthday_run

abbrev opened : GridEditHistory cents
opened = record { table = people; capacity = 5; undo = []; redo = [] }

abbrev edited : GridEditHistory cents
edited = record {
  table = older;
  capacity = 5;
  undo = (birthday, set_cell "age" (pos 1) Cell.null) ∷ [];
  redo = [];
}

edit_run : edit no_pipeline birthday opened ≡ ok edited
unfolding edit apply_column_op cell_fits with_column invert_column_op
edit_run = refl

opened-IsHistory : IsHistory no_pipeline opened
unfolding new_history
opened-IsHistory = new_history-IsHistory no_pipeline people 5 people-IsTable

edited_reached : Reaches no_pipeline (new_history people 5) edited
unfolding new_history
edited_reached = next here (make birthday) tt edit_run

Reaches-IsHistory_example : IsHistory no_pipeline edited
Reaches-IsHistory_example =
    Reaches-IsHistory no_pipeline people 5 edited people-IsTable edited_reached

undo_edit-redo_edit_example :
    (h1 : GridEditHistory cents) × (h2 : GridEditHistory cents) × (undo_edit no_pipeline edited
      ≡ ok h1)
    × (redo_edit no_pipeline h1 ≡ ok h2)
    × (h2.table.columns ≡ older.columns)
    × (h2.undo ≡ edited.undo)
    × (h2.redo ≡ [])
undo_edit-redo_edit_example =
    undo_edit-redo_edit no_pipeline edited (birthday, set_cell "age" (pos 1) Cell.null) []
      (Reaches-IsHistory no_pipeline people 5 edited people-IsTable edited_reached) refl

edit-undo_edit_example :
    (h : GridEditHistory cents) × (inv : ColumnOp cents) × (undo_edit no_pipeline edited ≡ ok h)
    × (h.table.columns ≡ people.columns)
    × (h.redo ≡ (birthday, inv) ∷ [])
edit-undo_edit_example =
    edit-undo_edit no_pipeline birthday opened edited opened-IsHistory refl edit_run
