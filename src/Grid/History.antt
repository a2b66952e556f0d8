-- ===== src/Grid/History.antt =====
-- The edit history of src/core/grid_edit.rs (`GridEditHistory`): every gesture returns a new history.
pub mod Columns
pub mod Reached
pub mod Gestures
use fuaran_rs.Prelude.{ℕ, ◌≡◌, ◌<◌, max, Option, List, [], ◌∷◌, length, take}
use fuaran_rs.Prelude.Outcome.{Result, ok, err, ◌>>=◌}
use fuaran_rs.Grid.{Compute, Table, ColumnOp, EditRefusal, nothing_to_undo, nothing_to_redo}
use fuaran_rs.Grid.Edit.{Edited, apply_column_op, invert_column_op}

-- An edit and its inverse.
abbrev pub Entry : Compute → Type 0
Entry C = ColumnOp C × ColumnOp C

-- The most recent edit stands first in `undo`, the most recently undone first in `redo`.
pub record GridEditHistory (C : Compute) : Type 0 where
  pub table : Table C
  pub capacity : ℕ
  pub undo : List (Entry C)
  pub redo : List (Entry C)

module _ {C : Compute} where
  unfoldable pub new_history : Table C → ℕ → GridEditHistory C
  new_history table capacity = record {
    table = table;
    capacity = max capacity 1;
    undo = [];
    redo = [];
  }

  -- `pushed`: past the capacity the oldest edit is dropped.
  unfoldable pub pushed : Entry C → GridEditHistory C → List (Entry C)
  pushed entry h = take h.capacity (entry ∷ h.undo)

  -- What can be undone after an edit: nothing, where the edit has no inverse.
  abbrev pub undo_after : ColumnOp C → Edited (ColumnOp C) → GridEditHistory C → List (Entry C)
  undo_after op (ok inv) h = pushed (op, inv) h
  undo_after op (err e) h = []

module _ {C : Compute} (eval_pipeline : List C.Step → Table C → Option (Table C)) where
  -- `GridEditHistory::apply`
  unfoldable pub edit : ColumnOp C → GridEditHistory C → Edited (GridEditHistory C)
  unfolding pushed
  edit op h = do
    table ← apply_column_op eval_pipeline op h.table
    ok (record h {
      table = table;
      undo = undo_after op (invert_column_op eval_pipeline op h.table) h;
      redo = [];
    })

  unfoldable pub undo_entry : List (Entry C) → GridEditHistory C → Edited (GridEditHistory C)
  undo_entry [] h = err nothing_to_undo
  undo_entry ((op, inv) ∷ rest) h = do
    table ← apply_column_op eval_pipeline inv h.table
    ok (record h { table = table; undo = rest; redo = (op, inv) ∷ h.redo })

  unfoldable pub undo_edit : GridEditHistory C → Edited (GridEditHistory C)
  unfolding undo_entry
  undo_edit h = undo_entry h.undo h

  unfoldable pub redo_entry : List (Entry C) → GridEditHistory C → Edited (GridEditHistory C)
  unfolding pushed
  redo_entry [] h = err nothing_to_redo
  redo_entry ((op, inv) ∷ rest) h = do
    table ← apply_column_op eval_pipeline op h.table
    ok (record h { table = table; undo = pushed (op, inv) h; redo = rest })

  unfoldable pub redo_edit : GridEditHistory C → Edited (GridEditHistory C)
  unfolding redo_entry
  redo_edit h = redo_entry h.redo h
