-- ===== src/Grid/Edit/Keeps.antt =====
-- The shape of a table through an edit (src/core/grid_edit.rs, `apply_column_op`).
use fuaran_rs.Prelude.{
  ℕ, zero, suc, ◌+◌, ◌≡◌, refl, sym, ap, ◌∙◌, String, Bool, true, false, not, ◌&&◌, Option, List,
  [], ◌∷◌, ◌++◌, map, ◌=?◌, leb, length, every, set, insert_at, arith, subst,
}
use fuaran_rs.Prelude.Outcome.{ok}
use fuaran_rs.Grid.{
  Compute, Cell, DataColumn, Table, ColumnOp, set_cell, set_column, insert_column, remove_column,
  append_rows, apply_transform,
}
use fuaran_rs.Grid.Cells.{cell_fits}
use fuaran_rs.Grid.Edit.{
  clamp, rows_of, row_count, with_column, without, apply_column_op, extend_column,
}
use fuaran_rs.Grid.Edit.Columns.{
  Absent, Unique, Even, Located, find_from-Located, Unique-around, Absent-split, without-split,
  insert_at-split, Even-split, Even-join, Unique-insert, Even-rows_of,
}
use fuaran_rs.Grid.Edit.Steps.{
  Fit, Fit-split, Fit-join, length-set, set_cell-steps, set_column-steps, insert_column-steps,
  remove_column-steps, append_rows-steps,
}
use fuaran_rs.Grid.Edit.Written.{
  AreColumns, with_column-columns, with_column-Unique, with_column-Even, located_length,
}
use fuaran_rs.Grid.Edit.Schema.{IsTable, IsEdit, apply_column_op-Describes}
use fuaran_rs.Grid.Edit.Appended.{columns-IsFound, extend-Even, extend-Fit, extend-Unique}

module _ {C : Compute} where
  -- The op is no pipeline, and the cells of a column that it brings fit it.
  abbrev pub OpFits : ColumnOp C → Type 0
  OpFits (set_column column) = every (cell_fits column.column_type) column.cells ≡ true
  OpFits (insert_column index column) = every (cell_fits column.column_type) column.cells ≡ true
  OpFits (apply_transform pipeline) = ⊥
  OpFits _ = Unit {0}

  OpFits-IsEdit : (op : ColumnOp C) → OpFits op → IsEdit op
  OpFits-IsEdit (set_cell col row value) h = tt
  OpFits-IsEdit (set_column column) h = tt
  OpFits-IsEdit (insert_column index column) h = tt
  OpFits-IsEdit (remove_column name) h = tt
  OpFits-IsEdit (append_rows rows) h = tt
  OpFits-IsEdit (apply_transform pipeline) h = absurd h

  every-set :
      (p : Cell C → Bool) (xs : List (Cell C)) (i : ℕ) (v : Cell C)
      → every p xs ≡ true
      → p v ≡ true
      → every p (set xs i v) ≡ true
  every-set p [] i v h e = refl
  every-set p (x ∷ xs) zero v h e = ground (arith, h, e)
  every-set p (x ∷ xs) (suc i) v h e = ground (arith, h, every-set p xs i v)

  with_column-AreColumns :
      (t : Table C) (name : String) (c d : DataColumn C)
      → AreColumns t.columns
      → Located name c t.columns
      → d.name ≡ name
      → length d.cells ≡ row_count t
      → every (cell_fits d.column_type) d.cells ≡ true
      → AreColumns (with_column t d).columns
  with_column-AreColumns t name c d w l n e f =
      let (b, k, a) = Fit-split l.before l.after c (subst Fit l.split w.fits) in
      record {
        unique = with_column-Unique t w name c d l n;
        even =
            Even-rows_of (row_count t) (with_column t d).columns
              (with_column-Even t w name c d l n e);
        fits =
            subst Fit (sym (with_column-columns t w name c d l n))
              (Fit-join l.before (d ∷ l.after) b (f, a));
      }

  insert_at-nil : (i : ℕ) (c : DataColumn C) → insert_at i c [] ≡ c ∷ []
  insert_at-nil zero c = refl
  insert_at-nil (suc i) c = refl

  insert-AreColumns :
      (cs : List (DataColumn C)) (i : ℕ) (c : DataColumn C)
      → AreColumns cs
      → Absent c.name cs
      → (leb 1 (length cs) && not (length c.cells =? rows_of cs)) ≡ false
      → every (cell_fits c.column_type) c.cells ≡ true
      → AreColumns (insert_at i c cs)
  insert-AreColumns [] i c w a g f =
      subst AreColumns (sym (insert_at-nil i c))
        (record { unique = (tt, tt); even = (refl, tt); fits = (f, tt) })
  insert-AreColumns (d ∷ ds) i c w a g f =
      let n = length d.cells in
      let (b, z, p, r) = insert_at-split i c (d ∷ ds) in
      let (ab, az) = Absent-split c.name b z (subst (Absent c.name) p a) in
      let (eb, ez) = Even-parts n b z (subst (Even n) p w.even) in
      let (fb, fz) = Fit-parts b z (subst Fit p w.fits) in
      let e : length c.cells ≡ n = ground (arith, g) in
      subst AreColumns (sym r) (record {
        unique = Unique-insert b z c (subst Unique p w.unique) ab az;
        even = Even-rows_of n (b ++ (c ∷ z)) (Even-join n b (c ∷ z) eb (e, ez));
        fits = Fit-join b (c ∷ z) fb (f, fz);
      })
    where
      Even-parts : (n : ℕ) (b z : List (DataColumn C)) → Even n (b ++ z) → Even n b × Even n z
      Even-parts n [] z h = (tt, h)
      Even-parts n (x ∷ xs) z (e, h) = let (p, q) = Even-parts n xs z h in ((e, p), q)

      Fit-parts : (b z : List (DataColumn C)) → Fit (b ++ z) → Fit b × Fit z
      Fit-parts [] z h = (tt, h)
      Fit-parts (x ∷ xs) z (e, h) = let (p, q) = Fit-parts xs z h in ((e, p), q)

  without-AreColumns :
      (name : String) (c : DataColumn C) (cs : List (DataColumn C))
      → AreColumns cs
      → Located name c cs
      → AreColumns (without name cs)
  without-AreColumns name c cs w l =
      let n = rows_of cs in
      let (b, a, r) = Unique-around l.before l.after c (subst Unique l.split w.unique) in
      let (eb, ec, ea) = Even-split n l.before l.after c (subst (Even n) l.split w.even) in
      let (fb, fc, fa) = Fit-split l.before l.after c (subst Fit l.split w.fits) in
      let cols : without name cs ≡ l.before ++ l.after =
        ap (without name) l.split
        ∙ without-split name l.before l.after c l.named (subst (λ x. Absent x l.before) l.named b)
            (subst (λ x. Absent x l.after) l.named a) in
      subst AreColumns (sym cols) (record {
        unique = r;
        even = Even-rows_of n (l.before ++ l.after) (Even-join n l.before l.after eb ea);
        fits = Fit-join l.before l.after fb fa;
      })

module _ {C : Compute} (eval_pipeline : List C.Step → Table C → Option (Table C)) where
  apply_column_op-AreColumns :
      (op : ColumnOp C) (t t' : Table C)
      → AreColumns t.columns
      → OpFits op
      → apply_column_op eval_pipeline op t ≡ ok t'
      → AreColumns t'.columns
  apply_column_op-AreColumns (set_cell col row value) t t' w o h =
      let (i, c, r, e, f, g, q) = set_cell-steps eval_pipeline col row value t t' h in
      let (l, k) = find_from-Located 0 col t.columns i c e in
      let d : DataColumn C = record c { cells = set c.cells r value } in
      let (b, m, a) = Fit-split l.before l.after c (subst Fit l.split w.fits) in
      subst (λ (x : Table C). AreColumns x.columns) (sym q)
        (with_column-AreColumns t col c d w l l.named
          (length-set c.cells r value ∙ located_length t w col c c l l.named)
          (every-set (cell_fits c.column_type) c.cells r value m g))
  apply_column_op-AreColumns (set_column column) t t' w o h =
      let (i, c, e, f, q) = set_column-steps eval_pipeline column t t' h in
      let (l, k) = find_from-Located 0 column.name t.columns i c e in
      subst (λ (x : Table C). AreColumns x.columns) (sym q)
        (with_column-AreColumns t column.name c column w l refl (ground (arith, f)) o)
  apply_column_op-AreColumns (insert_column index column) t t' w o h =
      let (a, f, q, s) = insert_column-steps eval_pipeline index column t t' h in
      subst AreColumns (sym q)
        (insert-AreColumns t.columns (clamp index (length t.columns)) column w a f o)
  apply_column_op-AreColumns (remove_column name) t t' w o h =
      let (i, c, e, q) = remove_column-steps eval_pipeline name t t' h in
      let (l, k) = find_from-Located 0 name t.columns i c e in
      subst (λ (x : Table C). AreColumns x.columns) (sym q)
        (without-AreColumns name c t.columns w l)
  apply_column_op-AreColumns (append_rows rows) t t' w o h =
      let (e, q) = append_rows-steps eval_pipeline rows t t' h in
      subst (λ (x : Table C). AreColumns x.columns) (sym q)
        (record {
          unique = extend-Unique rows t.columns w.unique;
          even =
              Even-rows_of (row_count t + length rows) (map (extend_column rows) t.columns)
                (extend-Even rows (row_count t) t.columns w.even);
          fits =
              extend-Fit t rows t.columns e (columns-IsFound [] t.columns t.columns refl w.unique)
                w.fits;
        })
  apply_column_op-AreColumns (apply_transform pipeline) t t' w o h = absurd o

  -- The columns and the schema of the table that an edit gives.
  pub apply_column_op-IsTable :
      (op : ColumnOp C) (t t' : Table C)
      → IsTable t
      → OpFits op
      → apply_column_op eval_pipeline op t ≡ ok t'
      → IsTable t'
  apply_column_op-IsTable op t t' w o h = record {
    shape = apply_column_op-AreColumns op t t' w.shape o h;
    described = apply_column_op-Describes eval_pipeline op t t' w.described (OpFits-IsEdit op o) h;
  }
