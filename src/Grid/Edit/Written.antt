-- ===== src/Grid/Edit/Written.antt =====
-- A table with one column written over by another of its name (src/core/grid_edit.rs, `with_column`).
use fuaran_rs.Prelude.{
  ◌+◌, ◌≡◌, sym, ap, ◌∙◌, String, true, some, List, ◌∷◌, ◌++◌, length, every, arith, subst,
}
use fuaran_rs.Grid.{Compute, DataColumn, Table}
use fuaran_rs.Grid.Cells.{cell_fits}
use fuaran_rs.Grid.Edit.{rows_of, row_count, find_column, find_from, with_column, replace}
use fuaran_rs.Grid.Edit.Columns.{
  Absent, Unique, Even, Located, find_from-split, Unique-around, replace-split, Even-split,
  Even-join, Unique-swap, rows_of-split,
}
use fuaran_rs.Grid.Edit.Steps.{Fit, Fit-split}

module _ {C : Compute} where
  -- The columns of a table that the edits keep: names unique, all of one length, every cell fitting.
  pub record AreColumns (cs : List (DataColumn C)) : Type 0 where
    pub unique : Unique cs
    pub even : Even (rows_of cs) cs
    pub fits : Fit cs

  -- A column written over one of its name.
  pub replace-Located :
      (name : String) (c d : DataColumn C) (cs : List (DataColumn C)) (l : Located name c cs)
      → Unique cs
      → d.name ≡ name
      → replace d cs ≡ l.before ++ (d ∷ l.after)
  replace-Located name c d cs l u n =
      let m = l.named ∙ sym n in
      let (b, a, r) = Unique-around l.before l.after c (subst Unique l.split u) in
      ap (replace d) l.split
      ∙ replace-split l.before l.after c d m (subst (λ x. Absent x l.before) m b)
          (subst (λ x. Absent x l.after) m a)

-- One column of a table written over by another of its name.
module _ {C : Compute} (t : Table C) (w : AreColumns t.columns) (name : String) (c d : DataColumn C)
    (l : Located name c t.columns) (n : d.name ≡ name) where
  pub with_column-columns : (with_column t d).columns ≡ l.before ++ (d ∷ l.after)
  unfolding with_column
  with_column-columns = replace-Located name c d t.columns l w.unique n

  pub with_column-Located : Located name d (with_column t d).columns
  with_column-Located = record {
    before = l.before;
    after = l.after;
    split = with_column-columns;
    named = n;
    first = l.first;
  }

  pub with_column-find : find_column (with_column t d) name ≡ some (length l.before, d)
  with_column-find =
      ap (find_from 0 name) with_column-columns
      ∙ find_from-split 0 name l.before l.after d n l.first
      ∙ (let e : 0 + length l.before ≡ length l.before = omega arith in ap (λ k. some (k, d)) e)

  pub with_column-Unique : Unique (with_column t d).columns
  with_column-Unique =
      subst Unique (sym with_column-columns)
        (Unique-swap l.before l.after c d (l.named ∙ sym n) (subst Unique l.split w.unique))

  pub with_column-Even : length d.cells ≡ row_count t → Even (row_count t) (with_column t d).columns
  with_column-Even e =
      let (b, k, a) =
        Even-split (row_count t) l.before l.after c (subst (Even (row_count t)) l.split w.even) in
      subst (Even (row_count t)) (sym with_column-columns)
        (Even-join (row_count t) l.before (d ∷ l.after) b (e, a))

  pub with_column-row_count :
      length d.cells ≡ row_count t → row_count (with_column t d) ≡ row_count t
  with_column-row_count e =
      ap rows_of with_column-columns
      ∙ rows_of-split (row_count t) l.before l.after d
          (subst (Even (row_count t)) with_column-columns (with_column-Even e))

  -- The cells of the column that is written over.
  pub located_length : length c.cells ≡ row_count t
  located_length =
      (Even-split (row_count t) l.before l.after c (subst (Even (row_count t)) l.split w.even)).1

  pub located_fits : every (cell_fits c.column_type) c.cells ≡ true
  located_fits = (Fit-split l.before l.after c (subst Fit l.split w.fits)).1

  -- Writing the old column back.
  pub with_column-back :
      (c' : DataColumn C) → c' ≡ c → (with_column (with_column t d) c').columns ≡ t.columns
  unfolding with_column with_column-Located
  with_column-back c' e =
      replace-Located name d c' (with_column t d).columns with_column-Located with_column-Unique
        (ap (λ (x : DataColumn C). x.name) e ∙ l.named)
      ∙ ap (λ x. l.before ++ (x ∷ l.after)) e
      ∙ sym l.split
