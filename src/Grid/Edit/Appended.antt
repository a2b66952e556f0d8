-- ===== src/Grid/Edit/Appended.antt =====
-- Rows appended to a table (src/core/grid_edit.rs, `apply_column_op` at `AppendRows`).
use fuaran_rs.Prelude.{
  ℕ, suc, ◌+◌, ◌≡◌, refl, sym, ap, ◌∙◌, String, Bool, true, not, Bool-cases, inl, inr, some, List,
  [], ◌∷◌, ◌++◌, map, ◌==◌, eq_iff, length, length-append, append_assoc, All, every, arith, subst,
}
use fuaran_rs.Prelude.Outcome.{ok, reject_if, >>=-eq-ok}
use fuaran_rs.Grid.{Compute, Cell, DataColumn, Table, Row}
use fuaran_rs.Grid.Cells.{cell_fits}
use fuaran_rs.Grid.Edit.{
  require, find_column, find_from, check_row, check_rows, cell_of, extend_column,
}
use fuaran_rs.Grid.Edit.Columns.{Absent, Unique, Even, find_from-split, Unique-around}
use fuaran_rs.Grid.Edit.Steps.{Fit, require-eq-ok, reject_if-eq-ok, not-false}

module _ {C : Compute} where
  -- Each column is the one that a search for its name finds.
  abbrev pub IsFound : List (DataColumn C) → DataColumn C → Type 0
  IsFound cs c = (i : ℕ) × (find_from 0 c.name cs ≡ some (i, c))

  pub columns-IsFound :
      (b cs all : List (DataColumn C)) → all ≡ b ++ cs → Unique all → All (IsFound all) cs
  columns-IsFound b [] all p u = tt
  columns-IsFound b (c ∷ cs) all p u =
      let (ab, aa, r) = Unique-around b cs c (subst Unique p u) in
      (
        (0 + length b, ap (find_from 0 c.name) p ∙ find_from-split 0 c.name b cs c refl ab),
        columns-IsFound (b ++ (c ∷ [])) cs all (p ∙ sym (append_assoc b (c ∷ []) cs)) u,
      )

  -- The cell that an accepted row has for a column fits it.
  row_fits :
      (t : Table C) (c : DataColumn C) (i : ℕ) (row : Row C)
      → find_column t c.name ≡ some (i, c)
      → check_row t row ≡ ok tt
      → cell_fits c.column_type (cell_of c.name row) ≡ true
  unfolding check_row cell_of cell_fits
  row_fits t c i [] e h = refl
  row_fits t c i ((name, value) ∷ row) e h =
      let ((j, d), f, h1) = >>=-eq-ok (require (find_column t name) _) _ h in
      let (u, g, h2) = >>=-eq-ok (reject_if (not (cell_fits d.column_type value)) _) _ h1 in
      elim (Bool-cases (name == c.name)) [
        | inl n ↦
            let same : name ≡ c.name = (eq_iff name c.name).0 n in
            let q : some (j, d) ≡ some (i, c) =
              sym (require-eq-ok _ _ f) ∙ ap (find_column t) same ∙ e in
            let w : d ≡ c = ground (arith, q) in
            rw n (
              subst (λ (x : DataColumn C). cell_fits x.column_type value ≡ true) w
                (not-false _ (reject_if-eq-ok _ _ g)))
        | inr n ↦ rw n (row_fits t c i row e h2)
      ]

  rows_fit :
      (t : Table C) (c : DataColumn C) (i : ℕ) (rows : List (Row C))
      → find_column t c.name ≡ some (i, c)
      → check_rows t rows ≡ ok tt
      → every (cell_fits c.column_type) (map (cell_of c.name) rows) ≡ true
  unfolding check_rows
  rows_fit t c i [] e h = refl
  rows_fit t c i (row ∷ rows) e h =
      let (u, f, h1) = >>=-eq-ok (check_row t row) _ h in
      rw (row_fits t c i row e f) (rows_fit t c i rows e h1)

  every-append :
      (p : Cell C → Bool) (xs ys : List (Cell C))
      → every p xs ≡ true
      → every p ys ≡ true
      → every p (xs ++ ys) ≡ true
  every-append p [] ys h k = k
  every-append p (x ∷ xs) ys h k = ground (arith, h, every-append p xs ys)

  length-map_cells : (f : Row C → Cell C) (rows : List (Row C)) → length (map f rows) ≡ length rows
  length-map_cells f [] = refl
  length-map_cells f (r ∷ rs) = ap suc (length-map_cells f rs)

  -- Every column grows by the rows.
  pub extend-Even :
      (rows : List (Row C)) (n : ℕ) (cs : List (DataColumn C))
      → Even n cs
      → Even (n + length rows) (map (extend_column rows) cs)
  unfolding extend_column
  extend-Even rows n [] h = tt
  extend-Even rows n (c ∷ cs) (e, h) = (
    length-append c.cells (map (cell_of c.name) rows)
        ∙ omega (arith, e, length-map_cells (cell_of c.name) rows),
    extend-Even rows n cs h,
  )

  pub extend-Fit :
      (t : Table C) (rows : List (Row C)) (cs : List (DataColumn C))
      → check_rows t rows ≡ ok tt
      → All (IsFound t.columns) cs
      → Fit cs
      → Fit (map (extend_column rows) cs)
  unfolding extend_column
  extend-Fit t rows [] h f w = tt
  extend-Fit t rows (c ∷ cs) h ((i, e), f) (k, w) = (
    every-append (cell_fits c.column_type) c.cells (map (cell_of c.name) rows) k
        (rows_fit t c i rows e h),
    extend-Fit t rows cs h f w,
  )

  extend-Absent :
      (name : String) (rows : List (Row C)) (cs : List (DataColumn C))
      → Absent name cs
      → Absent name (map (extend_column rows) cs)
  unfolding extend_column
  extend-Absent name rows [] h = tt
  extend-Absent name rows (c ∷ cs) (e, h) = (e, extend-Absent name rows cs h)

  pub extend-Unique :
      (rows : List (Row C)) (cs : List (DataColumn C))
      → Unique cs
      → Unique (map (extend_column rows) cs)
  unfolding extend_column
  extend-Unique rows [] h = tt
  extend-Unique rows (c ∷ cs) (a, u) = (extend-Absent c.name rows cs a, extend-Unique rows cs u)
