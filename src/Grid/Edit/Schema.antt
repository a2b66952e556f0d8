-- ===== src/Grid/Edit/Schema.antt =====
-- The schema of a table and its columns through an edit (src/core/grid_edit.rs, `apply_column_op`).
use fuaran_rs.Prelude.{
  ℕ, zero, suc, ◌≡◌, refl, sym, ap, ◌∙◌, String, true, false, Bool-cases, inl, inr, Option, List,
  [], ◌∷◌, map, ◌==◌, eq_iff, length, insert_at, subst, set,
}
use fuaran_rs.Prelude.Outcome.{ok}
use fuaran_rs.Grid.{
  Compute, ColumnType, SchemaEntry, DataColumn, Table, ColumnOp, set_cell, set_column,
  insert_column, remove_column, append_rows, apply_transform, new_entry, Row,
}
use fuaran_rs.Grid.Cells.{same_type, same_type-eq}
use fuaran_rs.Grid.Edit.{
  clamp, is_invertible, with_column, retype, replace, without, without_entry, extend_column,
  apply_column_op,
}
use fuaran_rs.Grid.Edit.Written.{AreColumns}
use fuaran_rs.Grid.Edit.Steps.{
  set_cell-steps, set_column-steps, insert_column-steps, remove_column-steps, append_rows-steps,
}

module _ {C : Compute} where
  -- What an entry says beside its metadata, and what it has to say of a column.
  abbrev pub plain : SchemaEntry C → SchemaEntry C
  plain e = new_entry e.name e.column_type

  abbrev pub entry_of : DataColumn C → SchemaEntry C
  entry_of c = new_entry c.name c.column_type

  -- The schema names the columns and their types, in their order.
  abbrev pub Describes : List (SchemaEntry C) → List (DataColumn C) → Type 0
  Describes es cs = map plain es ≡ map entry_of cs

  abbrev field_of : List (SchemaEntry C) → SchemaEntry C → SchemaEntry C
  field_of [] d = d
  field_of (e ∷ es) d = e

  abbrev rest_of : List (SchemaEntry C) → List (SchemaEntry C)
  rest_of [] = []
  rest_of (e ∷ es) = es

  heads :
      (e : SchemaEntry C) (es : List (SchemaEntry C)) (c : DataColumn C) (cs : List (DataColumn C))
      → Describes (e ∷ es) (c ∷ cs)
      → (e.name ≡ c.name) × (e.column_type ≡ c.column_type) × Describes es cs
  heads e es c cs h = (
    ap (λ l. (field_of l (plain e)).name) h,
    ap (λ l. (field_of l (plain e)).column_type) h,
    ap rest_of h,
  )

  written-Describes :
      (d : DataColumn C) (es : List (SchemaEntry C)) (cs : List (DataColumn C))
      → Describes es cs
      → Describes (retype d es) (replace d cs)
  unfolding retype replace
  written-Describes d [] [] h = refl
  written-Describes d [] (c ∷ cs) h = cc
  written-Describes d (e ∷ es) [] h = cc
  written-Describes d (e ∷ es) (c ∷ cs) h =
      let (n, t, r) = heads e es c cs h in
      let ih = written-Describes d es cs r in
      elim (Bool-cases (c.name == d.name)) [
        | inr f ↦
            let f' : (e.name == d.name) ≡ false = ap (λ x. x == d.name) n ∙ f in
            rw (f, f') (ap₂' (new-eq n t) ih)
        | inl f ↦
            let f' : (e.name == d.name) ≡ true = ap (λ x. x == d.name) n ∙ f in
            elim (Bool-cases (same_type e.column_type d.column_type)) [
              | inl s ↦
                  rw (f, f', s)
                    (ap₂' (new-eq ((eq_iff e.name d.name).0 f') (same_type-eq _ _ s)) ih)
              | inr s ↦ rw (f, f', s) (ap₂' refl ih)
            ]
      ]
    where
      new-eq :
          {m n : String} {a b : ColumnType} → m ≡ n → a ≡ b → new_entry {C = C} m a ≡ new_entry n b
      new-eq p q = λ i. new_entry (p i) (q i)

      ap₂' :
          {x y : SchemaEntry C} {xs ys : List (SchemaEntry C)} → x ≡ y → xs ≡ ys → x ∷ xs ≡ y ∷ ys
      ap₂' p q = λ i. p i ∷ q i

  without-Describes :
      (name : String) (es : List (SchemaEntry C)) (cs : List (DataColumn C))
      → Describes es cs
      → Describes (without_entry name es) (without name cs)
  unfolding without without_entry
  without-Describes name [] [] h = refl
  without-Describes name [] (c ∷ cs) h = cc
  without-Describes name (e ∷ es) [] h = cc
  without-Describes name (e ∷ es) (c ∷ cs) h =
      let (n, t, r) = heads e es c cs h in
      let ih = without-Describes name es cs r in
      elim (Bool-cases (c.name == name)) [
        | inl f ↦ let f' : (e.name == name) ≡ true = ap (λ x. x == name) n ∙ f in rw (f, f') ih
        | inr f ↦
            let f' : (e.name == name) ≡ false = ap (λ x. x == name) n ∙ f in
            rw (f, f') (λ i. new_entry (n i) (t i) ∷ ih i)
      ]

  inserted-Describes :
      (i : ℕ) (c : DataColumn C) (es : List (SchemaEntry C)) (cs : List (DataColumn C))
      → Describes es cs
      → Describes (insert_at i (entry_of c) es) (insert_at i c cs)
  inserted-Describes zero c es cs h = ap (λ l. entry_of c ∷ l) h
  inserted-Describes (suc i) c [] [] h = refl
  inserted-Describes (suc i) c [] (d ∷ ds) h = cc
  inserted-Describes (suc i) c (e ∷ es) [] h = cc
  inserted-Describes (suc i) c (e ∷ es) (d ∷ ds) h =
      let (n, t, r) = heads e es d ds h in
      let ih = inserted-Describes i c es ds r in λ j. new_entry (n j) (t j) ∷ ih j

  extended-entries :
      (rows : List (Row C)) (cs : List (DataColumn C))
      → map entry_of (map (extend_column rows) cs) ≡ map entry_of cs
  unfolding extend_column
  extended-entries rows [] = refl
  extended-entries rows (c ∷ cs) = ap (λ l. entry_of c ∷ l) (extended-entries rows cs)

  pub length-Describes :
      (es : List (SchemaEntry C)) (cs : List (DataColumn C))
      → Describes es cs
      → length es ≡ length cs
  length-Describes [] [] h = refl
  length-Describes [] (c ∷ cs) h = cc
  length-Describes (e ∷ es) [] h = cc
  length-Describes (e ∷ es) (c ∷ cs) h =
      let (n, t, r) = heads e es c cs h in ap suc (length-Describes es cs r)

  -- A table whose columns are in shape and whose schema names them and their types, in their order.
  pub record IsTable (t : Table C) : Type 0 where
    pub shape : AreColumns t.columns
    pub described : Describes t.schema t.columns

  -- Every op but a pipeline.
  abbrev pub IsEdit : ColumnOp C → Type 0
  IsEdit (apply_transform pipeline) = ⊥
  IsEdit _ = Unit {0}

  pub invertible-IsEdit : (op : ColumnOp C) → is_invertible op ≡ true → IsEdit op
  invertible-IsEdit (set_cell col row value) h = tt
  invertible-IsEdit (set_column column) h = tt
  invertible-IsEdit (insert_column index column) h = tt
  invertible-IsEdit (remove_column name) h = tt
  invertible-IsEdit (append_rows rows) h = tt
  invertible-IsEdit (apply_transform pipeline) h = cc

module _ {C : Compute} (eval_pipeline : List C.Step → Table C → Option (Table C)) where
  -- An edit that applies, pipelines aside, keeps the schema in step with the columns: it names the columns and their
  -- types, in their order.
  pub apply_column_op-Describes :
      (op : ColumnOp C) (t t' : Table C)
      → Describes t.schema t.columns
      → IsEdit op
      → apply_column_op eval_pipeline op t ≡ ok t'
      → Describes t'.schema t'.columns
  unfolding with_column
  apply_column_op-Describes (set_cell col row value) t t' w o h =
      let (i, c, r, e, f, g, q) = set_cell-steps eval_pipeline col row value t t' h in
      subst (λ (x : Table C). Describes x.schema x.columns) (sym q)
        (written-Describes (record c { cells = set c.cells r value }) t.schema t.columns w)
  apply_column_op-Describes (set_column column) t t' w o h =
      let (i, c, e, f, q) = set_column-steps eval_pipeline column t t' h in
      subst (λ (x : Table C). Describes x.schema x.columns) (sym q)
        (written-Describes column t.schema t.columns w)
  apply_column_op-Describes (insert_column index column) t t' w o h =
      let (a, f, q, s) = insert_column-steps eval_pipeline index column t t' h in
      ap (map plain) s
      ∙ inserted-Describes (clamp index (length t.columns)) column t.schema t.columns w
      ∙ ap (map entry_of) (sym q)
  apply_column_op-Describes (remove_column name) t t' w o h =
      let (i, c, e, q) = remove_column-steps eval_pipeline name t t' h in
      subst (λ (x : Table C). Describes x.schema x.columns) (sym q)
        (without-Describes name t.schema t.columns w)
  apply_column_op-Describes (append_rows rows) t t' w o h =
      let (e, q) = append_rows-steps eval_pipeline rows t t' h in
      subst (λ (x : Table C). Describes x.schema x.columns) (sym q)
        (w ∙ sym (extended-entries rows t.columns))
  apply_column_op-Describes (apply_transform pipeline) t t' w o h = absurd o
