-- ===== src/Grid/Edit/Columns.antt =====
-- A column found by its name (src/core/grid_edit.rs, `find`, `with_column`): where it stands, and what
-- replacing, removing and inserting it makes of the columns.
use fuaran_rs.Prelude.{
  ℕ, zero, suc, ◌+◌, ◌≡◌, refl, sym, ap, ◌∙◌, String, false, Bool-cases, inl, inr, Option, none,
  some, List, [], ◌∷◌, ◌++◌, ◌==◌, eq_iff, length, All, insert_at, arith, subst,
}
use fuaran_rs.Grid.{Compute, DataColumn}
use fuaran_rs.Grid.Edit.{find_from, replace, without, rows_of}

==-false-sym : (x y : String) → (x == y) ≡ false → (y == x) ≡ false
==-false-sym x y h = ground (arith, eq_iff x y, eq_iff y x)

module _ {C : Compute} where
  -- No column has the name.
  abbrev pub Absent : String → List (DataColumn C) → Type 0
  Absent name = All (λ c. (c.name == name) ≡ false)

  -- No two columns have the same name.
  abbrev pub Unique : List (DataColumn C) → Type 0
  Unique [] = Unit {0}
  Unique (c ∷ cs) = Absent c.name cs × Unique cs

  -- The column `c` is the first with the name; it stands after `before`.
  pub record Located (name : String) (c : DataColumn C) (cs : List (DataColumn C)) : Type 0 where
    pub before : List (DataColumn C)
    pub after : List (DataColumn C)
    pub split : cs ≡ before ++ (c ∷ after)
    pub named : c.name ≡ name
    pub first : Absent name before

  pub find_from-Located :
      (i : ℕ) (name : String) (cs : List (DataColumn C)) (j : ℕ) (c : DataColumn C)
      → find_from i name cs ≡ some (j, c)
      → (l : Located name c cs) × (j ≡ i + length l.before)
  unfolding find_from
  find_from-Located i name [] j c h = cc
  find_from-Located i name (d ∷ ds) j c h = elim (Bool-cases (d.name == name)) [
    | inl e ↦
        let p : some (i, d) ≡ some (j, c) = sym (rw e refl) ∙ h in
        let q : d ≡ c = ground (arith, p) in
        (
          record {
            before = [];
            after = ds;
            split = ap (λ x. x ∷ ds) q;
            named = ap (λ (x : DataColumn C). x.name) (sym q) ∙ (eq_iff d.name name).0 e;
            first = tt;
          },
          ground (arith, p),
        )
    | inr e ↦
        let p : find_from (i + 1) name ds ≡ some (j, c) = sym (rw e refl) ∙ h in
        let (l, k) = find_from-Located (i + 1) name ds j c p in
        (
          record {
            before = d ∷ l.before;
            after = l.after;
            split = ap (λ x. d ∷ x) l.split;
            named = l.named;
            first = (e, l.first);
          },
          omega arith,
        )
  ]

  pub find_from-Absent :
      (i : ℕ) (name : String) (cs : List (DataColumn C))
      → find_from i name cs ≡ none
      → Absent name cs
  unfolding find_from
  find_from-Absent i name [] h = tt
  find_from-Absent i name (d ∷ ds) h = elim (Bool-cases (d.name == name)) [
    | inl e ↦
        let p : ◌≡◌ {A = Option (ℕ × DataColumn C)} (some (i, d)) none = sym (rw e refl) ∙ h in cc
    | inr e ↦ (e, find_from-Absent (i + 1) name ds (sym (rw e refl) ∙ h))
  ]

  pub Absent-find_from :
      (i : ℕ) (name : String) (cs : List (DataColumn C))
      → Absent name cs
      → find_from i name cs ≡ none
  unfolding find_from
  Absent-find_from i name [] h = refl
  Absent-find_from i name (d ∷ ds) (e, h) = rw e (Absent-find_from (i + 1) name ds h)

  pub find_from-split :
      (i : ℕ) (name : String) (before after : List (DataColumn C)) (c : DataColumn C)
      → c.name ≡ name
      → Absent name before
      → find_from i name (before ++ (c ∷ after)) ≡ some (i + length before, c)
  unfolding find_from
  find_from-split i name [] after c n h =
      rw ((eq_iff c.name name).1 n) (let e : i ≡ i + 0 = omega arith in ap (λ k. some (k, c)) e)
  find_from-split i name (d ∷ ds) after c n (e, h) = rw e (
      find_from-split (i + 1) name ds after c n h
      ∙ (let w : i + 1 + length ds ≡ i + suc (length ds) = omega arith in ap (λ k. some (k, c)) w))

  Absent-drop :
      (n : String) (xs ys : List (DataColumn C)) (z : DataColumn C)
      → Absent n (xs ++ (z ∷ ys))
      → ((z.name == n) ≡ false) × Absent n (xs ++ ys)
  Absent-drop n [] ys z (e, h) = (e, h)
  Absent-drop n (x ∷ xs) ys z (e, h) = let (p, q) = Absent-drop n xs ys z h in (p, (e, q))

  -- The columns around one, where names are unique.
  pub Unique-around :
      (before after : List (DataColumn C)) (c : DataColumn C)
      → Unique (before ++ (c ∷ after))
      → Absent c.name before × Absent c.name after × Unique (before ++ after)
  Unique-around [] after c (a, u) = (tt, a, u)
  Unique-around (d ∷ ds) after c (a, u) =
      let (b, f, r) = Unique-around ds after c u in
      let (k, m) = Absent-drop d.name ds after c a in ((==-false-sym c.name d.name k, b), f, (m, r))

  replace-Absent :
      (col : DataColumn C) (cs : List (DataColumn C)) → Absent col.name cs → replace col cs ≡ cs
  unfolding replace
  replace-Absent col [] h = refl
  replace-Absent col (c ∷ cs) (e, h) = rw e (ap (λ x. c ∷ x) (replace-Absent col cs h))

  pub replace-split :
      (before after : List (DataColumn C)) (c col : DataColumn C)
      → c.name ≡ col.name
      → Absent col.name before
      → Absent col.name after
      → replace col (before ++ (c ∷ after)) ≡ before ++ (col ∷ after)
  unfolding replace
  replace-split [] after c col n b a =
      rw ((eq_iff c.name col.name).1 n) (ap (λ x. col ∷ x) (replace-Absent col after a))
  replace-split (d ∷ ds) after c col n (e, b) a =
      rw e (ap (λ x. d ∷ x) (replace-split ds after c col n b a))

  without-Absent :
      (name : String) (cs : List (DataColumn C)) → Absent name cs → without name cs ≡ cs
  unfolding without
  without-Absent name [] h = refl
  without-Absent name (c ∷ cs) (e, h) = rw e (ap (λ x. c ∷ x) (without-Absent name cs h))

  pub without-split :
      (name : String) (before after : List (DataColumn C)) (c : DataColumn C)
      → c.name ≡ name
      → Absent name before
      → Absent name after
      → without name (before ++ (c ∷ after)) ≡ before ++ after
  unfolding without
  without-split name [] after c n b a = rw ((eq_iff c.name name).1 n) (without-Absent name after a)
  without-split name (d ∷ ds) after c n (e, b) a =
      rw e (ap (λ x. d ∷ x) (without-split name ds after c n b a))

  -- Every insert splits the columns, and the place is the number of columns before.
  pub insert_at-split :
      (i : ℕ) (col : DataColumn C) (cs : List (DataColumn C))
      → (before : List (DataColumn C)) × (after : List (DataColumn C)) × (cs ≡ before ++ after)
        × (insert_at i col cs ≡ before ++ (col ∷ after))
  insert_at-split zero col cs = ([], cs, refl, refl)
  insert_at-split (suc i) col [] = ([], [], refl, refl)
  insert_at-split (suc i) col (c ∷ cs) =
      let (b, a, p, q) = insert_at-split i col cs in
      (c ∷ b, a, ap (λ x. c ∷ x) p, ap (λ x. c ∷ x) q)

  pub insert_at-length :
      (col : DataColumn C) (before after : List (DataColumn C))
      → insert_at (length before) col (before ++ after) ≡ before ++ (col ∷ after)
  insert_at-length col [] after = refl
  insert_at-length col (c ∷ cs) after = ap (λ x. c ∷ x) (insert_at-length col cs after)

  pub Absent-split :
      (name : String) (before after : List (DataColumn C))
      → Absent name (before ++ after)
      → Absent name before × Absent name after
  Absent-split name [] after h = (tt, h)
  Absent-split name (c ∷ cs) after (e, h) = let (b, a) = Absent-split name cs after h in ((e, b), a)

  pub Absent-join :
      (name : String) (before after : List (DataColumn C))
      → Absent name before
      → Absent name after
      → Absent name (before ++ after)
  Absent-join name [] after b a = a
  Absent-join name (c ∷ cs) after (e, b) a = (e, Absent-join name cs after b a)

  -- Names stay unique where a column comes in whose name none has.
  pub Unique-insert :
      (before after : List (DataColumn C)) (c : DataColumn C)
      → Unique (before ++ after)
      → Absent c.name before
      → Absent c.name after
      → Unique (before ++ (c ∷ after))
  Unique-insert [] after c u b a = (a, u)
  Unique-insert (d ∷ ds) after c (n, u) (e, b) a =
      let (nb, na) = Absent-split d.name ds after n in
      (
        Absent-join d.name ds (c ∷ after) nb (==-false-sym d.name c.name e, na),
        Unique-insert ds after c u b a,
      )

  -- A column in the place of one of its name.
  pub Unique-swap :
      (before after : List (DataColumn C)) (c d : DataColumn C)
      → c.name ≡ d.name
      → Unique (before ++ (c ∷ after))
      → Unique (before ++ (d ∷ after))
  Unique-swap before after c d n u =
      let (b, a, r) = Unique-around before after c u in
      Unique-insert before after d r (subst (λ m. Absent m before) n b)
        (subst (λ m. Absent m after) n a)

  -- All columns have `n` cells.
  abbrev pub Even : ℕ → List (DataColumn C) → Type 0
  Even n = All (λ c. length c.cells ≡ n)

  pub Even-split :
      (n : ℕ) (before after : List (DataColumn C)) (c : DataColumn C)
      → Even n (before ++ (c ∷ after))
      → Even n before × (length c.cells ≡ n) × Even n after
  Even-split n [] after c (e, h) = (tt, e, h)
  Even-split n (d ∷ ds) after c (e, h) = let (b, k, a) = Even-split n ds after c h in ((e, b), k, a)

  pub Even-join :
      (n : ℕ) (before after : List (DataColumn C))
      → Even n before
      → Even n after
      → Even n (before ++ after)
  Even-join n [] after b a = a
  Even-join n (c ∷ cs) after (e, b) a = (e, Even-join n cs after b a)

  pub Even-rows_of : (n : ℕ) (cs : List (DataColumn C)) → Even n cs → Even (rows_of cs) cs
  Even-rows_of n [] h = tt
  Even-rows_of n (c ∷ cs) (e, h) = (refl, subst (λ k. Even k cs) (sym e) h)

  -- A row count shared by all columns is that of the table, where there is one.
  pub rows_of-split :
      (n : ℕ) (before after : List (DataColumn C)) (c : DataColumn C)
      → Even n (before ++ (c ∷ after))
      → rows_of (before ++ (c ∷ after)) ≡ n
  rows_of-split n [] after c (e, h) = e
  rows_of-split n (d ∷ ds) after c (e, h) = e
