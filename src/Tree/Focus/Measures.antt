-- ===== src/Tree/Focus/Measures.antt =====
-- How a constructor of a tree adds to the ids, the size and the depth of what it holds.
use fuaran_rs.Prelude.{ℕ, suc, ◌+◌, ◌≤◌, String, ◌≡◌, refl, Bool, List, ◌∷◌, ◌++◌, arith}
use fuaran_rs.Prelude.Counts.{count, count-append}
use fuaran_rs.Tree.{
  Wire, Node, node, Kind, layout, error_boundary, switch, fragment_decl, OptNode, present, Nodes,
  cons, Cases, case, Traits, LayoutKind,
}
use fuaran_rs.Tree.Walk.{
  ids, ids_kind, ids_opt, ids_nodes, ids_cases, size, size_kind, size_opt, size_nodes, size_cases,
  depth, depth_kind, depth_opt, depth_nodes, depth_cases,
}

-- How a part of a tree is measured.
pub record Measure (T : Type 0) : Type 0 where
  pub names : T → List String
  pub nodes : T → ℕ
  pub levels : T → ℕ

abbrev pub of_node : {W : Wire} → Measure (Node W)
of_node = record { names = ids; nodes = size; levels = depth }

abbrev pub of_kind : {W : Wire} → Measure (Kind W)
of_kind = record { names = ids_kind; nodes = size_kind; levels = depth_kind }

abbrev pub of_opt : {W : Wire} → Measure (OptNode W)
of_opt = record { names = ids_opt; nodes = size_opt; levels = depth_opt }

abbrev pub of_nodes : {W : Wire} → Measure (Nodes W)
of_nodes = record { names = ids_nodes; nodes = size_nodes; levels = depth_nodes }

abbrev pub of_cases : {W : Wire} → Measure (Cases W)
of_cases = record { names = ids_cases; nodes = size_cases; levels = depth_cases }

-- A constructor around a part adds a fixed amount to each measure.
pub record Adds {T U : Type 0} (m : Measure T) (m' : Measure U) (g : T → U) : Type 0 where
  pub more : String → ℕ
  pub more_ids : (x : String) (t : T) → count x (m'.names (g t)) ≡ more x + count x (m.names t)
  pub more_size : ℕ
  pub more_nodes : (t : T) → m'.nodes (g t) ≡ more_size + m.nodes t
  pub monotone : (t t' : T) → m.levels t' ≤ m.levels t → m'.levels (g t') ≤ m'.levels (g t)

module _ {W : Wire} where
  pub Adds-kind :
      (i : String) (e : OptNode W) (r : Bool) (l f : OptNode W) (t : Traits W)
      → Adds of_kind of_node (λ k. node i k e r l f t)
  unfolding ids size depth
  Adds-kind i e r l f t = record {
    more = λ x. count x (i ∷ (ids_opt l ++ ids_opt e));
    more_ids = λ x k. omega (arith, count-append x (ids_kind k) (ids_opt l ++ ids_opt e));
    more_size = suc (size_opt l + size_opt e);
    more_nodes = λ k. omega arith;
    monotone = λ k k' h. omega arith;
  }

  pub Adds-on_loading :
      (i : String) (k : Kind W) (e : OptNode W) (r : Bool) (f : OptNode W) (t : Traits W)
      → Adds of_opt of_node (λ l. node i k e r l f t)
  unfolding ids size depth
  Adds-on_loading i k e r f t = record {
    more = λ x. count x (i ∷ (ids_kind k ++ ids_opt e));
    more_ids = λ x l. omega (
      arith,
      count-append x (ids_kind k) (ids_opt l ++ ids_opt e),
      count-append x (ids_opt l) (ids_opt e),
      count-append x (ids_kind k) (ids_opt e),
    );
    more_size = suc (size_kind k + size_opt e);
    more_nodes = λ l. omega arith;
    monotone = λ l l' h. omega arith;
  }

  pub Adds-on_empty :
      (i : String) (k : Kind W) (r : Bool) (l f : OptNode W) (t : Traits W)
      → Adds of_opt of_node (λ e. node i k e r l f t)
  unfolding ids size depth
  Adds-on_empty i k r l f t = record {
    more = λ x. count x (i ∷ (ids_kind k ++ ids_opt l));
    more_ids = λ x e. omega (
      arith,
      count-append x (ids_kind k) (ids_opt l ++ ids_opt e),
      count-append x (ids_opt l) (ids_opt e),
      count-append x (ids_kind k) (ids_opt l),
    );
    more_size = suc (size_kind k + size_opt l);
    more_nodes = λ e. omega arith;
    monotone = λ e e' h. omega arith;
  }

  pub Adds-layout : (k : LayoutKind) (s : W.Spec) → Adds of_nodes (of_kind {W = W}) (layout k s)
  unfolding ids size depth
  Adds-layout k s = record {
    more = λ x. 0;
    more_ids = λ x ns. omega arith;
    more_size = 0;
    more_nodes = λ ns. omega arith;
    monotone = λ ns ns' h. omega arith;
  }

  pub Adds-child : (f : Node W) → Adds of_node of_kind (λ c. error_boundary c f)
  unfolding ids size depth
  Adds-child f = record {
    more = λ x. count x (ids f);
    more_ids = λ x c. omega (arith, count-append x (ids c) (ids f));
    more_size = size f;
    more_nodes = λ c. omega arith;
    monotone = λ c c' h. omega arith;
  }

  pub Adds-fallback : (c : Node W) → Adds of_node of_kind (error_boundary c)
  unfolding ids size depth
  Adds-fallback c = record {
    more = λ x. count x (ids c);
    more_ids = λ x f. count-append x (ids c) (ids f);
    more_size = size c;
    more_nodes = λ f. refl;
    monotone = λ f f' h. omega arith;
  }

  pub Adds-cases : (s : W.Spec) (d : Node W) → Adds of_cases of_kind (λ cs. switch s cs d)
  unfolding ids size depth
  Adds-cases s d = record {
    more = λ x. count x (ids d);
    more_ids = λ x cs. omega (arith, count-append x (ids_cases cs) (ids d));
    more_size = size d;
    more_nodes = λ cs. omega arith;
    monotone = λ cs cs' h. omega arith;
  }

  pub Adds-default : (s : W.Spec) (cs : Cases W) → Adds of_node of_kind (switch s cs)
  unfolding ids size depth
  Adds-default s cs = record {
    more = λ x. count x (ids_cases cs);
    more_ids = λ x d. count-append x (ids_cases cs) (ids d);
    more_size = size_cases cs;
    more_nodes = λ d. refl;
    monotone = λ d d' h. omega arith;
  }

  pub Adds-body : (s : W.Spec) → Adds of_node (of_kind {W = W}) (fragment_decl s)
  unfolding ids size depth
  Adds-body s = record {
    more = λ x. 0;
    more_ids = λ x b. omega arith;
    more_size = 0;
    more_nodes = λ b. omega arith;
    monotone = λ b b' h. h;
  }

  pub Adds-present : Adds of_node (of_opt {W = W}) present
  unfolding ids size depth
  Adds-present = record {
    more = λ x. 0;
    more_ids = λ x n. omega arith;
    more_size = 0;
    more_nodes = λ n. omega arith;
    monotone = λ n n' h. h;
  }

  pub Adds-head : (ns : Nodes W) → Adds of_node of_nodes (λ n. cons n ns)
  unfolding ids size depth
  Adds-head ns = record {
    more = λ x. count x (ids_nodes ns);
    more_ids = λ x n. omega (arith, count-append x (ids n) (ids_nodes ns));
    more_size = size_nodes ns;
    more_nodes = λ n. omega arith;
    monotone = λ n n' h. omega arith;
  }

  pub Adds-tail : (n : Node W) → Adds of_nodes of_nodes (cons n)
  unfolding ids size depth
  Adds-tail n = record {
    more = λ x. count x (ids n);
    more_ids = λ x ns. count-append x (ids n) (ids_nodes ns);
    more_size = size n;
    more_nodes = λ ns. refl;
    monotone = λ ns ns' h. omega arith;
  }

  pub Adds-case : (c : W.Spec) (cs : Cases W) → Adds of_node of_cases (λ n. case c n cs)
  unfolding ids size depth
  Adds-case c cs = record {
    more = λ x. count x (ids_cases cs);
    more_ids = λ x n. omega (arith, count-append x (ids n) (ids_cases cs));
    more_size = size_cases cs;
    more_nodes = λ n. omega arith;
    monotone = λ n n' h. omega arith;
  }

  pub Adds-later_cases : (c : W.Spec) (n : Node W) → Adds of_cases of_cases (case c n)
  unfolding ids size depth
  Adds-later_cases c n = record {
    more = λ x. count x (ids n);
    more_ids = λ x cs. count-append x (ids n) (ids_cases cs);
    more_size = size n;
    more_nodes = λ cs. refl;
    monotone = λ cs cs' h. omega arith;
  }
