-- ===== src/Tree/Focus/Laws.antt =====
-- What a find gives back: the node stands in the tree, and a tree rebuilt around another node differs
-- from it by that node alone, in its ids, its size and its depth.
use fuaran_rs.Prelude.{
  ℕ, ◌+◌, ◌≤◌, String, ◌≡◌, refl, ap, Bool, true, false, none, some, arith, or_else, if◌then◌else◌,
}
use fuaran_rs.Prelude.Counts.{count}
use fuaran_rs.Tree.{
  Wire, Node, node, Kind, leaf, mount, layout, error_boundary, switch, fragment_decl, OptNode,
  absent, present, Nodes, nil, cons, Cases, no_case, case,
}
use fuaran_rs.Tree.Walk.{ids, size, depth}
use fuaran_rs.Tree.Focus.{Found, under, focus, focus_kind, focus_opt, focus_nodes, focus_cases}
use fuaran_rs.Tree.Focus.Measures.{
  Measure, of_node, of_kind, of_opt, of_nodes, of_cases, Adds, Adds-kind, Adds-on_loading,
  Adds-on_empty, Adds-layout, Adds-child, Adds-fallback, Adds-cases, Adds-default, Adds-body,
  Adds-present, Adds-head, Adds-tail, Adds-case, Adds-later_cases,
}

-- `k` puts a node where `n` stands in `t`.
pub record Fits {W : Wire} {T : Type 0} (m : Measure T) (t : T) (n : Node W) (k : Node W → T)
    : Type 0 where
  pub rest : String → ℕ
  pub rest_ids : (x : String) (n' : Node W) → count x (m.names (k n')) ≡ rest x + count x (ids n')
  pub rest_size : ℕ
  pub rest_nodes : (n' : Node W) → m.nodes (k n') ≡ rest_size + size n'
  pub no_deeper : (n' : Node W) → depth n' ≤ depth n → m.levels (k n') ≤ m.levels t
  pub same : k n ≡ t

abbrev pub IsFound : {W : Wire} {T : Type 0} → Measure T → T → Found W T → Type 0
IsFound m t none = Unit
IsFound m t (some (n, k)) = Fits m t n k

IsFound-under :
    {W : Wire} {T U : Type 0} (m : Measure T) (m' : Measure U) (g : T → U) (t : T)
    → Adds m m' g
    → (o : Found W T) → IsFound m t o
    → IsFound m' (g t) (under g o)
IsFound-under m m' g t a none h = tt
IsFound-under m m' g t a (some (n, k)) h = record {
  rest = λ x. a.more x + h.rest x;
  rest_ids = λ x n'. omega (arith, a.more_ids x (k n'), h.rest_ids x n');
  rest_size = a.more_size + h.rest_size;
  rest_nodes = λ n'. omega (arith, a.more_nodes (k n'), h.rest_nodes n');
  no_deeper = λ n' d. a.monotone t (k n') (h.no_deeper n' d);
  same = ap g h.same;
}

IsFound-or_else :
    {W : Wire} {T : Type 0} (m : Measure T) (t : T) (o o' : Found W T)
    → IsFound m t o
    → IsFound m t o'
    → IsFound m t (or_else o o')
IsFound-or_else m t none o' h h' = h'
IsFound-or_else m t (some f) o' h h' = h

module _ {W : Wire} where
  Fits-here : (n : Node W) → Fits of_node n n (λ m. m)
  Fits-here n = record {
    rest = λ x. 0;
    rest_ids = λ x n'. omega arith;
    rest_size = 0;
    rest_nodes = λ n'. omega arith;
    no_deeper = λ n' h. h;
    same = refl;
  }

  IsFound-if :
      (b : Bool) (t : Node W) (o o' : Found W (Node W))
      → IsFound of_node t o
      → IsFound of_node t o'
      → IsFound of_node t (if b then o else o')
  IsFound-if true t o o' h h' = h
  IsFound-if false t o o' h h' = h'

mutual
  unfolding focus

  pub focus-IsFound : {W : Wire} (p : Node W → Bool) (n : Node W) → IsFound of_node n (focus p n)
  focus-IsFound p (node i k e r l f t) =
      IsFound-if (p (node i k e r l f t)) (node i k e r l f t) _ _ (Fits-here (node i k e r l f t))
        (IsFound-or_else of_node (node i k e r l f t) _ _
          (IsFound-under of_kind of_node _ k (Adds-kind i e r l f t) (focus_kind p k)
            (focus_kind-IsFound p k))
          (IsFound-or_else of_node (node i k e r l f t) _ _
            (IsFound-under of_opt of_node _ l (Adds-on_loading i k e r f t) (focus_opt p l)
              (focus_opt-IsFound p l))
            (IsFound-under of_opt of_node _ e (Adds-on_empty i k r l f t) (focus_opt p e)
              (focus_opt-IsFound p e))))

  focus_kind-IsFound :
      {W : Wire} (p : Node W → Bool) (k : Kind W) → IsFound of_kind k (focus_kind p k)
  focus_kind-IsFound p (layout k s ns) =
      IsFound-under of_nodes of_kind _ ns (Adds-layout k s) (focus_nodes p ns)
        (focus_nodes-IsFound p ns)
  focus_kind-IsFound p (error_boundary c f) =
      IsFound-or_else of_kind (error_boundary c f) _ _
        (IsFound-under of_node of_kind _ c (Adds-child f) (focus p c) (focus-IsFound p c))
        (IsFound-under of_node of_kind _ f (Adds-fallback c) (focus p f) (focus-IsFound p f))
  focus_kind-IsFound p (switch s cs d) =
      IsFound-or_else of_kind (switch s cs d) _ _
        (IsFound-under of_cases of_kind _ cs (Adds-cases s d) (focus_cases p cs)
          (focus_cases-IsFound p cs))
        (IsFound-under of_node of_kind _ d (Adds-default s cs) (focus p d) (focus-IsFound p d))
  focus_kind-IsFound p (fragment_decl s b) =
      IsFound-under of_node of_kind _ b (Adds-body s) (focus p b) (focus-IsFound p b)
  focus_kind-IsFound p (leaf k s) = tt
  focus_kind-IsFound p (mount cs s) = tt

  focus_opt-IsFound :
      {W : Wire} (p : Node W → Bool) (o : OptNode W) → IsFound of_opt o (focus_opt p o)
  focus_opt-IsFound p absent = tt
  focus_opt-IsFound p (present n) =
      IsFound-under of_node of_opt _ n Adds-present (focus p n) (focus-IsFound p n)

  focus_nodes-IsFound :
      {W : Wire} (p : Node W → Bool) (ns : Nodes W) → IsFound of_nodes ns (focus_nodes p ns)
  focus_nodes-IsFound p nil = tt
  focus_nodes-IsFound p (cons n ns) =
      IsFound-or_else of_nodes (cons n ns) _ _
        (IsFound-under of_node of_nodes _ n (Adds-head ns) (focus p n) (focus-IsFound p n))
        (IsFound-under of_nodes of_nodes _ ns (Adds-tail n) (focus_nodes p ns)
          (focus_nodes-IsFound p ns))

  focus_cases-IsFound :
      {W : Wire} (p : Node W → Bool) (cs : Cases W) → IsFound of_cases cs (focus_cases p cs)
  focus_cases-IsFound p no_case = tt
  focus_cases-IsFound p (case c n cs) =
      IsFound-or_else of_cases (case c n cs) _ _
        (IsFound-under of_node of_cases _ n (Adds-case c cs) (focus p n) (focus-IsFound p n))
        (IsFound-under of_cases of_cases _ cs (Adds-later_cases c n) (focus_cases p cs)
          (focus_cases-IsFound p cs))
