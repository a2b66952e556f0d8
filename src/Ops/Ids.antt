-- ===== src/Ops/Ids.antt =====
-- How often each id stands in a tree before and after an op.
use fuaran_rs.Prelude.{
  ℕ, ◌+◌, ◌≤◌, String, ◌≡◌, refl, ap, ◌∙◌, some, List, [], ◌∷◌, ◌++◌, arith, ◌==◌, subst, inl, inr,
  Bool-cases,
}
use fuaran_rs.Prelude.Counts.{count, count-append, count_disjoint}
use fuaran_rs.Tree.{
  Wire, Node, node, Kind, leaf, mount, layout, error_boundary, switch, fragment_decl, Nodes, nil,
  cons, Cases, no_case, case, to_list, case_list, id_of, kind_of,
}
use fuaran_rs.Tree.Walk.{kind_child_nodes, ids, ids_kind, ids_opt, ids_nodes, ids_cases}
use fuaran_rs.Tree.Focus.{find_node, find_node_mut}
use fuaran_rs.Tree.Focus.Measures.{of_node}
use fuaran_rs.Tree.Focus.Laws.{Fits}
use fuaran_rs.Tree.Focus.Find.{focus-Fits, found_node-inv}
use fuaran_rs.Ops.{ok}
use fuaran_rs.Ops.Structural.{with_kind, push, retain_ne, apply_insert, apply_remove, apply_move}
use fuaran_rs.Ops.Placed.{Placed, insert-Placed, remove-Placed, move-steps}

abbrev pub occurs : {W : Wire} → String → Node W → ℕ
occurs x t = count x (ids t)

abbrev pub ids_all : {W : Wire} → List (Node W) → List String
ids_all [] = []
ids_all (n ∷ ns) = ids n ++ ids_all ns

module _ {W : Wire} (x : String) where
  pub count-ids_all :
      (ns ms : List (Node W))
      → count x (ids_all (ns ++ ms)) ≡ count x (ids_all ns) + count x (ids_all ms)
  count-ids_all [] ms = omega arith
  count-ids_all (n ∷ ns) ms = omega (
    arith,
    count-ids_all ns ms,
    count-append x (ids n) (ids_all (ns ++ ms)),
    count-append x (ids n) (ids_all ns),
  )

  pub count-nodes : (ns : Nodes W) → count x (ids_nodes ns) ≡ count x (ids_all (to_list ns))
  unfolding ids
  count-nodes nil = refl
  count-nodes (cons n ns) = omega (
    arith,
    count-nodes ns,
    count-append x (ids n) (ids_nodes ns),
    count-append x (ids n) (ids_all (to_list ns)),
  )

  count-cases : (cs : Cases W) → count x (ids_cases cs) ≡ count x (ids_all (case_list cs))
  unfolding ids
  count-cases no_case = refl
  count-cases (case c n cs) = omega (
    arith,
    count-cases cs,
    count-append x (ids n) (ids_cases cs),
    count-append x (ids n) (ids_all (case_list cs)),
  )

  -- The ids below a kind are those of its child nodes.
  pub count-ids_kind : (k : Kind W) → count x (ids_kind k) ≡ count x (ids_all (kind_child_nodes k))
  unfolding ids
  count-ids_kind (layout lk s ns) = count-nodes ns
  count-ids_kind (error_boundary c f) = omega (
    arith,
    count-append x (ids c) (ids f),
    count-append x (ids c) (ids f ++ []),
    count-append x (ids f) [],
  )
  count-ids_kind (switch s cs d) = omega (
    arith,
    count-cases cs,
    count-append x (ids_cases cs) (ids d),
    count-ids_all (case_list cs) (d ∷ []),
    count-append x (ids d) [],
  )
  count-ids_kind (fragment_decl s b) = omega (arith, count-append x (ids b) [])
  count-ids_kind (leaf lk s) = refl
  count-ids_kind (mount cs s) = refl

  pub count-with_kind :
      (n : Node W) (k : Kind W)
      → occurs x (with_kind n k) + count x (ids_kind (kind_of n))
        ≡ occurs x n + count x (ids_kind k)
  unfolding ids
  count-with_kind (node i k' e r l f t) k = omega (
    arith,
    count-append x (ids_kind k) (ids_opt l ++ ids_opt e),
    count-append x (ids_kind k') (ids_opt l ++ ids_opt e),
  )

  pub count-ids_kind-le : (n : Node W) → count x (ids_kind (kind_of n)) ≤ occurs x n
  unfolding ids
  count-ids_kind-le (node i k e r l f t) =
      omega (arith, count-append x (ids_kind k) (ids_opt l ++ ids_opt e))

  count-push :
      (ns : Nodes W) (c : Node W)
      → count x (ids_nodes (push ns c)) ≡ count x (ids_nodes ns) + occurs x c
  unfolding push ids
  count-push nil c = omega (arith, count-append x (ids c) [])
  count-push (cons n ns) c = omega (
    arith,
    count-push ns c,
    count-append x (ids n) (ids_nodes (push ns c)),
    count-append x (ids n) (ids_nodes ns),
  )

  count-retain_ne :
      (target : String) (ns : Nodes W)
      → count x (ids_nodes (retain_ne target ns)) ≤ count x (ids_nodes ns)
  unfolding retain_ne ids
  count-retain_ne target nil = omega arith
  count-retain_ne target (cons n ns) =
      let rest = count-retain_ne target ns in
      let split = count-append x (ids n) (ids_nodes ns) in
      elim (Bool-cases (id_of n == target)) [
        | inl e ↦ rw e (omega (arith, rest, split))
        | inr e ↦
            rw e
              (omega (arith, rest, split, count-append x (ids n) (ids_nodes (retain_ne target ns))))
      ]

  -- What stands around a found node, counted.
  module _ {t n : Node W} {put : Node W → Node W} (f : Fits of_node t n put) where
    pub occurs-found : occurs x t ≡ f.rest x + occurs x n
    occurs-found = subst (λ m. occurs x m ≡ f.rest x + occurs x n) f.same (f.rest_ids x n)

  -- Writing the children of a layout node.
  pub occurs-Placed :
      {t t' : Node W} {parent_id : String} {change : Nodes W → Nodes W}
      → (p : Placed t t' parent_id change)
      → occurs x t' + count x (ids_nodes p.children)
        ≡ occurs x t + count x (ids_nodes (change p.children))
  unfolding ids
  occurs-Placed {t} {t'} {parent_id} {change} p =
      let f = focus-Fits (λ m. id_of m == parent_id) t p.found in
      let k' = layout p.layout_kind p.spec (change p.children) in
      let e : occurs x t' ≡ f.rest x + occurs x (with_kind p.parent k') =
        ap (occurs x) p.result ∙ f.rest_ids x _ in
      let w : count x (ids_kind (kind_of p.parent)) ≡ count x (ids_nodes p.children) =
        ap (λ (k : Kind W). count x (ids_kind k)) p.is_layout in
      omega (arith, e, w, occurs-found f, count-with_kind p.parent k')

  -- An insert adds exactly the ids of the child: every id stands in the new tree as often as in the old
  -- tree and in the child together.
  pub occurs-insert :
      (child : Node W) (parent_id : String) (t t' : Node W)
      → apply_insert child parent_id t ≡ ok t'
      → occurs x t' ≡ occurs x t + occurs x child
  occurs-insert child parent_id t t' h =
      let (p, fresh) = insert-Placed child parent_id t t' h in
      omega (arith, occurs-Placed p, count-push p.children child)

  pub occurs-remove :
      (target : String) (t t' : Node W) → apply_remove target t ≡ ok t' → occurs x t' ≤ occurs x t
  occurs-remove target t t' h =
      let (root, parent, found, p) = remove-Placed target t t' h in
      omega (arith, occurs-Placed p, count-retain_ne target p.children)

  pub occurs-find_node :
      (t : Node W) (target : String) {n : Node W}
      → find_node t target ≡ some n
      → occurs x n ≤ occurs x t
  occurs-find_node t target h =
      let (put, e) = found_node-inv (find_node_mut t target) h in
      omega (arith, occurs-found (focus-Fits (λ m. id_of m == target) t e))

  -- A move makes no id more frequent.
  pub occurs-move :
      (new_parent_id target : String) (t t' : Node W)
      → apply_move new_parent_id target t ≡ ok t'
      → occurs x t' ≤ occurs x t
  occurs-move new_parent_id target t t' h =
      let (moving, t1, found, below, removed, inserted) = move-steps new_parent_id target t t' h in
      let (p, fresh) = insert-Placed moving new_parent_id t1 t' inserted in
      ground (
        arith,
        occurs-insert moving new_parent_id t1 t' inserted,
        occurs-remove target t t1 removed,
        occurs-find_node t target found,
        count_disjoint x (ids moving) (ids t1) fresh,
      )
