-- ===== src/Ops/Shrink.antt =====
-- The ops that src/ops/mod.rs does not charge a limit check for make a tree no larger and no deeper.
use fuaran_rs.Prelude.{
  some-injective, ℕ, ◌+◌, ◌≤◌, max, String, ◌≡◌, refl, sym, ap, ◌∙◌, Bool, Option, none, some, List,
  [], ◌∷◌, ◌++◌, arith, find, ◌==◌, inl, inr, Bool-cases, subst,
}
use fuaran_rs.Tree.{
  Wire, Node, node, Kind, leaf, mount, layout, error_boundary, switch, fragment_decl, Nodes, nil,
  cons, Cases, no_case, case, Traits, to_list, of_list, case_list, id_of, kind_of,
}
use fuaran_rs.Tree.Walk.{
  kind_child_nodes, size, size_kind, size_nodes, size_cases, depth, depth_kind, depth_nodes,
  depth_cases,
}
use fuaran_rs.Tree.Focus.{find_node, find_node_mut, found_node}
use fuaran_rs.Tree.Focus.Measures.{of_node}
use fuaran_rs.Tree.Focus.Laws.{Fits}
use fuaran_rs.Tree.Focus.Find.{focus-Fits}
use fuaran_rs.Ops.{ok, require, >>=-eq-ok, require-eq-ok, ok-injective}
use fuaran_rs.Ops.Structural.{
  with_kind, retain_ne, pick, cons_some, set_kind, apply_remove, apply_reorder,
}
use fuaran_rs.Ops.Placed.{Placed, remove-Placed}
use fuaran_rs.Ops.Ids.{occurs}
use fuaran_rs.Ops.Reorder.{total, total-reordered, reorder-Reordered}
use fuaran_rs.Ops.Edits.{Rewritten, set_kind-found}
use fuaran_rs.Ops.Apply.{with_traits, apply_edit}

-- `t'` is no larger and no deeper than `t`.
pub record Shrinks {W : Wire} (t t' : Node W) : Type 0 where
  pub no_larger : size t' ≤ size t
  pub no_deeper : depth t' ≤ depth t

-- The greatest depth in a list of nodes.
abbrev deepest : {W : Wire} → List (Node W) → ℕ
deepest [] = 0
deepest (n ∷ ns) = max (depth n) (deepest ns)

module _ {W : Wire} where
  pub Shrinks-refl : (t : Node W) → Shrinks t t
  Shrinks-refl t = record { no_larger = omega arith; no_deeper = omega arith }

  pub Shrinks-trans : {t u v : Node W} → Shrinks t u → Shrinks u v → Shrinks t v
  Shrinks-trans a b = omega arith

  total-append : (ns ms : List (Node W)) → total size (ns ++ ms) ≡ total size ns + total size ms
  total-append [] ms = omega arith
  total-append (n ∷ ns) ms = omega (arith, total-append ns ms)

  deepest-append : (ns ms : List (Node W)) → deepest (ns ++ ms) ≡ max (deepest ns) (deepest ms)
  deepest-append [] ms = omega arith
  deepest-append (n ∷ ns) ms = omega (arith, deepest-append ns ms)

  size_nodes-total : (ns : Nodes W) → size_nodes ns ≡ total size (to_list ns)
  unfolding size
  size_nodes-total nil = refl
  size_nodes-total (cons n ns) = omega (arith, size_nodes-total ns)

  size-of_list : (ns : List (Node W)) → size_nodes (of_list ns) ≡ total size ns
  unfolding size
  size-of_list [] = refl
  size-of_list (n ∷ ns) = omega (arith, size-of_list ns)

  depth_nodes-deepest : (ns : Nodes W) → depth_nodes ns ≡ deepest (to_list ns)
  unfolding depth
  depth_nodes-deepest nil = refl
  depth_nodes-deepest (cons n ns) = omega (arith, depth_nodes-deepest ns)

  depth_of_list : (ns : List (Node W)) → depth_nodes (of_list ns) ≡ deepest ns
  unfolding depth
  depth_of_list [] = refl
  depth_of_list (n ∷ ns) = omega (arith, depth_of_list ns)

  size_cases-total : (cs : Cases W) → size_cases cs ≡ total size (case_list cs)
  unfolding size
  size_cases-total no_case = refl
  size_cases-total (case c n cs) = omega (arith, size_cases-total cs)

  depth_cases-deepest : (cs : Cases W) → depth_cases cs ≡ deepest (case_list cs)
  unfolding depth
  depth_cases-deepest no_case = refl
  depth_cases-deepest (case c n cs) = omega (arith, depth_cases-deepest cs)

  -- A kind's figures are those of its child nodes.
  pub size_kind-children : (k : Kind W) → size_kind k ≡ total size (kind_child_nodes k)
  unfolding size
  size_kind-children (layout lk s ns) = size_nodes-total ns
  size_kind-children (error_boundary c f) = omega arith
  size_kind-children (switch s cs d) =
      omega (arith, size_cases-total cs, total-append (case_list cs) (d ∷ []))
  size_kind-children (fragment_decl s b) = omega arith
  size_kind-children (leaf lk s) = refl
  size_kind-children (mount cs s) = refl

  pub depth_kind-children : (k : Kind W) → depth_kind k ≡ deepest (kind_child_nodes k)
  unfolding depth
  depth_kind-children (layout lk s ns) = depth_nodes-deepest ns
  depth_kind-children (error_boundary c f) = omega arith
  depth_kind-children (switch s cs d) =
      omega (arith, depth_cases-deepest cs, deepest-append (case_list cs) (d ∷ []))
  depth_kind-children (fragment_decl s b) = omega arith
  depth_kind-children (leaf lk s) = refl
  depth_kind-children (mount cs s) = refl

  -- A smaller node in the place of a found one.
  pub put-Shrinks :
      {t n n' : Node W} {put : Node W → Node W}
      → Fits of_node t n put
      → Shrinks n n'
      → Shrinks t (put n')
  put-Shrinks {t} {n} {n'} {put} f s = record {
    no_larger =
        let own = subst (λ m. size m ≡ f.rest_size + size n) f.same (f.rest_nodes n) in
        omega (arith, own, f.rest_nodes n', s.no_larger);
    no_deeper = f.no_deeper n' s.no_deeper;
  }

  with_kind-Shrinks :
      (n : Node W) (k : Kind W)
      → size_kind k ≤ size_kind (kind_of n)
      → depth_kind k ≤ depth_kind (kind_of n)
      → Shrinks n (with_kind n k)
  unfolding size depth
  with_kind-Shrinks (node i k' e r l f t) k h h' = omega arith

  Placed-Shrinks :
      {t t' : Node W} {parent_id : String} {change : Nodes W → Nodes W}
      → (p : Placed t t' parent_id change) → size_nodes (change p.children) ≤ size_nodes p.children
      → depth_nodes (change p.children) ≤ depth_nodes p.children
      → Shrinks t t'
  unfolding size depth
  Placed-Shrinks {t} {parent_id = parent_id} {change = change} p h h' =
      let k' = layout p.layout_kind p.spec (change p.children) in
      subst (λ m. Shrinks t m) (sym p.result)
        (put-Shrinks (focus-Fits (λ m. id_of m == parent_id) t p.found) (
          with_kind-Shrinks p.parent k' (omega (arith, ap size_kind p.is_layout, h))
            (omega (arith, ap depth_kind p.is_layout, h'))))

  retain_ne-smaller :
      (target : String) (ns : Nodes W)
      → (size_nodes (retain_ne target ns) ≤ size_nodes ns)
        × (depth_nodes (retain_ne target ns) ≤ depth_nodes ns)
  unfolding retain_ne size depth
  retain_ne-smaller target nil = omega arith
  retain_ne-smaller target (cons n ns) =
      let rest = retain_ne-smaller target ns in
      elim (Bool-cases (id_of n == target)) [
        | inl e ↦ rw e (omega (arith, rest))
        | inr e ↦ rw e (omega (arith, rest))
      ]

  pub remove-Shrinks :
      (target : String) (t t' : Node W) → apply_remove target t ≡ ok t' → Shrinks t t'
  remove-Shrinks target t t' h =
      let (root, parent, found, p) = remove-Placed target t t' h in
      let (s, d) = retain_ne-smaller target p.children in Placed-Shrinks p s d

  found_depth :
      (p : Node W → Bool) (ns : List (Node W)) (o : Option (Node W))
      → find p ns ≡ o
      → deepest (cons_some o []) ≤ deepest ns
  found_depth p [] none h = omega arith
  found_depth p [] (some n) h = cc
  found_depth p (m ∷ ns) o h = elim (Bool-cases (p m)) [
    | inl e ↦
        let w : some m ≡ o = rw e at h in
        subst (λ o. deepest (cons_some o []) ≤ deepest (m ∷ ns)) w (omega arith)
    | inr e ↦ omega (arith, found_depth p ns o (rw e at h))
  ]

  cons_some-depth :
      (o : Option (Node W)) (ns ms : List (Node W))
      → deepest (cons_some o []) ≤ deepest ms
      → deepest ns ≤ deepest ms
      → deepest (cons_some o ns) ≤ deepest ms
  cons_some-depth none ns ms h h' = h'
  cons_some-depth (some n) ns ms h h' = omega arith

  pick-depth : (ns : List (Node W)) (order : List String) → deepest (pick ns order) ≤ deepest ns
  unfolding pick
  pick-depth ns [] = omega arith
  pick-depth ns (i ∷ is) =
      cons_some-depth (find (λ c. id_of c == i) ns) (pick ns is) ns
        (found_depth (λ c. id_of c == i) ns _ refl) (pick-depth ns is)

  pub reorder-Shrinks :
      (le : String → String → Bool) (new_order : List String) (parent_id : String) (t t' : Node W)
      → ((y : String) → occurs y t ≤ 1)
      → apply_reorder le new_order parent_id t ≡ ok t'
      → Shrinks t t'
  reorder-Shrinks le new_order parent_id t t' unique h =
      let r = reorder-Reordered le new_order parent_id t t' unique h in
      let picked = pick (to_list r.slot) new_order in
      Placed-Shrinks r.placed
        (omega (
          arith,
          ap size_nodes r.own_slot,
          size-of_list picked,
          size_nodes-total r.slot,
          total-reordered size le (to_list r.slot) new_order r.distinct r.same,
        ))
        (omega (
          arith,
          ap depth_nodes r.own_slot,
          depth_of_list picked,
          depth_nodes-deepest r.slot,
          pick-depth (to_list r.slot) new_order,
        ))

  -- A node rewritten in place by `edit`, which makes no node larger or deeper.
  pub edit-Shrinks :
      (edit : Node W → Node W) (target : String) (t t' : Node W)
      → ((n : Node W) → Shrinks n (edit n))
      → apply_edit edit target t ≡ ok t'
      → Shrinks t t'
  unfolding apply_edit
  edit-Shrinks edit target t t' small h =
      let ((n, put), e, h1) = >>=-eq-ok (require (find_node_mut t target) _) _ h in
      let f = focus-Fits (λ m. id_of m == target) t (require-eq-ok _ _ e) in
      subst (λ m. Shrinks t m) (ok-injective h1) (put-Shrinks f (small n))

  pub traits-Shrinks :
      (change : Traits W → Traits W) (n : Node W) → Shrinks n (with_traits change n)
  unfolding size depth
  traits-Shrinks change (node i k e r l f t) = record {
    no_larger = omega arith;
    no_deeper = omega arith;
  }

  -- A new kind whose child nodes are no larger and no deeper than the old one's.
  pub set_kind-Shrinks :
      (t : Node W) (target : String) (k : Kind W) {t' : Node W}
      → ((n : Node W)
          → find_node t target ≡ some n
          → (size_kind k ≤ size_kind (kind_of n)) × (depth_kind k ≤ depth_kind (kind_of n)))
      → set_kind t target k ≡ some t'
      → Shrinks t t'
  set_kind-Shrinks t target k small h =
      let (n, put, e, w) = set_kind-found t target k h in
      let (s, d) = small n (ap found_node e) in
      subst (λ m. Shrinks t m) (sym w)
        (put-Shrinks (focus-Fits (λ m. id_of m == target) t e) (with_kind-Shrinks n k s d))

  pub Rewritten-Shrinks : {target : String} {t t' : Node W} → Rewritten target t t' → Shrinks t t'
  Rewritten-Shrinks {target} {t} {t'} r =
      set_kind-Shrinks t target r.kind
        (λ n found.
          let w : kind_child_nodes r.kind ≡ kind_child_nodes (kind_of n) =
            r.same
            ∙ ap (λ m. kind_child_nodes (kind_of m)) (some-injective (sym r.found ∙ found)) in
          (
            omega (
              arith,
              size_kind-children r.kind,
              size_kind-children (kind_of n),
              ap (total size) w,
            ),
            omega
                (arith, depth_kind-children r.kind, depth_kind-children (kind_of n), ap deepest w),
          ))
        r.set
