-- ===== src/Placement/Slot.antt =====
-- A layout node found in a tree, and the writes to its children (src/ops/mod.rs, `find_node_mut` and
-- the arms of `apply_one` that insert and reorder).
use fuaran_rs.Prelude.{
  ◌≤◌, ◌≡◌, refl, sym, ap, ◌∙◌, String, Bool, true, false, Bool-cases, inl, inr, none, some, List,
  [], ◌∷◌, ◌++◌, ◌==◌, eq_iff, eq_refl, map, find, any, arith,
}
use fuaran_rs.Prelude.Outcome.{ok}
use fuaran_rs.Prelude.Counts.{count, contains}
use fuaran_rs.Tree.{
  Wire, Node, node, Kind, LayoutKind, layout, Nodes, nil, cons, to_list, of_list, id_of, kind_of,
}
use fuaran_rs.Tree.Walk.{layout_children, ids, ids_kind}
use fuaran_rs.Tree.Focus.Find.{focus-Fits, find-id}
use fuaran_rs.Ops.Ids.{occurs-found, count-ids_kind-le}
use fuaran_rs.Ops.Reorder.{child_ids-le}
use fuaran_rs.Tree.Focus.{find_node, find_node_mut, found_node}
use fuaran_rs.Tree.Focus.Put.{find_put}
use fuaran_rs.Ops.Structural.{
  with_kind, push, pick, sort, same_texts, write_children, apply_insert, apply_reorder,
}
use fuaran_rs.Placement.{others}

pub same_texts_refl : (xs : List String) → same_texts xs xs ≡ true
unfolding same_texts
same_texts_refl [] = refl
same_texts_refl (x ∷ xs) = rw (eq_refl x) (same_texts_refl xs)

pub others-fresh : (x : String) (xs : List String) → count x xs ≡ 0 → others x xs ≡ xs
unfolding others
others-fresh x [] h = refl
others-fresh x (y ∷ ys) h = elim (Bool-cases (y == x)) [
  | inl e ↦ absurd (let f = h in ground arith)
  | inr e ↦ rw e (ap (λ l. y ∷ l) (others-fresh x ys (ground arith)))
]

pub others-last : (x : String) (xs : List String) → count x xs ≡ 0 → others x (xs ++ (x ∷ [])) ≡ xs
unfolding others
others-last x [] h = rw (eq_refl x) refl
others-last x (y ∷ ys) h = elim (Bool-cases (y == x)) [
  | inl e ↦ absurd (let f = h in ground arith)
  | inr e ↦ rw e (ap (λ l. y ∷ l) (others-last x ys (ground arith)))
]

pub find-none : (p : String → Bool) (xs : List String) → find p xs ≡ none → any p xs ≡ false
find-none p [] h = refl
find-none p (x ∷ xs) h = elim (Bool-cases (p x)) [
  | inl e ↦ let w : some x ≡ none = sym (rw e refl) ∙ h in cc
  | inr e ↦ rw e (find-none p xs (sym (rw e refl) ∙ h))
]

module _ {W : Wire} where
  pub map-push :
      (ns : Nodes W) (c : Node W)
      → map id_of (to_list (push ns c)) ≡ map id_of (to_list ns) ++ (id_of c ∷ [])
  unfolding push
  map-push nil c = refl
  map-push (cons n ns) c = ap (λ l. id_of n ∷ l) (map-push ns c)

  pub list-push : (ns : Nodes W) (c : Node W) → to_list (push ns c) ≡ to_list ns ++ (c ∷ [])
  unfolding push
  list-push nil c = refl
  list-push (cons n ns) c = ap (λ l. n ∷ l) (list-push ns c)

  pub list_of_list : (ns : List (Node W)) → to_list (of_list ns) ≡ ns
  list_of_list [] = refl
  list_of_list (n ∷ ns) = ap (λ l. n ∷ l) (list_of_list ns)

  found_named :
      (i : String) (ns : List (Node W))
      → 1 ≤ count i (map id_of ns)
      → (n : Node W) × (find (λ c. id_of c == i) ns ≡ some n) × (id_of n ≡ i)
  found_named i [] h = absurd (omega arith)
  found_named i (n ∷ ns) h = elim (Bool-cases (id_of n == i)) [
    | inl e ↦ (n, rw e refl, (eq_iff (id_of n) i).0 e)
    | inr e ↦ let (m, f, w) = found_named i ns (ground arith) in (m, rw e f, w)
  ]

  -- Where each id asked for is among the children, the picked children have the ids asked for.
  pub pick-ids :
      (ns : List (Node W)) (is : List String)
      → ((i : String) → 1 ≤ count i is → 1 ≤ count i (map id_of ns))
      → map id_of (pick ns is) ≡ is
  unfolding pick
  pick-ids ns [] h = refl
  pick-ids ns (i ∷ is) h =
      let (n, f, w) = found_named i ns (h i (ground (arith, eq_refl i))) in
      let rest = pick-ids ns is (λ j k. h j (ground arith)) in rw f (λ j. w j ∷ rest j)

  id-with_kind : (n : Node W) (k : Kind W) → id_of (with_kind n k) ≡ id_of n
  id-with_kind (node i k e r l f t) k' = refl

  kind-with_kind : (n : Node W) (k : Kind W) → kind_of (with_kind n k) ≡ k
  kind-with_kind (node i k e r l f t) k' = refl

  pub id-counted : (n : Node W) → 1 ≤ count (id_of n) (ids n)
  unfolding ids
  id-counted (node i k e r l f t) = ground (arith, eq_refl i)

-- The ids of the children that a node's layout kind holds.
abbrev pub child_ids : {W : Wire} → Node W → List String
child_ids (node i (layout lk s ns) e r l f t) = map id_of (to_list ns)
child_ids _ = []

-- The children that a node's layout kind holds.
abbrev pub children_of : {W : Wire} → Node W → List (Node W)
children_of (node i (layout lk s ns) e r l f t) = to_list ns
children_of _ = []

-- A node found in a tree, with its children.
pub record Slot {W : Wire} (t : Node W) (parent_id : String) (ns : Nodes W) : Type 0 where
  pub parent : Node W
  pub put : Node W → Node W
  pub layout_kind : LayoutKind
  pub spec : W.Spec
  pub found : find_node_mut t parent_id ≡ some (parent, put)
  pub is_layout : kind_of parent ≡ layout layout_kind spec ns

module _ {W : Wire} where
  pub child_ids-layout :
      (n : Node W) (lk : LayoutKind) (s : W.Spec) (ns : Nodes W)
      → kind_of n ≡ layout lk s ns
      → child_ids n ≡ map id_of (to_list ns)
  child_ids-layout (node i k e r l f t) lk s ns h = rw h refl

  pub children_of-layout :
      (n : Node W) (lk : LayoutKind) (s : W.Spec) (ns : Nodes W)
      → kind_of n ≡ layout lk s ns
      → children_of n ≡ to_list ns
  children_of-layout (node i k e r l f t) lk s ns h = rw h refl

  pub layout_children-inv :
      (k : Kind W) (ns : Nodes W)
      → layout_children k ≡ some ns
      → (lk : LayoutKind) × (s : W.Spec) × (k ≡ layout lk s ns)
  layout_children-inv (layout lk s ms) ns h = (lk, s, cc)
  layout_children-inv (Kind.leaf k s) ns h = cc
  layout_children-inv (Kind.mount cs s) ns h = cc
  layout_children-inv (Kind.error_boundary c f) ns h = cc
  layout_children-inv (Kind.switch s cs d) ns h = cc
  layout_children-inv (Kind.fragment_decl s b) ns h = cc

  module _ {t : Node W} {x : String} {ns : Nodes W} (q : Slot t x ns) where
    pub find-Slot : find_node t x ≡ some q.parent
    find-Slot = ap found_node q.found

    -- The tree with other children in the slot.
    abbrev pub refilled : Nodes W → Node W
    refilled ms = q.put (with_kind q.parent (layout q.layout_kind q.spec ms))

    pub write_children-ok :
        (change : Nodes W → Nodes W) → write_children x change t ≡ ok (refilled (change ns))
    unfolding write_children
    write_children-ok change = rw q.found (rw q.is_layout refl)

    -- The slot stands in the tree with its children written.
    pub refilled-Slot : (ms : Nodes W) → Slot (refilled ms) x ms
    refilled-Slot ms =
        let k = layout q.layout_kind q.spec ms in
        record {
          parent = with_kind q.parent k;
          put = q.put;
          layout_kind = q.layout_kind;
          spec = q.spec;
          found =
              find_put x t q.parent (with_kind q.parent k) q.put q.found
                (ap (λ i. i == x) (id-with_kind q.parent k ∙ find-id t x q.found) ∙ eq_refl x);
          is_layout = kind-with_kind q.parent k;
        }

    pub refilled-put : (ms : Nodes W) → (refilled-Slot ms).put ≡ q.put
    unfolding refilled-Slot
    refilled-put ms = refl

    pub refilled-parent : (ms : Nodes W) → refilled ms ≡ q.put (refilled-Slot ms).parent
    unfolding refilled-Slot
    refilled-parent ms = refl

    pub insert-ok :
        (child : Node W)
        → any (λ i. contains i (ids t)) (ids child) ≡ false
        → apply_insert child x t ≡ ok (refilled (push ns child))
    unfolding apply_insert
    insert-ok child fresh =
        rw find-Slot (rw q.is_layout (rw fresh (write_children-ok (λ ms. push ms child))))

    pub reorder-ok :
        (le : String → String → Bool) (order : List String)
        → sort le (map id_of (to_list ns)) ≡ sort le order
        → apply_reorder le order x t ≡ ok (refilled (of_list (pick (to_list ns) order)))
    unfolding apply_reorder
    reorder-ok le order same = rw find-Slot (
        rw q.is_layout (
          rw same (
            rw (same_texts_refl (sort le order))
              (write_children-ok (λ _. of_list (pick (to_list ns) order))))))

    pub siblings_le : (i : String) → count i (map id_of (to_list ns)) ≤ count i (ids t)
    unfolding ids
    siblings_le i =
        let f = focus-Fits (λ m. id_of m == x) t q.found in
        let w = ap (λ (k : Kind W). count i (ids_kind k)) q.is_layout in
        omega (arith, w, occurs-found i f, count-ids_kind-le i q.parent, child_ids-le i ns)

    -- An id that the tree does not hold is not among the children's.
    pub siblings_fresh : (i : String) → count i (ids t) ≡ 0 → count i (map id_of (to_list ns)) ≡ 0
    siblings_fresh i h = omega (arith, h, siblings_le i)
