-- ===== src/Ops/Reorder.antt =====
-- `ReorderChildren` on children with distinct ids keeps every one of them.
use fuaran_rs.Prelude.{
  some-injective, ℕ, ◌+◌, ◌≤◌, String, ◌≡◌, refl, sym, ap, ◌∙◌, Bool, true, false, Option, none,
  some, List, [], ◌∷◌, arith, map, find, ◌==◌, eq_iff, eq_refl, inl, inr, Bool-cases,
}
use fuaran_rs.Prelude.Counts.{count, count-append}
use fuaran_rs.Tree.{Wire, Node, node, Kind, Nodes, nil, cons, to_list, of_list, id_of, kind_of}
use fuaran_rs.Tree.Walk.{layout_children, ids, ids_kind, ids_nodes}
use fuaran_rs.Ops.Structural.{insert_sorted, sort, same_texts, pick, cons_some, apply_reorder}
use fuaran_rs.Tree.Focus.{find_node, found_node}
use fuaran_rs.Tree.Focus.Find.{focus-Fits}
use fuaran_rs.Ops.{ok}
use fuaran_rs.Ops.Placed.{Placed, reorder-Placed}
use fuaran_rs.Ops.Ids.{occurs, ids_all, count-nodes, occurs-Placed, occurs-found, count-ids_kind-le}

abbrev pub sum_by : (String → ℕ) → List String → ℕ
sum_by w [] = 0
sum_by w (i ∷ is) = w i + sum_by w is

module _ (le : String → String → Bool) (w : String → ℕ) where
  sum_by-insert_sorted :
      (i : String) (is : List String) → sum_by w (insert_sorted le i is) ≡ w i + sum_by w is
  unfolding insert_sorted
  sum_by-insert_sorted i [] = refl
  sum_by-insert_sorted i (j ∷ js) = elim (Bool-cases (le i j)) [
    | inl e ↦ rw e
    | inr e ↦ rw e (omega (arith, sum_by-insert_sorted i js))
  ]

  sum_by-sort : (is : List String) → sum_by w (sort le is) ≡ sum_by w is
  unfolding sort
  sum_by-sort [] = refl
  sum_by-sort (i ∷ is) = omega (arith, sum_by-insert_sorted i (sort le is), sum_by-sort is)

same_texts-eq : (xs ys : List String) → same_texts xs ys ≡ true → xs ≡ ys
unfolding same_texts
same_texts-eq [] [] h = refl
same_texts-eq [] (y ∷ ys) h = cc
same_texts-eq (x ∷ xs) [] h = cc
same_texts-eq (x ∷ xs) (y ∷ ys) h = ground (arith, eq_iff x y, same_texts-eq xs ys)

-- Two lists that sort to the same one have the same sum of any weight.
sum_by-same :
    (le : String → String → Bool) (w : String → ℕ) (xs ys : List String)
    → same_texts (sort le xs) (sort le ys) ≡ true
    → sum_by w xs ≡ sum_by w ys
sum_by-same le w xs ys h = omega (
  arith,
  sum_by-sort le w xs,
  sum_by-sort le w ys,
  ap (sum_by w) (same_texts-eq (sort le xs) (sort le ys) h),
)

abbrev pub Distinct : List String → Type 0
Distinct is = (y : String) → count y is ≤ 1

abbrev pub total : {W : Wire} → (Node W → ℕ) → List (Node W) → ℕ
total f [] = 0
total f (n ∷ ns) = f n + total f ns

-- A sum over the picked children, whatever is summed.
module _ {W : Wire} (f : Node W → ℕ) where
  abbrev weight_of : Option (Node W) → ℕ
  weight_of none = 0
  weight_of (some n) = f n

  weight : List (Node W) → String → ℕ
  weight ns i = weight_of (find (λ c. id_of c == i) ns)

  total-cons_some :
      (o : Option (Node W)) (ns : List (Node W))
      → total f (cons_some o ns) ≡ weight_of o + total f ns
  total-cons_some none ns = omega arith
  total-cons_some (some n) ns = refl

  total-pick :
      (ns : List (Node W)) (order : List String)
      → total f (pick ns order) ≡ sum_by (weight ns) order
  unfolding pick weight
  total-pick ns [] = refl
  total-pick ns (i ∷ is) =
      omega (arith, total-cons_some (find (λ c. id_of c == i) ns) (pick ns is), total-pick ns is)

  sum_by-skip :
      (n : Node W) (ns : List (Node W)) (is : List String)
      → count (id_of n) is ≡ 0
      → sum_by (weight (n ∷ ns)) is ≡ sum_by (weight ns) is
  unfolding weight
  sum_by-skip n ns [] h = refl
  sum_by-skip n ns (i ∷ is) h = elim (Bool-cases (i == id_of n)) [
    | inl e ↦ absurd (absurd_count e)
    | inr e ↦ rw (other e) (omega (arith, sum_by-skip n ns is (rest e)))
  ]
    where
      absurd_count : (i == id_of n) ≡ true → ⊥
      absurd_count e = let f = h in ground arith

      other : (i == id_of n) ≡ false → (id_of n == i) ≡ false
      other e = ground (arith, eq_iff i (id_of n), eq_iff (id_of n) i)

      rest : (i == id_of n) ≡ false → count (id_of n) is ≡ 0
      rest e = ground arith

  sum_by-ids :
      (ns : List (Node W))
      → Distinct (map id_of ns)
      → sum_by (weight ns) (map id_of ns) ≡ total f ns
  unfolding weight
  sum_by-ids [] d = refl
  sum_by-ids (n ∷ ns) d =
      let own : count (id_of n) (map id_of ns) ≡ 0 =
        ground (arith, d (id_of n), eq_refl (id_of n)) in
      let rest = sum_by-ids ns (λ y. ground (arith, d y)) in
      let skip = sum_by-skip n ns (map id_of ns) own in
      rw (eq_refl (id_of n)) (omega (arith, rest, skip))

  -- Children with distinct ids, picked in an order that sorts as they do, sum to the same.
  pub total-reordered :
      (le : String → String → Bool) (ns : List (Node W)) (order : List String)
      → Distinct (map id_of ns)
      → same_texts (sort le (map id_of ns)) (sort le order) ≡ true
      → total f (pick ns order) ≡ total f ns
  total-reordered le ns order d same = omega (
    arith,
    total-pick ns order,
    sum_by-same le (weight ns) (map id_of ns) order same,
    sum_by-ids ns d,
  )

module _ {W : Wire} (x : String) where
  total-occurs : (ns : List (Node W)) → total (occurs x) ns ≡ count x (ids_all ns)
  total-occurs [] = refl
  total-occurs (n ∷ ns) = omega (arith, total-occurs ns, count-append x (ids n) (ids_all ns))

  -- The ids of the children are among those of the children's subtrees.
  pub child_ids-le : (ns : Nodes W) → count x (map id_of (to_list ns)) ≤ count x (ids_nodes ns)
  unfolding ids
  child_ids-le nil = omega arith
  child_ids-le (cons (node i k e r l f t) ns) =
      ground (arith, child_ids-le ns, count-append x (ids (node i k e r l f t)) (ids_nodes ns))

  ids_nodes-of_list : (ns : List (Node W)) → count x (ids_nodes (of_list ns)) ≡ count x (ids_all ns)
  unfolding ids
  ids_nodes-of_list [] = refl
  ids_nodes-of_list (n ∷ ns) = omega (
    arith,
    ids_nodes-of_list ns,
    count-append x (ids n) (ids_nodes (of_list ns)),
    count-append x (ids n) (ids_all ns),
  )

module _ {W : Wire} where
  -- The children that the reorder reads are those that it writes.
  same_slot :
      {t t' : Node W} {parent_id : String} {change : Nodes W → Nodes W} {p : Node W} {ns : Nodes W}
      → (q : Placed t t' parent_id change) → find_node t parent_id ≡ some p
      → layout_children (kind_of p) ≡ some ns
      → q.children ≡ ns
  same_slot {p = p} q e f =
      let g : some q.parent ≡ some p = sym (ap found_node q.found) ∙ e in
      let h : layout_children (kind_of q.parent) ≡ some q.children =
        ap layout_children q.is_layout in
      some-injective (sym h ∙ ap (λ m. layout_children (kind_of m)) (some-injective g) ∙ f)

module _ {W : Wire} (x : String) where
  below_slot :
      {t t' : Node W} {parent_id : String} {change : Nodes W → Nodes W}
      → (q : Placed t t' parent_id change) → count x (ids_nodes q.children) ≤ occurs x t
  unfolding ids
  below_slot {t} {parent_id = parent_id} q =
      let f = focus-Fits (λ m. id_of m == parent_id) t q.found in
      let w = ap (λ (k : Kind W). count x (ids_kind k)) q.is_layout in
      omega (arith, w, occurs-found x f, count-ids_kind-le x q.parent)

-- What a reorder of a tree with unique ids does: the children read are those written, and their ids
-- are distinct.
pub record Reordered {W : Wire} (le : String → String → Bool) (new_order : List String)
    (parent_id : String) (t t' : Node W) : Type 0 where
  pub slot : Nodes W
  pub placed : Placed t t' parent_id (λ _. of_list (pick (to_list slot) new_order))
  pub own_slot : placed.children ≡ slot
  pub same : same_texts (sort le (map id_of (to_list slot))) (sort le new_order) ≡ true
  pub distinct : Distinct (map id_of (to_list slot))

pub reorder-Reordered :
    {W : Wire} (le : String → String → Bool) (new_order : List String) (parent_id : String)
    (t t' : Node W)
    → ((y : String) → occurs y t ≤ 1)
    → apply_reorder le new_order parent_id t ≡ ok t'
    → Reordered le new_order parent_id t t'
reorder-Reordered le new_order parent_id t t' unique h =
    let (p, ns, e, f, same, q) = reorder-Placed le new_order parent_id t t' h in
    let slot = same_slot q e f in
    record {
      slot = ns;
      placed = q;
      own_slot = slot;
      same = same;
      distinct = λ y. omega (
        arith,
        unique y,
        below_slot y q,
        ap (λ ms. count y (ids_nodes ms)) slot,
        child_ids-le y ns,
      );
    }

-- A reorder of a tree with unique ids keeps every id as often as it was.
pub occurs-reorder :
    {W : Wire} (x : String) (le : String → String → Bool) (new_order : List String)
    (parent_id : String) (t t' : Node W)
    → ((y : String) → occurs y t ≤ 1)
    → apply_reorder le new_order parent_id t ≡ ok t'
    → occurs x t' ≡ occurs x t
occurs-reorder x le new_order parent_id t t' unique h =
    let r = reorder-Reordered le new_order parent_id t t' unique h in
    let picked = pick (to_list r.slot) new_order in
    omega (
      arith,
      occurs-Placed x r.placed,
      ap (λ ms. count x (ids_nodes ms)) r.own_slot,
      ids_nodes-of_list x picked,
      total-occurs x picked,
      total-occurs x (to_list r.slot),
      total-reordered (occurs x) le (to_list r.slot) new_order r.distinct r.same,
      count-nodes x r.slot,
    )
