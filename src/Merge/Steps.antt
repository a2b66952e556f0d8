-- ===== src/Merge/Steps.antt =====
-- Shared steps of the proofs about the merge of src/dag/merge.rs: induction on the base, and what its
-- tables of children hold.
use fuaran_rs.Prelude.{
  ◌≡◌, refl, sym, ap, ◌∙◌, subst, String, Bool, true, false, ◌||◌, Bool-cases, inl, inr, Option,
  none, some, List, [], ◌∷◌, map, All, ◌==◌, eq_iff, eq_refl, if◌then◌else◌, or_else,
}
use fuaran_rs.Prelude.Counts.{contains}
use fuaran_rs.Tree.{
  Wire, Node, node, Kind, leaf, mount, layout, error_boundary, switch, fragment_decl, Nodes, nil,
  cons, to_list, id_of, kind_of,
}
use fuaran_rs.Ops.Structural.{same_texts}
use fuaran_rs.Merge.{Canonical, Merging, children_of}
use fuaran_rs.Merge.Children.{
  map_get, Child, child_map, ids_of, merge_facets, merge3, base_children, base_nodes,
}

-- A property of the merge of a node holds of every base where it passes from the children to the node.
module _ {ℓ} {W : Wire} (K : Canonical W)
    (P : Node W → (Node W → Node W → Merging (Node W)) → Type ℓ)
    (step : (base : Node W)
      → All (λ (c : String × Child W). P c.1.0 c.1.1) (base_children K (kind_of base))
      → P base (merge_facets K (base_children K (kind_of base)) base)) where
  mutual
    unfolding merge3 base_children base_nodes

    on_merge3 : (base : Node W) → P base (merge3 K base)
    on_merge3 (node i k e r l f t) = step (node i k e r l f t) (on_children k)

    on_children : (k : Kind W) → All (λ (c : String × Child W). P c.1.0 c.1.1) (base_children K k)
    on_children (layout k s ns) = on_nodes ns
    on_children (leaf k s) = tt
    on_children (mount cs s) = tt
    on_children (error_boundary c f) = tt
    on_children (switch s cs d) = tt
    on_children (fragment_decl s b) = tt

    on_nodes : (ns : Nodes W) → All (λ (c : String × Child W). P c.1.0 c.1.1) (base_nodes K ns)
    on_nodes nil = tt
    on_nodes (cons n ns) = (on_merge3 n, on_nodes ns)

  pub merge3-induction : (base : Node W) → P base (merge3 K base)
  merge3-induction base = on_merge3 base

some-eq {ℓ} : {A : Type ℓ} {a b : A} → some a ≡ some b → a ≡ b
some-eq w = cc

module _ {ℓ κ} {A : Type ℓ} (P : A → Type κ) where
  -- What a map gives for an id stands in it.
  pub map_get-All :
      (m : List (String × A)) (i : String) (x : A)
      → All (λ (e : String × A). P e.1) m
      → map_get m i ≡ some x
      → P x
  unfolding map_get
  map_get-All [] i x h e = cc
  map_get-All ((j, y) ∷ m) i x (p, h) e = go (map_get m i) refl (λ z q. map_get-All m i z h q)
    where
      go : (o : Option A) → map_get m i ≡ o → ((z : A) → map_get m i ≡ some z → P z) → P x
      go (some z) q ih =
          ih x (q ∙ (sym (ap (λ r. or_else r (if j == i then some y else none)) q) ∙ e))
      go none q ih = elim (Bool-cases (j == i)) [
        | inl t ↦
            let w : some y ≡ some x =
              sym (ap (λ r. or_else r (if j == i then some y else none)) q ∙ rw t refl) ∙ e in
            subst P (some-eq w) p
        | inr t ↦
            let w : ◌≡◌ {A = Option A} none (some x) =
              sym (ap (λ r. or_else r (if j == i then some y else none)) q ∙ rw t refl) ∙ e in
            cc
      ]

module _ {ℓ} {A : Type ℓ} where
  -- A map holds nothing for an id that is none of its keys.
  pub map_get-none :
      (m : List (String × A)) (i : String)
      → contains i (map (λ (e : String × A). e.0) m) ≡ false
      → map_get m i ≡ none
  unfolding map_get
  map_get-none [] i h = refl
  map_get-none ((j, y) ∷ m) i h =
      let (p, q) = or-false (j == i) _ h in rw (map_get-none m i q) (rw p refl)
    where
      or-false : (a b : Bool) → (a || b) ≡ false → (a ≡ false) × (b ≡ false)
      or-false true b h = cc
      or-false false b h = (refl, h)

pub same_texts_refl : (xs : List String) → same_texts xs xs ≡ true
unfolding same_texts
same_texts_refl [] = refl
same_texts_refl (x ∷ xs) = rw (eq_refl x) (same_texts_refl xs)

pub same_texts-eq : (xs ys : List String) → same_texts xs ys ≡ true → xs ≡ ys
unfolding same_texts
same_texts-eq [] [] h = refl
same_texts-eq [] (y ∷ ys) h = cc
same_texts-eq (x ∷ xs) [] h = cc
same_texts-eq (x ∷ xs) (y ∷ ys) h = elim (Bool-cases (x == y)) [
  | inl e ↦
      let p : x ≡ y = (eq_iff x y).0 e in
      let q : xs ≡ ys = same_texts-eq xs ys (sym (rw e refl) ∙ h) in λ i. p i ∷ q i
  | inr e ↦ let w : false ≡ true = sym (rw e refl) ∙ h in cc
]

module _ {W : Wire} (K : Canonical W) where
  -- The table of the base has the ids and the children of the base.
  pub base_children-ids :
      (base : Node W)
      → map (λ (e : String × Child W). e.0) (base_children K (kind_of base)) ≡ ids_of base
  unfolding base_children base_nodes
  base_children-ids (node i (layout k s ns) e r l f t) = nodes_ids ns
    where
      nodes_ids :
          (ns : Nodes W)
          → map (λ (e : String × Child W). e.0) (base_nodes K ns) ≡ map id_of (to_list ns)
      nodes_ids nil = refl
      nodes_ids (cons n ns) = ap (λ r. id_of n ∷ r) (nodes_ids ns)
  base_children-ids (node i (leaf k s) e r l f t) = refl
  base_children-ids (node i (mount cs s) e r l f t) = refl
  base_children-ids (node i (error_boundary c g) e r l f t) = refl
  base_children-ids (node i (switch s cs d) e r l f t) = refl
  base_children-ids (node i (fragment_decl s b) e r l f t) = refl

  pub child_map-ids : (n : Node W) → map (λ (e : String × Node W). e.0) (child_map n) ≡ ids_of n
  child_map-ids n = list_ids (to_list (children_of n))
    where
      list_ids :
          (ns : List (Node W))
          → map (λ (e : String × Node W). e.0) (map (λ c. (id_of c, c)) ns) ≡ map id_of ns
      list_ids [] = refl
      list_ids (c ∷ cs) = ap (λ r. id_of c ∷ r) (list_ids cs)
