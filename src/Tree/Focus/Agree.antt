-- ===== src/Tree/Focus/Agree.antt =====
-- In a tree where an id stands at most once: the layout parent of an id is the node that a find by the
-- parent's id returns, and its child with the id is the node that a find by that id returns.
use fuaran_rs.Prelude.{
  ◌≤◌, String, ◌≡◌, refl, sym, ap, ◌∙◌, Bool, true, false, none, some, ◌++◌, arith, or_else, ◌==◌,
  eq_refl, subst,
}
use fuaran_rs.Prelude.Counts.{count, count-append}
use fuaran_rs.Tree.{
  Wire, Node, node, Kind, leaf, mount, layout, error_boundary, switch, fragment_decl, OptNode,
  Traits, id_of, kind_of,
}
use fuaran_rs.Tree.Walk.{ids, ids_kind, ids_opt, ids_nodes, layout_children}
use fuaran_rs.Tree.Focus.{
  Found, under, found_node, focus, focus_kind, focus_opt, is_layout_parent, has_child, find_node,
  find_layout_parent,
}
use fuaran_rs.Tree.Focus.Hits.{child_in, is_it, child-ChildFound}
use fuaran_rs.Tree.Focus.Only.{Agrees, Heads, focus-Agrees}

module _ {W : Wire} (x : String) (R : Node W → Node W → Type 0) (cond : Node W → Bool)
    (q : Node W → Bool) where
  Agrees-found :
      {T : Type 0} (o o' : Found W T) {p : Node W}
      → Agrees x R cond q o o'
      → found_node o ≡ some p
      → cond p ≡ true
      → (c : Node W) × (found_node o' ≡ some c) × R p c
  Agrees-found none o' a h c = cc
  Agrees-found (some (p', k)) none a h c = absurd (a (ap cond (inside h) ∙ c))
    where
      inside : {m n : Node W} → some m ≡ some n → m ≡ n
      inside e = cc
  Agrees-found (some (p', k)) (some (m, k')) {p} a h c =
      (m, refl, subst (λ n. R n m) (inside h) (a (ap cond (inside h) ∙ c)))
    where
      inside : {m n : Node W} → some m ≡ some n → m ≡ n
      inside e = cc

module _ {W : Wire} (x : String) where
  abbrev IsChild : Node W → Node W → Type 0
  IsChild p c = child_in x (layout_children (kind_of p)) ≡ some c

  IsChild-below :
      (i : String) (k : Kind W) (e : OptNode W) (r : Bool) (l f : OptNode W) (t : Traits W)
      → count x (ids_kind k ++ (ids_opt l ++ ids_opt e)) ≤ 1
      → has_child x (layout_children k) ≡ true
      → Agrees x IsChild
          (λ m. true)
          (is_layout_parent x)
          {T = Node W}
          (some (node i k e r l f t, λ m. m))
          (or_else (under (λ k'. node i k' e r l f t) (focus_kind (is_it x) k)) (
            or_else
              (under (λ l'. node i k e r l' f t) (focus_opt (is_it x) l))
              (under (λ e'. node i k e' r l f t) (focus_opt (is_it x) e))))
        × (1 ≤ count x (ids_kind k ++ (ids_opt l ++ ids_opt e)))
  unfolding focus ids
  IsChild-below i (layout lk s ns) e r l f t u h =
      let c =
        child-ChildFound x ns
          (omega (arith, count-append x (ids_nodes ns) (ids_opt l ++ ids_opt e))) h in
      (
        rw c.found (λ y. c.is_child),
        omega (arith, c.counted, count-append x (ids_nodes ns) (ids_opt l ++ ids_opt e)),
      )
  IsChild-below i (leaf lk s) e r l f t u h = cc
  IsChild-below i (mount cs s) e r l f t u h = cc
  IsChild-below i (error_boundary a b) e r l f t u h = cc
  IsChild-below i (switch s cs d) e r l f t u h = cc
  IsChild-below i (fragment_decl s b) e r l f t u h = cc

  -- A layout parent of the id has not the id itself.
  not_itself :
      (n : Node W) → count x (ids n) ≤ 1 → is_layout_parent x n ≡ true → is_it x n ≡ true → ⊥
  unfolding ids
  not_itself (node i k e r l f t) u h g =
      let w = (IsChild-below i k e r l f t (omega arith) h).1 in ground arith

  parent-Heads : Heads x IsChild (λ m. true) (is_layout_parent x)
  parent-Heads = record {
    itself = λ n u h g y. absurd (not_itself n u h g);
    deeper = λ i k e r l f t u h g. (IsChild-below i k e r l f t u h).0;
  }

  same-Heads : (q : Node W → Bool) → Heads x (λ p c. p ≡ c) (is_it x) q
  same-Heads q = record {
    itself = λ n u h g y. refl;
    deeper = λ i k e r l f t u h g. refuses i k e r l f t g _;
  }
    where
      refuses :
          (i : String) (k : Kind W) (e : OptNode W) (r : Bool) (l f : OptNode W) (t : Traits W)
          → (i == x) ≡ false
          → (o : Found W (Node W))
          → Agrees x (λ p c. p ≡ c) (is_it x) q (some (node i k e r l f t, λ m. m)) o
      refuses i k e r l f t g none = λ h. cc
      refuses i k e r l f t g (some (c, k')) = λ h. cc

pub layout_parent-child :
    {W : Wire} (x : String) (t p : Node W)
    → count x (ids t) ≤ 1
    → find_layout_parent t x ≡ some p
    → (c : Node W) × (find_node t x ≡ some c) × (child_in x (layout_children (kind_of p)) ≡ some c)
layout_parent-child x t p u h =
    Agrees-found x (IsChild x) (λ m. true) (is_layout_parent x) (focus (is_layout_parent x) t)
      (focus (is_it x) t)
      (focus-Agrees x (IsChild x) (λ m. true) (is_layout_parent x) (parent-Heads x) t u) h refl

pub layout_parent-find :
    {W : Wire} (x : String) (t p : Node W)
    → count (id_of p) (ids t) ≤ 1
    → find_layout_parent t x ≡ some p
    → find_node t (id_of p) ≡ some p
layout_parent-find x t p u h =
    let (c, e, q) =
      Agrees-found (id_of p) (λ a b. a ≡ b) (is_it (id_of p)) (is_layout_parent x)
        (focus (is_layout_parent x) t) (focus (is_it (id_of p)) t)
        (focus-Agrees (id_of p) (λ a b. a ≡ b) (is_it (id_of p)) (is_layout_parent x)
          (same-Heads (id_of p) (is_layout_parent x)) t u)
        h (eq_refl (id_of p)) in
    e ∙ ap some (sym q)
