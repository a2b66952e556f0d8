-- ===== src/Ops/Edits.antt =====
-- How often each id stands in a tree before and after the ops that rewrite one node in place.
use fuaran_rs.Prelude.{
  some-injective, ℕ, ◌+◌, ◌≤◌, String, ◌≡◌, refl, sym, ap, ◌∙◌, Bool, true, false, Option, none,
  some, List, [], ◌++◌, arith, ◌==◌, if◌then◌else◌,
}
use fuaran_rs.Prelude.Counts.{count, count-append}
use fuaran_rs.Tree.{
  Wire, Node, node, Kind, OptNode, absent, present, Traits, opt_list, id_of, kind_of,
}
use fuaran_rs.Tree.Walk.{kind_child_nodes, ids, ids_kind, ids_opt}
use fuaran_rs.Tree.Focus.{find_node, find_node_mut, found_node}
use fuaran_rs.Tree.Focus.Find.{focus-Fits}
use fuaran_rs.Ops.{ok, require, >>=-eq-ok, require-eq-ok, ok-injective, StateBehaviour, TreeOp}
use fuaran_rs.Ops.Path.{codes, PathSeg, parse_path}
use fuaran_rs.Ops.Structural.{with_kind, set_kind}
use fuaran_rs.Ops.Apply.{
  Tables, KeepsChildren, UpdateOutcome, NestedOutcome, updated, unknown_field, not_supported,
  type_mismatch, missing_index, index_out_of_range, no_such_field, unsupported, mistyped, finish,
  finish_nested, path_or_fail, is_top_level, with_traits, with_state, apply_edit, apply_prop,
  apply_binding, inserted_nodes,
}
use fuaran_rs.Ops.Ids.{
  occurs, ids_all, count-ids_all, count-ids_kind, count-with_kind, occurs-found,
}

module _ {W : Wire} where
  -- `set_kind` writes the kind of the first node with the id.
  pub set_kind-found :
      (t : Node W) (target : String) (k : Kind W) {t' : Node W}
      → set_kind t target k ≡ some t'
      → (n : Node W) × (put : Node W → Node W) × (find_node_mut t target ≡ some (n, put))
        × (t' ≡ put (with_kind n k))
  unfolding set_kind
  set_kind-found t target k {t'} h = go (find_node_mut t target) refl h
    where
      go :
          (o : Option (Node W × (Node W → Node W)))
          → find_node_mut t target ≡ o
          → (elim o [ none ↦ none | some (n, put) ↦ some (put (with_kind n k)) ]) ≡ some t'
          → (n : Node W) × (put : Node W → Node W) × (find_node_mut t target ≡ some (n, put))
            × (t' ≡ put (with_kind n k))
      go none e h = cc
      go (some (n, put)) e h = (n, put, e, sym (some-injective h))

  -- The first node with the id has a new kind, with the child nodes that it had.
  pub record Rewritten (target : String) (t t' : Node W) : Type 0 where
    pub target_node : Node W
    pub kind : Kind W
    pub found : find_node t target ≡ some target_node
    pub same : kind_child_nodes kind ≡ kind_child_nodes (kind_of target_node)
    pub set : set_kind t target kind ≡ some t'

module _ {W : Wire} (T : Tables W) (keeps : KeepsChildren T) where
  finish-Rewritten :
      (t : Node W) (target path : String) (v : W.Json) {n t' : Node W}
      → find_node t target ≡ some n
      → (o : UpdateOutcome W) → T.update_field path v (kind_of n) ≡ o
      → finish t target o ≡ ok t'
      → Rewritten target t t'
  finish-Rewritten t target path v {n} found (updated k) e h = record {
    target_node = n;
    kind = k;
    found = found;
    same = keeps.field_keeps path v (kind_of n) k e;
    set = require-eq-ok _ _ h;
  }
  finish-Rewritten t target path v found unknown_field e h = cc
  finish-Rewritten t target path v found not_supported e h = cc
  finish-Rewritten t target path v found type_mismatch e h = cc

  finish_nested-Rewritten :
      (t : Node W) (target : String) (segs : List PathSeg) (v : W.Json) {n t' : Node W}
      → find_node t target ≡ some n
      → (o : NestedOutcome W) → T.update_nested segs v (kind_of n) ≡ o
      → finish_nested t target o ≡ ok t'
      → Rewritten target t t'
  finish_nested-Rewritten t target segs v {n} found (NestedOutcome.updated k) e h = record {
    target_node = n;
    kind = k;
    found = found;
    same = keeps.nested_keeps segs v (kind_of n) k e;
    set = require-eq-ok _ _ h;
  }
  finish_nested-Rewritten t target segs v found missing_index e h = cc
  finish_nested-Rewritten t target segs v found index_out_of_range e h = cc
  finish_nested-Rewritten t target segs v found no_such_field e h = cc
  finish_nested-Rewritten t target segs v found unsupported e h = cc
  finish_nested-Rewritten t target segs v found mistyped e h = cc

  pub prop-Rewritten :
      (path target : String) (v : W.Json) (t t' : Node W)
      → apply_prop T path target v t ≡ ok t'
      → Rewritten target t t'
  unfolding apply_prop
  prop-Rewritten path target v t t' h =
      let (segs, e, h1) = >>=-eq-ok (path_or_fail (parse_path (codes path))) _ h in
      let (n, found, h2) = >>=-eq-ok (require (find_node t target) _) _ h1 in
      branch segs n (require-eq-ok _ _ found) (is_top_level segs) h2
    where
      branch :
          (segs : List PathSeg) (n : Node W)
          → find_node t target ≡ some n
          → (b : Bool)
          → (if b
              then finish t target (T.update_field path v (kind_of n))
              else finish_nested t target (T.update_nested segs v (kind_of n)))
            ≡ ok t'
          → Rewritten target t t'
      branch segs n found true h = finish-Rewritten t target path v found _ refl h
      branch segs n found false h = finish_nested-Rewritten t target segs v found _ refl h

  pub binding-Rewritten :
      (b : W.Binding) (slot target : String) (t t' : Node W)
      → apply_binding T b slot target t ≡ ok t'
      → Rewritten target t t'
  unfolding apply_binding
  binding-Rewritten b slot target t t' h =
      let (n, found, h1) = >>=-eq-ok (require (find_node t target) _) _ h in
      let (k, e, h2) = >>=-eq-ok (require (T.replace_slot slot b (kind_of n)) _) _ h1 in
      record {
        target_node = n;
        kind = k;
        found = require-eq-ok _ _ found;
        same = keeps.slot_keeps slot b (kind_of n) k (require-eq-ok _ _ e);
        set = require-eq-ok _ _ h2;
      }

module _ {W : Wire} (x : String) where
  abbrev pub installed : TreeOp W → ℕ
  installed op = count x (ids_all (inserted_nodes op))

  -- A write to the found node changes the count as the node's own count changes.
  pub occurs-edit :
      (edit : Node W → Node W) (target : String) (t t' : Node W)
      → apply_edit edit target t ≡ ok t'
      → (n : Node W) × (occurs x t' + occurs x n ≡ occurs x t + occurs x (edit n))
  unfolding apply_edit
  occurs-edit edit target t t' h =
      let ((n, put), e, h1) = >>=-eq-ok (require (find_node_mut t target) _) _ h in
      let f = focus-Fits (λ m. id_of m == target) t (require-eq-ok _ _ e) in
      let w : occurs x t' ≡ f.rest x + occurs x (edit n) =
        ap (occurs x) (sym (ok-injective h1)) ∙ f.rest_ids x _ in
      (n, omega (arith, w, occurs-found x f))

  occurs-with_traits :
      (change : Traits W → Traits W) (n : Node W) → occurs x (with_traits change n) ≡ occurs x n
  unfolding ids
  occurs-with_traits change (node i k e r l f t) = refl

  pub occurs-traits :
      (change : Traits W → Traits W) (target : String) (t t' : Node W)
      → apply_edit (with_traits change) target t ≡ ok t'
      → occurs x t' ≡ occurs x t
  occurs-traits change target t t' h =
      let (n, e) = occurs-edit (with_traits change) target t t' h in
      omega (arith, e, occurs-with_traits change n)

  opt-count : (o : OptNode W) → count x (ids_opt o) ≡ count x (ids_all (opt_list o))
  unfolding ids
  opt-count absent = refl
  opt-count (present n) = omega (arith, count-append x (ids n) [])

  pub occurs-with_state :
      (s : StateBehaviour W) (n : Node W)
      → occurs x (with_state s n)
        ≤ occurs x n + count x (ids_all (opt_list s.on_loading ++ opt_list s.on_empty))
  unfolding ids
  occurs-with_state s (node i k e r l f t) = omega (
    arith,
    count-append x (ids_kind k) (ids_opt l ++ ids_opt e),
    count-append x (ids_kind k) (ids_opt s.on_loading ++ ids_opt s.on_empty),
    count-append x (ids_opt s.on_loading) (ids_opt s.on_empty),
    count-ids_all x (opt_list s.on_loading) (opt_list s.on_empty),
    opt-count s.on_loading,
    opt-count s.on_empty,
  )

  -- A new kind on the found node.
  pub occurs-set_kind :
      (t : Node W) (target : String) (k : Kind W) {t' : Node W}
      → set_kind t target k ≡ some t'
      → (n : Node W) × (find_node t target ≡ some n)
        × (occurs x t' + count x (ids_kind (kind_of n)) ≡ occurs x t + count x (ids_kind k))
  occurs-set_kind t target k {t'} h =
      let (n, put, e, w) = set_kind-found t target k h in
      let f = focus-Fits (λ m. id_of m == target) t e in
      let w' : occurs x t' ≡ f.rest x + occurs x (with_kind n k) =
        ap (occurs x) w ∙ f.rest_ids x _ in
      (n, ap found_node e, omega (arith, w', occurs-found x f, count-with_kind x n k))

  pub occurs-Rewritten :
      {target : String} {t t' : Node W} → Rewritten target t t' → occurs x t' ≡ occurs x t
  occurs-Rewritten {target} {t} {t'} r =
      let (m, found', e) = occurs-set_kind t target r.kind r.set in
      let same' =
        ap (λ ns. count x (ids_all ns))
          (r.same
            ∙ ap (λ m. kind_child_nodes (kind_of m)) (some-injective (sym r.found ∙ found'))) in
      omega (arith, e, same', count-ids_kind x r.kind, count-ids_kind x (kind_of m))
