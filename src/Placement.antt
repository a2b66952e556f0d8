-- ===== src/Placement.antt =====
-- The placement algebra (src/ops/placement.rs): a node placed among named siblings, stated by the ops
-- that append and reorder.
pub mod Order
pub mod Slot
pub mod Whole
pub mod Insert
pub mod Stated
pub mod Granted
pub mod Clone
use fuaran_rs.Prelude.{
  and_then, ℕ, zero, suc, ◌+◌, ◌-◌, String, Bool, true, false, not, ◌||◌, Option, none, some, List,
  [], ◌∷◌, ◌++◌, map, find, filter, ◌==◌, if◌then◌else◌, insert_at, length, ltb, is_some, get_elem?,
  set,
}
use fuaran_rs.Prelude.Decimal.{ℤ, pos, negsuc}
use fuaran_rs.Prelude.Outcome.{Result, ok, err, reject_if, ◌>>=◌, ◌>>◌}
use fuaran_rs.Prelude.Counts.{contains}
use fuaran_rs.Tree.{Wire, Node, id_of, kind_of, Nodes, to_list}
use fuaran_rs.Tree.Walk.{layout_children, ids}
use fuaran_rs.Tree.Focus.{find_node, find_layout_parent}
use fuaran_rs.Ops.{TreeOp, batch, insert_child, move_node, reorder_children, Ops, done, then_op}
use fuaran_rs.Ops.Structural.{is_ancestor, same_texts}

pub data Placement : Type 0 where
  last first : Placement
  before after : String → Placement

pub record Target : Type 0 where
  pub parent_id : String
  pub placement : Placement

pub data PlaceError : Type 0 where
  parent_not_found childless_kind node_not_found unknown_anchor : String → PlaceError
  duplicate_id move_into_self cannot_nudge_root : String → PlaceError
  move_into_descendant : String → String → PlaceError
  nudge_out_of_range : String → ℤ → PlaceError

abbrev pub Placing {ℓ} : Type ℓ → Type ℓ
Placing T = Result PlaceError T

abbrev pub require {ℓ} : {A : Type ℓ} → Option A → PlaceError → Placing A
require none e = err e
require (some a) e = ok a

-- `iter().position(..)`
unfoldable pub position : String → List String → Option ℕ
position x [] = none
position x (y ∷ ys) =
    let rest = position x ys in if y == x then some 0 else and_then rest (λ i. some (suc i))

-- The siblings without the node.
unfoldable pub others : String → List String → List String
others moved [] = []
others moved (i ∷ is) = let rest = others moved is in if i == moved then rest else i ∷ rest

abbrev pub anchored : String → List String → String → ℕ → Placing (List String)
anchored moved rest anchor offset = do
  i ← require (position anchor rest) (unknown_anchor anchor)
  ok (insert_at (i + offset) moved rest)

abbrev pub place_in : String → List String → Placement → Placing (List String)
place_in moved rest last = ok (rest ++ (moved ∷ []))
place_in moved rest first = ok (insert_at 0 moved rest)
place_in moved rest (before anchor) = anchored moved rest anchor 0
place_in moved rest (after anchor) = anchored moved rest anchor 1

unfoldable pub reposition : List String → String → Placement → Placing (List String)
unfolding others position
reposition order moved placement = place_in moved (others moved order) placement

unfoldable pub membership_with : List String → String → List String
unfolding others
membership_with siblings moved = others moved siblings ++ (moved ∷ [])

-- An id shared is refused by name.
abbrev pub refuse_shared : Option String → Placing (Unit {0})
refuse_shared none = ok tt
refuse_shared (some dup) = err (duplicate_id dup)

-- `index + delta`, where it is an index of the list.
abbrev pub shifted : ℕ → ℤ → ℕ → Option ℕ
shifted index (pos d) len = if ltb (index + d) len then some (index + d) else none
shifted index (negsuc d) len =
    if ltb d index then (if ltb (index - suc d) len then some (index - suc d) else none) else none

abbrev pub swap : List String → ℕ → ℕ → List String
swap xs i j = elim (get_elem? xs i) [
  | none ↦ xs
  | some x ↦ elim (get_elem? xs j) [ none ↦ xs | some y ↦ set (set xs i y) j x ]
]

module _ {W : Wire} where
  unfoldable pub container_children : Node W → String → Placing (List String)
  container_children root parent_id = do
    parent ← require (find_node root parent_id) (parent_not_found parent_id)
    children ← require (layout_children (kind_of parent)) (childless_kind parent_id)
    ok (map id_of (to_list children))

  abbrev pub structurally_present : Node W → String → Bool
  structurally_present root node_id =
      id_of root == node_id || is_some (find_layout_parent root node_id)

  abbrev pub first_shared_id : Node W → Node W → Option String
  first_shared_id root incoming = find (λ i. contains i (ids root)) (ids incoming)

  unfoldable pub can_place : Node W → String → Target → Placing (Unit {0})
  unfolding container_children reposition membership_with is_ancestor
  can_place root moved target = do
    reject_if (not (structurally_present root moved)) (node_not_found moved)
    reject_if (target.parent_id == moved) (move_into_self moved)
    reject_if (is_ancestor moved target.parent_id root)
        (move_into_descendant moved target.parent_id)
    siblings ← container_children root target.parent_id
    _ ← reposition (membership_with siblings moved) moved target.placement
    ok tt

  -- The reorder leg is dropped where appending gives the wanted order.
  abbrev pub with_order : TreeOp W → String → List String → List String → TreeOp W
  with_order op parent_id appended wanted =
      if same_texts wanted appended
      then op
      else batch (then_op op (then_op (reorder_children wanted parent_id) done))

  unfoldable pub place_op : Node W → Node W → Target → Placing (TreeOp W)
  unfolding container_children reposition membership_with same_texts
  place_op root child target = do
    siblings ← container_children root target.parent_id
    refuse_shared (first_shared_id root child)
    let appended = membership_with siblings (id_of child)
    wanted ← reposition appended (id_of child) target.placement
    ok (with_order (insert_child child target.parent_id) target.parent_id appended wanted)

  unfoldable pub move_op : Node W → String → Target → Placing (TreeOp W)
  unfolding can_place container_children reposition membership_with same_texts
  move_op root moved target = do
    can_place root moved target
    siblings ← container_children root target.parent_id
    let appended = membership_with siblings moved
    wanted ← reposition appended moved target.placement
    ok (with_order (move_node target.parent_id moved) target.parent_id appended wanted)

  -- A layout parent has a children list that holds the node: the two `expect`s are met.
  unfoldable pub nudge_op : Node W → String → ℤ → Placing (TreeOp W)
  unfolding position
  nudge_op root node_id delta = do
    reject_if (id_of root == node_id) (cannot_nudge_root node_id)
    parent ← require (find_layout_parent root node_id) (node_not_found node_id)
    children ← require (layout_children (kind_of parent)) (node_not_found node_id)
    let siblings = map id_of (to_list children)
    index ← require (position node_id siblings) (node_not_found node_id)
    to ← require (shifted index delta (length siblings)) (nudge_out_of_range node_id delta)
    ok (reorder_children (swap siblings index to) (id_of parent))
