-- ===== src/Placement/Insert.antt =====
-- What the ops of a placement do when they are applied (src/ops/placement.rs, `place_op`, with the
-- insert and the reorder of src/ops/mod.rs).
use fuaran_rs.Prelude.{
  append-nil, eq_iff, ◌==◌, ◌≤◌, ◌≡◌, refl, sym, ap, ◌∙◌, subst, String, false, Bool-cases, inl,
  inr, some, List, [], ◌∷◌, ◌++◌, map, any, arith,
}
use fuaran_rs.Prelude.Outcome.{ok}
use fuaran_rs.Prelude.Counts.{count, count-append, contains, count_disjoint}
use fuaran_rs.Tree.{Wire, Node, Nodes, to_list, of_list, id_of}
use fuaran_rs.Tree.Walk.{ids}
use fuaran_rs.Tree.Focus.{find_node, find_node_mut}
use fuaran_rs.Ops.{TreeOp, batch, insert_child, reorder_children, Telemetry, done, then_op}
use fuaran_rs.Ops.Structural.{push, pick, sort}
use fuaran_rs.Ops.Apply.{Tables, apply_simple, apply_one, apply_batch, noted}
use fuaran_rs.Placement.{Target, membership_with}
use fuaran_rs.Ops.Unique.{IsUnique}
use fuaran_rs.Placement.Whole.{pick-Around}
use fuaran_rs.Placement.Order.{IsOrder, sort-moved, Ordered}
use fuaran_rs.Placement.Slot.{
  others-fresh, map-push, list_of_list, pick-ids, id-counted, child_ids, siblings_le, children_of,
  children_of-layout, list-push, Slot, child_ids-layout, find-Slot, refilled, refilled-Slot,
  refilled-put, refilled-parent, insert-ok, reorder-ok, siblings_fresh,
}

-- The op gives a tree that is the tree with its parent replaced, under which the children that it had
-- stand whole and in their order, and the new node once among them, where the placement says.
pub record Installs {W : Wire} (T : Tables W) (root child : Node W) (target : Target)
    (op : TreeOp W) : Type 0 where
  pub tree : Node W
  pub telemetry : List Telemetry
  pub applies : apply_one T op (root, []) ≡ ok (tree, telemetry)
  pub parent : Node W
  pub parent_now : Node W
  pub put : Node W → Node W
  pub found : find_node_mut root target.parent_id ≡ some (parent, put)
  pub replaced : tree ≡ put parent_now
  pub found_now : find_node tree target.parent_id ≡ some parent_now
  pub order : Ordered (child_ids parent) (child_ids parent_now) (id_of child) target.placement
  pub ahead : List (Node W)
  pub behind : List (Node W)
  pub held : children_of parent ≡ ahead ++ behind
  pub holds : children_of parent_now ≡ ahead ++ (child ∷ behind)

module _ {W : Wire} (T : Tables W) (root child : Node W) (target : Target) where
  module _ {ns : Nodes W} (q : Slot root target.parent_id ns)
      (fresh : any (λ i. contains i (ids root)) (ids child) ≡ false) (unique : IsUnique root) where
    abbrev pub siblings : List String
    siblings = map id_of (to_list ns)

    abbrev pub one_more : Nodes W
    one_more = push ns child

    pub child_absent : count (id_of child) siblings ≡ 0
    child_absent =
        siblings_fresh q (id_of child)
          (count_disjoint (id_of child) (ids child) (ids root) fresh (id-counted child))

    pub membership-appended :
        membership_with siblings (id_of child) ≡ siblings ++ (id_of child ∷ [])
    unfolding membership_with
    membership-appended =
        ap (λ l. l ++ (id_of child ∷ [])) (others-fresh (id_of child) siblings child_absent)

    appended_now : map id_of (to_list one_more) ≡ siblings ++ (id_of child ∷ [])
    appended_now = map-push ns child

    slot_children :
        {t : Node W} {x : String} {ms : Nodes W} (r : Slot t x ms)
        → child_ids r.parent ≡ map id_of (to_list ms)
    slot_children r = child_ids-layout r.parent r.layout_kind r.spec _ r.is_layout

    slot_nodes :
        {t : Node W} {x : String} {ms : Nodes W} (r : Slot t x ms)
        → children_of r.parent ≡ to_list ms
    slot_nodes r = children_of-layout r.parent r.layout_kind r.spec _ r.is_layout

    -- No two of the children have one id, the new one among them.
    once : (i : String) → count i (map id_of (to_list ns ++ (child ∷ []))) ≤ 1
    once i =
        let named = ap (count i) (ap (map id_of) (sym (list-push ns child)) ∙ appended_now) in
        let parts = count-append i siblings (id_of child ∷ []) in
        elim (Bool-cases (id_of child == i)) [
          | inl e ↦
              let w = ap (λ j. count j siblings) ((eq_iff (id_of child) i).0 e) in
              ground (arith, named, parts, w, child_absent)
          | inr e ↦ ground (arith, named, parts, siblings_le q i, unique i)
        ]

    insert_applies :
        apply_one T (insert_child child target.parent_id) (root, [])
        ≡ ok (refilled q one_more, noted (insert_child child target.parent_id))
    unfolding apply_one apply_simple
    insert_applies = rw (insert-ok q child fresh) refl

    -- Where appending is the order wanted, the insert alone is the op.
    pub bare-Installs :
        (wanted : List String)
        → Ordered siblings wanted (id_of child) target.placement
        → wanted ≡ siblings ++ (id_of child ∷ [])
        → Installs T root child target (insert_child child target.parent_id)
    bare-Installs wanted o w =
        let r = refilled-Slot q one_more in
        record {
          tree = refilled q one_more;
          telemetry = noted (insert_child child target.parent_id);
          applies = insert_applies;
          parent = q.parent;
          parent_now = r.parent;
          put = q.put;
          found = q.found;
          replaced = refilled-parent q one_more;
          found_now = find-Slot r;
          ahead = to_list ns;
          behind = [];
          held = slot_nodes q ∙ sym (append-nil (to_list ns));
          holds = slot_nodes r ∙ list-push ns child;
          order =
              subst (λ l. Ordered l (child_ids r.parent) (id_of child) target.placement)
                (sym (slot_children q))
                (subst (λ l. Ordered siblings l (id_of child) target.placement)
                  (w ∙ sym (slot_children r ∙ appended_now)) o);
        }

    module _ (le : IsOrder T.ordinal_le) (wanted : List String)
        (o : Ordered siblings wanted (id_of child) target.placement) where
      same_order : sort T.ordinal_le (map id_of (to_list one_more)) ≡ sort T.ordinal_le wanted
      same_order =
          ap (sort T.ordinal_le) (appended_now ∙ ap (λ l. l ++ (id_of child ∷ [])) o.around)
          ∙ sym (sort-moved T.ordinal_le le (id_of child) o.pre o.post)
          ∙ ap (sort T.ordinal_le) (sym o.stated)

      wanted_there : (i : String) → 1 ≤ count i wanted → 1 ≤ count i (map id_of (to_list one_more))
      wanted_there i h = omega (
        arith,
        h,
        ap (count i) o.stated,
        ap (count i) o.around,
        ap (count i) appended_now,
        count-append i o.pre o.post,
        count-append i o.pre (id_of child ∷ o.post),
        count-append i siblings (id_of child ∷ []),
      )

      abbrev reordered : Nodes W
      reordered = of_list (pick (to_list one_more) wanted)

      wanted_now : map id_of (to_list reordered) ≡ wanted
      wanted_now =
          ap (map id_of) (list_of_list (pick (to_list one_more) wanted))
          ∙ pick-ids (to_list one_more) wanted wanted_there

      abbrev pub both : TreeOp W
      both = batch (
          then_op (insert_child child target.parent_id)
            (then_op (reorder_children wanted target.parent_id) done))

      abbrev both_noted : List Telemetry
      both_noted =
          noted (insert_child child target.parent_id)
          ++ noted {W = W} (reorder_children wanted target.parent_id)

      -- The insert and the reorder, one after the other.
      both_apply :
          apply_one T both (root, [])
          ≡ ok (refilled (refilled-Slot q one_more) reordered, both_noted)
      unfolding apply_one apply_batch apply_simple
      both_apply =
          rw (insert-ok q child fresh)
            (rw (reorder-ok (refilled-Slot q one_more) T.ordinal_le wanted same_order) refl)

      pub both-Installs : Installs T root child target both
      both-Installs =
          let r = refilled-Slot (refilled-Slot q one_more) reordered in
          let (ahead_now, behind_now, split, picked) =
            pick-Around (to_list ns) child o.pre o.post o.around once in
          let picked_now : to_list reordered ≡ ahead_now ++ (child ∷ behind_now) =
            list_of_list (pick (to_list one_more) wanted)
            ∙ (λ i. pick (list-push ns child i) (o.stated i))
            ∙ picked in
          record {
            tree = refilled (refilled-Slot q one_more) reordered;
            telemetry = both_noted;
            applies = both_apply;
            parent = q.parent;
            parent_now = r.parent;
            put = q.put;
            found = q.found;
            replaced =
                refilled-parent (refilled-Slot q one_more) reordered
                ∙ ap (λ f. f r.parent) (refilled-put q one_more);
            found_now = find-Slot r;
            ahead = ahead_now;
            behind = behind_now;
            held = slot_nodes q ∙ split;
            holds = slot_nodes r ∙ picked_now;
            order =
                subst (λ l. Ordered l (child_ids r.parent) (id_of child) target.placement)
                  (sym (slot_children q))
                  (subst (λ l. Ordered siblings l (id_of child) target.placement)
                    (sym (slot_children r ∙ wanted_now)) o);
          }
