-- ===== src/Placement/Clone/Verbs.antt =====
-- The clone verbs (src/ops/placement.rs, `paste_op_with`, `duplicate_op_with`): what is placed is a copy
-- whose ids are new to the tree.
use fuaran_rs.Prelude.{
  some-injective, and_then, ◌≡◌, refl, sym, ap, ◌∙◌, String, true, false, Option-cases, inl, inr,
  Option, none, some, map, ◌==◌, arith,
}
use fuaran_rs.Prelude.Counts.{contains}
use fuaran_rs.Prelude.Outcome.{err, ok}
use fuaran_rs.Tree.{Wire, Node, id_of}
use fuaran_rs.Tree.Walk.{ids}
use fuaran_rs.Tree.Focus.{find_node, find_node_mut}
use fuaran_rs.Tree.Focus.Find.{focus-Fits, found_node-inv}
use fuaran_rs.Ops.Ids.{occurs-found}
use fuaran_rs.Ops.Unique.{IsUnique}
use fuaran_rs.Ops.{TreeOp}
use fuaran_rs.Ops.Apply.{Tables}
use fuaran_rs.Placement.Order.{IsOrder}
use fuaran_rs.Placement.Granted.{Granted, place_op-Granted}
use fuaran_rs.Placement.{Target, Placing, place_op, first_shared_id, node_not_found}
use fuaran_rs.Placement.Clone.{
  FreshIds, renamed_to, renamed, starting, rewritten, remap_for_insert, paste_op_with,
  duplicate_op_with, derived_ids, duplicate_op,
}
use fuaran_rs.Placement.Clone.Rename.{blank_ids}
use fuaran_rs.Placement.Clone.Minters.{Mints, derived_ids-Mints}
use fuaran_rs.Placement.Clone.Loop.{Good, mint_all-Good}
use fuaran_rs.Placement.Clone.Fresh.{
  ids-rewritten, rewritten-blank_ids, clone-unshared, clone-IsUnique, all_known,
}

-- A copy of a subtree for a tree: it differs from the subtree in ids only, its kinds, their specs, the
-- styles, the state surfaces and the fallbacks being those of the subtree, each in its place. The ids
-- are those of the subtree, each by its new name, in the same order; an id that the tree does not hold
-- keeps its name, the copy shares no id with the tree, and its ids are unique where the subtree's are.
pub record IsCopy {W : Wire} (target_root incoming clone : Node W) : Type 0 where
  pub names : String → String
  pub alike : blank_ids clone ≡ blank_ids incoming
  pub named : ids clone ≡ map names (ids incoming)
  pub kept : (x : String) → contains x (ids target_root) ≡ false → names x ≡ x
  pub unshared : first_shared_id target_root clone ≡ none
  pub unique : IsUnique incoming → IsUnique clone

module _ (F : FreshIds) (mints : Mints F) {W : Wire} where
  pub record Remapped (s : F.State) (target_root incoming : Node W) : Type 0 where
    pub clone : Node W
    pub next : F.State
    pub remapped : remap_for_insert F s target_root incoming ≡ some (clone, next)
    pub copy : IsCopy target_root incoming clone

  starting-Good :
      (s : F.State) (target_root incoming : Node W)
      → Good F
          (ids target_root)
          (all_known target_root incoming)
          (λ i. false)
          (starting F s target_root incoming)
  unfolding renamed_to
  starting-Good s target_root incoming = record {
    renames = record {
      new_is_fresh = λ old new h. cc;
      news_differ = λ a b new h k. cc;
      olds_exist = λ old new h. cc;
    };
    covers = λ i h k. cc;
    keeps_known = λ i h. h;
    holds_news = λ old new h. cc;
  }

  remap-Remapped : (s : F.State) (target_root incoming : Node W) → Remapped s target_root incoming
  unfolding remap_for_insert
  remap-Remapped s target_root incoming =
      let (m, q, g) =
        mint_all-Good F mints (ids target_root) (all_known target_root incoming) (ids incoming)
          (λ i. false) (starting F s target_root incoming) (starting-Good s target_root incoming) in
      record {
        clone = rewritten m.rename incoming;
        next = m.state;
        remapped = rw q refl;
        copy = record {
          names = renamed m.rename;
          alike = rewritten-blank_ids m.rename incoming;
          named = ids-rewritten m.rename incoming;
          kept = λ x h. elim (Option-cases (renamed_to x m.rename)) [
            | inl e ↦ rw e refl
            | inr (new, e) ↦
                absurd (let w : false ≡ true = sym h ∙ g.renames.olds_exist x new e in cc)
          ];
          unshared = clone-unshared target_root incoming g.renames g.covers;
          unique = clone-IsUnique target_root incoming g.renames g.covers;
        };
      }

  -- With a minter that keeps its contract a paste ends, and what it hands to the placement is a copy of
  -- the subtree that shares no id with the tree: the subtree itself but for ids that the tree holds. Ids
  -- that were unique in the subtree are unique in the copy.
  pub paste_op_with-IsCopy :
      (s : F.State) (target_root incoming : Node W) (target : Target)
      → (clone : Node W) × (next : F.State) × (paste_op_with F s target_root incoming target
          ≡ some (place_op target_root clone target, next))
        × IsCopy target_root incoming clone
  unfolding paste_op_with
  paste_op_with-IsCopy s target_root incoming target =
      let r = remap-Remapped s target_root incoming in
      (r.clone, r.next, rw (r.remapped) refl, r.copy)

abbrev first_of : {W : Wire} → Option (Placing (TreeOp W) × Unit {0}) → Option (Placing (TreeOp W))
first_of o = and_then o (λ r. some r.0)

module _ {W : Wire} where
  found-IsUnique :
      (root sub : Node W) (source : String)
      → IsUnique root
      → find_node root source ≡ some sub
      → IsUnique sub
  found-IsUnique root sub source u h x =
      let (put, e) = found_node-inv (find_node_mut root source) h in
      omega (arith, u x, occurs-found x (focus-Fits (λ m. id_of m == source) root e))

  module _ (F : FreshIds) (s : F.State) (root : Node W) (source : String) (target : Target) where
    abbrev answered : Option (Node W) → Option (Placing (TreeOp W) × F.State)
    answered o = elim o [
      | none ↦ some (err (node_not_found source), s)
      | some sub ↦ paste_op_with F s root sub target
    ]

    duplicate_missing :
        find_node root source ≡ none
        → duplicate_op_with F s root source target ≡ some (err (node_not_found source), s)
    unfolding duplicate_op_with
    duplicate_missing e = ap answered e

    duplicate_found :
        (sub : Node W)
        → find_node root source ≡ some sub
        → duplicate_op_with F s root source target ≡ paste_op_with F s root sub target
    unfolding duplicate_op_with
    duplicate_found sub e = ap answered e

  -- A duplicate that is granted, in a tree with unique ids and where the ordinal order of texts is
  -- linear: the node is in the tree, and what is placed
  -- is a copy of its subtree, alike but for ids and with unique ids that the tree does not hold. `apply`
  -- carries the op out, unless the tree that it gives is past the limits, and only then refuses it; in
  -- that tree the copy stands whole under the parent, where the placement says.
  pub duplicate_op-Granted :
      (T : Tables W) (root : Node W) (source : String) (target : Target) (op : TreeOp W)
      → IsOrder T.ordinal_le
      → IsUnique root
      → duplicate_op root source target ≡ some (ok op)
      → (sub : Node W) × (clone : Node W) × (find_node root source ≡ some sub)
        × IsCopy root sub clone
        × IsUnique clone
        × Granted T root clone target op
  unfolding duplicate_op
  duplicate_op-Granted T root source target op le u h =
      elim (Option-cases (find_node root source)) [
        | inl e ↦ absurd (
            let w : some (err (node_not_found source)) ≡ some (ok op) =
              sym (ap first_of (duplicate_missing derived_ids tt root source target e)) ∙ h in
            cc)
        | inr (sub, e) ↦
            let (clone, next, q, c) =
              paste_op_with-IsCopy derived_ids derived_ids-Mints tt root sub target in
            let w : some (place_op root clone target) ≡ some (ok op) =
              sym (ap first_of (duplicate_found derived_ids tt root source target sub e ∙ q)) ∙ h in
            let unique = c.unique (found-IsUnique root sub source u e) in
            (
              sub,
              clone,
              e,
              c,
              unique,
              place_op-Granted T root clone target op le u unique (some-injective w),
            )
      ]
