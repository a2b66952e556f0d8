-- ===== src/Ops/Unique.antt =====
-- Node ids stay unique under `apply` (src/ops/mod.rs): every op adds at most the ids that it installs,
-- and an op after which an installed id stands twice is refused.
use fuaran_rs.Prelude.{
  ℕ, ◌+◌, ◌≤◌, String, ◌≡◌, refl, ap, ◌∙◌, Bool, true, false, not, ◌&&◌, ◌||◌, List, [], ◌∷◌, ◌++◌,
  arith, any, if◌then◌else◌, subst, inl, inr, Bool-cases, ltb,
}
use fuaran_rs.Prelude.Counts.{count, count-append, any-count}
use fuaran_rs.Tree.{Wire, Node}
use fuaran_rs.Tree.Walk.{ids}
use fuaran_rs.Ops.{
  AResult, ok, err, ◌>>=◌, >>=-eq-ok, require-eq-ok, refuse-eq-ok, ok-injective, Telemetry, TreeOp,
  batch, edit_node, insert_child, move_node, patch_style, remove_node, reorder_children,
  replace_binding, replace_root, update_accessibility, update_prop, update_state, update_style,
  update_tooltip, Ops, done, then_op,
}
use fuaran_rs.Ops.Apply.{
  Tables, KeepsChildren, apply_simple, abort_batch, apply_one, apply_batch, inserted_nodes,
  is_empty, repeats, op_can_grow, check_tree_limits, check_installed_ids, apply, inserted_by, noted,
}
use fuaran_rs.Ops.Ids.{
  occurs, ids_all, count-ids_all, count-ids_kind, occurs-insert, occurs-remove, occurs-move,
}
use fuaran_rs.Ops.Reorder.{occurs-reorder}
use fuaran_rs.Ops.Edits.{
  installed, occurs-edit, occurs-traits, occurs-with_state, occurs-set_kind, occurs-Rewritten,
  prop-Rewritten, binding-Rewritten,
}

abbrev pub IsUnique : {W : Wire} → Node W → Type 0
IsUnique t = (x : String) → occurs x t ≤ 1

unfoldable mutual
  -- No `ReorderChildren` among the ops, at any depth.
  pub reorders : {W : Wire} → TreeOp W → Bool
  reorders (reorder_children new_order parent_id) = true
  reorders (batch ops) = any_reorders ops
  reorders _ = false

  pub any_reorders : {W : Wire} → Ops W → Bool
  any_reorders done = false
  any_reorders (then_op op ops) = reorders op || any_reorders ops

pub abort_batch-ok :
    {A : Type 0} (i : ℕ) (m : AResult A) {a : A} → abort_batch i m ≡ ok a → m ≡ ok a
abort_batch-ok i (ok a) h = h
abort_batch-ok i (err e) h = cc

pub state-injective :
    {W : Wire} {a b : Node W × List Telemetry}
    → ◌≡◌ {A = AResult (Node W × List Telemetry)} (ok a) (ok b)
    → a ≡ b
state-injective h = ok-injective h

pub or-false : (a b : Bool) → (a || b) ≡ false → (a ≡ false) × (b ≡ false)
or-false true b h = cc
or-false false b h = (refl, h)

-- A single `ReorderChildren`, or an op with none in it. (Inside a batch a reorder may meet siblings
-- with one id, which a later op of the batch removes.)
abbrev pub IsCovered : {W : Wire} → TreeOp W → Type 0
IsCovered (reorder_children new_order parent_id) = Unit
IsCovered op = reorders op ≡ false

module _ {W : Wire} (x : String) (T : Tables W) (keeps : KeepsChildren T) where
  -- One op adds to a tree at most the ids that it installs.
  occurs-simple :
      (op : TreeOp W) (t t' : Node W)
      → reorders op ≡ false
      → apply_simple T op t ≡ ok t'
      → occurs x t' ≤ occurs x t + installed x op
  unfolding apply_simple inserted_nodes reorders
  occurs-simple (batch ops) t t' r h = let e = ap (occurs x) (ok-injective h) in omega (arith, e)
  occurs-simple (edit_node k target) t t' r h =
      let (n, found, e) = occurs-set_kind x t target k (require-eq-ok _ _ h) in
      omega (arith, e, count-ids_kind x k)
  occurs-simple (insert_child child parent_id) t t' r h =
      omega (arith, occurs-insert x child parent_id t t' h, count-append x (ids child) [])
  occurs-simple (move_node new_parent_id target) t t' r h =
      omega (arith, occurs-move x new_parent_id target t t' h)
  occurs-simple (patch_style d target) t t' r h = omega (arith, occurs-traits x _ target t t' h)
  occurs-simple (remove_node target) t t' r h = omega (arith, occurs-remove x target t t' h)
  occurs-simple (reorder_children new_order parent_id) t t' r h = cc
  occurs-simple (replace_binding b slot target) t t' r h =
      omega (arith, occurs-Rewritten x (binding-Rewritten T keeps b slot target t t' h))
  occurs-simple (replace_root n) t t' r h =
      let e = ap (occurs x) (ok-injective h) in omega (arith, e, count-append x (ids n) [])
  occurs-simple (update_accessibility a target) t t' r h =
      omega (arith, occurs-traits x _ target t t' h)
  occurs-simple (update_prop path target value) t t' r h =
      omega (arith, occurs-Rewritten x (prop-Rewritten T keeps path target value t t' h))
  occurs-simple (update_state s target) t t' r h =
      let (n, e) = occurs-edit x _ target t t' h in omega (arith, e, occurs-with_state x s n)
  occurs-simple (update_style s target) t t' r h = omega (arith, occurs-traits x _ target t t' h)
  occurs-simple (update_tooltip target tip) t t' r h =
      omega (arith, occurs-traits x _ target t t' h)

  simple-one :
      (op : TreeOp W) (s s' : Node W × List Telemetry)
      → reorders op ≡ false
      → (do t ← apply_simple T op s.0; ok (t, s.1 ++ noted op)) ≡ ok s'
      → occurs x s'.0 ≤ occurs x s.0 + installed x op
  simple-one op s s' r h =
      let (t, e, h1) = >>=-eq-ok (apply_simple T op s.0) _ h in
      let w : occurs x t ≡ occurs x s'.0 =
        ap (λ (p : Node W × List Telemetry). occurs x p.0) (state-injective h1) in
      omega (arith, w, occurs-simple op s.0 t r e)

  mutual
    unfolding apply_one inserted_nodes reorders

    occurs-one :
        (op : TreeOp W) (s s' : Node W × List Telemetry)
        → reorders op ≡ false
        → apply_one T op s ≡ ok s'
        → occurs x s'.0 ≤ occurs x s.0 + installed x op
    occurs-one (batch ops) s s' r h = occurs-batch ops 0 s s' r h
    occurs-one op s s' r h = simple-one op s s' r h

    occurs-batch :
        (ops : Ops W) (i : ℕ) (s s' : Node W × List Telemetry)
        → any_reorders ops ≡ false
        → apply_batch T ops i s ≡ ok s'
        → occurs x s'.0 ≤ occurs x s.0 + count x (ids_all (inserted_by ops))
    occurs-batch done i s s' r h =
        let w = ap (λ (p : Node W × List Telemetry). occurs x p.0) (state-injective h) in
        omega (arith, w)
    occurs-batch (then_op op ops) i s s' r h =
        let (s1, e, h1) = >>=-eq-ok (abort_batch i (apply_one T op s)) _ h in
        let (r1, r2) = or-false (reorders op) (any_reorders ops) r in
        omega (
          arith,
          occurs-one op s s1 r1 (abort_batch-ok i _ e),
          occurs-batch ops (i + 1) s1 s' r2 h1,
          count-ids_all x (inserted_nodes op) (inserted_by ops),
        )

-- An id that one of the installed nodes holds is counted among the installed.
refused_repeat :
    {W : Wire} (x : String) (ns : List (Node W)) (result : Node W)
    → any (repeats (ids result)) ns ≡ false
    → 1 ≤ count x (ids_all ns)
    → occurs x result ≤ 1
unfolding repeats
refused_repeat x [] result h c = absurd (omega arith)
refused_repeat x (n ∷ ns) result h c =
    let (h1, h2) = or-false (repeats (ids result) n) (any (repeats (ids result)) ns) h in
    let split = count-append x (ids n) (ids_all ns) in
    elim (Bool-cases (ltb 0 (count x (ids n)))) [
      | inl e ↦
          ground
            (arith, any-count (λ id. ltb 1 (count id (ids result))) x (ids n) h1 (ground arith))
      | inr e ↦ refused_repeat x ns result h2 (ground (arith, split))
    ]

module _ {W : Wire} (T : Tables W) where
  -- What a successful `apply` has passed.
  pub record Applied (t : Node W) (op : TreeOp W) (t' : Node W) (telem : List Telemetry)
      : Type 0 where
    pub one : apply_one T op (t, []) ≡ ok (t', telem)
    pub limits : (if op_can_grow op then check_tree_limits t' else ok tt) ≡ ok tt
    pub unrepeated :
        (not (is_empty (inserted_nodes op)) && any (repeats (ids t')) (inserted_nodes op)) ≡ false

  pub apply-Applied :
      (t : Node W) (op : TreeOp W) (t' : Node W) (telem : List Telemetry)
      → apply T t op ≡ ok (t', telem)
      → Applied t op t' telem
  unfolding apply check_installed_ids
  apply-Applied t op t' telem h =
      let ((t1, telem1), e, h1) = >>=-eq-ok (apply_one T op (t, [])) _ h in
      let (u, l, h2) = >>=-eq-ok (if op_can_grow op then check_tree_limits t1 else ok tt) _ h1 in
      let (v, i, h3) = >>=-eq-ok (check_installed_ids (inserted_nodes op) t1) _ h2 in
      let same = state-injective h3 in
      let t≡ : t1 ≡ t' = ap (λ (p : Node W × List Telemetry). p.0) same in
      record {
        one = e ∙ ap ok same;
        limits = subst (λ m. (if op_can_grow op then check_tree_limits m else ok tt) ≡ ok tt) t≡ l;
        unrepeated =
            subst
              (λ m.
                (not (is_empty (inserted_nodes op)) && any (repeats (ids m)) (inserted_nodes op))
                ≡ false)
              t≡ (refuse-eq-ok _ _ i);
      }

  Applied-unrepeated :
      (op : TreeOp W) {t t' : Node W} {telem : List Telemetry} (x : String)
      → Applied t op t' telem
      → occurs x t' ≤ 1 + installed x op
      → occurs x t' ≤ 1
  Applied-unrepeated op {t} {t'} x a bound = go (inserted_nodes op) a.unrepeated bound
    where
      go :
          (ns : List (Node W))
          → (not (is_empty ns) && any (repeats (ids t')) ns) ≡ false
          → occurs x t' ≤ 1 + count x (ids_all ns)
          → occurs x t' ≤ 1
      go [] h b = b
      go (n ∷ ns) h b = elim (Bool-cases (ltb 0 (count x (ids_all (n ∷ ns))))) [
        | inl e ↦ refused_repeat x (n ∷ ns) t' h (ground arith)
        | inr e ↦ ground arith
      ]

  pub one-simple :
      (op : TreeOp W) (s s' : Node W × List Telemetry)
      → (do t ← apply_simple T op s.0; ok (t, s.1 ++ noted op)) ≡ ok s'
      → apply_simple T op s.0 ≡ ok s'.0
  one-simple op s s' h =
      let (t, e, h1) = >>=-eq-ok (apply_simple T op s.0) _ h in
      e ∙ ap (λ (p : Node W × List Telemetry). ok p.0) (state-injective h1)

  -- From a tree with unique ids, a successful `apply` gives a tree with unique ids.
  pub apply-IsUnique :
      (t : Node W) (op : TreeOp W) (t' : Node W) (telem : List Telemetry)
      → KeepsChildren T
      → IsUnique t
      → IsCovered op
      → apply T t op ≡ ok (t', telem)
      → IsUnique t'
  unfolding apply_one apply_simple reorders
  apply-IsUnique t (reorder_children new_order parent_id) t' telem keeps unique c h x =
      let a = apply-Applied t _ t' telem h in
      let e = one-simple (reorder_children new_order parent_id) (t, []) (t', telem) a.one in
      omega (arith, unique x, occurs-reorder x T.ordinal_le new_order parent_id t t' unique e)
  apply-IsUnique t op t' telem keeps unique c h x =
      let a = apply-Applied t op t' telem h in
      Applied-unrepeated op x a
        (omega (arith, unique x, occurs-one x T keeps op (t, []) (t', telem) c a.one))
