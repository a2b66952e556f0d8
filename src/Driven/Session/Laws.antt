-- ===== src/Driven/Session/Laws.antt =====
-- What a step of a driven session may do, and what it keeps.
use fuaran_rs.Prelude.{
  String, ◌≡◌, refl, sym, ap, ◌∙◌, Bool, true, false, not, Option, none, some, List, subst, inl,
  inr,
}
use fuaran_rs.Prelude.Outcome.{Result, ok, err, >>=-eq-ok, Result-cases, ok-injective, reject_if}
use fuaran_rs.Tree.{Wire, Node, kind_of}
use fuaran_rs.Tree.Introspect.{get_node}
use fuaran_rs.Ops.{AResult, Telemetry, TreeOp, Ops, done, then_op}
use fuaran_rs.Ops.Apply.{Tables, KeepsChildren, apply}
use fuaran_rs.Ops.Unique.{IsUnique, IsCovered, apply-IsUnique}
use fuaran_rs.Ops.Limits.{WithinLimits, apply-WithinLimits}
use fuaran_rs.Gate.{CapabilityGate, GateDecision, allow, deny}
use fuaran_rs.Driven.{Event}
use fuaran_rs.Driven.Session.{
  Session, Reject, legitimate_event, type_name, op_gate_decision, vetted, vet_all, applicable,
  advance, try_step, step, kept, found, dispatched,
}

abbrev pub AllOps : {W : Wire} → (TreeOp W → Type 0) → Ops W → Type 0
AllOps P done = Unit
AllOps P (then_op op ops) = P op × AllOps P ops

-- The tree that ops give, each applied to the tree of the one before.
pub data Applies {W : Wire} (T : Tables W) : Node W → Ops W → Node W → Type 0 where
  at_end : (t : Node W) → Applies T t done t
  one_more :
      (t t' t'' : Node W) (op : TreeOp W) (ops : Ops W) (telem : List Telemetry)
      → apply T t op ≡ ok (t', telem)
      → Applies T t' ops t''
      → Applies T t (then_op op ops) t''

accepted_event :
    {E : Type 0} (b : Bool) (e : E) {u : Unit {0}} → reject_if (not b) e ≡ ok u → b ≡ true
accepted_event true e h = refl
accepted_event false e h = cc

module _ {W : Wire} (T : Tables W) where
  -- What a step that succeeds went through.
  pub record Driven (s : Session W) (ev : Event) (ops : Ops W) (s' : Session W) : Type 0 where
    pub target : Node W
    pub known : get_node s.tree ev.node_id ≡ some target
    pub legitimate : legitimate_event (type_name (kind_of target)) ev.event ≡ true
    pub handled : s.handler s.tree ev ≡ ok ops
    pub granted : AllOps (λ op. op_gate_decision s.gate op ≡ allow) ops
    pub applies : Applies T s.tree ops s'.tree
    pub same_gate : s'.gate ≡ s.gate
    pub same_handler : s'.handler ≡ s.handler

  unfound : (ev : Event) (o : Option (Node W)) {n : Node W} → found ev o ≡ ok n → o ≡ some n
  unfound ev none h = cc
  unfound ev (some n) h = cc

  undispatched :
      (ev : Event) (r : Result String (Ops W)) {ops : Ops W} → dispatched ev r ≡ ok ops → r ≡ ok ops
  undispatched ev (ok ops) h = cc
  undispatched ev (err e) h = cc

  unvetted : (ev : Event) (d : GateDecision) {u : Unit {0}} → vetted ev d ≡ ok u → d ≡ allow
  unvetted ev allow h = refl
  unvetted ev (deny missing) h = cc

  unapplied :
      (ev : Event) (r : AResult (Node W × List Telemetry)) {s : Node W × List Telemetry}
      → applicable ev r ≡ ok s
      → r ≡ ok s
  unapplied ev (ok s) h = cc
  unapplied ev (err e) h = cc

  vet_all-granted :
      (g : CapabilityGate) (ev : Event) (ops : Ops W)
      → vet_all g ev ops ≡ ok tt
      → AllOps (λ op. op_gate_decision g op ≡ allow) ops
  unfolding vet_all
  vet_all-granted g ev done h = tt
  vet_all-granted g ev (then_op op ops) h =
      let (u, e, h1) = >>=-eq-ok (vetted ev (op_gate_decision g op)) _ h in
      (unvetted ev (op_gate_decision g op) e, vet_all-granted g ev ops h1)

  advance-Applies :
      (ev : Event) (t : Node W) (ops : Ops W) (t' : Node W)
      → advance T ev t ops ≡ ok t'
      → Applies T t ops t'
  unfolding advance
  advance-Applies ev t done t' h = subst (λ x. Applies T t done x) (ok-injective h) (at_end t)
  advance-Applies ev t (then_op op ops) t' h =
      let (s, e, h1) = >>=-eq-ok (applicable ev (apply T t op)) _ h in
      one_more t s.0 t' op ops s.1 (unapplied ev (apply T t op) e)
        (advance-Applies ev s.0 ops t' h1)

  kept-ok :
      (s : Session W) (r : Result Reject (Ops W × Session W)) {s' : Session W} {ops : Ops W}
      → kept s r ≡ (s', ok ops)
      → r ≡ ok (ops, s')
  kept-ok s (ok (o, t)) {s'} {ops} h =
      ap (λ x. ok (x, t)) (ok-injective (ap (λ p. p.1) h)) ∙ ap (λ x. ok (ops, x)) (ap (λ p. p.0) h)
  kept-ok s (err e) h = let q = ap (λ p. p.1) h in cc

  -- A step succeeds only where the event is addressed to a node of the tree and is legitimate for its
  -- kind, the handler answers with the ops returned, the gate allows each of them, and they all apply in
  -- turn from the session's tree to the new one. Gate and handler stay.
  pub step-Driven :
      (s : Session W) (ev : Event) (ops : Ops W) (s' : Session W)
      → step T s ev ≡ (s', ok ops)
      → Driven s ev ops s'
  unfolding try_step
  step-Driven s ev ops s' h =
      let k = kept-ok s (try_step T s ev) h in
      let (n, e1, h1) = >>=-eq-ok (found ev (get_node s.tree ev.node_id)) _ k in
      let (u, e2, h2) =
        >>=-eq-ok (reject_if (not (legitimate_event (type_name (kind_of n)) ev.event)) _) _ h1 in
      let (o, e3, h3) = >>=-eq-ok (dispatched ev (s.handler s.tree ev)) _ h2 in
      let (v, e4, h4) = >>=-eq-ok (vet_all s.gate ev o) _ h3 in
      let (t, e5, h5) = >>=-eq-ok (advance T ev s.tree o) _ h4 in
      subst (λ p. Driven s ev p.0 p.1) (ok-injective h5)
        (record {
          target = n;
          known = unfound ev (get_node s.tree ev.node_id) e1;
          legitimate = accepted_event (legitimate_event (type_name (kind_of n)) ev.event) _ e2;
          handled = undispatched ev (s.handler s.tree ev) e3;
          granted = vet_all-granted s.gate ev o e4;
          applies = advance-Applies ev s.tree o t e5;
          same_gate = refl;
          same_handler = refl;
        })

  -- A step that is rejected leaves the session as it was.
  pub step-rejected :
      (s : Session W) (ev : Event) (r : Reject) (s' : Session W)
      → step T s ev ≡ (s', err r)
      → s' ≡ s
  step-rejected s ev r s' h = kept-err (try_step T s ev) h
    where
      kept-err : (q : Result Reject (Ops W × Session W)) → kept s q ≡ (s', err r) → s' ≡ s
      kept-err (ok (o, t)) h = let q = ap (λ p. p.1) h in cc
      kept-err (err e) h = sym (ap (λ p. p.0) h)

  Applies-IsUnique :
      KeepsChildren T
      → {t t' : Node W} {ops : Ops W} → Applies T t ops t'
      → IsUnique t
      → WithinLimits t
      → AllOps IsCovered ops
      → IsUnique t' × WithinLimits t'
  Applies-IsUnique keeps (at_end t) u w c = (u, w)
  Applies-IsUnique keeps (one_more t t' t'' op ops telem e a) u w c =
      Applies-IsUnique keeps a (apply-IsUnique T t op t' telem keeps u c.0 e)
        (apply-WithinLimits T keeps t op t' telem u w c.0 e) c.1

  -- Sessions that steps reach, each step with an event of its own.
  pub data Reaches : Session W → Session W → Type 0 where
    start : (s : Session W) → Reaches s s
    stepped : (s s' : Session W) (ev : Event) → Reaches s s' → Reaches s (step T s' ev).0

  step-keeps :
      KeepsChildren T
      → (s : Session W) (ev : Event)
      → ((t : Node W) (ev : Event) (ops : Ops W) → s.handler t ev ≡ ok ops → AllOps IsCovered ops)
      → IsUnique s.tree × WithinLimits s.tree
      → IsUnique (step T s ev).0.tree × WithinLimits (step T s ev).0.tree
  step-keeps keeps s ev covered i = elim (Result-cases (try_step T s ev)) [
    | inr (r, e) ↦ rw e i
    | inl (p, e) ↦
        let d = step-Driven s ev p.0 p.1 (ap (λ q. kept s q) e) in
        rw e (Applies-IsUnique keeps d.applies i.0 i.1 (covered s.tree ev p.0 d.handled))
  ]

  step-handler : (s : Session W) (ev : Event) → (step T s ev).0.handler ≡ s.handler
  step-handler s ev = elim (Result-cases (try_step T s ev)) [
    | inr (r, e) ↦ rw e refl
    | inl (p, e) ↦ rw e (step-Driven s ev p.0 p.1 (ap (λ q. kept s q) e)).same_handler
  ]

  Reaches-handler : {s s' : Session W} → Reaches s s' → s'.handler ≡ s.handler
  Reaches-handler (start s) = refl
  Reaches-handler (stepped s s' ev r) = step-handler s' ev ∙ Reaches-handler r

  -- In every session that steps reach, the tree has unique ids and stands within the limits, if it did
  -- at the start and the handler answers with ops that the theorems on `apply` cover.
  pub Reaches-IsUnique :
      KeepsChildren T
      → {s s' : Session W} → Reaches s s'
      → ((t : Node W) (ev : Event) (ops : Ops W) → s.handler t ev ≡ ok ops → AllOps IsCovered ops)
      → IsUnique s.tree
      → WithinLimits s.tree
      → IsUnique s'.tree × WithinLimits s'.tree
  Reaches-IsUnique keeps (start s) covered u w = (u, w)
  Reaches-IsUnique keeps (stepped s s' ev r) covered u w =
      step-keeps keeps s' ev
        (λ t ev' ops h. covered t ev' ops (ap (λ f. f t ev') (sym (Reaches-handler r)) ∙ h))
        (Reaches-IsUnique keeps r covered u w)
