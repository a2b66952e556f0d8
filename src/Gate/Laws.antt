-- ===== src/Gate/Laws.antt =====
-- What the gate grants: exactly the calls and the mounts whose capabilities are all granted, but for
-- what a question's continuations call.
use fuaran_rs.Prelude.{
  String, ◌≡◌, refl, sym, ap, ◌∙◌, Bool, true, false, not, ◌&&◌, ◌||◌, List, [], ◌∷◌, ◌++◌, filter,
  eq_iff, eq_refl, ◌==◌, arith, Bool-cases, inl, inr,
}
use fuaran_rs.Prelude.Counts.{contains}
use fuaran_rs.Prelude.Ordered.{set_extend, set_of, contains-set_extend}
use fuaran_rs.Gate.{
  Action, chain, invoke, confirm, confirm_or, Actions, no_action, then_action, allow, deny,
  is_allowed, CapabilityGate, allows, decide_missing, missing_of, decide_mount, decide_action,
  chain_missing, decide_capability,
}

-- The capabilities that an action calls, through chains.
unfoldable mutual
  pub calls : Action → List String
  calls (invoke cap) = cap ∷ []
  calls (chain actions) = calls_all actions
  calls _ = []

  pub calls_all : Actions → List String
  calls_all no_action = []
  calls_all (then_action a actions) = calls a ++ calls_all actions

and_false : (a : Bool) → false ≡ (a && false)
and_false true = refl
and_false false = refl

pub or_and_false : (a b : Bool) → a ≡ (a || (b && false))
or_and_false true b = refl
or_and_false false true = refl
or_and_false false false = refl

pub or_factor : (m n a r : Bool) → ((m || (n && a)) || (n && r)) ≡ (m || (n && (a || r)))
or_factor true n a r = refl
or_factor false true a r = refl
or_factor false false a r = refl

missing-decide_capability :
    (g : CapabilityGate) (c cap : String)
    → contains cap (missing_of (decide_capability g c))
      ≡ (not (allows g cap) && contains cap (c ∷ []))
missing-decide_capability g c cap = elim (Bool-cases (c == cap)) [
  | inl e ↦
      let w : allows g c ≡ allows g cap = ap (allows g) ((eq_iff c cap).0 e) in ground (arith, w)
  | inr e ↦ ground arith
]

pub missing-decide : (missing : List String) → missing_of (decide_missing missing) ≡ missing
missing-decide [] = refl
missing-decide (x ∷ xs) = refl

pub contains-append :
    (z : String) (xs ys : List String) → contains z (xs ++ ys) ≡ (contains z xs || contains z ys)
contains-append z [] ys = refl
contains-append z (x ∷ xs) ys =
    ap (λ b. (x == z) || b) (contains-append z xs ys)
    ∙ or_assoc (x == z) (contains z xs) (contains z ys)
  where
    or_assoc : (a b c : Bool) → (a || (b || c)) ≡ ((a || b) || c)
    or_assoc true b c = refl
    or_assoc false b c = refl

contains-filter :
    (p : String → Bool) (z : String) (xs : List String)
    → contains z (filter p xs) ≡ (p z && contains z xs)
contains-filter p z [] = and_false (p z)
contains-filter p z (x ∷ xs) = elim (Bool-cases (x == z)) [
  | inl e ↦ let w : p x ≡ p z = ap p ((eq_iff x z).0 e) in ground (arith, w, contains-filter p z xs)
  | inr e ↦ ground (arith, contains-filter p z xs)
]

-- A mount is refused for exactly those of its capabilities that are not granted.
pub missing-decide_mount :
    (g : CapabilityGate) (capabilities : List String) (cap : String)
    → contains cap (missing_of (decide_mount g capabilities))
      ≡ (not (allows g cap) && contains cap capabilities)
unfolding decide_mount
missing-decide_mount g caps cap =
    ap (contains cap) (missing-decide (set_of (filter (λ c. not (allows g c)) caps)))
    ∙ contains-set_extend cap [] (filter (λ c. not (allows g c)) caps)
    ∙ contains-filter (λ c. not (allows g c)) cap caps

mutual
  unfolding decide_action calls

  missing-action :
      (g : CapabilityGate) (a : Action) (cap : String)
      → contains cap (missing_of (decide_action g a))
        ≡ (not (allows g cap) && contains cap (calls a))
  missing-action g (invoke c) cap = missing-decide_capability g c cap
  missing-action g (chain actions) cap =
      ap (contains cap) (missing-decide (chain_missing g [] actions))
      ∙ missing-chain g [] actions cap
  missing-action g a cap = and_false (not (allows g cap))

  missing-chain :
      (g : CapabilityGate) (missing : List String) (actions : Actions) (cap : String)
      → contains cap (chain_missing g missing actions)
        ≡ (contains cap missing || (not (allows g cap) && contains cap (calls_all actions)))
  missing-chain g m no_action cap = or_and_false (contains cap m) (not (allows g cap))
  missing-chain g m (then_action a actions) cap =
      missing-chain g (set_extend m (missing_of (decide_action g a))) actions cap
      ∙ ap (λ b. b || (not (allows g cap) && contains cap (calls_all actions)))
          (contains-set_extend cap m (missing_of (decide_action g a))
            ∙ ap (λ b. contains cap m || b) (missing-action g a cap))
      ∙ or_factor (contains cap m) (not (allows g cap)) (contains cap (calls a))
          (contains cap (calls_all actions))
      ∙ ap (λ b. contains cap m || (not (allows g cap) && b))
          (sym (contains-append cap (calls a) (calls_all actions)))

-- An action is refused for exactly those of the capabilities it calls, itself or in a chain, that are
-- not granted.
pub missing-decide_action :
    (g : CapabilityGate) (a : Action) (cap : String)
    → contains cap (missing_of (decide_action g a)) ≡ (not (allows g cap) && contains cap (calls a))
missing-decide_action g a cap = missing-action g a cap

-- Every capability that an action can come to call, a question's continuations included.
unfoldable mutual
  pub reaches : Action → List String
  reaches (invoke cap) = cap ∷ []
  reaches (chain actions) = reaches_all actions
  reaches (confirm a) = reaches a
  reaches (confirm_or a b) = reaches a ++ reaches b
  reaches _ = []

  pub reaches_all : Actions → List String
  reaches_all no_action = []
  reaches_all (then_action a actions) = reaches a ++ reaches_all actions

pub record Escape (g : CapabilityGate) (cap : String) : Type 0 where
  pub action : Action
  pub accepted : is_allowed (decide_action g action) ≡ true
  pub escapes : contains cap (reaches action) ≡ true
  pub refused_alone : is_allowed (decide_action g (invoke cap)) ≡ false

-- A gate that has not granted a capability accepts an action that can come to call it: the gate does
-- not look into the continuations of a question.
pub decide_action-Escape : (g : CapabilityGate) (cap : String) → allows g cap ≡ false → Escape g cap
unfolding decide_action reaches
decide_action-Escape g cap h = record {
  action = confirm (invoke cap);
  accepted = refl;
  escapes = rw (eq_refl cap) refl;
  refused_alone = ap (λ b. is_allowed (elim b [ true ↦ allow | false ↦ deny (cap ∷ []) ])) h;
}
