-- ===== src/OpStream/Replay/Laws.antt =====
-- A replay in parts, where it stops, and what it keeps.
use fuaran_rs.Prelude.{◌≡◌, refl, ap, List, [], ◌∷◌, ◌++◌, All, subst, inl, inr}
use fuaran_rs.Prelude.Outcome.{
  ok, err, ◌>>=◌, >>=-eq-ok, >>=-assoc, Result-cases, ok-injective, err-injective,
}
use fuaran_rs.Tree.{Wire, Node}
use fuaran_rs.Ops.{AResult, ApplyError, Telemetry}
use fuaran_rs.Ops.Apply.{Tables, KeepsChildren, apply}
use fuaran_rs.Ops.Unique.{IsUnique, IsCovered, apply-IsUnique}
use fuaran_rs.Ops.Limits.{WithinLimits, apply-WithinLimits}
use fuaran_rs.OpStream.Chain.{Spine, OpRecord}
use fuaran_rs.OpStream.Replay.{ReplayError, at_sequence, replay}

module _ {W : Wire} {S : Spine W} (T : Tables W) where
  -- Replaying two runs of records one after the other is replaying the second onto the tree of the first.
  pub replay-append :
      (t : Node W) (xs ys : List (OpRecord S))
      → replay T t (xs ++ ys) ≡ (replay T t xs >>= λ t'. replay T t' ys)
  unfolding replay
  replay-append t [] ys = refl
  replay-append t (r ∷ rs) ys =
      >>=-assoc (at_sequence r.sequence (apply T t r.op)) (λ s. replay T s.0 rs)
        (λ t'. replay T t' ys) (λ s. replay T s.0 (rs ++ ys)) (λ s. replay-append s.0 rs ys)

  -- Where a replay stopped: the records before replay, the next does not apply to the tree they give.
  pub record Stopped (t : Node W) (rs : List (OpRecord S)) (e : ReplayError) : Type 0 where
    pub before : List (OpRecord S)
    pub culprit : OpRecord S
    pub after : List (OpRecord S)
    pub parts : rs ≡ before ++ (culprit ∷ after)
    pub reached : Node W
    pub replayed : replay T t before ≡ ok reached
    pub refused : apply T reached culprit.op ≡ err e.error
    pub named : e.sequence ≡ culprit.sequence

  stops_here :
      (t : Node W) (r : OpRecord S) (rs : List (OpRecord S)) {d : ApplyError} {e : ReplayError}
      → apply T t r.op ≡ err d
      → record { sequence = r.sequence; error = d } ≡ e
      → Stopped t (r ∷ rs) e
  unfolding replay
  stops_here t r rs a q =
      subst (λ e. Stopped t (r ∷ rs) e) q
        (record {
          before = [];
          culprit = r;
          after = rs;
          parts = refl;
          reached = t;
          replayed = refl;
          refused = a;
          named = refl;
        })

  stops_later :
      (t : Node W) (r : OpRecord S) (rs : List (OpRecord S)) (s : Node W × List Telemetry)
      {e : ReplayError}
      → apply T t r.op ≡ ok s
      → Stopped s.0 rs e
      → Stopped t (r ∷ rs) e
  unfolding replay
  stops_later t r rs s a b = record {
    before = r ∷ b.before;
    culprit = b.culprit;
    after = b.after;
    parts = ap (λ xs. r ∷ xs) b.parts;
    reached = b.reached;
    replayed = rw a b.replayed;
    refused = b.refused;
    named = b.named;
  }

  -- A replay that fails names the first record whose op does not apply: the records before it replay,
  -- and to the tree they give `apply` refuses its op with the error reported.
  pub replay-Stopped :
      (t : Node W) (rs : List (OpRecord S)) (e : ReplayError)
      → replay T t rs ≡ err e
      → Stopped t rs e
  unfolding replay
  replay-Stopped t [] e h = cc
  replay-Stopped t (r ∷ rs) e h = elim (Result-cases (apply T t r.op)) [
    | inl (s, a) ↦ stops_later t r rs s a (replay-Stopped s.0 rs e (rw a at h))
    | inr (d, a) ↦ stops_here t r rs a (err-injective (rw a at h))
  ]

  applied :
      (r : OpRecord S) (t : Node W) {s : Node W × List Telemetry}
      → at_sequence r.sequence (apply T t r.op) ≡ ok s
      → apply T t r.op ≡ ok s
  applied r t h = unmarked (apply T t r.op) h
    where
      unmarked :
          (m : AResult (Node W × List Telemetry)) {s : Node W × List Telemetry}
          → at_sequence r.sequence m ≡ ok s
          → m ≡ ok s
      unmarked (ok s) h = cc
      unmarked (err e) h = cc

  -- Replay keeps ids unique and the tree within the limits, when each recorded op is covered by the
  -- theorems on `apply`.
  pub replay-IsUnique :
      KeepsChildren T
      → (t : Node W) (rs : List (OpRecord S)) (t' : Node W) → IsUnique t
      → WithinLimits t
      → All (λ (r : OpRecord S). IsCovered r.op) rs
      → replay T t rs ≡ ok t'
      → IsUnique t' × WithinLimits t'
  unfolding replay
  replay-IsUnique keeps t [] t' u w c h =
      (subst IsUnique (ok-injective h) u, subst WithinLimits (ok-injective h) w)
  replay-IsUnique keeps t (r ∷ rs) t' u w c h =
      let (s, e, h1) = >>=-eq-ok (at_sequence r.sequence (apply T t r.op)) _ h in
      let a = applied r t e in
      replay-IsUnique keeps s.0 rs t' (apply-IsUnique T t r.op s.0 s.1 keeps u c.0 a)
        (apply-WithinLimits T keeps t r.op s.0 s.1 u w c.0 a) c.1 h1
