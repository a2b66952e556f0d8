-- ===== src/Driven/Connection/Buffer.antt =====
-- The replay buffer of a connection: bounded, consecutively numbered up to the connection's sequence,
-- and a history of the session's tree.
use fuaran_rs.Prelude.{
  ℕ, suc, ◌+◌, ◌^◌, ◌≤◌, ◌<◌, String, ◌≡◌, refl, ap, List, [], ◌∷◌, ◌++◌, arith, length,
  length-append, subst, inl, inr, Bool-cases, leb,
}
use fuaran_rs.Prelude.Outcome.{ok, err, Result-cases}
use fuaran_rs.Tree.{Wire, Node}
use fuaran_rs.Ops.{Ops, done, then_op}
use fuaran_rs.Ops.Apply.{Tables}
use fuaran_rs.Driven.{Frame, Event}
use fuaran_rs.Driven.Session.{Session, Reject, try_step, kept}
use fuaran_rs.Driven.Session.Laws.{Applies, at_end, step-Driven}
use fuaran_rs.Driven.Connection.{
  Channel, Connection, new, push_capped, is_full, record_reject, buffer_frame, emit, answer, handle,
  is_for_another, next_u64,
}

abbrev pub Numbered : {W : Wire} → ℕ → List (Frame W) → Type 0
Numbered n [] = Unit
Numbered n (f ∷ fs) = (f.seq ≡ n) × Numbered (n + 1) fs

-- The tree that the ops of frames give, one frame after the other.
pub data Plays {W : Wire} (T : Tables W) : Node W → List (Frame W) → Node W → Type 0 where
  at_last : (t : Node W) → Plays T t [] t
  frame :
      (t t' t'' : Node W) (f : Frame W) (fs : List (Frame W))
      → Applies T t f.ops t'
      → Plays T t' fs t''
      → Plays T t (f ∷ fs) t''

-- A buffer of at most `cap` frames that lead to the tree at sequence `seq`; the oldest follows sequence
-- `base`, when the tree was `base_tree`.
pub record Window {W : Wire} (T : Tables W) (cap seq : ℕ) (buffer : List (Frame W)) (tree : Node W)
    : Type 0 where
  pub base : ℕ
  pub base_tree : Node W
  pub numbered : Numbered (base + 1) buffer
  pub ends : base + length buffer ≡ seq
  pub plays : Plays T base_tree buffer tree
  pub bounded : length buffer ≤ cap

pub record IsWell {W : Wire} (T : Tables W) {H : Channel W} (c : Connection H) : Type 0 where
  pub window : Window T c.buffer_cap c.seq c.buffer c.session.tree
  pub has_room : 1 ≤ c.buffer_cap
  pub trail_room : 1 ≤ c.reject_cap
  pub trail_bounded : length c.rejects ≤ c.reject_cap

pub length-push_capped :
    {A : Type 0} (cap : ℕ) (xs : List A) (x : A)
    → 1 ≤ cap
    → length xs ≤ cap
    → length (push_capped cap xs x) ≤ cap
unfolding push_capped
length-push_capped cap [] x r b = ground arith
length-push_capped cap (y ∷ ys) x r b = elim (Bool-cases (is_full cap (y ∷ ys))) [
  | inl e ↦ rw (e, length-append ys (x ∷ [])) (omega arith)
  | inr e ↦ rw (e, length-append ys (x ∷ [])) (ground arith)
]

module _ {W : Wire} (T : Tables W) where
  Numbered-append :
      (n : ℕ) (fs : List (Frame W)) (f : Frame W)
      → Numbered n fs
      → f.seq ≡ n + length fs
      → Numbered n (fs ++ (f ∷ []))
  Numbered-append n [] f c e = (omega arith, tt)
  Numbered-append n (g ∷ gs) f c e = (c.0, Numbered-append (n + 1) gs f c.1 (omega arith))

  Plays-append :
      {t t' t'' : Node W} (fs : List (Frame W)) (f : Frame W)
      → Plays T t fs t'
      → Applies T t' f.ops t''
      → Plays T t (fs ++ (f ∷ [])) t''
  Plays-append {t'' = u} _ f (at_last t) a = frame t u u f [] a (at_last u)
  Plays-append {t'' = u} _ f (frame t t1 t2 g gs b p) a =
      frame t t1 u g (gs ++ (f ∷ [])) b (Plays-append gs f p a)

  none_applied : {t t' : Node W} → Applies T t done t' → t ≡ t'
  none_applied (at_end t) = refl

  -- The first frame of a history leads from its start to where the rest begins.
  record FirstPlayed (fs : List (Frame W)) (t' : Node W) : Type 0 where
    second_tree : Node W
    rest_plays : Plays T second_tree fs t'

  first_played :
      {t t' : Node W} {g : Frame W} {gs : List (Frame W)}
      → Plays T t (g ∷ gs) t'
      → FirstPlayed gs t'
  first_played (frame t t1 t2 g gs b p) = record { second_tree = t1; rest_plays = p }

  grow :
      {cap seq : ℕ} {buffer : List (Frame W)} {tree tree' : Node W} (f : Frame W)
      → (w : Window T cap seq buffer tree) → f.seq ≡ seq + 1
      → Applies T tree f.ops tree'
      → length buffer + 1 ≤ cap
      → Window T cap (seq + 1) (buffer ++ (f ∷ [])) tree'
  grow {buffer = fs} f w e a r = record {
    base = w.base;
    base_tree = w.base_tree;
    numbered = Numbered-append (w.base + 1) fs f w.numbered (let q = w.ends in omega arith);
    ends = let q = w.ends in rw (length-append fs (f ∷ [])) (omega arith);
    plays = Plays-append fs f w.plays a;
    bounded = rw (length-append fs (f ∷ [])) (omega arith);
  }

  drop_first :
      {cap seq : ℕ} {g : Frame W} {gs : List (Frame W)} {tree : Node W}
      → Window T cap seq (g ∷ gs) tree
      → Window T cap seq gs tree
  drop_first w =
      let p = first_played w.plays in
      record {
        base = w.base + 1;
        base_tree = p.second_tree;
        numbered = w.numbered.1;
        ends = let q = w.ends in omega arith;
        plays = p.rest_plays;
        bounded = let q = w.bounded in omega arith;
      }

  push-Window :
      (cap seq : ℕ) (buffer : List (Frame W)) {tree tree' : Node W} (f : Frame W)
      → Window T cap seq buffer tree
      → 1 ≤ cap
      → f.seq ≡ seq + 1
      → Applies T tree f.ops tree'
      → Window T cap (seq + 1) (push_capped cap buffer f) tree'
  unfolding push_capped
  push-Window cap seq [] f w r e a = elim (Bool-cases (leb cap 0)) [
    | inl h ↦ absurd (ground arith)
    | inr h ↦ rw h (grow f w e a (omega arith))
  ]
  push-Window cap seq (g ∷ gs) f w r e a = elim (Bool-cases (leb cap (suc (length gs)))) [
    | inl h ↦ rw h (grow f (drop_first w) e a (let q = w.bounded in omega arith))
    | inr h ↦ rw h (grow f w e a (ground arith))
  ]

counted : (n : ℕ) → n + 1 < 2 ^ 64 → next_u64 n ≡ n + 1
counted n h = omega arith

module _ {W : Wire} (T : Tables W) {H : Channel W} where
  -- A new connection is well formed.
  pub new-IsWell :
      (conn_id : String) (session : Session W) (channel : H.C)
      → IsWell T (new {H = H} conn_id session channel)
  unfolding new
  new-IsWell i s ch = record {
    window = record {
      base = 0;
      base_tree = s.tree;
      numbered = tt;
      ends = refl;
      plays = at_last s.tree;
      bounded = omega arith;
    };
    has_room = omega arith;
    trail_room = omega arith;
    trail_bounded = omega arith;
  }

  emit-IsWell :
      (c : Connection H) (t : Node W) (ops : Ops W)
      → Window T c.buffer_cap c.seq c.buffer t
      → 1 ≤ c.buffer_cap
      → 1 ≤ c.reject_cap
      → length c.rejects ≤ c.reject_cap
      → c.seq + 1 < 2 ^ 64
      → Applies T t ops c.session.tree
      → IsWell T (emit ops c).0
  unfolding emit buffer_frame
  emit-IsWell c t ops w r r' b small a = record {
    window = rw (counted c.seq small) (
        push-Window T c.buffer_cap c.seq c.buffer (record { seq = c.seq + 1; ops = ops }) w r refl
          a);
    has_room = r;
    trail_room = r';
    trail_bounded = b;
  }

  answer-IsWell :
      (c : Connection H) (ev : Event) (ops : Ops W) (s : Session W)
      → IsWell T c
      → c.seq + 1 < 2 ^ 64
      → Applies T c.session.tree ops s.tree
      → IsWell T (answer c (s, ok ops)).0
  answer-IsWell c ev done s w small a = record {
    window = subst (λ t. Window T c.buffer_cap c.seq c.buffer t) (none_applied T a) w.window;
    has_room = w.has_room;
    trail_room = w.trail_room;
    trail_bounded = w.trail_bounded;
  }
  answer-IsWell c ev (then_op op ops) s w small a =
      emit-IsWell (record c { session = s }) c.session.tree (then_op op ops) w.window w.has_room
        w.trail_room w.trail_bounded small a

  reject-IsWell :
      (c : Connection H) (r : Reject) → IsWell T c → IsWell T (answer c (c.session, err r)).0
  unfolding record_reject
  reject-IsWell c r w = record {
    window = w.window;
    has_room = w.has_room;
    trail_room = w.trail_room;
    trail_bounded = length-push_capped c.reject_cap c.rejects r w.trail_room w.trail_bounded;
  }

  -- Handling an event keeps a connection well formed: the buffer holds at most as many frames as its
  -- capacity, numbered one by one up to the connection's sequence, and their ops lead in turn to the
  -- session's tree; the trail of rejects holds at most its capacity. The sequence has not reached the
  -- end of a `u64`.
  pub handle-IsWell :
      (c : Connection H) (ev : Event) → IsWell T c → c.seq + 1 < 2 ^ 64 → IsWell T (handle T ev c).0
  unfolding handle
  handle-IsWell c ev w small = elim (Bool-cases (is_for_another ev c)) [
    | inl e ↦ rw e w
    | inr e ↦ elim (Result-cases (try_step T c.session ev)) [
      | inr (r, q) ↦ rw (e, q) (reject-IsWell c r w)
      | inl (p, q) ↦
          let d = step-Driven T c.session ev p.0 p.1 (ap (λ x. kept c.session x) q) in
          rw (e, q) (answer-IsWell c ev p.0 p.1 w small d.applies)
    ]
  ]
