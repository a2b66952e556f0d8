-- ===== src/Driven/Connection/Resync.antt =====
-- What a client that lost its connection gets: the frames it has not seen, which lead its tree to the
-- session's.
use fuaran_rs.Prelude.{
  ℕ, ◌+◌, ◌≤◌, ◌<◌, ◌≡◌, refl, sym, ap, ◌∙◌, true, List, [], ◌∷◌, ◌++◌, arith, length, ltb, subst,
  Bool-cases, inl, inr, append_assoc, append-nil,
}
use fuaran_rs.Prelude.Outcome.{Result, ok}
use fuaran_rs.Tree.{Wire, Node}
use fuaran_rs.Ops.Apply.{Tables}
use fuaran_rs.Driven.{Frame}
use fuaran_rs.Driven.Connection.{
  Channel, Connection, MemoryChannel, in_memory, ChannelError, to_replay, push_all, resync,
}
use fuaran_rs.Driven.Connection.Buffer.{Numbered, Plays, at_last, frame, IsWell}

module _ {W : Wire} (T : Tables W) where
  newer :
      (n last_seq : ℕ) (fs : List (Frame W))
      → Numbered n fs
      → last_seq < n
      → to_replay last_seq fs ≡ fs
  newer n l [] c h = refl
  newer n l (f ∷ fs) c h =
      let q = c.0 in
      let k : ltb l f.seq ≡ true = ground arith in rw (k, newer (n + 1) l fs c.1 (omega arith)) refl

  -- A history cut at a sequence: what a client at that sequence has seen, and what it gets.
  pub record Cut (t : Node W) (fs : List (Frame W)) (t' : Node W) (n last_seq : ℕ) : Type 0 where
    pub seen : List (Frame W)
    pub parts : fs ≡ seen ++ to_replay last_seq fs
    pub seen_count : n + length seen ≡ last_seq + 1
    pub client_tree : Node W
    pub client_plays : Plays T t seen client_tree
    pub rest_plays : Plays T client_tree (to_replay last_seq fs) t'

  cut :
      (t : Node W) (fs : List (Frame W)) (t' : Node W) (n last_seq : ℕ)
      → Plays T t fs t'
      → Numbered n fs
      → n ≤ last_seq + 1
      → last_seq + 1 ≤ n + length fs
      → Cut t fs t' n last_seq
  cut t [] t' n l p c lo hi = record {
    seen = [];
    parts = refl;
    seen_count = omega arith;
    client_tree = t;
    client_plays = at_last t;
    rest_plays = p;
  }
  cut t (f ∷ fs) t' n l (frame _ t1 _ _ _ a p) c lo hi = elim (Bool-cases (ltb l f.seq)) [
    | inl h ↦
        let q = c.0 in
        let all = newer n l (f ∷ fs) c (ground arith) in
        record {
          seen = [];
          parts = sym all;
          seen_count = ground arith;
          client_tree = t;
          client_plays = at_last t;
          rest_plays = subst (λ gs. Plays T t gs t') (sym all) (frame t t1 t' f fs a p);
        }
    | inr h ↦
        let q = c.0 in
        let k = cut t1 fs t' (n + 1) l p c.1 (ground arith) (omega arith) in
        record {
          seen = f ∷ k.seen;
          parts = rw h (ap (λ gs. f ∷ gs) k.parts);
          seen_count = let r = k.seen_count in omega arith;
          client_tree = k.client_tree;
          client_plays = frame t t1 k.client_tree f k.seen a k.client_plays;
          rest_plays = rw h k.rest_plays;
        }
  ]

  -- For a well-formed connection and a client at a sequence that the buffer reaches back to, the frames
  -- that `resync` replays are the part of the buffer that the client has not seen, and applied in turn
  -- to the client's tree they give the session's tree.
  pub to_replay-Cut :
      {H : Channel W} (c : Connection H) (last_seq : ℕ)
      → (w : IsWell T c) → w.window.base ≤ last_seq
      → last_seq ≤ c.seq
      → Cut w.window.base_tree c.buffer c.session.tree (w.window.base + 1) last_seq
  to_replay-Cut c l w lo hi =
      let q = w.window.ends in
      cut w.window.base_tree c.buffer c.session.tree (w.window.base + 1) l w.window.plays
        w.window.numbered (omega arith) (omega arith)

told :
    {W : Wire} (ch : MemoryChannel W) {xs ys : List (Frame W)} {m n : ℕ}
    → xs ≡ ys
    → m ≡ n
    → ◌≡◌ {A = MemoryChannel W × Result ChannelError ℕ}
        (record ch { pushed = xs }, ok m)
        (record ch { pushed = ys }, ok n)
told ch {xs} {ys} {m} {n} e q =
    ap (λ zs. (record ch { pushed = zs }, ok m)) e ∙ ap (λ k. (record ch { pushed = ys }, ok k)) q

push_all-in_memory :
    {W : Wire} (ch : MemoryChannel W) (fs : List (Frame W)) (n : ℕ)
    → push_all in_memory ch fs n ≡ (record ch { pushed = ch.pushed ++ fs }, ok (n + length fs))
unfolding push_all
push_all-in_memory ch [] n = told ch (sym (append-nil ch.pushed)) (omega arith)
push_all-in_memory ch (f ∷ fs) n =
    push_all-in_memory (record ch { pushed = ch.pushed ++ (f ∷ []) }) fs (n + 1)
    ∙ told ch (append_assoc ch.pushed (f ∷ []) fs) (omega arith)

-- On the in-memory channel a resync pushes the frames to replay, in order, after those pushed before,
-- reports their number, and changes nothing else.
pub resync-in_memory :
    {W : Wire} (c : Connection (in_memory {W = W})) (last_seq : ℕ)
    → resync last_seq c ≡ (
      record c {
        channel = record (c.channel) { pushed = c.channel.pushed ++ to_replay last_seq c.buffer };
      },
      ok (length (to_replay last_seq c.buffer)),
    )
unfolding resync
resync-in_memory c l =
    let h =
      push_all-in_memory c.channel (to_replay l c.buffer) 0 ∙ told c.channel refl (omega arith) in
    ap (λ p. (record c { channel = p.0 }, p.1)) h
