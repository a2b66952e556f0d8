-- ===== src/Driven/Connection.antt =====
-- A connection of a driven session and its channel (src/serverdriven/connection.rs, channel.rs).
pub mod Buffer
pub mod Resync
use fuaran_rs.Prelude.{
  ℕ, suc, ◌+◌, ◌%◌, ◌^◌, String, Bool, true, false, not, ◌&&◌, List, [], ◌∷◌, ◌++◌, ltb, leb, ◌==◌,
  length, filter, if◌then◌else◌,
}
use fuaran_rs.Prelude.Outcome.{Result, ok, err}
use fuaran_rs.Tree.{Wire}
use fuaran_rs.Ops.{Ops, done, then_op}
use fuaran_rs.Ops.Apply.{Tables}
use fuaran_rs.Driven.{Frame, Event}
use fuaran_rs.Driven.Session.{Session, Reject, step}

-- The message is not modelled.
pub data ChannelError : Type 0 where
  channel_error : ChannelError

abbrev pub Pushed : Type 0 → Type 0
Pushed C = C × Result ChannelError (Unit {0})

-- `trait Channel`
pub record Channel (W : Wire) : Type 1 where
  pub C : Type 0
  pub push : C → Frame W → Pushed C
  pub close : C → Pushed C

pub record MemoryChannel (W : Wire) : Type 0 where
  pub pushed : List (Frame W)
  pub closed : Bool

-- `impl Channel for InMemoryChannel`
abbrev pub in_memory : {W : Wire} → Channel W
in_memory {W} = record {
  C = MemoryChannel W;
  push = λ c f. (record c { pushed = c.pushed ++ (f ∷ []) }, ok tt);
  close = λ c. (record c { closed = true }, ok tt);
}

abbrev pub default_replay_buffer_capacity : ℕ
default_replay_buffer_capacity = 512

abbrev pub default_reject_trail_capacity : ℕ
default_reject_trail_capacity = 1024

-- `self.seq += 1` on a `u64`
abbrev pub next_u64 : ℕ → ℕ
next_u64 n = (n + 1) % 2 ^ 64

abbrev pub without_first {ℓ} : {A : Type ℓ} → List A → List A
without_first [] = []
without_first (x ∷ xs) = xs

abbrev pub non_empty {ℓ} : {A : Type ℓ} → List A → Bool
non_empty [] = false
non_empty (x ∷ xs) = true

abbrev pub is_full {ℓ} : {A : Type ℓ} → ℕ → List A → Bool
is_full cap xs = leb cap (length xs) && non_empty xs

-- A push that first drops the oldest where the list is full.
unfoldable pub push_capped {ℓ} : {A : Type ℓ} → ℕ → List A → A → List A
push_capped cap xs x = (if is_full cap xs then without_first xs else xs) ++ (x ∷ [])

pub record Connection {W : Wire} (H : Channel W) : Type 0 where
  pub conn_id : String
  pub session : Session W
  pub channel : H.C
  pub seq : ℕ
  pub buffer : List (Frame W)
  pub buffer_cap : ℕ
  pub rejects : List Reject
  pub reject_cap : ℕ
  pub rejects_dropped : ℕ

abbrev pub to_replay : {W : Wire} → ℕ → List (Frame W) → List (Frame W)
to_replay last_seq buffer = filter (λ f. ltb last_seq f.seq) buffer

-- The frames pushed in turn, up to the first that fails, with the count so far.
unfoldable pub push_all :
    {W : Wire} (H : Channel W) → H.C → List (Frame W) → ℕ → H.C × Result ChannelError ℕ
push_all H ch [] n = (ch, ok n)
push_all H ch (f ∷ fs) n =
    let (ch', r) = H.push ch f in elim r [ ok u ↦ push_all H ch' fs (n + 1) | err e ↦ (ch', err e) ]

module _ {W : Wire} {H : Channel W} where
  unfoldable pub new : String → Session W → H.C → Connection H
  new conn_id session channel = record {
    conn_id = conn_id;
    session = session;
    channel = channel;
    seq = 0;
    buffer = [];
    buffer_cap = default_replay_buffer_capacity;
    rejects = [];
    reject_cap = default_reject_trail_capacity;
    rejects_dropped = 0;
  }

  abbrev pub with_reject_trail_capacity : ℕ → Connection H → Connection H
  with_reject_trail_capacity n c = if ltb 0 n then record c { reject_cap = n } else c

  abbrev pub with_replay_buffer_capacity : ℕ → Connection H → Connection H
  with_replay_buffer_capacity n c = if ltb 0 n then record c { buffer_cap = n } else c

  unfoldable pub record_reject : Reject → Connection H → Connection H
  unfolding push_capped
  record_reject r c = record c {
    rejects = push_capped c.reject_cap c.rejects r;
    rejects_dropped =
        if is_full c.reject_cap c.rejects then next_u64 c.rejects_dropped else c.rejects_dropped;
  }

  unfoldable pub buffer_frame : Frame W → Connection H → Connection H
  unfolding push_capped
  buffer_frame f c = record c { buffer = push_capped c.buffer_cap c.buffer f }

  -- The frame of a step that gave ops: numbered, buffered, pushed.
  unfoldable pub emit : Ops W → Connection H → Connection H × Result ChannelError (Unit {0})
  unfolding buffer_frame
  emit ops c =
      let seq = next_u64 c.seq in
      let frame : Frame W = record { seq = seq; ops = ops } in
      let (channel, r) = H.push c.channel frame in
      (record (buffer_frame frame (record c { seq = seq })) { channel = channel }, r)

  abbrev pub answer :
      Connection H
      → Session W × Result Reject (Ops W)
      → Connection H × Result ChannelError (Unit {0})
  answer c (s, err reject) = (record_reject reject (record c { session = s }), ok tt)
  answer c (s, ok done) = (record c { session = s }, ok tt)
  answer c (s, ok ops) = emit ops (record c { session = s })

  abbrev pub is_for_another : Event → Connection H → Bool
  is_for_another ev c = not (ev.conn_id == "") && not (ev.conn_id == c.conn_id)

  -- `handle`
  unfoldable pub handle :
      Tables W → Event → Connection H → Connection H × Result ChannelError (Unit {0})
  unfolding record_reject emit
  handle T ev c = if is_for_another ev c then (c, ok tt) else answer c (step T c.session ev)

  -- `resync`
  unfoldable pub resync : ℕ → Connection H → Connection H × Result ChannelError ℕ
  unfolding push_all
  resync last_seq c =
      let (channel, r) = push_all H c.channel (to_replay last_seq c.buffer) 0 in
      (record c { channel = channel }, r)
