-- ===== src/Edge/Resumed.antt =====
-- The life of a durable session (src/edge/mod.rs), and its activation afterwards.
use fuaran_rs.Prelude.{◌≤◌, String, ◌≡◌, Option, length}
use fuaran_rs.Prelude.Outcome.{ok}
use fuaran_rs.Prelude.Decimal.{ℤ}
use fuaran_rs.Tree.{Wire}
use fuaran_rs.Ops.Apply.{Tables}
use fuaran_rs.OpStream.Chain.{Spine}
use fuaran_rs.Edge.{
  Codec, Checkpoint, SessionStore, EdgeSession, base_of, activate, apply_op, take_checkpoint,
}

module _ {W : Wire} {S : Spine W} (T : Tables W) (K : Codec W) (H : SessionStore S K.Document) where
  -- A session that an activation gave, after any ops that it applied and checkpoints that it took. The
  -- checkpoint that the activation started from, if there was one, is of a record that the journal has.
  pub data Lives (seed : K.Document) : EdgeSession H → Type 0 where
    opened :
        (st : H.Store) (id : String) (actor : S.Actor) (c : Option (Checkpoint K.Document))
        {s : EdgeSession H}
        → activate T K H st id seed actor ≡ ok s
        → H.latest_checkpoint st id ≡ ok c
        → (base_of seed c).1 ≤ length s.stream
        → Lives seed s
    applied :
        {s s' : EdgeSession H}
        → Lives seed s
        → (op_json : K.OpDocument) (ts : ℤ) (prompt_id : Option String)
        → apply_op T K H s op_json ts prompt_id ≡ ok s'
        → Lives seed s'
    marked :
        {s s' : EdgeSession H}
        → Lives seed s
        → (c : Checkpoint K.Document) → take_checkpoint T K H s ≡ ok (c, s')
        → Lives seed s'
