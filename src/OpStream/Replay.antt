-- ===== src/OpStream/Replay.antt =====
-- Replay of recorded ops onto a tree (src/opstream/replay.rs).
pub mod Laws
pub mod Delivery
use fuaran_rs.Prelude.{ℕ, List, [], ◌∷◌, ◌=?◌, if◌then◌else◌}
use fuaran_rs.Prelude.Outcome.{Result, ok, err, ◌>>=◌}
use fuaran_rs.Tree.{Wire, Node}
use fuaran_rs.Ops.{AResult, ApplyError}
use fuaran_rs.Ops.Apply.{Tables, apply}
use fuaran_rs.OpStream.Chain.{Spine, OpRecord}
use fuaran_rs.OpStream.Sink.{in_range, latest}

pub record ReplayError : Type 0 where
  pub sequence : ℕ
  pub error : ApplyError

abbrev pub at_sequence : {A : Type 0} → ℕ → AResult A → Result ReplayError A
at_sequence n (ok a) = ok a
at_sequence n (err e) = err (record { sequence = n; error = e })

module _ {W : Wire} {S : Spine W} (T : Tables W) where
  unfoldable pub replay : Node W → List (OpRecord S) → Result ReplayError (Node W)
  replay tree [] = ok tree
  replay tree (r ∷ rs) = do
    (next, telem) ← at_sequence r.sequence (apply T tree r.op)
    replay next rs

  unfoldable pub replay_stream : List (OpRecord S) → Node W → ℕ → ℕ → Result ReplayError (Node W)
  replay_stream sink initial from to =
      let up_to = if to =? 0 then latest sink else to in replay initial (in_range from up_to sink)
