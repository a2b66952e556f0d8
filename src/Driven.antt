-- ===== src/Driven.antt =====
-- The driven session of src/serverdriven: a frame of ops answers a reader's event.
pub mod Session
pub mod Connection
use fuaran_rs.Prelude.{ℕ, String}
use fuaran_rs.Tree.{Wire}
use fuaran_rs.Ops.{Ops}

-- `Frame` and `Event` of src/serverdriven/frame.rs.
pub record Frame (W : Wire) : Type 0 where
  pub seq : ℕ
  pub ops : Ops W

pub record Event : Type 0 where
  pub conn_id : String
  pub node_id : String
  pub event : String
  pub payload : String
  pub last_seq : ℕ
