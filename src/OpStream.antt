-- ===== src/OpStream.antt =====
-- The op stream of src/opstream: records in a hash chain, the sinks that keep them and their replay.
pub mod Chain
pub mod Sink
pub mod Replay
