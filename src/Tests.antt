-- ===== src/Tests.antt =====
-- Small inputs, and runs of the definitions on them.
pub mod Demo
pub mod TextOrder
mod OpsRuns
mod PlacementRuns
mod CloneRuns
mod EgressRuns
mod MergeRuns
pub mod StreamDemo
mod StreamRuns
mod GateRuns
mod GridRuns
pub mod DrivenDemo
mod DrivenRuns
mod EdgeRuns
mod CodecRuns
