-- ===== src/Tests.antt =====
-- Runs of the model at concrete inputs, and the theorems applied to them.
pub mod Data
pub mod PacketRuns
pub mod PeerRuns
pub mod ServerRuns
pub mod ClientRuns
pub mod ProtocolRuns
pub mod Host
pub mod NetRuns
pub mod LoopRuns
pub mod LargeRuns
pub mod ReliabilityRuns
