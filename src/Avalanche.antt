-- ===== src/Avalanche.antt =====
-- src/avalanche
pub mod Avalanchego
pub mod Metrics
pub mod Coreth
pub mod Node
pub mod Constants
pub mod Key
pub mod Formatting
pub mod Vm
pub mod Checksum
