-- ===== src/Avalanche/Avalanchego.antt =====
-- src/avalanche/avalanchego
pub mod Genesis
pub mod Config
