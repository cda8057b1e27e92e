-- ===== src/Avalanche/Coreth.antt =====
-- src/avalanche/coreth
pub mod Config
