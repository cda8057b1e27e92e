-- ===== src/Utils.antt =====
-- src/utils
pub mod Id
pub mod Compress
pub mod Prometheus
