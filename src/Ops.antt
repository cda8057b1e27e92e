-- ===== src/Ops.antt =====
-- src/bin/avalanche-ops-aws: the commands that create and delete the resources of a network.
pub mod Requests
pub mod Apply
pub mod Delete
mod Tests
