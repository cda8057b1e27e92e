-- ===== src/Avalanche/Key.antt =====
-- src/avalanche/key.rs: what is kept of a generated key.
use avalanche_ops.Prelude.{String}

pub record PrivateKeyInfo : Type 0 where
  pub private_key : String
  pub private_key_hex : String
  pub x_address : String
  pub p_address : String
  pub c_address : String
  pub short_address : String
  pub eth_address : String
