-- ===== src/Aws/Error.antt =====
-- src/errors.rs: the error of every AWS operation
use avalanche_ops.Prelude.{String, Bool}

pub data Error : Type 0 where
  api : (message : String) (is_retryable : Bool) → Error
  other : (message : String) (is_retryable : Bool) → Error

-- `Error::message`
unfoldable pub message : Error → String
message (api m r) = m
message (other m r) = m

-- `Error::is_retryable`
unfoldable pub is_retryable : Error → Bool
is_retryable (api m r) = r
is_retryable (other m r) = r
