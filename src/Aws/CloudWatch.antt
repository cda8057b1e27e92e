-- ===== src/Aws/CloudWatch.antt =====
-- src/aws/cloudwatch.rs: posting metrics in batches, and log groups.
-- The SDK's client is a parameter: the answer to the request of each round, in order. The model
-- returns the requests that were sent beside the result.
pub mod Batches
mod Tests
use avalanche_ops.Prelude.{
  ℕ, zero, suc, ◌+◌, Bool, false, true, String, Option, List, [], ◌∷◌, length, take, drop, leb,
  if◌then◌else◌,
}
use avalanche_ops.Outcome.{Outcome, ok, err}
use avalanche_ops.Aws.Error.{Error}
use avalanche_ops.Aws.Sdk.{
  SdkError, service_error, Answer, success, failure, is_error_retryable, api_failure,
}

-- The service errors that the source tells apart.
pub data ErrorKind : Type 0 where
  resource_already_exists resource_not_found unhandled : ErrorKind

-- `slice::chunks(n)`; each chunk takes an item, so the length of the list is fuel enough.
chunks_from {ℓ} : {A : Type ℓ} → ℕ → ℕ → List A → List (List A)
chunks_from zero n xs = []
chunks_from (suc fuel) n [] = []
chunks_from (suc fuel) n (x ∷ xs) = take n (x ∷ xs) ∷ chunks_from fuel n (drop n (x ∷ xs))

pub chunks {ℓ} : {A : Type ℓ} → ℕ → List A → List (List A)
unfolding chunks_from
chunks n xs = chunks_from (length xs) n xs

abbrev pub batch_limit : ℕ
batch_limit = 20

-- One round of the loop, given what the rounds after it do.
pub after_send :
    {Datum : Type 0}
    → List Datum
    → Outcome Error (Unit {0}) × List (List Datum)
    → Answer ErrorKind (Unit {0})
    → Outcome Error (Unit {0}) × List (List Datum)
after_send batch later (success _) = (later.0, batch ∷ later.1)
after_send batch later (failure e debug) =
    (api_failure "failed put_metric_data" debug (is_error_retryable e), batch ∷ [])

module _ {Datum : Type 0} (send : ℕ → List Datum → Answer ErrorKind (Unit {0})) where
  -- The loop over the batches from request `k` on.
  pub post_batches : ℕ → List (List Datum) → Outcome Error (Unit {0}) × List (List Datum)
  unfolding after_send
  post_batches k [] = (ok tt, [])
  post_batches k (batch ∷ rest) = after_send batch (post_batches (k + 1) rest) (send k batch)

  -- `Manager::put_metric_data`
  pub put_metric_data : List Datum → Outcome Error (Unit {0}) × List (List Datum)
  unfolding chunks post_batches
  put_metric_data xs =
      if leb (length xs) batch_limit
      then post_batches 0 (xs ∷ [])
      else post_batches 0 (chunks batch_limit xs)

unfoldable pub is_logs_error_create_log_group_already_exists : SdkError ErrorKind → Bool
is_logs_error_create_log_group_already_exists (service_error resource_already_exists debug) = true
is_logs_error_create_log_group_already_exists e = false

unfoldable pub is_logs_error_delete_log_group_does_not_exist : SdkError ErrorKind → Bool
is_logs_error_delete_log_group_does_not_exist (service_error resource_not_found debug) = true
is_logs_error_delete_log_group_does_not_exist e = false

-- `Manager::create_log_group`, from the answer to the request
unfoldable pub create_log_group : Answer ErrorKind (Unit {0}) → Outcome Error (Unit {0})
unfolding is_logs_error_create_log_group_already_exists is_error_retryable
create_log_group (success _) = ok tt
create_log_group (failure e debug) =
    if is_logs_error_create_log_group_already_exists e
    then ok tt
    else api_failure "failed create_log_group" debug (is_error_retryable e)

-- `Manager::delete_log_group`, from the answer to the request
unfoldable pub delete_log_group : Answer ErrorKind (Unit {0}) → Outcome Error (Unit {0})
unfolding is_logs_error_delete_log_group_does_not_exist is_error_retryable
delete_log_group (success _) = ok tt
delete_log_group (failure e debug) =
    if is_logs_error_delete_log_group_does_not_exist e
    then ok tt
    else api_failure "failed delete_log_group" debug (is_error_retryable e)
