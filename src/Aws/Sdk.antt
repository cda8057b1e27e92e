-- ===== src/Aws/Sdk.antt =====
-- What the managers under src/aws see of the AWS SDK: the cases of `SdkError` that they match on,
-- and the `Debug` text of an error, which some of them search.
use avalanche_ops.Prelude.{String, Bool, true, false, ◌||◌, [], ◌∷◌, ◌≡◌, ◌⊎◌, inl, inr, refl}
use avalanche_ops.Outcome.{Outcome, err}
use avalanche_ops.Aws.Error.{Error, api}
use avalanche_ops.Text.{format}

pub data SdkError (E : Type 0) : Type 0 where
  timeout_error : SdkError E
  response_error : SdkError E
  -- a connector error, with what its `is_timeout` and `is_io` say
  dispatch_failure : (is_timeout is_io : Bool) → SdkError E
  -- the error of the service, with its own `Debug` text
  service_error : E → String → SdkError E
  construction_failure : SdkError E

-- `is_error_retryable`, the same text in s3.rs, ec2.rs, kms.rs, cloudformation.rs and cloudwatch.rs
unfoldable pub is_error_retryable : {E : Type 0} → SdkError E → Bool
is_error_retryable timeout_error = true
is_error_retryable response_error = true
is_error_retryable (dispatch_failure is_timeout is_io) = is_timeout || is_io
is_error_retryable (service_error e debug) = false
is_error_retryable construction_failure = false

-- The answer to a request: a response, or an error with its `Debug` text.
pub data Answer (E R : Type 0) : Type 0 where
  success : R → Answer E R
  failure : SdkError E → String → Answer E R

-- `Err(API { message: format!("failed … {:?}", e), is_retryable })`
abbrev pub api_failure {ℓ} : {A : Type ℓ} → String → String → Bool → Outcome Error A
api_failure call debug retryable = err (api (format (call ∷ " " ∷ debug ∷ [])) retryable)

pub Answer-cases :
    {E R : Type 0} (a : Answer E R)
    → ((r : R) × (a ≡ success r)) ⊎ ((e : SdkError E) × (s : String) × (a ≡ failure e s))
Answer-cases (success r) = inl (r, refl)
Answer-cases (failure e s) = inr (e, s, refl)
