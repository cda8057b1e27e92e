-- ===== src/Aws/CloudWatch/Tests.antt =====
-- Batches of metrics at concrete inputs.
use avalanche_ops.Aws.CloudWatch.{
  put_metric_data, ErrorKind, batch_limit, List, is_error_retryable, ℕ, Answer, err, length, ok,
  success, [], true, failure,
}
use avalanche_ops.Aws.CloudWatch.Batches.{put_metric_data_lem, concat}
use avalanche_ops.Prelude.{All, ◌≡◌, replicate, if◌then◌else◌, ◌++◌, ◌∷◌, ◌≤◌, ◌==◌, refl}
use avalanche_ops.Aws.Sdk.{is_error_retryable, Answer, success, failure, timeout_error}
use avalanche_ops.Outcome.{err, ok}
use avalanche_ops.Aws.Error.{api}

abbrev many : List ℕ
many = replicate 21 4 ++ (1 ∷ 2 ∷ 3 ∷ [])

abbrev accepting : ℕ → List ℕ → Answer ErrorKind (Unit {0})
accepting k batch = success tt

abbrev failing_second : ℕ → List ℕ → Answer ErrorKind (Unit {0})
failing_second k batch = if k == 0 then success tt else failure timeout_error "timeout"

two_batches : put_metric_data accepting many ≡ (ok tt, (replicate 20 4) ∷ (4 ∷ 1 ∷ 2 ∷ 3 ∷ []) ∷ [])
unfolding put_metric_data
two_batches = refl

second_fails : put_metric_data failing_second many ≡ (
  err (api "failed put_metric_data timeout" true),
  (replicate 20 4) ∷ (4 ∷ 1 ∷ 2 ∷ 3 ∷ []) ∷ [],
)
unfolding put_metric_data is_error_retryable
second_fails = refl

put_metric_data_lem_example :
    All (λ b. length b ≤ batch_limit) (put_metric_data accepting many).1
    × ((rest : List ℕ) × (concat (put_metric_data accepting many).1 ++ rest ≡ many)
        × ((put_metric_data accepting many).0 ≡ ok tt → rest ≡ []))
put_metric_data_lem_example = put_metric_data_lem accepting many
