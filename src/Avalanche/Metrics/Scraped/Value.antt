-- ===== src/Avalanche/Metrics/Scraped/Value.antt =====
-- src/avalanche/avalanchego/api/metrics.rs: the value of a metric in a scrape.
use avalanche_ops.Prelude.{String, F64, List}
use avalanche_ops.Outcome.{Outcome, ok, ◌>>=◌}
use avalanche_ops.Io.{Error}
use avalanche_ops.Utils.Prometheus.{Metric, match_metric, to_f64}

-- the value of the first of the samples with a name
unfoldable pub value_at : List Metric → String → Outcome Error F64
value_at samples name = do metric ← match_metric samples name; ok (to_f64 metric.value)
