-- ===== src/Avalanche/Metrics/Tests.antt =====
-- A scrape that has every metric.
use avalanche_ops.Prelude.{some, All-of_map, String, List, ◌≡◌, refl, none, map, ℕ, ◌++◌, false}
use avalanche_ops.Outcome.{ok, ◌>>=◌}
use avalanche_ops.Utils.Prometheus.{Metric, untyped, match_metric, to_f64}
use avalanche_ops.Avalanche.Metrics.{Arithmetic, Metrics}
use avalanche_ops.Avalanche.Metrics.Default.{default}
use avalanche_ops.Avalanche.Metrics.Catalogue.{catalogue}
use avalanche_ops.Avalanche.Metrics.Names.{
  network_names, handshake_names, consensus_names, bootstrap_names, app_names, x_names,
  x_whitelist_names, p_names, c_blocks_names, c_handler_names,
}
use avalanche_ops.Avalanche.Metrics.Scraped.{get}
use avalanche_ops.Avalanche.Metrics.Scraped.Value.{value_at}
use avalanche_ops.Avalanche.Metrics.Published.{to_cw_metric_data}
use avalanche_ops.Avalanche.Metrics.Whole.{sent_as, since_prev, HasAll, get-published}

abbrev sample : String → Metric
sample name = record { metric = name; value = untyped 7; labels = none; timestamp = none }

abbrev samples : List Metric
samples = map sample (
    network_names ++ handshake_names ++ consensus_names ++ bootstrap_names ++ app_names ++ x_names
    ++ x_whitelist_names ++ p_names ++ c_blocks_names ++ c_handler_names)

-- arithmetic on the bits, as good as any here
abbrev bits : Arithmetic ℕ
bits = record {
  add = λ a b. a;
  sub = λ a b. a;
  div = λ a b. a;
  is_zero = λ a. false;
  elapsed_millis = λ a b. a;
}

samples-HasAll : HasAll samples (λ name. 7)
unfolding value_at match_metric to_f64
samples-HasAll = record {
  has_network = All-of_map (value_at samples) (λ name. ok 7) network_names refl;
  has_handshake = All-of_map (value_at samples) (λ name. ok 7) handshake_names refl;
  has_consensus = All-of_map (value_at samples) (λ name. ok 7) consensus_names refl;
  has_bootstrap = All-of_map (value_at samples) (λ name. ok 7) bootstrap_names refl;
  has_app = All-of_map (value_at samples) (λ name. ok 7) app_names refl;
  has_x = All-of_map (value_at samples) (λ name. ok 7) x_names refl;
  has_x_whitelist = All-of_map (value_at samples) (λ name. ok 7) x_whitelist_names refl;
  has_p = All-of_map (value_at samples) (λ name. ok 7) p_names refl;
  has_c_blocks = All-of_map (value_at samples) (λ name. ok 7) c_blocks_names refl;
  has_c_handler = All-of_map (value_at samples) (λ name. ok 7) c_handler_names refl;
}

-- earlier metrics
abbrev earlier : Metrics ℕ
earlier = record (default 3) { avalanche_c_blks_accepted_sum = some 4 }

get-published_example :
    (get 5 samples >>= λ m. to_cw_metric_data bits m (some earlier))
    ≡ ok (map (sent_as bits 5 (λ name. 7)) catalogue ++ since_prev bits 5 7 (some earlier))
get-published_example = get-published bits 5 samples (λ name. 7) (some earlier) samples-HasAll
