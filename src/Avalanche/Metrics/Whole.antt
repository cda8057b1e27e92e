-- ===== src/Avalanche/Metrics/Whole.antt =====
-- What is published of a scrape, against the table of the data.
use avalanche_ops.Prelude.{
  String, F64, none, some, List, [], ◌∷◌, ◌≡◌, refl, All, All-of_map, append-nil, Option, unwrap_or,
  str_eq, map, if◌then◌else◌, ◌++◌,
}
use avalanche_ops.Outcome.{ok, ◌>>=◌}
use avalanche_ops.Utils.Prometheus.{Metric}
use avalanche_ops.Avalanche.Metrics.Default.{default}
use avalanche_ops.Avalanche.Metrics.{
  Arithmetic, Metrics, thousand, c_blks_accepted_per_second, x_polls_success_rate,
  p_polls_success_rate, c_polls_success_rate,
}
use avalanche_ops.Avalanche.Metrics.Catalogue.{CatalogueEntry, catalogue}
use avalanche_ops.Avalanche.Metrics.Filled.{filled}
use avalanche_ops.Avalanche.Metrics.Names.{
  network_names, handshake_names, consensus_names, bootstrap_names, app_names, x_names,
  x_whitelist_names, p_names, c_blocks_names, c_handler_names,
}
use avalanche_ops.Avalanche.Metrics.Scraped.{get}
use avalanche_ops.Avalanche.Metrics.Published.{
  published, to_cw_metric_data, published_network, published_handshake, published_consensus,
  published_bootstrap, published_app,
}
use avalanche_ops.Avalanche.Metrics.Published.Chains.{
  published_x, published_x_whitelist, published_p, published_c_blocks, published_c_handler,
}
use avalanche_ops.Avalanche.Metrics.Published.Drafts.{Draft, Datum, datum, build, count, time_if}
use avalanche_ops.Avalanche.Metrics.Agree.{
  Has, with_network-ok, with_handshake-ok, with_consensus-ok, with_bootstrap-ok, with_app-ok,
}
use avalanche_ops.Avalanche.Metrics.Agree.Chains.{
  with_x-ok, with_x_whitelist-ok, with_p-ok, with_c_blocks-ok, with_c_handler-ok,
}

-- The scrape has every metric, with these values.
pub record HasAll (samples : List Metric) (v : String → F64) : Type 0 where
  pub has_network : All (Has samples v) network_names
  pub has_handshake : All (Has samples v) handshake_names
  pub has_consensus : All (Has samples v) consensus_names
  pub has_bootstrap : All (Has samples v) bootstrap_names
  pub has_app : All (Has samples v) app_names
  pub has_x : All (Has samples v) x_names
  pub has_x_whitelist : All (Has samples v) x_whitelist_names
  pub has_p : All (Has samples v) p_names
  pub has_c_blocks : All (Has samples v) c_blocks_names
  pub has_c_handler : All (Has samples v) c_handler_names

get-filled :
    {T : Type 0} (ts : T) (samples : List Metric) (v : String → F64)
    → HasAll samples v
    → get ts samples ≡ ok (filled ts v)
unfolding get
get-filled ts samples v h =
    rw
      (
        with_network-ok samples v (default ts) h.has_network,
        with_handshake-ok samples v _ h.has_handshake,
        with_consensus-ok samples v _ h.has_consensus,
        with_bootstrap-ok samples v _ h.has_bootstrap,
        with_app-ok samples v _ h.has_app,
        with_x-ok samples v _ h.has_x,
        with_x_whitelist-ok samples v _ h.has_x_whitelist,
        with_p-ok samples v _ h.has_p,
        with_c_blocks-ok samples v _ h.has_c_blocks,
        with_c_handler-ok samples v _ h.has_c_handler,
      )
      refl

module _ {T : Type 0} (f64 : Arithmetic T) where
  -- the share of the polls that were successful; without one, zero
  abbrev share : (successful failed : F64) → F64
  share successful failed =
      if f64.is_zero successful then 0 else f64.div successful (f64.add successful failed)

  -- The value under a published name: two are given in billions, three are rates, and the others are
  -- those of the metric with the same name.
  abbrev pub expected : (String → F64) → String → F64
  expected v name =
      if str_eq name "avalanche_requests_average_latency_seconds"
      then f64.div (v "avalanche_requests_average_latency") 4741671816366391296
      else if str_eq name "avalanche_P_vm_total_staked_avax"
      then f64.div (v "avalanche_P_vm_total_staked") 4741671816366391296
      else if str_eq name "avalanche_X_polls_success_rate"
      then share (v "avalanche_X_polls_successful") (v "avalanche_X_polls_failed")
      else if str_eq name "avalanche_P_polls_success_rate"
      then share (v "avalanche_P_polls_successful") (v "avalanche_P_polls_failed")
      else if str_eq name "avalanche_C_polls_success_rate"
      then share (v "avalanche_C_polls_successful") (v "avalanche_C_polls_failed")
      else v name

  -- The accepted blocks per second since earlier metrics, where there are any.
  abbrev pub since_prev : T → F64 → Option (Metrics T) → List (Datum T)
  since_prev ts accepted_sum none = []
  since_prev ts accepted_sum (some prev) =
      let accepted = f64.sub accepted_sum (unwrap_or prev.avalanche_c_blks_accepted_sum 0) in
      record {
        metric_name = "avalanche_C_blks_accepted_per_second";
        value =
            if f64.is_zero accepted
            then 0
            else f64.div accepted (f64.div (f64.elapsed_millis ts prev.ts) thousand);
        unit = some count;
        timestamp = some ts;
      }
      ∷ []

  -- the datum of an entry of the table
  abbrev pub sent_as : T → (String → F64) → CatalogueEntry → Datum T
  sent_as ts v (name, unit, timed) = record {
    metric_name = name;
    value = expected v name;
    unit = unit;
    timestamp = time_if timed ts;
  }

  abbrev Agrees : (String → F64) → Draft → Type 0
  Agrees v d = d.value ≡ some (expected v d.metric_name)

  published-Agrees : (ts : T) (v : String → F64) → All (Agrees v) (published f64 (filled ts v))
  unfolding published_network published_handshake published_consensus published_bootstrap
      published_app published_x published_x_whitelist published_p published_c_blocks
      published_c_handler x_polls_success_rate p_polls_success_rate c_polls_success_rate
  published-Agrees ts v =
      All-of_map (λ d. d.value) (λ d. some (expected v d.metric_name)) (published f64 (filled ts v))
        refl

  build-Agrees :
      (ts : T) (v : String → F64) (ds : List Draft)
      → All (Agrees v) ds
      → build ts ds ≡ ok (map (λ d. datum ts d (expected v d.metric_name)) ds)
  unfolding build
  build-Agrees ts v [] h = refl
  build-Agrees ts v (d ∷ ds) h = rw (h.0, build-Agrees ts v ds h.1) refl

  -- The data are those of the table.
  published-catalogue :
      (ts : T) (v : String → F64)
      → map (λ d. datum ts d (expected v d.metric_name)) (published f64 (filled ts v))
        ≡ map (sent_as ts v) catalogue
  unfolding published_network published_handshake published_consensus published_bootstrap
      published_app published_x published_x_whitelist published_p published_c_blocks
      published_c_handler
  published-catalogue ts v = refl

-- A scrape that has every metric is published in full, without a panic: the data are those of the
-- table, in its order and with its names, units and times, and each carries the value of the metric
-- with the same name, but for two that are given in billions and three shares of the successful polls
-- among all polls; given earlier metrics, the rate of accepted blocks comes last.
pub get-published :
    {T : Type 0} (f64 : Arithmetic T) (ts : T) (samples : List Metric) (v : String → F64)
    (prev : Option (Metrics T))
    → HasAll samples v
    → (get ts samples >>= λ m. to_cw_metric_data f64 m prev)
      ≡ ok (
          map (sent_as f64 ts v) catalogue
          ++ since_prev f64 ts (v "avalanche_C_blks_accepted_sum") prev)
unfolding to_cw_metric_data c_blks_accepted_per_second
get-published f64 ts samples v none h =
    rw
      (
        get-filled ts samples v h,
        build-Agrees f64 ts v (published f64 (filled ts v)) (published-Agrees f64 ts v),
        published-catalogue f64 ts v,
        append-nil (map (sent_as f64 ts v) catalogue),
      )
      refl
get-published f64 ts samples v (some prev) h =
    rw
      (
        get-filled ts samples v h,
        build-Agrees f64 ts v (published f64 (filled ts v)) (published-Agrees f64 ts v),
        published-catalogue f64 ts v,
      )
      refl
