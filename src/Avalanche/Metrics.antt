-- ===== src/Avalanche/Metrics.antt =====
-- src/avalanche/avalanchego/api/metrics.rs: the metrics of a node, and the rates that they give.
-- The operations of floating-point numbers, and the clock's time, are parameters.
pub mod Default
pub mod Scraped
pub mod Published
pub mod Names
pub mod Filled
pub mod Agree
pub mod Catalogue
pub mod Whole
mod Tests
use avalanche_ops.Prelude.{ℕ, ℤ, F64, Bool, Option, none, if◌then◌else◌, unwrap_or}

-- What the program uses of `f64`, and of the times of `chrono`, as `T`.
pub record Arithmetic (T : Type 0) : Type 0 where
  pub add : F64 → F64 → F64
  pub sub : F64 → F64 → F64
  pub div : F64 → F64 → F64
  pub is_zero : F64 → Bool
  -- the milliseconds from the second of two times to the first, as an `f64`
  pub elapsed_millis : T → T → F64

-- the bits of 1000.0 and of 1000000000.0
abbrev pub thousand : F64
thousand = 4652007308841189376

abbrev pub billion : F64
billion = 4741671816366391296

pub record Metrics (T : Type 0) : Type 0 where
  pub ts : T
  pub avalanche_network_peers : Option F64
  pub avalanche_network_pull_query_sent : Option F64
  pub avalanche_network_push_query_sent : Option F64
  pub avalanche_network_msgs_failed_to_parse : Option F64
  pub avalanche_network_inbound_conn_throttler_allowed : Option F64
  pub avalanche_network_byte_throttler_inbound_awaiting_release : Option F64
  pub avalanche_network_throttler_outbound_acquire_failures : Option F64
  pub avalanche_network_throttler_outbound_awaiting_release : Option F64
  pub avalanche_requests_average_latency : Option F64
  pub avalanche_network_version_sent_bytes : Option F64
  pub avalanche_network_version_received_bytes : Option F64
  pub avalanche_network_peerlist_sent_bytes : Option F64
  pub avalanche_network_peerlist_received_bytes : Option F64
  pub avalanche_network_ping_sent_bytes : Option F64
  pub avalanche_network_ping_received_bytes : Option F64
  pub avalanche_network_pong_sent_bytes : Option F64
  pub avalanche_network_pong_received_bytes : Option F64
  pub avalanche_network_chits_sent_bytes : Option F64
  pub avalanche_network_chits_received_bytes : Option F64
  pub avalanche_network_get_sent_bytes : Option F64
  pub avalanche_network_get_received_bytes : Option F64
  pub avalanche_network_put_sent_bytes : Option F64
  pub avalanche_network_put_received_bytes : Option F64
  pub avalanche_network_pull_query_sent_bytes : Option F64
  pub avalanche_network_pull_query_received_bytes : Option F64
  pub avalanche_network_push_query_sent_bytes : Option F64
  pub avalanche_network_push_query_received_bytes : Option F64
  pub avalanche_network_get_accepted_frontier_sent_bytes : Option F64
  pub avalanche_network_get_accepted_frontier_received_bytes : Option F64
  pub avalanche_network_accepted_frontier_sent_bytes : Option F64
  pub avalanche_network_accepted_frontier_received_bytes : Option F64
  pub avalanche_network_get_accepted_sent_bytes : Option F64
  pub avalanche_network_get_accepted_received_bytes : Option F64
  pub avalanche_network_accepted_sent_bytes : Option F64
  pub avalanche_network_accepted_received_bytes : Option F64
  pub avalanche_network_get_ancestors_sent_bytes : Option F64
  pub avalanche_network_get_ancestors_received_bytes : Option F64
  pub avalanche_network_ancestors_sent_bytes : Option F64
  pub avalanche_network_ancestors_received_bytes : Option F64
  pub avalanche_network_app_gossip_sent_bytes : Option F64
  pub avalanche_network_app_gossip_received_bytes : Option F64
  pub avalanche_network_app_request_sent_bytes : Option F64
  pub avalanche_network_app_request_received_bytes : Option F64
  pub avalanche_x_db_get_count : Option F64
  pub avalanche_x_db_write_size_sum : Option F64
  pub avalanche_x_db_read_size_sum : Option F64
  pub avalanche_x_vtx_processing : Option F64
  pub avalanche_x_txs_accepted_count : Option F64
  pub avalanche_x_txs_accepted_sum : Option F64
  pub avalanche_x_txs_rejected_count : Option F64
  pub avalanche_x_txs_rejected_sum : Option F64
  pub avalanche_x_txs_polls_accepted_count : Option F64
  pub avalanche_x_txs_polls_accepted_sum : Option F64
  pub avalanche_x_polls_successful : Option F64
  pub avalanche_x_polls_failed : Option F64
  pub avalanche_x_handler_chits_count : Option F64
  pub avalanche_x_handler_query_failed_count : Option F64
  pub avalanche_x_whitelist_tx_accepted_count : Option F64
  pub avalanche_x_whitelist_tx_accepted_sum : Option F64
  pub avalanche_x_whitelist_tx_polls_accepted_count : Option F64
  pub avalanche_x_whitelist_tx_polls_accepted_sum : Option F64
  pub avalanche_x_whitelist_tx_polls_rejected_count : Option F64
  pub avalanche_x_whitelist_tx_polls_rejected_sum : Option F64
  pub avalanche_x_whitelist_tx_processing : Option F64
  pub avalanche_x_whitelist_tx_rejected_count : Option F64
  pub avalanche_x_whitelist_tx_rejected_sum : Option F64
  pub avalanche_x_whitelist_vtx_issue_failure : Option F64
  pub avalanche_x_whitelist_vtx_issue_success : Option F64
  pub avalanche_x_benchlist_benched_num : Option F64
  pub avalanche_p_vm_total_staked : Option F64
  pub avalanche_p_db_get_count : Option F64
  pub avalanche_p_db_write_size_sum : Option F64
  pub avalanche_p_db_read_size_sum : Option F64
  pub avalanche_p_blks_accepted_count : Option F64
  pub avalanche_p_blks_accepted_sum : Option F64
  pub avalanche_p_blks_rejected_count : Option F64
  pub avalanche_p_blks_rejected_sum : Option F64
  pub avalanche_p_blks_polls_accepted_count : Option F64
  pub avalanche_p_blks_polls_accepted_sum : Option F64
  pub avalanche_p_polls_successful : Option F64
  pub avalanche_p_polls_failed : Option F64
  pub avalanche_p_handler_chits_count : Option F64
  pub avalanche_p_handler_query_failed_count : Option F64
  pub avalanche_p_benchlist_benched_num : Option F64
  pub avalanche_c_db_get_count : Option F64
  pub avalanche_c_db_write_size_sum : Option F64
  pub avalanche_c_db_read_size_sum : Option F64
  pub avalanche_c_blks_processing : Option F64
  pub avalanche_c_blks_accepted_count : Option F64
  pub avalanche_c_blks_accepted_sum : Option F64
  pub avalanche_c_blks_rejected_count : Option F64
  pub avalanche_c_blks_rejected_sum : Option F64
  pub avalanche_c_blks_polls_accepted_count : Option F64
  pub avalanche_c_blks_polls_accepted_sum : Option F64
  pub avalanche_c_polls_successful : Option F64
  pub avalanche_c_polls_failed : Option F64
  pub avalanche_c_handler_chits_count : Option F64
  pub avalanche_c_handler_query_failed_count : Option F64
  pub avalanche_c_handler_get_accepted_frontier_sum : Option F64
  pub avalanche_c_handler_app_gossip_sum : Option F64
  pub avalanche_c_handler_app_request_sum : Option F64
  pub avalanche_c_handler_app_request_failed_sum : Option F64
  pub avalanche_c_handler_app_response_sum : Option F64
  pub avalanche_c_handler_accepted_frontier_sum : Option F64
  pub avalanche_c_handler_get_accepted_frontier_failed_sum : Option F64
  pub avalanche_c_handler_get_accepted_sum : Option F64
  pub avalanche_c_handler_accepted_sum : Option F64
  pub avalanche_c_handler_get_accepted_failed_sum : Option F64
  pub avalanche_c_handler_get_ancestors_sum : Option F64
  pub avalanche_c_handler_ancestors_sum : Option F64
  pub avalanche_c_handler_get_ancestors_failed_sum : Option F64
  pub avalanche_c_handler_get_sum : Option F64
  pub avalanche_c_handler_put_sum : Option F64
  pub avalanche_c_handler_get_failed_sum : Option F64
  pub avalanche_c_handler_push_query_sum : Option F64
  pub avalanche_c_handler_pull_query_sum : Option F64
  pub avalanche_c_handler_chits_sum : Option F64
  pub avalanche_c_handler_query_failed_sum : Option F64
  pub avalanche_c_handler_connected_sum : Option F64
  pub avalanche_c_handler_disconnected_sum : Option F64
  pub avalanche_c_benchlist_benched_num : Option F64

module _ {T : Type 0} (f64 : Arithmetic T) where
  abbrev pub success_rate : Option F64 → Option F64 → F64
  success_rate successful failed =
      if f64.is_zero (unwrap_or successful 0)
      then 0
      else f64.div (unwrap_or successful 0) (f64.add (unwrap_or successful 0) (unwrap_or failed 0))

  unfoldable pub x_polls_success_rate : Metrics T → F64
  x_polls_success_rate m = success_rate m.avalanche_x_polls_successful m.avalanche_x_polls_failed

  unfoldable pub p_polls_success_rate : Metrics T → F64
  p_polls_success_rate m = success_rate m.avalanche_p_polls_successful m.avalanche_p_polls_failed

  unfoldable pub c_polls_success_rate : Metrics T → F64
  c_polls_success_rate m = success_rate m.avalanche_c_polls_successful m.avalanche_c_polls_failed

  -- per second, since the metrics before
  unfoldable pub c_blks_accepted_per_second : Metrics T → (prev : Metrics T) → F64
  c_blks_accepted_per_second m prev =
      let elapsed_seconds = f64.div (f64.elapsed_millis m.ts prev.ts) thousand in
      let accepted =
        f64.sub (unwrap_or m.avalanche_c_blks_accepted_sum 0)
          (unwrap_or prev.avalanche_c_blks_accepted_sum 0) in
      if f64.is_zero accepted then 0 else f64.div accepted elapsed_seconds
