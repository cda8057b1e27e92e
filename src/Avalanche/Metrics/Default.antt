-- ===== src/Avalanche/Metrics/Default.antt =====
-- src/avalanche/avalanchego/api/metrics.rs: metrics without values.
use avalanche_ops.Prelude.{none}
use avalanche_ops.Avalanche.Metrics.{Metrics}

-- `Metrics::default`, at the time of the call
abbrev pub default : {T : Type 0} → T → Metrics T
default ts = record {
  ts = ts;
  avalanche_network_peers = none;
  avalanche_network_pull_query_sent = none;
  avalanche_network_push_query_sent = none;
  avalanche_network_msgs_failed_to_parse = none;
  avalanche_network_inbound_conn_throttler_allowed = none;
  avalanche_network_byte_throttler_inbound_awaiting_release = none;
  avalanche_network_throttler_outbound_acquire_failures = none;
  avalanche_network_throttler_outbound_awaiting_release = none;
  avalanche_requests_average_latency = none;
  avalanche_network_version_sent_bytes = none;
  avalanche_network_version_received_bytes = none;
  avalanche_network_peerlist_sent_bytes = none;
  avalanche_network_peerlist_received_bytes = none;
  avalanche_network_ping_sent_bytes = none;
  avalanche_network_ping_received_bytes = none;
  avalanche_network_pong_sent_bytes = none;
  avalanche_network_pong_received_bytes = none;
  avalanche_network_chits_sent_bytes = none;
  avalanche_network_chits_received_bytes = none;
  avalanche_network_get_sent_bytes = none;
  avalanche_network_get_received_bytes = none;
  avalanche_network_put_sent_bytes = none;
  avalanche_network_put_received_bytes = none;
  avalanche_network_pull_query_sent_bytes = none;
  avalanche_network_pull_query_received_bytes = none;
  avalanche_network_push_query_sent_bytes = none;
  avalanche_network_push_query_received_bytes = none;
  avalanche_network_get_accepted_frontier_sent_bytes = none;
  avalanche_network_get_accepted_frontier_received_bytes = none;
  avalanche_network_accepted_frontier_sent_bytes = none;
  avalanche_network_accepted_frontier_received_bytes = none;
  avalanche_network_get_accepted_sent_bytes = none;
  avalanche_network_get_accepted_received_bytes = none;
  avalanche_network_accepted_sent_bytes = none;
  avalanche_network_accepted_received_bytes = none;
  avalanche_network_get_ancestors_sent_bytes = none;
  avalanche_network_get_ancestors_received_bytes = none;
  avalanche_network_ancestors_sent_bytes = none;
  avalanche_network_ancestors_received_bytes = none;
  avalanche_network_app_gossip_sent_bytes = none;
  avalanche_network_app_gossip_received_bytes = none;
  avalanche_network_app_request_sent_bytes = none;
  avalanche_network_app_request_received_bytes = none;
  avalanche_x_db_get_count = none;
  avalanche_x_db_write_size_sum = none;
  avalanche_x_db_read_size_sum = none;
  avalanche_x_vtx_processing = none;
  avalanche_x_txs_accepted_count = none;
  avalanche_x_txs_accepted_sum = none;
  avalanche_x_txs_rejected_count = none;
  avalanche_x_txs_rejected_sum = none;
  avalanche_x_txs_polls_accepted_count = none;
  avalanche_x_txs_polls_accepted_sum = none;
  avalanche_x_polls_successful = none;
  avalanche_x_polls_failed = none;
  avalanche_x_handler_chits_count = none;
  avalanche_x_handler_query_failed_count = none;
  avalanche_x_whitelist_tx_accepted_count = none;
  avalanche_x_whitelist_tx_accepted_sum = none;
  avalanche_x_whitelist_tx_polls_accepted_count = none;
  avalanche_x_whitelist_tx_polls_accepted_sum = none;
  avalanche_x_whitelist_tx_polls_rejected_count = none;
  avalanche_x_whitelist_tx_polls_rejected_sum = none;
  avalanche_x_whitelist_tx_processing = none;
  avalanche_x_whitelist_tx_rejected_count = none;
  avalanche_x_whitelist_tx_rejected_sum = none;
  avalanche_x_whitelist_vtx_issue_failure = none;
  avalanche_x_whitelist_vtx_issue_success = none;
  avalanche_x_benchlist_benched_num = none;
  avalanche_p_vm_total_staked = none;
  avalanche_p_db_get_count = none;
  avalanche_p_db_write_size_sum = none;
  avalanche_p_db_read_size_sum = none;
  avalanche_p_blks_accepted_count = none;
  avalanche_p_blks_accepted_sum = none;
  avalanche_p_blks_rejected_count = none;
  avalanche_p_blks_rejected_sum = none;
  avalanche_p_blks_polls_accepted_count = none;
  avalanche_p_blks_polls_accepted_sum = none;
  avalanche_p_polls_successful = none;
  avalanche_p_polls_failed = none;
  avalanche_p_handler_chits_count = none;
  avalanche_p_handler_query_failed_count = none;
  avalanche_p_benchlist_benched_num = none;
  avalanche_c_db_get_count = none;
  avalanche_c_db_write_size_sum = none;
  avalanche_c_db_read_size_sum = none;
  avalanche_c_blks_processing = none;
  avalanche_c_blks_accepted_count = none;
  avalanche_c_blks_accepted_sum = none;
  avalanche_c_blks_rejected_count = none;
  avalanche_c_blks_rejected_sum = none;
  avalanche_c_blks_polls_accepted_count = none;
  avalanche_c_blks_polls_accepted_sum = none;
  avalanche_c_polls_successful = none;
  avalanche_c_polls_failed = none;
  avalanche_c_handler_chits_count = none;
  avalanche_c_handler_query_failed_count = none;
  avalanche_c_handler_get_accepted_frontier_sum = none;
  avalanche_c_handler_app_gossip_sum = none;
  avalanche_c_handler_app_request_sum = none;
  avalanche_c_handler_app_request_failed_sum = none;
  avalanche_c_handler_app_response_sum = none;
  avalanche_c_handler_accepted_frontier_sum = none;
  avalanche_c_handler_get_accepted_frontier_failed_sum = none;
  avalanche_c_handler_get_accepted_sum = none;
  avalanche_c_handler_accepted_sum = none;
  avalanche_c_handler_get_accepted_failed_sum = none;
  avalanche_c_handler_get_ancestors_sum = none;
  avalanche_c_handler_ancestors_sum = none;
  avalanche_c_handler_get_ancestors_failed_sum = none;
  avalanche_c_handler_get_sum = none;
  avalanche_c_handler_put_sum = none;
  avalanche_c_handler_get_failed_sum = none;
  avalanche_c_handler_push_query_sum = none;
  avalanche_c_handler_pull_query_sum = none;
  avalanche_c_handler_chits_sum = none;
  avalanche_c_handler_query_failed_sum = none;
  avalanche_c_handler_connected_sum = none;
  avalanche_c_handler_disconnected_sum = none;
  avalanche_c_benchlist_benched_num = none;
}
