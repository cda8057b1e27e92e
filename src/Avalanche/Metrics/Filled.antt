-- ===== src/Avalanche/Metrics/Filled.antt =====
-- The metrics with the value of each field given by the name of its metric.
use avalanche_ops.Prelude.{String, F64, some}
use avalanche_ops.Avalanche.Metrics.{Metrics}

abbrev pub filled : {T : Type 0} → T → (String → F64) → Metrics T
filled ts v = record {
  ts = ts;
  avalanche_network_peers = some (v "avalanche_network_peers");
  avalanche_network_pull_query_sent = some (v "avalanche_network_pull_query_sent");
  avalanche_network_push_query_sent = some (v "avalanche_network_push_query_sent");
  avalanche_network_msgs_failed_to_parse = some (v "avalanche_network_msgs_failed_to_parse");
  avalanche_network_inbound_conn_throttler_allowed =
      some (v "avalanche_network_inbound_conn_throttler_allowed");
  avalanche_network_byte_throttler_inbound_awaiting_release =
      some (v "avalanche_network_byte_throttler_inbound_awaiting_release");
  avalanche_network_throttler_outbound_acquire_failures =
      some (v "avalanche_network_throttler_outbound_acquire_failures");
  avalanche_network_throttler_outbound_awaiting_release =
      some (v "avalanche_network_throttler_outbound_awaiting_release");
  avalanche_requests_average_latency = some (v "avalanche_requests_average_latency");
  avalanche_network_version_sent_bytes = some (v "avalanche_network_version_sent_bytes");
  avalanche_network_version_received_bytes = some (v "avalanche_network_version_received_bytes");
  avalanche_network_peerlist_sent_bytes = some (v "avalanche_network_peerlist_sent_bytes");
  avalanche_network_peerlist_received_bytes = some (v "avalanche_network_peerlist_received_bytes");
  avalanche_network_ping_sent_bytes = some (v "avalanche_network_ping_sent_bytes");
  avalanche_network_ping_received_bytes = some (v "avalanche_network_ping_received_bytes");
  avalanche_network_pong_sent_bytes = some (v "avalanche_network_pong_sent_bytes");
  avalanche_network_pong_received_bytes = some (v "avalanche_network_pong_received_bytes");
  avalanche_network_chits_sent_bytes = some (v "avalanche_network_chits_sent_bytes");
  avalanche_network_chits_received_bytes = some (v "avalanche_network_chits_received_bytes");
  avalanche_network_get_sent_bytes = some (v "avalanche_network_get_sent_bytes");
  avalanche_network_get_received_bytes = some (v "avalanche_network_get_received_bytes");
  avalanche_network_put_sent_bytes = some (v "avalanche_network_put_sent_bytes");
  avalanche_network_put_received_bytes = some (v "avalanche_network_put_received_bytes");
  avalanche_network_pull_query_sent_bytes = some (v "avalanche_network_pull_query_sent_bytes");
  avalanche_network_pull_query_received_bytes =
      some (v "avalanche_network_pull_query_received_bytes");
  avalanche_network_push_query_sent_bytes = some (v "avalanche_network_push_query_sent_bytes");
  avalanche_network_push_query_received_bytes =
      some (v "avalanche_network_push_query_received_bytes");
  avalanche_network_get_accepted_frontier_sent_bytes =
      some (v "avalanche_network_get_accepted_frontier_sent_bytes");
  avalanche_network_get_accepted_frontier_received_bytes =
      some (v "avalanche_network_get_accepted_frontier_received_bytes");
  avalanche_network_accepted_frontier_sent_bytes =
      some (v "avalanche_network_accepted_frontier_sent_bytes");
  avalanche_network_accepted_frontier_received_bytes =
      some (v "avalanche_network_accepted_frontier_received_bytes");
  avalanche_network_get_accepted_sent_bytes = some (v "avalanche_network_get_accepted_sent_bytes");
  avalanche_network_get_accepted_received_bytes =
      some (v "avalanche_network_get_accepted_received_bytes");
  avalanche_network_accepted_sent_bytes = some (v "avalanche_network_accepted_sent_bytes");
  avalanche_network_accepted_received_bytes = some (v "avalanche_network_accepted_received_bytes");
  avalanche_network_get_ancestors_sent_bytes =
      some (v "avalanche_network_get_ancestors_sent_bytes");
  avalanche_network_get_ancestors_received_bytes =
      some (v "avalanche_network_get_ancestors_received_bytes");
  avalanche_network_ancestors_sent_bytes = some (v "avalanche_network_ancestors_sent_bytes");
  avalanche_network_ancestors_received_bytes =
      some (v "avalanche_network_ancestors_received_bytes");
  avalanche_network_app_gossip_sent_bytes = some (v "avalanche_network_app_gossip_sent_bytes");
  avalanche_network_app_gossip_received_bytes =
      some (v "avalanche_network_app_gossip_received_bytes");
  avalanche_network_app_request_sent_bytes = some (v "avalanche_network_app_request_sent_bytes");
  avalanche_network_app_request_received_bytes =
      some (v "avalanche_network_app_request_received_bytes");
  avalanche_x_db_get_count = some (v "avalanche_X_db_get_count");
  avalanche_x_db_write_size_sum = some (v "avalanche_X_db_write_size_sum");
  avalanche_x_db_read_size_sum = some (v "avalanche_X_db_read_size_sum");
  avalanche_x_vtx_processing = some (v "avalanche_X_vtx_processing");
  avalanche_x_txs_accepted_count = some (v "avalanche_X_txs_accepted_count");
  avalanche_x_txs_accepted_sum = some (v "avalanche_X_txs_accepted_sum");
  avalanche_x_txs_rejected_count = some (v "avalanche_X_txs_rejected_count");
  avalanche_x_txs_rejected_sum = some (v "avalanche_X_txs_rejected_sum");
  avalanche_x_txs_polls_accepted_count = some (v "avalanche_X_txs_polls_accepted_count");
  avalanche_x_txs_polls_accepted_sum = some (v "avalanche_X_txs_polls_accepted_sum");
  avalanche_x_polls_successful = some (v "avalanche_X_polls_successful");
  avalanche_x_polls_failed = some (v "avalanche_X_polls_failed");
  avalanche_x_handler_chits_count = some (v "avalanche_X_handler_chits_count");
  avalanche_x_handler_query_failed_count = some (v "avalanche_X_handler_query_failed_count");
  avalanche_x_whitelist_tx_accepted_count = some (v "avalanche_X_whitelist_tx_accepted_count");
  avalanche_x_whitelist_tx_accepted_sum = some (v "avalanche_X_whitelist_tx_accepted_sum");
  avalanche_x_whitelist_tx_polls_accepted_count =
      some (v "avalanche_X_whitelist_tx_polls_accepted_count");
  avalanche_x_whitelist_tx_polls_accepted_sum =
      some (v "avalanche_X_whitelist_tx_polls_accepted_sum");
  avalanche_x_whitelist_tx_polls_rejected_count =
      some (v "avalanche_X_whitelist_tx_polls_rejected_count");
  avalanche_x_whitelist_tx_polls_rejected_sum =
      some (v "avalanche_X_whitelist_tx_polls_rejected_sum");
  avalanche_x_whitelist_tx_processing = some (v "avalanche_X_whitelist_tx_processing");
  avalanche_x_whitelist_tx_rejected_count = some (v "avalanche_X_whitelist_tx_rejected_count");
  avalanche_x_whitelist_tx_rejected_sum = some (v "avalanche_X_whitelist_tx_rejected_sum");
  avalanche_x_whitelist_vtx_issue_failure = some (v "avalanche_X_whitelist_vtx_issue_failure");
  avalanche_x_whitelist_vtx_issue_success = some (v "avalanche_X_whitelist_vtx_issue_success");
  avalanche_x_benchlist_benched_num = some (v "avalanche_X_benchlist_benched_num");
  avalanche_p_vm_total_staked = some (v "avalanche_P_vm_total_staked");
  avalanche_p_db_get_count = some (v "avalanche_P_db_get_count");
  avalanche_p_db_write_size_sum = some (v "avalanche_P_db_write_size_sum");
  avalanche_p_db_read_size_sum = some (v "avalanche_P_db_read_size_sum");
  avalanche_p_blks_accepted_count = some (v "avalanche_P_blks_accepted_count");
  avalanche_p_blks_accepted_sum = some (v "avalanche_P_blks_accepted_sum");
  avalanche_p_blks_rejected_count = some (v "avalanche_P_blks_rejected_count");
  avalanche_p_blks_rejected_sum = some (v "avalanche_P_blks_rejected_sum");
  avalanche_p_polls_successful = some (v "avalanche_P_polls_successful");
  avalanche_p_polls_failed = some (v "avalanche_P_polls_failed");
  avalanche_p_blks_polls_accepted_count = some (v "avalanche_P_blks_polls_accepted_count");
  avalanche_p_blks_polls_accepted_sum = some (v "avalanche_P_blks_polls_accepted_sum");
  avalanche_p_handler_chits_count = some (v "avalanche_P_handler_chits_count");
  avalanche_p_handler_query_failed_count = some (v "avalanche_P_handler_query_failed_count");
  avalanche_p_benchlist_benched_num = some (v "avalanche_P_benchlist_benched_num");
  avalanche_c_db_get_count = some (v "avalanche_C_db_get_count");
  avalanche_c_db_write_size_sum = some (v "avalanche_C_db_write_size_sum");
  avalanche_c_db_read_size_sum = some (v "avalanche_C_db_read_size_sum");
  avalanche_c_blks_processing = some (v "avalanche_C_blks_processing");
  avalanche_c_blks_accepted_count = some (v "avalanche_C_blks_accepted_count");
  avalanche_c_blks_accepted_sum = some (v "avalanche_C_blks_accepted_sum");
  avalanche_c_blks_rejected_count = some (v "avalanche_C_blks_rejected_count");
  avalanche_c_blks_rejected_sum = some (v "avalanche_C_blks_rejected_sum");
  avalanche_c_blks_polls_accepted_count = some (v "avalanche_C_blks_polls_accepted_count");
  avalanche_c_blks_polls_accepted_sum = some (v "avalanche_C_blks_polls_accepted_sum");
  avalanche_c_polls_successful = some (v "avalanche_C_polls_successful");
  avalanche_c_polls_failed = some (v "avalanche_C_polls_failed");
  avalanche_c_handler_chits_count = some (v "avalanche_C_handler_chits_count");
  avalanche_c_handler_query_failed_count = some (v "avalanche_C_handler_query_failed_count");
  avalanche_c_handler_get_accepted_frontier_sum =
      some (v "avalanche_C_handler_get_accepted_frontier_sum");
  avalanche_c_handler_app_gossip_sum = some (v "avalanche_C_handler_app_gossip_sum");
  avalanche_c_handler_app_request_sum = some (v "avalanche_C_handler_app_request_sum");
  avalanche_c_handler_app_request_failed_sum =
      some (v "avalanche_C_handler_app_request_failed_sum");
  avalanche_c_handler_app_response_sum = some (v "avalanche_C_handler_app_response_sum");
  avalanche_c_handler_accepted_frontier_sum = some (v "avalanche_C_handler_accepted_frontier_sum");
  avalanche_c_handler_get_accepted_frontier_failed_sum =
      some (v "avalanche_C_handler_get_accepted_frontier_failed_sum");
  avalanche_c_handler_get_accepted_sum = some (v "avalanche_C_handler_get_accepted_sum");
  avalanche_c_handler_accepted_sum = some (v "avalanche_C_handler_accepted_sum");
  avalanche_c_handler_get_accepted_failed_sum =
      some (v "avalanche_C_handler_get_accepted_failed_sum");
  avalanche_c_handler_get_ancestors_sum = some (v "avalanche_C_handler_get_ancestors_sum");
  avalanche_c_handler_ancestors_sum = some (v "avalanche_C_handler_ancestors_sum");
  avalanche_c_handler_get_ancestors_failed_sum =
      some (v "avalanche_C_handler_get_ancestors_failed_sum");
  avalanche_c_handler_get_sum = some (v "avalanche_C_handler_get_sum");
  avalanche_c_handler_put_sum = some (v "avalanche_C_handler_put_sum");
  avalanche_c_handler_get_failed_sum = some (v "avalanche_C_handler_get_failed_sum");
  avalanche_c_handler_push_query_sum = some (v "avalanche_C_handler_push_query_sum");
  avalanche_c_handler_pull_query_sum = some (v "avalanche_C_handler_pull_query_sum");
  avalanche_c_handler_chits_sum = some (v "avalanche_C_handler_chits_sum");
  avalanche_c_handler_query_failed_sum = some (v "avalanche_C_handler_query_failed_sum");
  avalanche_c_handler_connected_sum = some (v "avalanche_C_handler_connected_sum");
  avalanche_c_handler_disconnected_sum = some (v "avalanche_C_handler_disconnected_sum");
  avalanche_c_benchlist_benched_num = some (v "avalanche_C_benchlist_benched_num");
}
