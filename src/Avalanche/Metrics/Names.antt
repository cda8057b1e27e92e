-- ===== src/Avalanche/Metrics/Names.antt =====
-- The names of the metrics that a node must expose.
use avalanche_ops.Prelude.{String, List, ◌∷◌, []}

abbrev pub network_names : List String
network_names =
    "avalanche_network_peers" ∷ "avalanche_network_pull_query_sent"
    ∷ "avalanche_network_push_query_sent" ∷ "avalanche_network_msgs_failed_to_parse"
    ∷ "avalanche_network_inbound_conn_throttler_allowed"
    ∷ "avalanche_network_byte_throttler_inbound_awaiting_release"
    ∷ "avalanche_network_throttler_outbound_acquire_failures"
    ∷ "avalanche_network_throttler_outbound_awaiting_release" ∷ "avalanche_requests_average_latency"
    ∷ []

abbrev pub handshake_names : List String
handshake_names =
    "avalanche_network_version_sent_bytes" ∷ "avalanche_network_version_received_bytes"
    ∷ "avalanche_network_peerlist_sent_bytes" ∷ "avalanche_network_peerlist_received_bytes"
    ∷ "avalanche_network_ping_sent_bytes" ∷ "avalanche_network_ping_received_bytes"
    ∷ "avalanche_network_pong_sent_bytes" ∷ "avalanche_network_pong_received_bytes" ∷ []

abbrev pub consensus_names : List String
consensus_names =
    "avalanche_network_chits_sent_bytes" ∷ "avalanche_network_chits_received_bytes"
    ∷ "avalanche_network_get_sent_bytes" ∷ "avalanche_network_get_received_bytes"
    ∷ "avalanche_network_put_sent_bytes" ∷ "avalanche_network_put_received_bytes"
    ∷ "avalanche_network_pull_query_sent_bytes" ∷ "avalanche_network_pull_query_received_bytes"
    ∷ "avalanche_network_push_query_sent_bytes" ∷ "avalanche_network_push_query_received_bytes" ∷ []

abbrev pub bootstrap_names : List String
bootstrap_names =
    "avalanche_network_get_accepted_frontier_sent_bytes"
    ∷ "avalanche_network_get_accepted_frontier_received_bytes"
    ∷ "avalanche_network_accepted_frontier_sent_bytes"
    ∷ "avalanche_network_accepted_frontier_received_bytes"
    ∷ "avalanche_network_get_accepted_sent_bytes" ∷ "avalanche_network_get_accepted_received_bytes"
    ∷ "avalanche_network_accepted_sent_bytes" ∷ "avalanche_network_accepted_received_bytes"
    ∷ "avalanche_network_get_ancestors_sent_bytes"
    ∷ "avalanche_network_get_ancestors_received_bytes" ∷ "avalanche_network_ancestors_sent_bytes"
    ∷ "avalanche_network_ancestors_received_bytes" ∷ []

abbrev pub app_names : List String
app_names =
    "avalanche_network_app_gossip_sent_bytes" ∷ "avalanche_network_app_gossip_received_bytes"
    ∷ "avalanche_network_app_request_sent_bytes" ∷ "avalanche_network_app_request_received_bytes"
    ∷ []

abbrev pub x_names : List String
x_names =
    "avalanche_X_db_get_count" ∷ "avalanche_X_db_write_size_sum" ∷ "avalanche_X_db_read_size_sum"
    ∷ "avalanche_X_vtx_processing" ∷ "avalanche_X_txs_accepted_count"
    ∷ "avalanche_X_txs_accepted_sum" ∷ "avalanche_X_txs_rejected_count"
    ∷ "avalanche_X_txs_rejected_sum" ∷ "avalanche_X_txs_polls_accepted_count"
    ∷ "avalanche_X_txs_polls_accepted_sum" ∷ "avalanche_X_polls_successful"
    ∷ "avalanche_X_polls_failed" ∷ "avalanche_X_handler_chits_count" ∷ []

abbrev pub x_whitelist_names : List String
x_whitelist_names =
    "avalanche_X_handler_query_failed_count" ∷ "avalanche_X_whitelist_tx_accepted_count"
    ∷ "avalanche_X_whitelist_tx_accepted_sum" ∷ "avalanche_X_whitelist_tx_polls_accepted_count"
    ∷ "avalanche_X_whitelist_tx_polls_accepted_sum"
    ∷ "avalanche_X_whitelist_tx_polls_rejected_count"
    ∷ "avalanche_X_whitelist_tx_polls_rejected_sum" ∷ "avalanche_X_whitelist_tx_processing"
    ∷ "avalanche_X_whitelist_tx_rejected_count" ∷ "avalanche_X_whitelist_tx_rejected_sum"
    ∷ "avalanche_X_whitelist_vtx_issue_failure" ∷ "avalanche_X_whitelist_vtx_issue_success"
    ∷ "avalanche_X_benchlist_benched_num" ∷ []

abbrev pub p_names : List String
p_names =
    "avalanche_P_vm_total_staked" ∷ "avalanche_P_db_get_count" ∷ "avalanche_P_db_write_size_sum"
    ∷ "avalanche_P_db_read_size_sum" ∷ "avalanche_P_blks_accepted_count"
    ∷ "avalanche_P_blks_accepted_sum" ∷ "avalanche_P_blks_rejected_count"
    ∷ "avalanche_P_blks_rejected_sum" ∷ "avalanche_P_polls_successful" ∷ "avalanche_P_polls_failed"
    ∷ "avalanche_P_blks_polls_accepted_count" ∷ "avalanche_P_blks_polls_accepted_sum"
    ∷ "avalanche_P_handler_chits_count" ∷ "avalanche_P_handler_query_failed_count"
    ∷ "avalanche_P_benchlist_benched_num" ∷ []

abbrev pub c_blocks_names : List String
c_blocks_names =
    "avalanche_C_db_get_count" ∷ "avalanche_C_db_write_size_sum" ∷ "avalanche_C_db_read_size_sum"
    ∷ "avalanche_C_blks_processing" ∷ "avalanche_C_blks_accepted_count"
    ∷ "avalanche_C_blks_accepted_sum" ∷ "avalanche_C_blks_rejected_count"
    ∷ "avalanche_C_blks_rejected_sum" ∷ "avalanche_C_blks_polls_accepted_count"
    ∷ "avalanche_C_blks_polls_accepted_sum" ∷ "avalanche_C_polls_successful"
    ∷ "avalanche_C_polls_failed" ∷ "avalanche_C_handler_chits_count"
    ∷ "avalanche_C_handler_query_failed_count" ∷ "avalanche_C_handler_get_accepted_frontier_sum"
    ∷ "avalanche_C_handler_app_gossip_sum" ∷ "avalanche_C_handler_app_request_sum"
    ∷ "avalanche_C_handler_app_request_failed_sum" ∷ []

abbrev pub c_handler_names : List String
c_handler_names =
    "avalanche_C_handler_app_response_sum" ∷ "avalanche_C_handler_accepted_frontier_sum"
    ∷ "avalanche_C_handler_get_accepted_frontier_failed_sum"
    ∷ "avalanche_C_handler_get_accepted_sum" ∷ "avalanche_C_handler_accepted_sum"
    ∷ "avalanche_C_handler_get_accepted_failed_sum" ∷ "avalanche_C_handler_get_ancestors_sum"
    ∷ "avalanche_C_handler_ancestors_sum" ∷ "avalanche_C_handler_get_ancestors_failed_sum"
    ∷ "avalanche_C_handler_get_sum" ∷ "avalanche_C_handler_put_sum"
    ∷ "avalanche_C_handler_get_failed_sum" ∷ "avalanche_C_handler_push_query_sum"
    ∷ "avalanche_C_handler_pull_query_sum" ∷ "avalanche_C_handler_chits_sum"
    ∷ "avalanche_C_handler_query_failed_sum" ∷ "avalanche_C_handler_connected_sum"
    ∷ "avalanche_C_handler_disconnected_sum" ∷ "avalanche_C_benchlist_benched_num" ∷ []
