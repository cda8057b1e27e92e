-- ===== src/Avalanche/Metrics/Catalogue.antt =====
-- src/avalanche/avalanchego/api/metrics.rs: the names of the data, in the order in which they are sent,
-- with their units and whether they carry a time, as a table.
use avalanche_ops.Prelude.{String, Bool, true, false, Option, none, some, List, [], ◌∷◌, ◌++◌, map}
use avalanche_ops.Avalanche.Metrics.Published.Drafts.{StandardUnit, count, bytes, percent, seconds}

-- a name, its unit, and whether it has a time
abbrev pub CatalogueEntry : Type 0
CatalogueEntry = String × Option StandardUnit × Bool

abbrev with_unit : StandardUnit → String → CatalogueEntry
with_unit unit name = (name, some unit, true)

abbrev pub catalogue : List CatalogueEntry
catalogue =
    map (with_unit count) (
      "avalanche_network_peers" ∷ "avalanche_network_pull_query_sent"
      ∷ "avalanche_network_push_query_sent" ∷ "avalanche_network_msgs_failed_to_parse"
      ∷ "avalanche_network_inbound_conn_throttler_allowed"
      ∷ "avalanche_network_byte_throttler_inbound_awaiting_release"
      ∷ "avalanche_network_throttler_outbound_acquire_failures"
      ∷ "avalanche_network_throttler_outbound_awaiting_release" ∷ [])
    ++ (("avalanche_requests_average_latency_seconds", some seconds, true) ∷ [])
    ++ map (with_unit bytes) (
        "avalanche_network_version_sent_bytes" ∷ "avalanche_network_version_received_bytes"
        ∷ "avalanche_network_peerlist_sent_bytes" ∷ "avalanche_network_peerlist_received_bytes"
        ∷ "avalanche_network_ping_sent_bytes" ∷ "avalanche_network_ping_received_bytes"
        ∷ "avalanche_network_pong_sent_bytes" ∷ "avalanche_network_pong_received_bytes"
        ∷ "avalanche_network_chits_sent_bytes" ∷ "avalanche_network_chits_received_bytes"
        ∷ "avalanche_network_get_sent_bytes" ∷ "avalanche_network_get_received_bytes"
        ∷ "avalanche_network_put_sent_bytes" ∷ "avalanche_network_put_received_bytes"
        ∷ "avalanche_network_pull_query_sent_bytes" ∷ "avalanche_network_pull_query_received_bytes"
        ∷ "avalanche_network_push_query_sent_bytes" ∷ "avalanche_network_push_query_received_bytes"
        ∷ "avalanche_network_get_accepted_frontier_sent_bytes"
        ∷ "avalanche_network_get_accepted_frontier_received_bytes"
        ∷ "avalanche_network_accepted_frontier_sent_bytes"
        ∷ "avalanche_network_accepted_frontier_received_bytes"
        ∷ "avalanche_network_get_accepted_sent_bytes"
        ∷ "avalanche_network_get_accepted_received_bytes" ∷ "avalanche_network_accepted_sent_bytes"
        ∷ "avalanche_network_accepted_received_bytes" ∷ "avalanche_network_get_ancestors_sent_bytes"
        ∷ "avalanche_network_get_ancestors_received_bytes"
        ∷ "avalanche_network_ancestors_sent_bytes" ∷ "avalanche_network_ancestors_received_bytes"
        ∷ "avalanche_network_app_gossip_sent_bytes" ∷ "avalanche_network_app_gossip_received_bytes"
        ∷ "avalanche_network_app_request_sent_bytes"
        ∷ "avalanche_network_app_request_received_bytes" ∷ [])
    ++ (("avalanche_X_db_get_count", some count, true) ∷ [])
    ++ map (with_unit bytes) ("avalanche_X_db_write_size_sum" ∷ "avalanche_X_db_read_size_sum" ∷ [])
    ++ map (with_unit count) (
        "avalanche_X_vtx_processing" ∷ "avalanche_X_txs_accepted_count"
        ∷ "avalanche_X_txs_accepted_sum" ∷ "avalanche_X_txs_rejected_count"
        ∷ "avalanche_X_txs_rejected_sum" ∷ "avalanche_X_txs_polls_accepted_count"
        ∷ "avalanche_X_txs_polls_accepted_sum" ∷ "avalanche_X_polls_successful"
        ∷ "avalanche_X_polls_failed" ∷ [])
    ++ (("avalanche_X_polls_success_rate", some percent, true) ∷ [])
    ++ map (with_unit count) (
        "avalanche_X_handler_chits_count" ∷ "avalanche_X_handler_query_failed_count"
        ∷ "avalanche_X_whitelist_tx_accepted_count" ∷ "avalanche_X_whitelist_tx_accepted_sum"
        ∷ "avalanche_X_whitelist_tx_polls_accepted_count"
        ∷ "avalanche_X_whitelist_tx_polls_accepted_sum"
        ∷ "avalanche_X_whitelist_tx_polls_rejected_count"
        ∷ "avalanche_X_whitelist_tx_polls_rejected_sum" ∷ "avalanche_X_whitelist_tx_processing"
        ∷ [])
    ++ (("avalanche_X_whitelist_tx_rejected_count", none, true) ∷ [])
    ++ map (with_unit count) (
        "avalanche_X_whitelist_tx_rejected_sum" ∷ "avalanche_X_whitelist_vtx_issue_failure"
        ∷ "avalanche_X_whitelist_vtx_issue_success" ∷ "avalanche_X_benchlist_benched_num"
        ∷ "avalanche_P_vm_total_staked_avax" ∷ "avalanche_P_db_get_count" ∷ [])
    ++ map (with_unit bytes) ("avalanche_P_db_write_size_sum" ∷ "avalanche_P_db_read_size_sum" ∷ [])
    ++ map (with_unit count) (
        "avalanche_P_blks_accepted_count" ∷ "avalanche_P_blks_accepted_sum"
        ∷ "avalanche_P_blks_rejected_count" ∷ "avalanche_P_blks_rejected_sum"
        ∷ "avalanche_P_blks_polls_accepted_count" ∷ "avalanche_P_blks_polls_accepted_sum"
        ∷ "avalanche_P_polls_successful" ∷ "avalanche_P_polls_failed" ∷ [])
    ++ (("avalanche_P_polls_success_rate", some percent, true) ∷ [])
    ++ map (with_unit count) (
        "avalanche_P_handler_chits_count" ∷ "avalanche_P_handler_query_failed_count"
        ∷ "avalanche_P_benchlist_benched_num" ∷ "avalanche_C_db_get_count" ∷ [])
    ++ map (with_unit bytes) ("avalanche_C_db_write_size_sum" ∷ "avalanche_C_db_read_size_sum" ∷ [])
    ++ map (with_unit count) (
        "avalanche_C_blks_processing" ∷ "avalanche_C_blks_accepted_count"
        ∷ "avalanche_C_blks_accepted_sum" ∷ "avalanche_C_blks_rejected_count"
        ∷ "avalanche_C_blks_rejected_sum" ∷ "avalanche_C_blks_polls_accepted_count"
        ∷ "avalanche_C_blks_polls_accepted_sum" ∷ "avalanche_C_polls_successful"
        ∷ "avalanche_C_polls_failed" ∷ [])
    ++ (("avalanche_C_polls_success_rate", some percent, true) ∷ [])
    ++ map (with_unit count) (
        "avalanche_C_handler_chits_count" ∷ "avalanche_C_handler_query_failed_count"
        ∷ "avalanche_C_handler_get_accepted_frontier_sum" ∷ "avalanche_C_handler_app_gossip_sum"
        ∷ "avalanche_C_handler_app_request_sum" ∷ "avalanche_C_handler_app_request_failed_sum" ∷ [])
    ++ (("avalanche_C_handler_app_response_sum", some count, false) ∷ [])
    ++ map (with_unit count) (
        "avalanche_C_handler_accepted_frontier_sum"
        ∷ "avalanche_C_handler_get_accepted_frontier_failed_sum"
        ∷ "avalanche_C_handler_get_accepted_sum" ∷ "avalanche_C_handler_accepted_sum"
        ∷ "avalanche_C_handler_get_accepted_failed_sum" ∷ "avalanche_C_handler_get_ancestors_sum"
        ∷ "avalanche_C_handler_ancestors_sum" ∷ "avalanche_C_handler_get_ancestors_failed_sum"
        ∷ "avalanche_C_handler_get_sum" ∷ "avalanche_C_handler_put_sum"
        ∷ "avalanche_C_handler_get_failed_sum" ∷ "avalanche_C_handler_push_query_sum"
        ∷ "avalanche_C_handler_pull_query_sum" ∷ "avalanche_C_handler_chits_sum"
        ∷ "avalanche_C_handler_query_failed_sum" ∷ "avalanche_C_handler_connected_sum"
        ∷ "avalanche_C_handler_disconnected_sum" ∷ "avalanche_C_benchlist_benched_num" ∷ [])
