-- ===== src/Avalanche/Metrics/Published/Chains.antt =====
-- src/avalanche/avalanchego/api/metrics.rs: `to_cw_metric_data`, the data of the chains.
use avalanche_ops.Prelude.{List, ◌∷◌, [], some}
use avalanche_ops.Avalanche.Metrics.{
  Metrics, Arithmetic, x_polls_success_rate, p_polls_success_rate, c_polls_success_rate,
}
use avalanche_ops.Avalanche.Metrics.Published.Drafts.{
  Draft, draft, unitless, untimed, in_billions, count, bytes, percent,
}

unfoldable pub published_x : {T : Type 0} → Arithmetic T → Metrics T → List Draft
published_x f64 m =
    draft "avalanche_X_db_get_count" m.avalanche_x_db_get_count count
    ∷ draft "avalanche_X_db_write_size_sum" m.avalanche_x_db_write_size_sum bytes
    ∷ draft "avalanche_X_db_read_size_sum" m.avalanche_x_db_read_size_sum bytes
    ∷ draft "avalanche_X_vtx_processing" m.avalanche_x_vtx_processing count
    ∷ draft "avalanche_X_txs_accepted_count" m.avalanche_x_txs_accepted_count count
    ∷ draft "avalanche_X_txs_accepted_sum" m.avalanche_x_txs_accepted_sum count
    ∷ draft "avalanche_X_txs_rejected_count" m.avalanche_x_txs_rejected_count count
    ∷ draft "avalanche_X_txs_rejected_sum" m.avalanche_x_txs_rejected_sum count
    ∷ draft "avalanche_X_txs_polls_accepted_count" m.avalanche_x_txs_polls_accepted_count count
    ∷ draft "avalanche_X_txs_polls_accepted_sum" m.avalanche_x_txs_polls_accepted_sum count
    ∷ draft "avalanche_X_polls_successful" m.avalanche_x_polls_successful count
    ∷ draft "avalanche_X_polls_failed" m.avalanche_x_polls_failed count
    ∷ draft "avalanche_X_polls_success_rate" (some (x_polls_success_rate f64 m)) percent
    ∷ []

unfoldable pub published_x_whitelist : {T : Type 0} → Arithmetic T → Metrics T → List Draft
published_x_whitelist f64 m =
    draft "avalanche_X_handler_chits_count" m.avalanche_x_handler_chits_count count
    ∷ draft "avalanche_X_handler_query_failed_count" m.avalanche_x_handler_query_failed_count count
    ∷ draft "avalanche_X_whitelist_tx_accepted_count" m.avalanche_x_whitelist_tx_accepted_count
        count
    ∷ draft "avalanche_X_whitelist_tx_accepted_sum" m.avalanche_x_whitelist_tx_accepted_sum count
    ∷ draft "avalanche_X_whitelist_tx_polls_accepted_count"
        m.avalanche_x_whitelist_tx_polls_accepted_count count
    ∷ draft "avalanche_X_whitelist_tx_polls_accepted_sum"
        m.avalanche_x_whitelist_tx_polls_accepted_sum count
    ∷ draft "avalanche_X_whitelist_tx_polls_rejected_count"
        m.avalanche_x_whitelist_tx_polls_rejected_count count
    ∷ draft "avalanche_X_whitelist_tx_polls_rejected_sum"
        m.avalanche_x_whitelist_tx_polls_rejected_sum count
    ∷ draft "avalanche_X_whitelist_tx_processing" m.avalanche_x_whitelist_tx_processing count
    ∷ unitless "avalanche_X_whitelist_tx_rejected_count" m.avalanche_x_whitelist_tx_rejected_count
    ∷ draft "avalanche_X_whitelist_tx_rejected_sum" m.avalanche_x_whitelist_tx_rejected_sum count
    ∷ draft "avalanche_X_whitelist_vtx_issue_failure" m.avalanche_x_whitelist_vtx_issue_failure
        count
    ∷ draft "avalanche_X_whitelist_vtx_issue_success" m.avalanche_x_whitelist_vtx_issue_success
        count
    ∷ draft "avalanche_X_benchlist_benched_num" m.avalanche_x_benchlist_benched_num count
    ∷ []

unfoldable pub published_p : {T : Type 0} → Arithmetic T → Metrics T → List Draft
published_p f64 m =
    draft "avalanche_P_vm_total_staked_avax" (in_billions f64 m.avalanche_p_vm_total_staked) count
    ∷ draft "avalanche_P_db_get_count" m.avalanche_p_db_get_count count
    ∷ draft "avalanche_P_db_write_size_sum" m.avalanche_p_db_write_size_sum bytes
    ∷ draft "avalanche_P_db_read_size_sum" m.avalanche_p_db_read_size_sum bytes
    ∷ draft "avalanche_P_blks_accepted_count" m.avalanche_p_blks_accepted_count count
    ∷ draft "avalanche_P_blks_accepted_sum" m.avalanche_p_blks_accepted_sum count
    ∷ draft "avalanche_P_blks_rejected_count" m.avalanche_p_blks_rejected_count count
    ∷ draft "avalanche_P_blks_rejected_sum" m.avalanche_p_blks_rejected_sum count
    ∷ draft "avalanche_P_blks_polls_accepted_count" m.avalanche_p_blks_polls_accepted_count count
    ∷ draft "avalanche_P_blks_polls_accepted_sum" m.avalanche_p_blks_polls_accepted_sum count
    ∷ draft "avalanche_P_polls_successful" m.avalanche_p_polls_successful count
    ∷ draft "avalanche_P_polls_failed" m.avalanche_p_polls_failed count
    ∷ draft "avalanche_P_polls_success_rate" (some (p_polls_success_rate f64 m)) percent
    ∷ draft "avalanche_P_handler_chits_count" m.avalanche_p_handler_chits_count count
    ∷ draft "avalanche_P_handler_query_failed_count" m.avalanche_p_handler_query_failed_count count
    ∷ draft "avalanche_P_benchlist_benched_num" m.avalanche_p_benchlist_benched_num count
    ∷ []

unfoldable pub published_c_blocks : {T : Type 0} → Arithmetic T → Metrics T → List Draft
published_c_blocks f64 m =
    draft "avalanche_C_db_get_count" m.avalanche_c_db_get_count count
    ∷ draft "avalanche_C_db_write_size_sum" m.avalanche_c_db_write_size_sum bytes
    ∷ draft "avalanche_C_db_read_size_sum" m.avalanche_c_db_read_size_sum bytes
    ∷ draft "avalanche_C_blks_processing" m.avalanche_c_blks_processing count
    ∷ draft "avalanche_C_blks_accepted_count" m.avalanche_c_blks_accepted_count count
    ∷ draft "avalanche_C_blks_accepted_sum" m.avalanche_c_blks_accepted_sum count
    ∷ draft "avalanche_C_blks_rejected_count" m.avalanche_c_blks_rejected_count count
    ∷ draft "avalanche_C_blks_rejected_sum" m.avalanche_c_blks_rejected_sum count
    ∷ draft "avalanche_C_blks_polls_accepted_count" m.avalanche_c_blks_polls_accepted_count count
    ∷ draft "avalanche_C_blks_polls_accepted_sum" m.avalanche_c_blks_polls_accepted_sum count
    ∷ draft "avalanche_C_polls_successful" m.avalanche_c_polls_successful count
    ∷ draft "avalanche_C_polls_failed" m.avalanche_c_polls_failed count
    ∷ draft "avalanche_C_polls_success_rate" (some (c_polls_success_rate f64 m)) percent
    ∷ draft "avalanche_C_handler_chits_count" m.avalanche_c_handler_chits_count count
    ∷ draft "avalanche_C_handler_query_failed_count" m.avalanche_c_handler_query_failed_count count
    ∷ draft "avalanche_C_handler_get_accepted_frontier_sum"
        m.avalanche_c_handler_get_accepted_frontier_sum count
    ∷ draft "avalanche_C_handler_app_gossip_sum" m.avalanche_c_handler_app_gossip_sum count
    ∷ draft "avalanche_C_handler_app_request_sum" m.avalanche_c_handler_app_request_sum count
    ∷ draft "avalanche_C_handler_app_request_failed_sum"
        m.avalanche_c_handler_app_request_failed_sum count
    ∷ []

unfoldable pub published_c_handler : {T : Type 0} → Arithmetic T → Metrics T → List Draft
published_c_handler f64 m =
    untimed "avalanche_C_handler_app_response_sum" m.avalanche_c_handler_app_response_sum count
    ∷ draft "avalanche_C_handler_accepted_frontier_sum" m.avalanche_c_handler_accepted_frontier_sum
        count
    ∷ draft "avalanche_C_handler_get_accepted_frontier_failed_sum"
        m.avalanche_c_handler_get_accepted_frontier_failed_sum count
    ∷ draft "avalanche_C_handler_get_accepted_sum" m.avalanche_c_handler_get_accepted_sum count
    ∷ draft "avalanche_C_handler_accepted_sum" m.avalanche_c_handler_accepted_sum count
    ∷ draft "avalanche_C_handler_get_accepted_failed_sum"
        m.avalanche_c_handler_get_accepted_failed_sum count
    ∷ draft "avalanche_C_handler_get_ancestors_sum" m.avalanche_c_handler_get_ancestors_sum count
    ∷ draft "avalanche_C_handler_ancestors_sum" m.avalanche_c_handler_ancestors_sum count
    ∷ draft "avalanche_C_handler_get_ancestors_failed_sum"
        m.avalanche_c_handler_get_ancestors_failed_sum count
    ∷ draft "avalanche_C_handler_get_sum" m.avalanche_c_handler_get_sum count
    ∷ draft "avalanche_C_handler_put_sum" m.avalanche_c_handler_put_sum count
    ∷ draft "avalanche_C_handler_get_failed_sum" m.avalanche_c_handler_get_failed_sum count
    ∷ draft "avalanche_C_handler_push_query_sum" m.avalanche_c_handler_push_query_sum count
    ∷ draft "avalanche_C_handler_pull_query_sum" m.avalanche_c_handler_pull_query_sum count
    ∷ draft "avalanche_C_handler_chits_sum" m.avalanche_c_handler_chits_sum count
    ∷ draft "avalanche_C_handler_query_failed_sum" m.avalanche_c_handler_query_failed_sum count
    ∷ draft "avalanche_C_handler_connected_sum" m.avalanche_c_handler_connected_sum count
    ∷ draft "avalanche_C_handler_disconnected_sum" m.avalanche_c_handler_disconnected_sum count
    ∷ draft "avalanche_C_benchlist_benched_num" m.avalanche_c_benchlist_benched_num count
    ∷ []
