-- ===== src/Avalanche/Metrics/Scraped/Chains.antt =====
-- src/avalanche/avalanchego/api/metrics.rs: `get`, the metrics of the chains.
use avalanche_ops.Prelude.{List, some}
use avalanche_ops.Outcome.{Outcome, ok, ◌>>=◌}
use avalanche_ops.Io.{Error}
use avalanche_ops.Utils.Prometheus.{Metric}
use avalanche_ops.Avalanche.Metrics.{Metrics}
use avalanche_ops.Avalanche.Metrics.Scraped.Value.{value_at}

unfoldable pub with_x : {T : Type 0} → List Metric → Metrics T → Outcome Error (Metrics T)
with_x samples m = do
  v0 ← value_at samples "avalanche_X_db_get_count"
  v1 ← value_at samples "avalanche_X_db_write_size_sum"
  v2 ← value_at samples "avalanche_X_db_read_size_sum"
  v3 ← value_at samples "avalanche_X_vtx_processing"
  v4 ← value_at samples "avalanche_X_txs_accepted_count"
  v5 ← value_at samples "avalanche_X_txs_accepted_sum"
  v6 ← value_at samples "avalanche_X_txs_rejected_count"
  v7 ← value_at samples "avalanche_X_txs_rejected_sum"
  v8 ← value_at samples "avalanche_X_txs_polls_accepted_count"
  v9 ← value_at samples "avalanche_X_txs_polls_accepted_sum"
  v10 ← value_at samples "avalanche_X_polls_successful"
  v11 ← value_at samples "avalanche_X_polls_failed"
  v12 ← value_at samples "avalanche_X_handler_chits_count"
  ok (record m {
    avalanche_x_db_get_count = some v0;
    avalanche_x_db_write_size_sum = some v1;
    avalanche_x_db_read_size_sum = some v2;
    avalanche_x_vtx_processing = some v3;
    avalanche_x_txs_accepted_count = some v4;
    avalanche_x_txs_accepted_sum = some v5;
    avalanche_x_txs_rejected_count = some v6;
    avalanche_x_txs_rejected_sum = some v7;
    avalanche_x_txs_polls_accepted_count = some v8;
    avalanche_x_txs_polls_accepted_sum = some v9;
    avalanche_x_polls_successful = some v10;
    avalanche_x_polls_failed = some v11;
    avalanche_x_handler_chits_count = some v12;
  })

unfoldable pub with_x_whitelist : {T : Type 0} → List Metric → Metrics T → Outcome Error (Metrics T)
with_x_whitelist samples m = do
  v0 ← value_at samples "avalanche_X_handler_query_failed_count"
  v1 ← value_at samples "avalanche_X_whitelist_tx_accepted_count"
  v2 ← value_at samples "avalanche_X_whitelist_tx_accepted_sum"
  v3 ← value_at samples "avalanche_X_whitelist_tx_polls_accepted_count"
  v4 ← value_at samples "avalanche_X_whitelist_tx_polls_accepted_sum"
  v5 ← value_at samples "avalanche_X_whitelist_tx_polls_rejected_count"
  v6 ← value_at samples "avalanche_X_whitelist_tx_polls_rejected_sum"
  v7 ← value_at samples "avalanche_X_whitelist_tx_processing"
  v8 ← value_at samples "avalanche_X_whitelist_tx_rejected_count"
  v9 ← value_at samples "avalanche_X_whitelist_tx_rejected_sum"
  v10 ← value_at samples "avalanche_X_whitelist_vtx_issue_failure"
  v11 ← value_at samples "avalanche_X_whitelist_vtx_issue_success"
  v12 ← value_at samples "avalanche_X_benchlist_benched_num"
  ok (record m {
    avalanche_x_handler_query_failed_count = some v0;
    avalanche_x_whitelist_tx_accepted_count = some v1;
    avalanche_x_whitelist_tx_accepted_sum = some v2;
    avalanche_x_whitelist_tx_polls_accepted_count = some v3;
    avalanche_x_whitelist_tx_polls_accepted_sum = some v4;
    avalanche_x_whitelist_tx_polls_rejected_count = some v5;
    avalanche_x_whitelist_tx_polls_rejected_sum = some v6;
    avalanche_x_whitelist_tx_processing = some v7;
    avalanche_x_whitelist_tx_rejected_count = some v8;
    avalanche_x_whitelist_tx_rejected_sum = some v9;
    avalanche_x_whitelist_vtx_issue_failure = some v10;
    avalanche_x_whitelist_vtx_issue_success = some v11;
    avalanche_x_benchlist_benched_num = some v12;
  })

unfoldable pub with_p : {T : Type 0} → List Metric → Metrics T → Outcome Error (Metrics T)
with_p samples m = do
  v0 ← value_at samples "avalanche_P_vm_total_staked"
  v1 ← value_at samples "avalanche_P_db_get_count"
  v2 ← value_at samples "avalanche_P_db_write_size_sum"
  v3 ← value_at samples "avalanche_P_db_read_size_sum"
  v4 ← value_at samples "avalanche_P_blks_accepted_count"
  v5 ← value_at samples "avalanche_P_blks_accepted_sum"
  v6 ← value_at samples "avalanche_P_blks_rejected_count"
  v7 ← value_at samples "avalanche_P_blks_rejected_sum"
  v8 ← value_at samples "avalanche_P_polls_successful"
  v9 ← value_at samples "avalanche_P_polls_failed"
  v10 ← value_at samples "avalanche_P_blks_polls_accepted_count"
  v11 ← value_at samples "avalanche_P_blks_polls_accepted_sum"
  v12 ← value_at samples "avalanche_P_handler_chits_count"
  v13 ← value_at samples "avalanche_P_handler_query_failed_count"
  v14 ← value_at samples "avalanche_P_benchlist_benched_num"
  ok (record m {
    avalanche_p_vm_total_staked = some v0;
    avalanche_p_db_get_count = some v1;
    avalanche_p_db_write_size_sum = some v2;
    avalanche_p_db_read_size_sum = some v3;
    avalanche_p_blks_accepted_count = some v4;
    avalanche_p_blks_accepted_sum = some v5;
    avalanche_p_blks_rejected_count = some v6;
    avalanche_p_blks_rejected_sum = some v7;
    avalanche_p_polls_successful = some v8;
    avalanche_p_polls_failed = some v9;
    avalanche_p_blks_polls_accepted_count = some v10;
    avalanche_p_blks_polls_accepted_sum = some v11;
    avalanche_p_handler_chits_count = some v12;
    avalanche_p_handler_query_failed_count = some v13;
    avalanche_p_benchlist_benched_num = some v14;
  })

unfoldable pub with_c_blocks : {T : Type 0} → List Metric → Metrics T → Outcome Error (Metrics T)
with_c_blocks samples m = do
  v0 ← value_at samples "avalanche_C_db_get_count"
  v1 ← value_at samples "avalanche_C_db_write_size_sum"
  v2 ← value_at samples "avalanche_C_db_read_size_sum"
  v3 ← value_at samples "avalanche_C_blks_processing"
  v4 ← value_at samples "avalanche_C_blks_accepted_count"
  v5 ← value_at samples "avalanche_C_blks_accepted_sum"
  v6 ← value_at samples "avalanche_C_blks_rejected_count"
  v7 ← value_at samples "avalanche_C_blks_rejected_sum"
  v8 ← value_at samples "avalanche_C_blks_polls_accepted_count"
  v9 ← value_at samples "avalanche_C_blks_polls_accepted_sum"
  v10 ← value_at samples "avalanche_C_polls_successful"
  v11 ← value_at samples "avalanche_C_polls_failed"
  v12 ← value_at samples "avalanche_C_handler_chits_count"
  v13 ← value_at samples "avalanche_C_handler_query_failed_count"
  v14 ← value_at samples "avalanche_C_handler_get_accepted_frontier_sum"
  v15 ← value_at samples "avalanche_C_handler_app_gossip_sum"
  v16 ← value_at samples "avalanche_C_handler_app_request_sum"
  v17 ← value_at samples "avalanche_C_handler_app_request_failed_sum"
  ok (record m {
    avalanche_c_db_get_count = some v0;
    avalanche_c_db_write_size_sum = some v1;
    avalanche_c_db_read_size_sum = some v2;
    avalanche_c_blks_processing = some v3;
    avalanche_c_blks_accepted_count = some v4;
    avalanche_c_blks_accepted_sum = some v5;
    avalanche_c_blks_rejected_count = some v6;
    avalanche_c_blks_rejected_sum = some v7;
    avalanche_c_blks_polls_accepted_count = some v8;
    avalanche_c_blks_polls_accepted_sum = some v9;
    avalanche_c_polls_successful = some v10;
    avalanche_c_polls_failed = some v11;
    avalanche_c_handler_chits_count = some v12;
    avalanche_c_handler_query_failed_count = some v13;
    avalanche_c_handler_get_accepted_frontier_sum = some v14;
    avalanche_c_handler_app_gossip_sum = some v15;
    avalanche_c_handler_app_request_sum = some v16;
    avalanche_c_handler_app_request_failed_sum = some v17;
  })

unfoldable pub with_c_handler : {T : Type 0} → List Metric → Metrics T → Outcome Error (Metrics T)
with_c_handler samples m = do
  v0 ← value_at samples "avalanche_C_handler_app_response_sum"
  v1 ← value_at samples "avalanche_C_handler_accepted_frontier_sum"
  v2 ← value_at samples "avalanche_C_handler_get_accepted_frontier_failed_sum"
  v3 ← value_at samples "avalanche_C_handler_get_accepted_sum"
  v4 ← value_at samples "avalanche_C_handler_accepted_sum"
  v5 ← value_at samples "avalanche_C_handler_get_accepted_failed_sum"
  v6 ← value_at samples "avalanche_C_handler_get_ancestors_sum"
  v7 ← value_at samples "avalanche_C_handler_ancestors_sum"
  v8 ← value_at samples "avalanche_C_handler_get_ancestors_failed_sum"
  v9 ← value_at samples "avalanche_C_handler_get_sum"
  v10 ← value_at samples "avalanche_C_handler_put_sum"
  v11 ← value_at samples "avalanche_C_handler_get_failed_sum"
  v12 ← value_at samples "avalanche_C_handler_push_query_sum"
  v13 ← value_at samples "avalanche_C_handler_pull_query_sum"
  v14 ← value_at samples "avalanche_C_handler_chits_sum"
  v15 ← value_at samples "avalanche_C_handler_query_failed_sum"
  v16 ← value_at samples "avalanche_C_handler_connected_sum"
  v17 ← value_at samples "avalanche_C_handler_disconnected_sum"
  v18 ← value_at samples "avalanche_C_benchlist_benched_num"
  ok (record m {
    avalanche_c_handler_app_response_sum = some v0;
    avalanche_c_handler_accepted_frontier_sum = some v1;
    avalanche_c_handler_get_accepted_frontier_failed_sum = some v2;
    avalanche_c_handler_get_accepted_sum = some v3;
    avalanche_c_handler_accepted_sum = some v4;
    avalanche_c_handler_get_accepted_failed_sum = some v5;
    avalanche_c_handler_get_ancestors_sum = some v6;
    avalanche_c_handler_ancestors_sum = some v7;
    avalanche_c_handler_get_ancestors_failed_sum = some v8;
    avalanche_c_handler_get_sum = some v9;
    avalanche_c_handler_put_sum = some v10;
    avalanche_c_handler_get_failed_sum = some v11;
    avalanche_c_handler_push_query_sum = some v12;
    avalanche_c_handler_pull_query_sum = some v13;
    avalanche_c_handler_chits_sum = some v14;
    avalanche_c_handler_query_failed_sum = some v15;
    avalanche_c_handler_connected_sum = some v16;
    avalanche_c_handler_disconnected_sum = some v17;
    avalanche_c_benchlist_benched_num = some v18;
  })
