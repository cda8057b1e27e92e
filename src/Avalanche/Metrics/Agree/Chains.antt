-- ===== src/Avalanche/Metrics/Agree/Chains.antt =====
-- A scrape with the metrics of the chains gives them their values.
use avalanche_ops.Prelude.{String, F64, some, List, ◌≡◌, refl, All}
use avalanche_ops.Outcome.{ok}
use avalanche_ops.Utils.Prometheus.{Metric}
use avalanche_ops.Avalanche.Metrics.{Metrics}
use avalanche_ops.Avalanche.Metrics.Names.{
  x_names, x_whitelist_names, p_names, c_blocks_names, c_handler_names,
}
use avalanche_ops.Avalanche.Metrics.Scraped.Chains.{
  with_x, with_x_whitelist, with_p, with_c_blocks, with_c_handler,
}
use avalanche_ops.Avalanche.Metrics.Agree.{Has}

module _ {T : Type 0} (samples : List Metric) (v : String → F64) where
  pub with_x-ok :
      (m : Metrics T)
      → All (Has samples v) x_names
      → with_x samples m
        ≡ ok (record m {
          avalanche_x_db_get_count = some (v "avalanche_X_db_get_count");
          avalanche_x_db_write_size_sum = some (v "avalanche_X_db_write_size_sum");
          avalanche_x_db_read_size_sum = some (v "avalanche_X_db_read_size_sum");
          avalanche_x_vtx_processing = some (v "avalanche_X_vtx_processing");
          avalanche_x_txs_accepted_count = some (v "avalanche_X_txs_accepted_count");
          avalanche_x_txs_accepted_sum = some (v "avalanche_X_txs_accepted_sum");
          avalanche_x_txs_rejected_count = some (v "avalanche_X_txs_rejected_count");
          avalanche_x_txs_rejected_sum = some (v "avalanche_X_txs_rejected_sum");
          avalanche_x_txs_polls_accepted_count = some (v "avalanche_X_txs_polls_accepted_count");
          avalanche_x_txs_polls_accepted_sum = some (v "avalanche_X_txs_polls_accepted_sum");
          avalanche_x_polls_successful = some (v "avalanche_X_polls_successful");
          avalanche_x_polls_failed = some (v "avalanche_X_polls_failed");
          avalanche_x_handler_chits_count = some (v "avalanche_X_handler_chits_count");
        })
  unfolding with_x
  with_x-ok m h =
      rw
        (
          h.0, h.1.0, h.1.1.0, h.1.1.1.0, h.1.1.1.1.0, h.1.1.1.1.1.0, h.1.1.1.1.1.1.0,
          h.1.1.1.1.1.1.1.0, h.1.1.1.1.1.1.1.1.0, h.1.1.1.1.1.1.1.1.1.0, h.1.1.1.1.1.1.1.1.1.1.0,
          h.1.1.1.1.1.1.1.1.1.1.1.0, h.1.1.1.1.1.1.1.1.1.1.1.1.0,
        )
        refl

  pub with_x_whitelist-ok :
      (m : Metrics T)
      → All (Has samples v) x_whitelist_names
      → with_x_whitelist samples m
        ≡ ok (record m {
          avalanche_x_handler_query_failed_count =
              some (v "avalanche_X_handler_query_failed_count");
          avalanche_x_whitelist_tx_accepted_count =
              some (v "avalanche_X_whitelist_tx_accepted_count");
          avalanche_x_whitelist_tx_accepted_sum = some (v "avalanche_X_whitelist_tx_accepted_sum");
          avalanche_x_whitelist_tx_polls_accepted_count =
              some (v "avalanche_X_whitelist_tx_polls_accepted_count");
          avalanche_x_whitelist_tx_polls_accepted_sum =
              some (v "avalanche_X_whitelist_tx_polls_accepted_sum");
          avalanche_x_whitelist_tx_polls_rejected_count =
              some (v "avalanche_X_whitelist_tx_polls_rejected_count");
          avalanche_x_whitelist_tx_polls_rejected_sum =
              some (v "avalanche_X_whitelist_tx_polls_rejected_sum");
          avalanche_x_whitelist_tx_processing = some (v "avalanche_X_whitelist_tx_processing");
          avalanche_x_whitelist_tx_rejected_count =
              some (v "avalanche_X_whitelist_tx_rejected_count");
          avalanche_x_whitelist_tx_rejected_sum = some (v "avalanche_X_whitelist_tx_rejected_sum");
          avalanche_x_whitelist_vtx_issue_failure =
              some (v "avalanche_X_whitelist_vtx_issue_failure");
          avalanche_x_whitelist_vtx_issue_success =
              some (v "avalanche_X_whitelist_vtx_issue_success");
          avalanche_x_benchlist_benched_num = some (v "avalanche_X_benchlist_benched_num");
        })
  unfolding with_x_whitelist
  with_x_whitelist-ok m h =
      rw
        (
          h.0, h.1.0, h.1.1.0, h.1.1.1.0, h.1.1.1.1.0, h.1.1.1.1.1.0, h.1.1.1.1.1.1.0,
          h.1.1.1.1.1.1.1.0, h.1.1.1.1.1.1.1.1.0, h.1.1.1.1.1.1.1.1.1.0, h.1.1.1.1.1.1.1.1.1.1.0,
          h.1.1.1.1.1.1.1.1.1.1.1.0, h.1.1.1.1.1.1.1.1.1.1.1.1.0,
        )
        refl

  pub with_p-ok :
      (m : Metrics T)
      → All (Has samples v) p_names
      → with_p samples m
        ≡ ok (record m {
          avalanche_p_vm_total_staked = some (v "avalanche_P_vm_total_staked");
          avalanche_p_db_get_count = some (v "avalanche_P_db_get_count");
          avalanche_p_db_write_size_sum = some (v "avalanche_P_db_write_size_sum");
          avalanche_p_db_read_size_sum = some (v "avalanche_P_db_read_size_sum");
          avalanche_p_blks_accepted_count = some (v "avalanche_P_blks_accepted_count");
          avalanche_p_blks_accepted_sum = some (v "avalanche_P_blks_accepted_sum");
          avalanche_p_blks_rejected_count = some (v "avalanche_P_blks_rejected_count");
          avalanche_p_blks_rejected_sum = some (v "avalanche_P_blks_rejected_sum");
          avalanche_p_polls_successful = some (v "avalanche_P_polls_successful");
          avalanche_p_polls_failed = some (v "avalanche_P_polls_failed");
          avalanche_p_blks_polls_accepted_count = some (v "avalanche_P_blks_polls_accepted_count");
          avalanche_p_blks_polls_accepted_sum = some (v "avalanche_P_blks_polls_accepted_sum");
          avalanche_p_handler_chits_count = some (v "avalanche_P_handler_chits_count");
          avalanche_p_handler_query_failed_count =
              some (v "avalanche_P_handler_query_failed_count");
          avalanche_p_benchlist_benched_num = some (v "avalanche_P_benchlist_benched_num");
        })
  unfolding with_p
  with_p-ok m h =
      rw
        (
          h.0, h.1.0, h.1.1.0, h.1.1.1.0, h.1.1.1.1.0, h.1.1.1.1.1.0, h.1.1.1.1.1.1.0,
          h.1.1.1.1.1.1.1.0, h.1.1.1.1.1.1.1.1.0, h.1.1.1.1.1.1.1.1.1.0, h.1.1.1.1.1.1.1.1.1.1.0,
          h.1.1.1.1.1.1.1.1.1.1.1.0, h.1.1.1.1.1.1.1.1.1.1.1.1.0, h.1.1.1.1.1.1.1.1.1.1.1.1.1.0,
          h.1.1.1.1.1.1.1.1.1.1.1.1.1.1.0,
        )
        refl

  pub with_c_blocks-ok :
      (m : Metrics T)
      → All (Has samples v) c_blocks_names
      → with_c_blocks samples m
        ≡ ok (record m {
          avalanche_c_db_get_count = some (v "avalanche_C_db_get_count");
          avalanche_c_db_write_size_sum = some (v "avalanche_C_db_write_size_sum");
          avalanche_c_db_read_size_sum = some (v "avalanche_C_db_read_size_sum");
          avalanche_c_blks_processing = some (v "avalanche_C_blks_processing");
          avalanche_c_blks_accepted_count = some (v "avalanche_C_blks_accepted_count");
          avalanche_c_blks_accepted_sum = some (v "avalanche_C_blks_accepted_sum");
          avalanche_c_blks_rejected_count = some (v "avalanche_C_blks_rejected_count");
          avalanche_c_blks_rejected_sum = some (v "avalanche_C_blks_rejected_sum");
          avalanche_c_blks_polls_accepted_count = some (v "avalanche_C_blks_polls_accepted_count");
          avalanche_c_blks_polls_accepted_sum = some (v "avalanche_C_blks_polls_accepted_sum");
          avalanche_c_polls_successful = some (v "avalanche_C_polls_successful");
          avalanche_c_polls_failed = some (v "avalanche_C_polls_failed");
          avalanche_c_handler_chits_count = some (v "avalanche_C_handler_chits_count");
          avalanche_c_handler_query_failed_count =
              some (v "avalanche_C_handler_query_failed_count");
          avalanche_c_handler_get_accepted_frontier_sum =
              some (v "avalanche_C_handler_get_accepted_frontier_sum");
          avalanche_c_handler_app_gossip_sum = some (v "avalanche_C_handler_app_gossip_sum");
          avalanche_c_handler_app_request_sum = some (v "avalanche_C_handler_app_request_sum");
          avalanche_c_handler_app_request_failed_sum =
              some (v "avalanche_C_handler_app_request_failed_sum");
        })
  unfolding with_c_blocks
  with_c_blocks-ok m h =
      rw
        (
          h.0, h.1.0, h.1.1.0, h.1.1.1.0, h.1.1.1.1.0, h.1.1.1.1.1.0, h.1.1.1.1.1.1.0,
          h.1.1.1.1.1.1.1.0, h.1.1.1.1.1.1.1.1.0, h.1.1.1.1.1.1.1.1.1.0, h.1.1.1.1.1.1.1.1.1.1.0,
          h.1.1.1.1.1.1.1.1.1.1.1.0, h.1.1.1.1.1.1.1.1.1.1.1.1.0, h.1.1.1.1.1.1.1.1.1.1.1.1.1.0,
          h.1.1.1.1.1.1.1.1.1.1.1.1.1.1.0, h.1.1.1.1.1.1.1.1.1.1.1.1.1.1.1.0,
          h.1.1.1.1.1.1.1.1.1.1.1.1.1.1.1.1.0, h.1.1.1.1.1.1.1.1.1.1.1.1.1.1.1.1.1.0,
        )
        refl

  pub with_c_handler-ok :
      (m : Metrics T)
      → All (Has samples v) c_handler_names
      → with_c_handler samples m
        ≡ ok (record m {
          avalanche_c_handler_app_response_sum = some (v "avalanche_C_handler_app_response_sum");
          avalanche_c_handler_accepted_frontier_sum =
              some (v "avalanche_C_handler_accepted_frontier_sum");
          avalanche_c_handler_get_accepted_frontier_failed_sum =
              some (v "avalanche_C_handler_get_accepted_frontier_failed_sum");
          avalanche_c_handler_get_accepted_sum = some (v "avalanche_C_handler_get_accepted_sum");
          avalanche_c_handler_accepted_sum = some (v "avalanche_C_handler_accepted_sum");
          avalanche_c_handler_get_accepted_failed_sum =
              some (v "avalanche_C_handler_get_accepted_failed_sum");
          avalanche_c_handler_get_ancestors_sum = some (v "avalanche_C_handler_get_ancestors_sum");
          avalanche_c_handler_ancestors_sum = some (v "avalanche_C_handler_ancestors_sum");
          avalanche_c_handler_get_ancestors_failed_sum =
              some (v "avalanche_C_handler_get_ancestors_failed_sum");
          avalanche_c_handler_get_sum = some (v "avalanche_C_handler_get_sum");
          avalanche_c_handler_put_sum = some (v "avalanche_C_handler_put_sum");
          avalanche_c_handler_get_failed_sum = some (v "avalanche_C_handler_get_failed_sum");
          avalanche_c_handler_push_query_sum = some (v "avalanche_C_handler_push_query_sum");
          avalanche_c_handler_pull_query_sum = some (v "avalanche_C_handler_pull_query_sum");
          avalanche_c_handler_chits_sum = some (v "avalanche_C_handler_chits_sum");
          avalanche_c_handler_query_failed_sum = some (v "avalanche_C_handler_query_failed_sum");
          avalanche_c_handler_connected_sum = some (v "avalanche_C_handler_connected_sum");
          avalanche_c_handler_disconnected_sum = some (v "avalanche_C_handler_disconnected_sum");
          avalanche_c_benchlist_benched_num = some (v "avalanche_C_benchlist_benched_num");
        })
  unfolding with_c_handler
  with_c_handler-ok m h =
      rw
        (
          h.0, h.1.0, h.1.1.0, h.1.1.1.0, h.1.1.1.1.0, h.1.1.1.1.1.0, h.1.1.1.1.1.1.0,
          h.1.1.1.1.1.1.1.0, h.1.1.1.1.1.1.1.1.0, h.1.1.1.1.1.1.1.1.1.0, h.1.1.1.1.1.1.1.1.1.1.0,
          h.1.1.1.1.1.1.1.1.1.1.1.0, h.1.1.1.1.1.1.1.1.1.1.1.1.0, h.1.1.1.1.1.1.1.1.1.1.1.1.1.0,
          h.1.1.1.1.1.1.1.1.1.1.1.1.1.1.0, h.1.1.1.1.1.1.1.1.1.1.1.1.1.1.1.0,
          h.1.1.1.1.1.1.1.1.1.1.1.1.1.1.1.1.0, h.1.1.1.1.1.1.1.1.1.1.1.1.1.1.1.1.1.0,
          h.1.1.1.1.1.1.1.1.1.1.1.1.1.1.1.1.1.1.0,
        )
        refl
