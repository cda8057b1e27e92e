-- ===== src/Avalanche/Metrics/Agree.antt =====
-- A scrape with every metric gives the metrics filled by its values.
pub mod Chains
use avalanche_ops.Prelude.{String, F64, some, List, ◌≡◌, refl, All}
use avalanche_ops.Outcome.{ok}
use avalanche_ops.Utils.Prometheus.{Metric}
use avalanche_ops.Avalanche.Metrics.{Metrics}
use avalanche_ops.Avalanche.Metrics.Names.{
  network_names, handshake_names, consensus_names, bootstrap_names, app_names, x_names,
  x_whitelist_names, p_names, c_blocks_names, c_handler_names,
}
use avalanche_ops.Avalanche.Metrics.Scraped.{
  with_network, with_handshake, with_consensus, with_bootstrap, with_app,
}
use avalanche_ops.Avalanche.Metrics.Scraped.Value.{value_at}
use avalanche_ops.Avalanche.Metrics.Scraped.Chains.{
  with_x, with_x_whitelist, with_p, with_c_blocks, with_c_handler,
}

-- The scrape has a metric of each name, with this value.
abbrev pub Has : List Metric → (String → F64) → String → Type 0
Has samples v name = value_at samples name ≡ ok (v name)

module _ {T : Type 0} (samples : List Metric) (v : String → F64) where
  pub with_network-ok :
      (m : Metrics T)
      → All (Has samples v) network_names
      → with_network samples m
        ≡ ok (record m {
          avalanche_network_peers = some (v "avalanche_network_peers");
          avalanche_network_pull_query_sent = some (v "avalanche_network_pull_query_sent");
          avalanche_network_push_query_sent = some (v "avalanche_network_push_query_sent");
          avalanche_network_msgs_failed_to_parse =
              some (v "avalanche_network_msgs_failed_to_parse");
          avalanche_network_inbound_conn_throttler_allowed =
              some (v "avalanche_network_inbound_conn_throttler_allowed");
          avalanche_network_byte_throttler_inbound_awaiting_release =
              some (v "avalanche_network_byte_throttler_inbound_awaiting_release");
          avalanche_network_throttler_outbound_acquire_failures =
              some (v "avalanche_network_throttler_outbound_acquire_failures");
          avalanche_network_throttler_outbound_awaiting_release =
              some (v "avalanche_network_throttler_outbound_awaiting_release");
          avalanche_requests_average_latency = some (v "avalanche_requests_average_latency");
        })
  unfolding with_network
  with_network-ok m h =
      rw
        (
          h.0, h.1.0, h.1.1.0, h.1.1.1.0, h.1.1.1.1.0, h.1.1.1.1.1.0, h.1.1.1.1.1.1.0,
          h.1.1.1.1.1.1.1.0, h.1.1.1.1.1.1.1.1.0,
        )
        refl

  pub with_handshake-ok :
      (m : Metrics T)
      → All (Has samples v) handshake_names
      → with_handshake samples m
        ≡ ok (record m {
          avalanche_network_version_sent_bytes = some (v "avalanche_network_version_sent_bytes");
          avalanche_network_version_received_bytes =
              some (v "avalanche_network_version_received_bytes");
          avalanche_network_peerlist_sent_bytes = some (v "avalanche_network_peerlist_sent_bytes");
          avalanche_network_peerlist_received_bytes =
              some (v "avalanche_network_peerlist_received_bytes");
          avalanche_network_ping_sent_bytes = some (v "avalanche_network_ping_sent_bytes");
          avalanche_network_ping_received_bytes = some (v "avalanche_network_ping_received_bytes");
          avalanche_network_pong_sent_bytes = some (v "avalanche_network_pong_sent_bytes");
          avalanche_network_pong_received_bytes = some (v "avalanche_network_pong_received_bytes");
        })
  unfolding with_handshake
  with_handshake-ok m h =
      rw
        (
          h.0, h.1.0, h.1.1.0, h.1.1.1.0, h.1.1.1.1.0, h.1.1.1.1.1.0, h.1.1.1.1.1.1.0,
          h.1.1.1.1.1.1.1.0,
        )
        refl

  pub with_consensus-ok :
      (m : Metrics T)
      → All (Has samples v) consensus_names
      → with_consensus samples m
        ≡ ok (record m {
          avalanche_network_chits_sent_bytes = some (v "avalanche_network_chits_sent_bytes");
          avalanche_network_chits_received_bytes =
              some (v "avalanche_network_chits_received_bytes");
          avalanche_network_get_sent_bytes = some (v "avalanche_network_get_sent_bytes");
          avalanche_network_get_received_bytes = some (v "avalanche_network_get_received_bytes");
          avalanche_network_put_sent_bytes = some (v "avalanche_network_put_sent_bytes");
          avalanche_network_put_received_bytes = some (v "avalanche_network_put_received_bytes");
          avalanche_network_pull_query_sent_bytes =
              some (v "avalanche_network_pull_query_sent_bytes");
          avalanche_network_pull_query_received_bytes =
              some (v "avalanche_network_pull_query_received_bytes");
          avalanche_network_push_query_sent_bytes =
              some (v "avalanche_network_push_query_sent_bytes");
          avalanche_network_push_query_received_bytes =
              some (v "avalanche_network_push_query_received_bytes");
        })
  unfolding with_consensus
  with_consensus-ok m h =
      rw
        (
          h.0, h.1.0, h.1.1.0, h.1.1.1.0, h.1.1.1.1.0, h.1.1.1.1.1.0, h.1.1.1.1.1.1.0,
          h.1.1.1.1.1.1.1.0, h.1.1.1.1.1.1.1.1.0, h.1.1.1.1.1.1.1.1.1.0,
        )
        refl

  pub with_bootstrap-ok :
      (m : Metrics T)
      → All (Has samples v) bootstrap_names
      → with_bootstrap samples m
        ≡ ok (record m {
          avalanche_network_get_accepted_frontier_sent_bytes =
              some (v "avalanche_network_get_accepted_frontier_sent_bytes");
          avalanche_network_get_accepted_frontier_received_bytes =
              some (v "avalanche_network_get_accepted_frontier_received_bytes");
          avalanche_network_accepted_frontier_sent_bytes =
              some (v "avalanche_network_accepted_frontier_sent_bytes");
          avalanche_network_accepted_frontier_received_bytes =
              some (v "avalanche_network_accepted_frontier_received_bytes");
          avalanche_network_get_accepted_sent_bytes =
              some (v "avalanche_network_get_accepted_sent_bytes");
          avalanche_network_get_accepted_received_bytes =
              some (v "avalanche_network_get_accepted_received_bytes");
          avalanche_network_accepted_sent_bytes = some (v "avalanche_network_accepted_sent_bytes");
          avalanche_network_accepted_received_bytes =
              some (v "avalanche_network_accepted_received_bytes");
          avalanche_network_get_ancestors_sent_bytes =
              some (v "avalanche_network_get_ancestors_sent_bytes");
          avalanche_network_get_ancestors_received_bytes =
              some (v "avalanche_network_get_ancestors_received_bytes");
          avalanche_network_ancestors_sent_bytes =
              some (v "avalanche_network_ancestors_sent_bytes");
          avalanche_network_ancestors_received_bytes =
              some (v "avalanche_network_ancestors_received_bytes");
        })
  unfolding with_bootstrap
  with_bootstrap-ok m h =
      rw
        (
          h.0, h.1.0, h.1.1.0, h.1.1.1.0, h.1.1.1.1.0, h.1.1.1.1.1.0, h.1.1.1.1.1.1.0,
          h.1.1.1.1.1.1.1.0, h.1.1.1.1.1.1.1.1.0, h.1.1.1.1.1.1.1.1.1.0, h.1.1.1.1.1.1.1.1.1.1.0,
          h.1.1.1.1.1.1.1.1.1.1.1.0,
        )
        refl

  pub with_app-ok :
      (m : Metrics T)
      → All (Has samples v) app_names
      → with_app samples m
        ≡ ok (record m {
          avalanche_network_app_gossip_sent_bytes =
              some (v "avalanche_network_app_gossip_sent_bytes");
          avalanche_network_app_gossip_received_bytes =
              some (v "avalanche_network_app_gossip_received_bytes");
          avalanche_network_app_request_sent_bytes =
              some (v "avalanche_network_app_request_sent_bytes");
          avalanche_network_app_request_received_bytes =
              some (v "avalanche_network_app_request_received_bytes");
        })
  unfolding with_app
  with_app-ok m h = rw (h.0, h.1.0, h.1.1.0, h.1.1.1.0) refl
