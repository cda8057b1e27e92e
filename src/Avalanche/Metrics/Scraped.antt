-- ===== src/Avalanche/Metrics/Scraped.antt =====
-- src/avalanche/avalanchego/api/metrics.rs: `get`, from the scrape of a node's answer.
-- Each function sets a group of the fields; a metric that the scrape does not have is a panic.
pub mod Value
pub mod Chains
use avalanche_ops.Prelude.{String, F64, List, Option, some}
use avalanche_ops.Outcome.{Outcome, ok, ◌>>=◌}
use avalanche_ops.Io.{Error}
use avalanche_ops.Utils.Prometheus.{Metric}
use avalanche_ops.Avalanche.Metrics.Default.{default}
use avalanche_ops.Avalanche.Metrics.{Metrics}
use avalanche_ops.Avalanche.Metrics.Scraped.Value.{value_at}
use avalanche_ops.Avalanche.Metrics.Scraped.Chains.{
  with_x, with_x_whitelist, with_p, with_c_blocks, with_c_handler,
}

unfoldable pub with_network : {T : Type 0} → List Metric → Metrics T → Outcome Error (Metrics T)
with_network samples m = do
  v0 ← value_at samples "avalanche_network_peers"
  v1 ← value_at samples "avalanche_network_pull_query_sent"
  v2 ← value_at samples "avalanche_network_push_query_sent"
  v3 ← value_at samples "avalanche_network_msgs_failed_to_parse"
  v4 ← value_at samples "avalanche_network_inbound_conn_throttler_allowed"
  v5 ← value_at samples "avalanche_network_byte_throttler_inbound_awaiting_release"
  v6 ← value_at samples "avalanche_network_throttler_outbound_acquire_failures"
  v7 ← value_at samples "avalanche_network_throttler_outbound_awaiting_release"
  v8 ← value_at samples "avalanche_requests_average_latency"
  ok (record m {
    avalanche_network_peers = some v0;
    avalanche_network_pull_query_sent = some v1;
    avalanche_network_push_query_sent = some v2;
    avalanche_network_msgs_failed_to_parse = some v3;
    avalanche_network_inbound_conn_throttler_allowed = some v4;
    avalanche_network_byte_throttler_inbound_awaiting_release = some v5;
    avalanche_network_throttler_outbound_acquire_failures = some v6;
    avalanche_network_throttler_outbound_awaiting_release = some v7;
    avalanche_requests_average_latency = some v8;
  })

unfoldable pub with_handshake : {T : Type 0} → List Metric → Metrics T → Outcome Error (Metrics T)
with_handshake samples m = do
  v0 ← value_at samples "avalanche_network_version_sent_bytes"
  v1 ← value_at samples "avalanche_network_version_received_bytes"
  v2 ← value_at samples "avalanche_network_peerlist_sent_bytes"
  v3 ← value_at samples "avalanche_network_peerlist_received_bytes"
  v4 ← value_at samples "avalanche_network_ping_sent_bytes"
  v5 ← value_at samples "avalanche_network_ping_received_bytes"
  v6 ← value_at samples "avalanche_network_pong_sent_bytes"
  v7 ← value_at samples "avalanche_network_pong_received_bytes"
  ok (record m {
    avalanche_network_version_sent_bytes = some v0;
    avalanche_network_version_received_bytes = some v1;
    avalanche_network_peerlist_sent_bytes = some v2;
    avalanche_network_peerlist_received_bytes = some v3;
    avalanche_network_ping_sent_bytes = some v4;
    avalanche_network_ping_received_bytes = some v5;
    avalanche_network_pong_sent_bytes = some v6;
    avalanche_network_pong_received_bytes = some v7;
  })

unfoldable pub with_consensus : {T : Type 0} → List Metric → Metrics T → Outcome Error (Metrics T)
with_consensus samples m = do
  v0 ← value_at samples "avalanche_network_chits_sent_bytes"
  v1 ← value_at samples "avalanche_network_chits_received_bytes"
  v2 ← value_at samples "avalanche_network_get_sent_bytes"
  v3 ← value_at samples "avalanche_network_get_received_bytes"
  v4 ← value_at samples "avalanche_network_put_sent_bytes"
  v5 ← value_at samples "avalanche_network_put_received_bytes"
  v6 ← value_at samples "avalanche_network_pull_query_sent_bytes"
  v7 ← value_at samples "avalanche_network_pull_query_received_bytes"
  v8 ← value_at samples "avalanche_network_push_query_sent_bytes"
  v9 ← value_at samples "avalanche_network_push_query_received_bytes"
  ok (record m {
    avalanche_network_chits_sent_bytes = some v0;
    avalanche_network_chits_received_bytes = some v1;
    avalanche_network_get_sent_bytes = some v2;
    avalanche_network_get_received_bytes = some v3;
    avalanche_network_put_sent_bytes = some v4;
    avalanche_network_put_received_bytes = some v5;
    avalanche_network_pull_query_sent_bytes = some v6;
    avalanche_network_pull_query_received_bytes = some v7;
    avalanche_network_push_query_sent_bytes = some v8;
    avalanche_network_push_query_received_bytes = some v9;
  })

unfoldable pub with_bootstrap : {T : Type 0} → List Metric → Metrics T → Outcome Error (Metrics T)
with_bootstrap samples m = do
  v0 ← value_at samples "avalanche_network_get_accepted_frontier_sent_bytes"
  v1 ← value_at samples "avalanche_network_get_accepted_frontier_received_bytes"
  v2 ← value_at samples "avalanche_network_accepted_frontier_sent_bytes"
  v3 ← value_at samples "avalanche_network_accepted_frontier_received_bytes"
  v4 ← value_at samples "avalanche_network_get_accepted_sent_bytes"
  v5 ← value_at samples "avalanche_network_get_accepted_received_bytes"
  v6 ← value_at samples "avalanche_network_accepted_sent_bytes"
  v7 ← value_at samples "avalanche_network_accepted_received_bytes"
  v8 ← value_at samples "avalanche_network_get_ancestors_sent_bytes"
  v9 ← value_at samples "avalanche_network_get_ancestors_received_bytes"
  v10 ← value_at samples "avalanche_network_ancestors_sent_bytes"
  v11 ← value_at samples "avalanche_network_ancestors_received_bytes"
  ok (record m {
    avalanche_network_get_accepted_frontier_sent_bytes = some v0;
    avalanche_network_get_accepted_frontier_received_bytes = some v1;
    avalanche_network_accepted_frontier_sent_bytes = some v2;
    avalanche_network_accepted_frontier_received_bytes = some v3;
    avalanche_network_get_accepted_sent_bytes = some v4;
    avalanche_network_get_accepted_received_bytes = some v5;
    avalanche_network_accepted_sent_bytes = some v6;
    avalanche_network_accepted_received_bytes = some v7;
    avalanche_network_get_ancestors_sent_bytes = some v8;
    avalanche_network_get_ancestors_received_bytes = some v9;
    avalanche_network_ancestors_sent_bytes = some v10;
    avalanche_network_ancestors_received_bytes = some v11;
  })

unfoldable pub with_app : {T : Type 0} → List Metric → Metrics T → Outcome Error (Metrics T)
with_app samples m = do
  v0 ← value_at samples "avalanche_network_app_gossip_sent_bytes"
  v1 ← value_at samples "avalanche_network_app_gossip_received_bytes"
  v2 ← value_at samples "avalanche_network_app_request_sent_bytes"
  v3 ← value_at samples "avalanche_network_app_request_received_bytes"
  ok (record m {
    avalanche_network_app_gossip_sent_bytes = some v0;
    avalanche_network_app_gossip_received_bytes = some v1;
    avalanche_network_app_request_sent_bytes = some v2;
    avalanche_network_app_request_received_bytes = some v3;
  })

-- `get`, from the samples on
unfoldable pub get : {T : Type 0} → T → List Metric → Outcome Error (Metrics T)
get ts samples = do
  m0 ← with_network samples (default ts)
  m1 ← with_handshake samples m0
  m2 ← with_consensus samples m1
  m3 ← with_bootstrap samples m2
  m4 ← with_app samples m3
  m5 ← with_x samples m4
  m6 ← with_x_whitelist samples m5
  m7 ← with_p samples m6
  m8 ← with_c_blocks samples m7
  with_c_handler samples m8
