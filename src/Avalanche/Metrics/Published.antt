-- ===== src/Avalanche/Metrics/Published.antt =====
-- src/avalanche/avalanchego/api/metrics.rs: `to_cw_metric_data`.
pub mod Drafts
pub mod Chains
use avalanche_ops.Prelude.{List, ◌∷◌, [], some, Option, ◌++◌, none}
use avalanche_ops.Avalanche.Metrics.{
  Metrics, Arithmetic, x_polls_success_rate, p_polls_success_rate, c_polls_success_rate,
  c_blks_accepted_per_second,
}
use avalanche_ops.Avalanche.Metrics.Published.Drafts.{
  Draft, draft, unitless, untimed, in_billions, count, bytes, percent, seconds, Datum, datum, build,
}
use avalanche_ops.Avalanche.Metrics.Published.Chains.{
  published_x, published_x_whitelist, published_p, published_c_blocks, published_c_handler,
}
use avalanche_ops.Outcome.{Outcome, ◌>>=◌, ok}
use avalanche_ops.Io.{Error}

unfoldable pub published_network : {T : Type 0} → Arithmetic T → Metrics T → List Draft
published_network f64 m =
    draft "avalanche_network_peers" m.avalanche_network_peers count
    ∷ draft "avalanche_network_pull_query_sent" m.avalanche_network_pull_query_sent count
    ∷ draft "avalanche_network_push_query_sent" m.avalanche_network_push_query_sent count
    ∷ draft "avalanche_network_msgs_failed_to_parse" m.avalanche_network_msgs_failed_to_parse count
    ∷ draft "avalanche_network_inbound_conn_throttler_allowed"
        m.avalanche_network_inbound_conn_throttler_allowed count
    ∷ draft "avalanche_network_byte_throttler_inbound_awaiting_release"
        m.avalanche_network_byte_throttler_inbound_awaiting_release count
    ∷ draft "avalanche_network_throttler_outbound_acquire_failures"
        m.avalanche_network_throttler_outbound_acquire_failures count
    ∷ draft "avalanche_network_throttler_outbound_awaiting_release"
        m.avalanche_network_throttler_outbound_awaiting_release count
    ∷ draft "avalanche_requests_average_latency_seconds"
        (in_billions f64 m.avalanche_requests_average_latency) seconds
    ∷ []

unfoldable pub published_handshake : {T : Type 0} → Arithmetic T → Metrics T → List Draft
published_handshake f64 m =
    draft "avalanche_network_version_sent_bytes" m.avalanche_network_version_sent_bytes bytes
    ∷ draft "avalanche_network_version_received_bytes" m.avalanche_network_version_received_bytes
        bytes
    ∷ draft "avalanche_network_peerlist_sent_bytes" m.avalanche_network_peerlist_sent_bytes bytes
    ∷ draft "avalanche_network_peerlist_received_bytes" m.avalanche_network_peerlist_received_bytes
        bytes
    ∷ draft "avalanche_network_ping_sent_bytes" m.avalanche_network_ping_sent_bytes bytes
    ∷ draft "avalanche_network_ping_received_bytes" m.avalanche_network_ping_received_bytes bytes
    ∷ draft "avalanche_network_pong_sent_bytes" m.avalanche_network_pong_sent_bytes bytes
    ∷ draft "avalanche_network_pong_received_bytes" m.avalanche_network_pong_received_bytes bytes
    ∷ []

unfoldable pub published_consensus : {T : Type 0} → Arithmetic T → Metrics T → List Draft
published_consensus f64 m =
    draft "avalanche_network_chits_sent_bytes" m.avalanche_network_chits_sent_bytes bytes
    ∷ draft "avalanche_network_chits_received_bytes" m.avalanche_network_chits_received_bytes bytes
    ∷ draft "avalanche_network_get_sent_bytes" m.avalanche_network_get_sent_bytes bytes
    ∷ draft "avalanche_network_get_received_bytes" m.avalanche_network_get_received_bytes bytes
    ∷ draft "avalanche_network_put_sent_bytes" m.avalanche_network_put_sent_bytes bytes
    ∷ draft "avalanche_network_put_received_bytes" m.avalanche_network_put_received_bytes bytes
    ∷ draft "avalanche_network_pull_query_sent_bytes" m.avalanche_network_pull_query_sent_bytes
        bytes
    ∷ draft "avalanche_network_pull_query_received_bytes"
        m.avalanche_network_pull_query_received_bytes bytes
    ∷ draft "avalanche_network_push_query_sent_bytes" m.avalanche_network_push_query_sent_bytes
        bytes
    ∷ draft "avalanche_network_push_query_received_bytes"
        m.avalanche_network_push_query_received_bytes bytes
    ∷ []

unfoldable pub published_bootstrap : {T : Type 0} → Arithmetic T → Metrics T → List Draft
published_bootstrap f64 m =
    draft "avalanche_network_get_accepted_frontier_sent_bytes"
      m.avalanche_network_get_accepted_frontier_sent_bytes bytes
    ∷ draft "avalanche_network_get_accepted_frontier_received_bytes"
        m.avalanche_network_get_accepted_frontier_received_bytes bytes
    ∷ draft "avalanche_network_accepted_frontier_sent_bytes"
        m.avalanche_network_accepted_frontier_sent_bytes bytes
    ∷ draft "avalanche_network_accepted_frontier_received_bytes"
        m.avalanche_network_accepted_frontier_received_bytes bytes
    ∷ draft "avalanche_network_get_accepted_sent_bytes" m.avalanche_network_get_accepted_sent_bytes
        bytes
    ∷ draft "avalanche_network_get_accepted_received_bytes"
        m.avalanche_network_get_accepted_received_bytes bytes
    ∷ draft "avalanche_network_accepted_sent_bytes" m.avalanche_network_accepted_sent_bytes bytes
    ∷ draft "avalanche_network_accepted_received_bytes" m.avalanche_network_accepted_received_bytes
        bytes
    ∷ draft "avalanche_network_get_ancestors_sent_bytes"
        m.avalanche_network_get_ancestors_sent_bytes bytes
    ∷ draft "avalanche_network_get_ancestors_received_bytes"
        m.avalanche_network_get_ancestors_received_bytes bytes
    ∷ draft "avalanche_network_ancestors_sent_bytes" m.avalanche_network_ancestors_sent_bytes bytes
    ∷ draft "avalanche_network_ancestors_received_bytes"
        m.avalanche_network_ancestors_received_bytes bytes
    ∷ []

unfoldable pub published_app : {T : Type 0} → Arithmetic T → Metrics T → List Draft
published_app f64 m =
    draft "avalanche_network_app_gossip_sent_bytes" m.avalanche_network_app_gossip_sent_bytes bytes
    ∷ draft "avalanche_network_app_gossip_received_bytes"
        m.avalanche_network_app_gossip_received_bytes bytes
    ∷ draft "avalanche_network_app_request_sent_bytes" m.avalanche_network_app_request_sent_bytes
        bytes
    ∷ draft "avalanche_network_app_request_received_bytes"
        m.avalanche_network_app_request_received_bytes bytes
    ∷ []

-- the whole `vec!`
abbrev pub published : {T : Type 0} → Arithmetic T → Metrics T → List Draft
published f64 m =
    published_network f64 m
    ++ published_handshake f64 m
    ++ published_consensus f64 m
    ++ published_bootstrap f64 m
    ++ published_app f64 m
    ++ published_x f64 m
    ++ published_x_whitelist f64 m
    ++ published_p f64 m
    ++ published_c_blocks f64 m
    ++ published_c_handler f64 m

-- `to_cw_metric_data`: with earlier metrics, the rate since then comes last.
unfoldable pub to_cw_metric_data :
    {T : Type 0}
    → Arithmetic T
    → Metrics T
    → (prev : Option (Metrics T)) → Outcome Error (List (Datum T))
to_cw_metric_data f64 m none = build m.ts (published f64 m)
to_cw_metric_data f64 m (some prev) = do
  built ← build m.ts (published f64 m)
  ok (
      built
      ++ datum m.ts (draft "avalanche_C_blks_accepted_per_second" none count)
          (c_blks_accepted_per_second f64 m prev)
        ∷ [])
