-- ===== src/Ops/Apply/Endpoints.antt =====
-- The end of `apply::execute`: the endpoints, and the health of the network and of its nodes.
use avalanche_ops.Prelude.{
  String, List, ◌∷◌, [], ℕ, zero, suc, Option, none, some, Bool, true, false, is_some, ◌||◌,
  if◌then◌else◌,
}
use avalanche_ops.Outcome.{Attempt, done, failed, Outcome, err, unwrap, panic, ok}
use avalanche_ops.Run.{◌>>=◌, ◌>>◌, lift, return, request, ask}
use avalanche_ops.Text.{format, decimal}
use avalanche_ops.Io.{other_error}
use avalanche_ops.Avalanche.Node.{Node}
use avalanche_ops.Spec.{Spec, Endpoints}
use avalanche_ops.Ops.Requests.{World, Stop, failed_with, health_check, sync_genesis}
use avalanche_ops.Ops.Apply.Saving.{State, Command, sync_spec, upload_config}
use avalanche_ops.Ops.Apply.Nodes.{with_nodes}

-- The scheme, the port, and the name that the load balancer answers to.
abbrev pub uri : (scheme dns_name : String) → (port : ℕ) → String
uri scheme dns_name port = format (scheme ∷ "://" ∷ dns_name ∷ ":" ∷ decimal port ∷ [])

abbrev endpoints_at : (http_rpc websocket : String) → Endpoints
endpoints_at http_rpc websocket = record {
  http_rpc = some http_rpc;
  http_rpc_x = some (format (http_rpc ∷ "/ext/bc/X" ∷ []));
  http_rpc_p = some (format (http_rpc ∷ "/ext/bc/P" ∷ []));
  http_rpc_c = some (format (http_rpc ∷ "/ext/bc/C/rpc" ∷ []));
  metrics = some (format (http_rpc ∷ "/ext/metrics" ∷ []));
  health = some (format (http_rpc ∷ "/ext/health" ∷ []));
  liveness = some (format (http_rpc ∷ "/ext/health/liveness" ∷ []));
  metamask_rpc = some (format (http_rpc ∷ "/ext/bc/C/rpc" ∷ []));
  websocket = some websocket;
}

abbrev is_true : Option Bool → Bool
is_true none = false
is_true (some b) = b

unfoldable pub https : (certificate : Option String) → (http_tls_enabled : Option Bool) → Bool
https certificate http_tls_enabled = is_some certificate || is_true http_tls_enabled

unfoldable pub http_rpc_of : (https : Bool) → (dns_name : String) → (http_port : ℕ) → String
http_rpc_of true dns_name http_port = uri "https" dns_name 443
http_rpc_of false dns_name http_port = uri "http" dns_name http_port

unfoldable pub dns_endpoints : (https : Bool) → (dns_name : String) → (http_port : ℕ) → Endpoints
unfolding http_rpc_of
dns_endpoints true dns_name http_port =
    endpoints_at (http_rpc_of true dns_name http_port)
      (format ("ws://" ∷ dns_name ∷ ":" ∷ decimal 443 ∷ "/ext/bc/C/rpc" ∷ []))
dns_endpoints false dns_name http_port =
    endpoints_at (http_rpc_of false dns_name http_port)
      (format ("ws://" ∷ dns_name ∷ ":" ∷ decimal http_port ∷ "/ext/bc/C/rpc" ∷ []))

-- A failed request counts as unhealthy, and so does an answer without a verdict.
abbrev pub healthy : Attempt (Option Bool) → Bool
healthy (done answer) = is_true answer
healthy (failed e) = false

abbrev pub unhealthy : Stop
unhealthy = failed_with (other_error "health/liveness check failed")

abbrev pub with_endpoints :
    {C E : Type 0} → (https : Bool) → (dns_name : String) → Spec C E → Spec C E
with_endpoints https dns_name spec = record spec {
  endpoints = some (dns_endpoints https dns_name spec.avalanchego_config.http_port);
}

module _ {C E : Type 0} (world : World (Spec C E)) (spec_file_path : String) where
  -- The loop over the tries; with a database backup the first one counts, healthy or not.
  unfoldable pub try_health :
      (backup : Bool) → (uri : String) → (tries : ℕ) → Command world spec_file_path Bool
  try_health backup uri zero = return false
  try_health backup uri (suc tries) = do
    answer ← ask (health_check uri) world.health
    (if healthy answer
        then return true
        else if backup
        then return true
        else try_health backup uri tries)

  unfoldable pub check_health :
      (backup : Bool) → (uri : String) → Command world spec_file_path (Unit {0})
  check_health backup uri = do
    success ← try_health backup uri 10
    (if success then return tt else lift (err unhealthy))

  unfoldable pub check_nodes : (backup : Bool) → List Node → Command world spec_file_path (Unit {0})
  check_nodes backup [] = return tt
  check_nodes backup (node ∷ nodes) = do
    check_health backup node.http_endpoint
    check_nodes backup nodes

  abbrev first_key : {A : Type 0} → List A → Outcome Stop A
  first_key [] = panic
  first_key (key ∷ keys) = ok key

  -- With a genesis of subnet-evm, it is saved, and the first of the generated keys is shown.
  unfoldable pub show_subnet : Spec C E → Option E → Command world spec_file_path (Unit {0})
  show_subnet spec none = return tt
  show_subnet spec (some genesis) = do
    request (sync_genesis (world.home_named spec.id ".subnet-evm.genesis.json")) world.sent
    keys ← lift (unwrap spec.generated_seed_private_keys)
    key ← lift (first_key keys)
    return tt

  -- The endpoints are saved and uploaded; then the network and each node must be healthy.
  unfoldable pub finish_at :
      State C E → (https : Bool) → (dns_name : String) → Command world spec_file_path (Unit {0})
  finish_at st https dns_name = do
    sync_spec world spec_file_path (with_endpoints https dns_name st.spec)
    upload_config world spec_file_path st
    check_health (is_some st.aws_resources.db_backup_s3_bucket)
        (http_rpc_of https dns_name st.spec.avalanchego_config.http_port)
    check_nodes (is_some st.aws_resources.db_backup_s3_bucket) st.current_nodes
    show_subnet (with_endpoints https dns_name st.spec) st.spec.subnet_evm_genesis

  -- What follows the groups of nodes.
  unfoldable pub finish : State C E → Command world spec_file_path (Unit {0})
  finish st = do
    sync_spec world spec_file_path (with_nodes st).spec
    dns_name ← lift (unwrap st.aws_resources.cloudformation_asg_nlb_dns_name)
    finish_at (with_nodes st)
        (https st.aws_resources.nlb_acm_certificate_arn st.spec.avalanchego_config.http_tls_enabled)
        dns_name
