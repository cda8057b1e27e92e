-- ===== src/Avalanche/Node.antt =====
-- src/avalanche/node.rs: the nodes of a network.
pub mod Compressed
pub mod Files
pub mod Ids
use avalanche_ops.Io.{Error, other_error}
use avalanche_ops.Prelude.{String, ℕ, if◌then◌else◌, str_eq, ◌∷◌, []}
use avalanche_ops.Outcome.{Outcome, ok, err}
use avalanche_ops.Text.{format, decimal}

pub data Kind : Type 0 where
  anchor non_anchor : Kind

unfoldable pub as_str : Kind → String
as_str anchor = "anchor"
as_str non_anchor = "non-anchor"

-- `Kind::from_str`; the receiver is not read.
unfoldable pub from_str : String → Outcome Error Kind
from_str s =
    if str_eq s "anchor"
    then ok anchor
    else if str_eq s "non-anchor"
    then ok non_anchor
    else if str_eq s "non_anchor"
    then ok non_anchor
    else err (other_error (format ("unknown node type '" ∷ s ∷ "'" ∷ [])))

pub record Node : Type 0 where
  pub kind : String
  pub machine_id : String
  pub node_id : String
  pub public_ip : String
  pub http_endpoint : String

-- `Node::new`
unfoldable pub new :
    Kind → (machine_id node_id public_ip http_scheme : String) → (http_port : ℕ) → Node
unfolding as_str
new kind machine_id node_id public_ip http_scheme http_port = record {
  kind = as_str kind;
  machine_id = machine_id;
  node_id = node_id;
  public_ip = public_ip;
  http_endpoint = format (http_scheme ∷ "://" ∷ public_ip ∷ ":" ∷ decimal http_port ∷ []);
}
