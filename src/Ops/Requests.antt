-- ===== src/Ops/Requests.antt =====
-- src/bin/avalanche-ops-aws: what the commands ask of the managers under src/aws, of the disk and of
-- the nodes, and the answers they get.
use avalanche_ops.Prelude.{String, ℕ, Bool, Option, List, if◌then◌else◌, ltb, ◌+◌, ◌*◌, ◌%◌}
use avalanche_ops.Outcome.{Outcome, Attempt}
use avalanche_ops.Io as Io
use avalanche_ops.Aws.CloudFormation.{Stack, StackStatus}
use avalanche_ops.Aws.Resources.{Identity}
use avalanche_ops.Aws.Kms.{Key}
use avalanche_ops.Aws.S3.{Object}
use avalanche_ops.Avalanche.Node.{Node}

-- A parameter of a stack's template.
pub record Parameter : Type 0 where
  pub parameter_key : String
  pub parameter_value : String

abbrev pub build_param : String → String → Parameter
build_param k v = record { parameter_key = k; parameter_value = v }

-- The requests; `S` is the type of the specification, which `sync` writes to its file.
pub data Request (S : Type 0) : Type 0 where
  sync : S → Request S
  create_bucket delete_bucket : String → Request S
  put_object : (local bucket key : String) → Request S
  pack_file seal_aes_256_file : (src dst : String) → Request S
  remove_file open_read_only : String → Request S
  create_key : (description : String) → Request S
  schedule_to_delete : (key_id : String) → Request S
  create_key_pair : (name path : String) → Request S
  delete_key_pair : (name : String) → Request S
  create_stack : (name template : String) → List Parameter → Request S
  delete_stack : (name : String) → Request S
  poll_stack : (name : String) → StackStatus → (timeout_secs interval_secs : ℕ) → Request S
  list_asg : (name : String) → Request S
  list_objects : (bucket prefix : String) → Request S
  delete_objects : (bucket prefix : String) → Request S
  delete_log_group : (name : String) → Request S
  sync_genesis : (path : String) → Request S
  health_check : (uri : String) → Request S

-- How a command ends early: with an error of its own, or still in a loop that has no limit, when the
-- rounds that the model gives it have passed.
pub data Stop : Type 0 where
  failed_with : Io.Error → Stop
  still_waiting : Stop

-- The answers to the newest of the requests. A command `unwrap`s what is an `Attempt`, and returns
-- the errors of what is an `Outcome`.
pub record World (S : Type 0) : Type 0 where
  pub exists : String → Bool
  pub identity : Attempt Identity
  pub identity_debug : Identity → String
  pub selected : Attempt ℕ
  pub tmp_path : List (Request S) → (suffix : String) → Attempt String
  -- the paths and the names of the entries of a directory
  pub read_dir : List (Request S) → String → Attempt (List (String × String))
  -- a request that answers nothing
  pub sent : List (Request S) → Attempt (Unit {0})
  -- a file operation whose error is returned
  pub written : List (Request S) → Outcome Stop (Unit {0})
  pub key_created : List (Request S) → Attempt Key
  pub polled : List (Request S) → Attempt Stack
  -- `encode_yaml` of the specification
  pub encoded : S → Outcome Stop (Unit {0})
  -- the number of instances of a group
  pub droplets : List (Request S) → Attempt ℕ
  pub listed : List (Request S) → Attempt (List Object)
  -- `healthy` of a response
  pub health : List (Request S) → Attempt (Option Bool)
  pub decompress_base58 : String → Outcome Io.Error Node
  pub error_text : Io.Error → String
  pub home_named : (name suffix : String) → String
  -- `Path::file_name`, and the path of a file beside another, with its stem
  pub file_name : String → Option String
  pub file_stem : String → Option String
  pub beside : (path name : String) → Attempt String

-- 50 minutes
abbrev pub max_wait_seconds : ℕ
max_wait_seconds = 50 * 60

-- The time a group of nodes is given: five minutes and one for each node, as a `u64`, up to a limit.
unfoldable pub wait_secs : ℕ → ℕ
wait_secs desired_capacity =
    let secs = (300 + 60 * desired_capacity) % 18446744073709551616 in
    if ltb max_wait_seconds secs then max_wait_seconds else secs
