-- ===== src/Lib.antt =====
-- avalanche-ops: a control tool for networks of Avalanche nodes on AWS.
--
-- A network is described by a specification (src/lib.rs) that holds the configuration of its nodes
-- (src/avalanche), the genesis of a custom network, and the names of its AWS resources. The commands
-- check the specification, then create and delete those resources through wrappers of the AWS SDK
-- (src/aws), and the agents on the machines exchange files through S3, compressed and sealed with a
-- data key (src/utils/compress.rs, src/aws/envelope.rs).
--
-- Shared modules:
--   Prelude    library names, Boolean tests on the native numbers, lists, signed integers
--   Outcome    the result of a function that returns, fails or panics, with do blocks
--   Text       format!, byte lengths, truncation and UTF-8 over the native strings
--   Run        commands that send requests: the requests so far are passed along, and the answers may
--              depend on them; Run.Keeps, Run.Sends and Run.Triple are the ways to reason about them
--   Io         std::io::Error, and the common shape of the functions `load` and `sync`
--
-- src/aws:
--   Aws.Error           src/errors.rs: Error, message, is_retryable
--   Aws.Sdk             an answer of the AWS SDK, and which errors are retryable
--   Aws.Kms             src/aws/kms.rs: keys, data keys, encrypt, decrypt
--   Aws.Envelope        src/aws/envelope.rs: seal_aes_256, unseal_aes_256 and the byte layout
--   Aws.CloudFormation  src/aws/cloudformation.rs: create_stack, delete_stack, poll_stack
--   Aws.CloudWatch      src/aws/cloudwatch.rs: put_metric_data in batches, log groups
--   Aws.S3              src/aws/s3.rs: buckets, list_objects, delete_objects, append_slash
--   Aws.Resources       src/aws/mod.rs and src/aws/sts.rs: the resources of a deployment
--
-- src/avalanche:
--   Avalanche.Avalanchego.Config   avalanchego/config.rs: Config, its defaults, load, sync, validate
--   Avalanche.Avalanchego.Genesis  avalanchego/genesis.rs: the data, load and sync
--   Avalanche.Metrics              avalanchego/api/metrics.rs: Scraped (get), Published
--                                  (to_cw_metric_data), the rates, and Whole on their composition
--   Avalanche.Coreth.Config        coreth/config.rs: Config, its defaults, encode_json and sync
--   Avalanche.Formatting           formatting.rs: CB58 and addresses
--   Avalanche.Checksum             key.rs and src/utils/prefix.rs: eth_checksum, strip_0x, prepend_0x
--   Avalanche.Vm                   vm.rs: id_from_str
--   Avalanche.Node                 node.rs: the data, Compressed (compress_base58 and back), Files, Ids
--   Avalanche.Constants, Avalanche.Key: constants.rs and key.rs, the data
--
-- The rest:
--   Spec            src/lib.rs: Spec, StackName, load, sync and validate
--   Spec.Default    src/lib.rs: the parts of default_aws that do not generate keys
--   Spec.Storage    src/lib.rs: StorageNamespace::encode and parse_node_from_path
--   Dev             src/dev/mod.rs: the specification of development machines
--   Utils.Id        src/utils/id.rs, time.rs and random.rs
--   Utils.Compress  src/utils/compress.rs: pack, unpack and the ids of the algorithms
--   Utils.Prometheus  src/utils/prometheus.rs: Lines, their labels and buckets, and Scrape
--
-- src/bin/avalanche-ops-aws:
--   Ops.Requests      what the commands ask of src/aws, of the disk and of the nodes
--   Ops.Apply         apply/mod.rs, execute: Saving the names and the files, Outputs of the stacks and
--                     their parameters, Stacks and keys, Nodes in their groups, Endpoints and health
--   Ops.Delete        delete/mod.rs, execute, the Plan that it follows, and the answers that it Heeds
--
-- An operation of the source is a function of the same name. State is passed explicitly: an operation
-- that sends requests takes the answers as arguments and returns the requests beside its result; the
-- loaders take the files of the machine and the savers return the files after them. A failing function
-- returns `ok`, `err`, or `panic`. An `unwrap`, `expect`, assertion or slice that fails is `panic`.
-- A byte is a number below 256, an unsigned integer a native number, an `f64` its bits.
--
-- A command of Ops answers `lift`ed errors and panics like any function, and keeps the requests that it
-- sent before it stopped. What it prints is left out, and so are its sleeps.
--
-- Loops on fuel: `poll_stack` runs `timeout + 2` rounds at most, enough because each round sleeps at
-- least a nanosecond; `list_objects` needs a round for each page; `chunks` takes the length of its list,
-- and `decimal` the number plus one. Running out is `none` where a result is optional. The wait for the
-- nodes in `apply` has no limit in the source: its rounds are a parameter, and running out of them is the
-- error `still_waiting`, which any number above the round with enough nodes avoids.
--
-- Parameters, since they are not part of the repository: the AWS SDK's answers, `ring`, `zstd`, `flate2`,
-- base58, bech32, SHA-256, serde's encoders and decoders, the file system, the clock, random bytes,
-- regular expressions, the arithmetic and the parsing of `f64`, and the case of characters beyond ASCII.
--
-- Not modelled: the agent and the other commands under src/bin, templates of stacks, the clients of
-- the node's API (the request behind Metrics::get too), keys but for the two forms of an address, EC2,
-- archives of directories, and the genesis of coreth and subnet-evm, which is a type parameter. Logging
-- has no counterpart.
pub mod Prelude
pub mod Outcome
pub mod Text
pub mod Io
pub mod Avalanche
pub mod Aws
pub mod Dev
pub mod Ops
pub mod Run
pub mod Spec
pub mod Utils
