-- ===== src/Avalanche/Metrics/Published/Drafts.antt =====
-- src/avalanche/avalanchego/api/metrics.rs: the data that are sent to CloudWatch.
use avalanche_ops.Prelude.{String, F64, Bool, true, false, Option, none, some, List, ◌∷◌, []}
use avalanche_ops.Outcome.{Outcome, ok, ◌>>=◌, unwrap}
use avalanche_ops.Io.{Error}
use avalanche_ops.Avalanche.Metrics.{Arithmetic, billion}

pub data StandardUnit : Type 0 where
  count bytes percent seconds : StandardUnit

-- What is built of a datum before its value is unwrapped.
pub record Draft : Type 0 where
  pub metric_name : String
  pub value : Option F64
  pub unit : Option StandardUnit
  pub timed : Bool

abbrev pub draft : String → Option F64 → StandardUnit → Draft
draft metric_name value unit = record {
  metric_name = metric_name;
  value = value;
  unit = some unit;
  timed = true;
}

-- the two data that are built without a unit or without a time
abbrev pub unitless : String → Option F64 → Draft
unitless metric_name value = record {
  metric_name = metric_name;
  value = value;
  unit = none;
  timed = true;
}

abbrev pub untimed : String → Option F64 → StandardUnit → Draft
untimed metric_name value unit = record {
  metric_name = metric_name;
  value = value;
  unit = some unit;
  timed = false;
}

abbrev pub in_billions : {T : Type 0} → Arithmetic T → Option F64 → Option F64
in_billions f64 none = none
in_billions f64 (some v) = some (f64.div v billion)

pub record Datum (T : Type 0) : Type 0 where
  pub metric_name : String
  pub value : F64
  pub unit : Option StandardUnit
  pub timestamp : Option T

abbrev pub time_if : {T : Type 0} → Bool → T → Option T
time_if true ts = some ts
time_if false ts = none

abbrev pub datum : {T : Type 0} → T → Draft → F64 → Datum T
datum ts d v = record {
  metric_name = d.metric_name;
  value = v;
  unit = d.unit;
  timestamp = time_if d.timed ts;
}

unfoldable pub build : {T : Type 0} → T → List Draft → Outcome Error (List (Datum T))
build ts [] = ok []
build ts (d ∷ ds) = do v ← unwrap d.value; rest ← build ts ds; ok (datum ts d v ∷ rest)
