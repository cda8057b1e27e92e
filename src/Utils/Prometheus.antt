-- ===== src/Utils/Prometheus.antt =====
-- src/utils/prometheus.rs: metrics in the text format of Prometheus.
pub mod Lines
pub mod Scrape
mod Tests
use avalanche_ops.Prelude.{String, F64, ℤ, Option, List, [], ◌∷◌, ◌++◌, if◌then◌else◌, str_eq}
use avalanche_ops.Outcome.{Outcome, ok, panic}
use avalanche_ops.Io.{Error}

pub record HistogramCount : Type 0 where
  pub less_than : F64
  pub count : F64

pub record SummaryCount : Type 0 where
  pub quantile : F64
  pub count : F64

pub data Value : Type 0 where
  counter gauge untyped : F64 → Value
  histogram : List HistogramCount → Value
  summary : List SummaryCount → Value

pub data MetricKind : Type 0 where
  counter_kind gauge_kind histogram_kind summary_kind untyped_kind : MetricKind

-- `MetricKind::parse_from_str`
unfoldable pub parse_from_str : String → MetricKind
parse_from_str s =
    if str_eq s "counter"
    then counter_kind
    else if str_eq s "gauge"
    then gauge_kind
    else if str_eq s "histogram"
    then histogram_kind
    else if str_eq s "summary"
    then summary_kind
    else untyped_kind

unfoldable pub to_f64 : Value → F64
to_f64 (counter v) = v
to_f64 (gauge v) = v
to_f64 (untyped v) = v
to_f64 (histogram hs) = 0
to_f64 (summary ss) = 0

-- `push_histogram` and `push_summary` leave values of other kinds as they are.
unfoldable pub push_histogram : HistogramCount → Value → Value
push_histogram h (histogram hs) = histogram (hs ++ h ∷ [])
push_histogram h v = v

unfoldable pub push_summary : SummaryCount → Value → Value
push_summary s (summary ss) = summary (ss ++ s ∷ [])
push_summary s v = v

-- `timestamp` in milliseconds; the labels are a map from names to values.
pub record Metric : Type 0 where
  pub metric : String
  pub value : Value
  pub labels : Option (List (String × String))
  pub timestamp : Option ℤ

-- `match_metric`, with the test on the name that all its callers give; it panics when none fits.
unfoldable pub match_metric : List Metric → String → Outcome Error Metric
match_metric [] name = panic
match_metric (m ∷ ms) name =
    let rest = match_metric ms name in if str_eq m.metric name then ok m else rest
