-- ===== src/Utils/Prometheus/Scrape.antt =====
-- src/utils/prometheus.rs: `Scrape::parse`, line by line.
pub mod Skips
use avalanche_ops.Prelude.{String, F64, ℤ, Option, none, some, List, [], ◌∷◌, ◌++◌, map}
use avalanche_ops.Outcome.{Outcome, ok, err, panic, ◌>>=◌}
use avalanche_ops.Io.{Error}
use avalanche_ops.Utils.Prometheus.{
  Metric, MetricKind, Value, HistogramCount, SummaryCount, push_histogram, push_summary,
  histogram_kind, summary_kind, counter_kind, gauge_kind, histogram, summary, counter, gauge,
  untyped,
}
use avalanche_ops.Utils.Prometheus.Lines.{
  Lexer, Entry, doc, type_line, metric_line, empty, ignored, parse_line, parse_golang_float,
  parse_bucket, labels_from_str, insert, lookup,
}

-- The variables of `Scrape::parse`.
pub record Progress : Type 0 where
  pub docs : List (String × String)
  pub types : List (String × MetricKind)
  pub buckets : List (String × Metric)
  pub samples : List Metric

-- `Scrape`
pub record Scrape : Type 0 where
  pub docs : List (String × String)
  pub metrics : List Metric

-- `entry(name).or_insert(metric)`
abbrev pub or_insert : Option Metric → Metric → Metric
or_insert none m = m
or_insert (some found) m = found

abbrev pub sample_of : String → Value → Option ℤ → Metric
sample_of name value timestamp = record {
  metric = name;
  value = value;
  labels = none;
  timestamp = timestamp;
}

-- A bucket that is found, or a new one, with a value pushed onto it.
unfoldable pub push_bucket : String → Metric → (Value → Value) → Progress → Progress
push_bucket name fresh push st =
    let found = or_insert (lookup name st.buckets) fresh in
    record st { buckets = insert name (record found { value = push found.value }) st.buckets }

unfoldable pub value_of : Option MetricKind → F64 → Value
value_of (some counter_kind) v = counter v
value_of (some gauge_kind) v = gauge v
value_of kind v = untyped v

abbrev pub optional_labels : Option String → Option (List (String × String))
optional_labels none = none
optional_labels (some s) = some (labels_from_str s)

unfoldable pub push_sample :
    String → Option MetricKind → Option String → F64 → Option ℤ → Progress → Progress
push_sample name kind labels v timestamp st = record st {
  samples =
      st.samples
      ++ record {
        metric = name;
        value = value_of kind v;
        labels = optional_labels labels;
        timestamp = timestamp;
      }
        ∷ [];
}

-- A sample of a histogram or a summary goes to its bucket, when its first label says which.
unfoldable pub push_count : Option F64 → (F64 → Progress) → Progress → Progress
push_count none push st = st
push_count (some at) push st = push at

module _ (lexer : Lexer) where
  -- A timestamp that is no number is left out.
  abbrev pub time_of : Option ℤ → Outcome Error (Option ℤ)
  time_of none = ok none
  time_of (some ts_millis) = do time ← lexer.timestamp_millis ts_millis; ok (some time)

  abbrev pub timestamp_of : Option String → Outcome Error (Option ℤ)
  timestamp_of none = ok none
  timestamp_of (some s) = time_of (lexer.parse_i64 s)

  -- `match (types.get(metric_name), labels)`
  unfoldable pub add_sample :
      String
      → Option MetricKind
      → Option String
      → F64
      → Option ℤ
      → Progress
      → Outcome Error Progress
  add_sample name (some histogram_kind) (some labels) v timestamp st = do
    less_than ← parse_bucket lexer labels "le"
    ok (
        push_count less_than
          (λ lt.
            push_bucket name (sample_of name (histogram []) timestamp)
              (push_histogram (record { less_than = lt; count = v })) st)
          st)
  add_sample name (some summary_kind) (some labels) v timestamp st = do
    quantile ← parse_bucket lexer labels "quantile"
    ok (
        push_count quantile
          (λ q.
            push_bucket name (sample_of name (summary []) timestamp)
              (push_summary (record { quantile = q; count = v })) st)
          st)
  add_sample name kind labels v timestamp st = ok (push_sample name kind labels v timestamp st)

  -- A value that is no number is passed over.
  unfoldable pub add_metric :
      String
      → Option String
      → Option F64
      → Outcome Error (Option ℤ)
      → Progress
      → Outcome Error Progress
  add_metric name labels none timestamp st = ok st
  add_metric name labels (some v) timestamp st = do
    time ← timestamp
    add_sample name (lookup name st.types) labels v time st

  -- one round of the loop over the lines
  unfoldable pub add_entry : Entry → Progress → Outcome Error Progress
  add_entry (doc name text) st = ok (record st { docs = insert name text st.docs })
  add_entry (type_line name kind) st = ok (record st { types = insert name kind st.types })
  add_entry (metric_line name labels value timestamp) st =
      add_metric name labels (parse_golang_float lexer value) (timestamp_of timestamp) st
  add_entry empty st = ok st
  add_entry ignored st = ok st

  unfoldable pub add_lines : List (Outcome Error String) → Progress → Outcome Error Progress
  add_lines [] st = ok st
  add_lines (line ∷ lines) st = do
    cur ← line
    next ← add_entry (parse_line lexer cur) st
    add_lines lines next

  -- `Scrape::parse`; `drain` is the order in which the map gives up its buckets.
  unfoldable pub parse :
      (drain : List (String × Metric) → List Metric)
      → List (Outcome Error String)
      → Outcome Error Scrape
  parse drain lines = do
    st ← add_lines lines (record { docs = []; types = []; buckets = []; samples = [] })
    ok (record { docs = st.docs; metrics = st.samples ++ drain st.buckets })
