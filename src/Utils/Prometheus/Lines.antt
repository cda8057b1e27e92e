-- ===== src/Utils/Prometheus/Lines.antt =====
-- src/utils/prometheus.rs: the lines of the text format, their labels and their numbers.
-- The regular expressions and the number parsers of the libraries are a parameter.
use avalanche_ops.Prelude.{
  String, F64, ℤ, Option, none, some, List, [], ◌∷◌, if◌then◌else◌, str_eq, ◌==◌, ◌&&◌, code,
}
use avalanche_ops.Outcome.{Outcome, ok, panic}
use avalanche_ops.Io.{Error}
use avalanche_ops.Text.{is_empty, format}
use avalanche_ops.Text.Split.{split}
use avalanche_ops.Utils.Prometheus.{MetricKind, histogram_kind, parse_from_str}

pub record Lexer : Type 0 where
  pub trim : String → String
  -- the first two groups of `HELP_RE` and of `TYPE_RE`
  pub help_re : String → Option (Option String × Option String)
  pub type_re : String → Option (Option String × Option String)
  -- the groups name, labels, value and timestamp of `METRIC_RE`
  pub metric_re : String → Option (Option String × Option String × Option String × Option String)
  pub to_lowercase : String → String
  pub parse_f64 : String → Option F64
  pub parse_i64 : String → Option ℤ
  -- `Utc.timestamp_millis`, which panics on a number that is no time; a time is its milliseconds
  pub timestamp_millis : ℤ → Outcome Error ℤ

-- `Entry`; the field `type` of the source is `type_line`
pub data Entry : Type 0 where
  doc : (metric_name text : String) → Entry
  type_line : (metric_name : String) → MetricKind → Entry
  metric_line :
      (metric_name : String)
      → (labels : Option String) → (value : String) → (timestamp : Option String) → Entry
  empty ignored : Entry

-- A histogram's samples come under its name with `_bucket`.
unfoldable pub sample_name : String → MetricKind → String
sample_name name histogram_kind = format (name ∷ "_bucket" ∷ [])
sample_name name kind = name

abbrev pub help_entry : Option String × Option String → Entry
help_entry (some name, some text) = doc name text
help_entry groups = ignored

abbrev pub type_entry : Option String × Option String → Entry
type_entry (some name, some kind) =
    type_line (sample_name name (parse_from_str kind)) (parse_from_str kind)
type_entry groups = ignored

abbrev pub metric_entry :
    Option (Option String × Option String × Option String × Option String) → Entry
metric_entry (some (some name, labels, some value, timestamp)) =
    metric_line name labels value timestamp
metric_entry groups = ignored

-- the quotes at both ends: `trim_matches('"')`
unfoldable pub trim_start : String → String
trim_start String.[] = ""
trim_start (String.◌∷◌ c s) =
    let rest = trim_start s in if code c == b'"' then rest else String.◌∷◌ c s

unfoldable pub trim_end : String → String
trim_end String.[] = ""
trim_end (String.◌∷◌ c s) =
    let rest = trim_end s in if code c == b'"' && is_empty rest then "" else String.◌∷◌ c rest

abbrev pub trim_quotes : String → String
trim_quotes s = trim_end (trim_start s)

-- A map with `HashMap::insert` and `get`; its order is not that of the source's map, which has none.
unfoldable pub insert : {A : Type 0} → String → A → List (String × A) → List (String × A)
insert k v [] = (k, v) ∷ []
insert k v ((l, w) ∷ m) =
    let rest = insert k v m in if str_eq l k then (k, v) ∷ m else (l, w) ∷ rest

unfoldable pub lookup : {A : Type 0} → String → List (String × A) → Option A
lookup k [] = none
lookup k ((l, w) ∷ m) = let rest = lookup k m in if str_eq l k then some w else rest

-- A label that is not one name, one `=` and one value is passed over.
unfoldable pub insert_label : List String → List (String × String) → List (String × String)
insert_label (k ∷ v ∷ []) l = if is_empty k then l else insert k (trim_quotes v) l
insert_label kvpair l = l

unfoldable pub insert_labels : List (String × String) → List String → List (String × String)
insert_labels l [] = l
insert_labels l (kv ∷ kvs) = insert_labels (insert_label (split b'=' kv) l) kvs

-- `Labels::from_str`
unfoldable pub labels_from_str : String → List (String × String)
labels_from_str s = insert_labels [] (split b',' s)

module _ (lexer : Lexer) where
  -- `Entry::parse_line`, after trimming: the three expressions are tried in turn
  unfoldable pub parse_trimmed : String → Entry
  parse_trimmed line = elim (lexer.help_re line) [
    | some groups ↦ help_entry groups
    | none ↦ elim (lexer.type_re line) [
      | some groups ↦ type_entry groups
      | none ↦ metric_entry (lexer.metric_re line)
    ]
  ]

  unfoldable pub parse_line : String → Entry
  parse_line line = if is_empty (lexer.trim line) then empty else parse_trimmed (lexer.trim line)

  -- `parse_golang_float`, with the bits of `f64::NAN`
  unfoldable pub parse_golang_float : String → Option F64
  parse_golang_float s =
      if str_eq (lexer.to_lowercase s) "nan"
      then some 9221120237041090560
      else lexer.parse_f64 (lexer.to_lowercase s)

  -- Only the first label is looked at; without a `=` in it, its value is an index out of bounds.
  unfoldable pub bucket_of : (label : String) → List String → Outcome Error (Option F64)
  bucket_of label (k ∷ v ∷ r) =
      if str_eq k label then ok (parse_golang_float (trim_quotes v)) else ok none
  bucket_of label kvpair = panic

  abbrev pub first_piece : List String → String
  first_piece [] = ""
  first_piece (s ∷ ss) = s

  -- `parse_bucket`; a split has a first piece
  unfoldable pub parse_bucket : (s label : String) → Outcome Error (Option F64)
  parse_bucket s label = bucket_of label (split b'=' (first_piece (split b',' s)))
