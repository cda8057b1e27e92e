-- ===== src/Utils/Prometheus/Tests.antt =====
-- A scrape of three lines, with expressions that know only these.
use avalanche_ops.Prelude.{
  String, none, some, List, [], ◌∷◌, ◌++◌, ◌≡◌, refl, map, str_eq, if◌then◌else◌,
}
use avalanche_ops.Outcome.{ok, panic}
use avalanche_ops.Utils.Prometheus.{Metric}
use avalanche_ops.Utils.Prometheus.Lines.{
  Lexer, parse_line, parse_trimmed, parse_bucket, bucket_of, insert, labels_from_str, insert_labels,
  insert_label, trim_start, trim_end,
}
use avalanche_ops.Utils.Prometheus.Scrape.{parse}
use avalanche_ops.Utils.Prometheus.Scrape.Skips.{IsSkipped, is_ignored, parse-skipped}
use avalanche_ops.Text.Split.{split}

abbrev lexer : Lexer
lexer = record {
  trim = λ s. s;
  help_re = λ s. none;
  type_re =
      λ s. if str_eq s "# TYPE foo histogram" then some (some "foo", some "histogram") else none;
  metric_re = λ s.
      if str_eq s "foo_bucket{le=\"2\"} 7"
      then some (some "foo_bucket", some "le=\"2\"", some "7", none)
      else none;
  to_lowercase = λ s. s;
  parse_f64 = λ s. if str_eq s "7" then some 7 else if str_eq s "2" then some 2 else none;
  parse_i64 = λ s. none;
  timestamp_millis = λ t. ok t;
}

abbrev drain : List (String × Metric) → List Metric
drain buckets = map (λ p. p.1) buckets

comment_ignored : IsSkipped lexer (parse_line lexer "# a comment")
unfolding parse_line parse_trimmed
comment_ignored = is_ignored

parse-skipped_example :
    parse lexer drain
      ((ok "# TYPE foo histogram" ∷ []) ++ ok "# a comment" ∷ ok "foo_bucket{le=\"2\"} 7" ∷ [])
    ≡ parse lexer drain ((ok "# TYPE foo histogram" ∷ []) ++ ok "foo_bucket{le=\"2\"} 7" ∷ [])
parse-skipped_example =
    parse-skipped lexer drain (ok "# TYPE foo histogram" ∷ []) (ok "foo_bucket{le=\"2\"} 7" ∷ [])
      "# a comment" comment_ignored

labels : labels_from_str "foo=\"foo bar\",==,baz=1" ≡ ("foo", "foo bar") ∷ ("baz", "1") ∷ []
unfolding labels_from_str insert_labels insert_label insert split trim_start trim_end
labels = refl

-- A histogram with a label that has no `=` first.
no_equals : parse_bucket lexer "le,x=1" "le" ≡ panic
unfolding parse_bucket bucket_of split
no_equals = refl
