-- ===== src/Utils/Prometheus/Scrape/Skips.antt =====
-- Lines that a scrape passes over.
use avalanche_ops.Prelude.{String, Option, none, List, [], ◌∷◌, ◌++◌, ◌≡◌, refl, inl, inr}
use avalanche_ops.Outcome.{Outcome, ok, err, panic, Outcome-cases}
use avalanche_ops.Io.{Error}
use avalanche_ops.Utils.Prometheus.{Metric}
use avalanche_ops.Utils.Prometheus.Lines.{
  Lexer, Entry, doc, type_line, metric_line, empty, ignored, parse_line, parse_golang_float,
}
use avalanche_ops.Utils.Prometheus.Scrape.{Progress, add_entry, add_metric, add_lines, parse}

-- An empty line, one that no expression matches, or a metric whose value is no number.
pub data IsSkipped (lexer : Lexer) : Entry → Type 0 where
  is_empty : IsSkipped lexer empty
  is_ignored : IsSkipped lexer ignored
  no_number :
      {name value : String} {labels timestamp : Option String}
      → parse_golang_float lexer value ≡ none
      → IsSkipped lexer (metric_line name labels value timestamp)

add_entry-skipped :
    (lexer : Lexer) (entry : Entry) (st : Progress)
    → IsSkipped lexer entry
    → add_entry lexer entry st ≡ ok st
unfolding add_entry add_metric
add_entry-skipped lexer (doc n t) st h = elim h [ ]
add_entry-skipped lexer (type_line n k) st h = elim h [ ]
add_entry-skipped lexer empty st is_empty = refl
add_entry-skipped lexer ignored st is_ignored = refl
add_entry-skipped lexer (metric_line n l v t) st (no_number h) = rw (h) refl

add_lines-skipped :
    (lexer : Lexer) (before after : List (Outcome Error String)) (line : String) (st : Progress)
    → IsSkipped lexer (parse_line lexer line)
    → add_lines lexer (before ++ ok line ∷ after) st ≡ add_lines lexer (before ++ after) st
unfolding add_lines
add_lines-skipped lexer [] after line st h = rw (add_entry-skipped lexer _ st h) refl
add_lines-skipped lexer (err e ∷ before) after line st h = refl
add_lines-skipped lexer (panic ∷ before) after line st h = refl
add_lines-skipped lexer (ok cur ∷ before) after line st h =
    elim (Outcome-cases (add_entry lexer (parse_line lexer cur) st)) [
      | inl found ↦ rw (found.1) (add_lines-skipped lexer before after line (found.0) h)
      | inr (inl failure) ↦ rw (failure.1) refl
      | inr (inr broken) ↦ rw (broken) refl
    ]

-- Wherever it stands, a line that is empty, that none of the expressions matches, or whose value is no
-- number has no effect: the scrape has the same documents and metrics, or fails in the same way.
pub parse-skipped :
    (lexer : Lexer) (drain : List (String × Metric) → List Metric)
    (before after : List (Outcome Error String)) (line : String)
    → IsSkipped lexer (parse_line lexer line)
    → parse lexer drain (before ++ ok line ∷ after) ≡ parse lexer drain (before ++ after)
unfolding parse
parse-skipped lexer drain before after line h =
    rw (add_lines-skipped lexer before after line _ h) refl
