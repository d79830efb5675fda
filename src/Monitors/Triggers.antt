-- ===== src/Monitors/Triggers.antt =====
-- The watchers of src/jim/monitors/triggers.py. A watcher that raises answers `none`.
pub mod Params
pub mod Crew
use jim_agent.Prelude.{
  characters, String, Bool, true, false, not, ◌&&◌, ◌||◌, Option, none, some, List, [], ◌∷◌, ◌++◌,
  map, fmt, str_eq, is_nil, if◌then◌else◌,
}
use jim_agent.Prelude.Dict.{Dict, lookup, keys}
use jim_agent.Prelude.Runtime.{Floats}
use jim_agent.Research.Facts.{fmt_value, shown, is_truthy}
use jim_agent.Monitors.Models.{Param, Signal, null, numeric, text, texts}
use jim_agent.Monitors.Diff.{
  FactDelta, SnapshotDiff, abs_change, pct_change, as_of_advanced, is_zero,
}
use Params.{Label, named, unknown, to_number, number_or, to_label, label_or, param, param_truth}

module _ (F : Floats) where
  abbrev zero_value : F.Real
  zero_value = F.decimal 0 0

  unfoldable pub severity_of : F.Real → F.Real → String
  severity_of magnitude base =
      if F.le base zero_value
      then "notable"
      else if F.le (F.mul base (F.decimal 20 1)) magnitude
      then "critical"
      else "notable"

  unfoldable pub arrow : FactDelta F.Real → String
  unfolding abs_change
  arrow d = elim (abs_change F d) [
    | none ↦ "unchanged"
    | some x ↦ if is_zero F x then "unchanged" else if F.lt zero_value x then "rose" else "fell"
  ]

  unfoldable pub pct_text : FactDelta F.Real → String
  unfolding pct_change
  pct_text d = elim (pct_change F d) [ none ↦ "n/a" | some p ↦ fmt (F.show "+.1f" p ∷ "%" ∷ []) ]

  -- `diff.get(label)`
  abbrev pub get : SnapshotDiff F.Real → Label → Option (FactDelta F.Real)
  get diff (named s) = lookup s diff.deltas
  get diff unknown = none

  abbrev is_up : Option F.Real → Bool
  is_up none = false
  is_up (some x) = not (is_zero F x) && F.lt zero_value x

  -- The signal of `price_move` and `metric_change`.
  unfoldable pub moved : String → FactDelta F.Real → String → String → Bool → Signal F.Real
  unfolding pct_change arrow pct_text fmt_value
  moved kind d label severity up = record {
    kind = kind;
    key = fmt (kind ∷ ":" ∷ label ∷ []);
    label = label;
    severity = severity;
    summary = fmt (
        label
        ∷ " "
        ∷ arrow d
        ∷ " "
        ∷ pct_text d
        ∷ " to "
        ∷ fmt_value F d.new_value d.unit
        ∷ " ["
        ∷ d.fact_id
        ∷ "]."
        ∷ []);
    citation_ids = d.fact_id ∷ [];
    old_value = d.old_value;
    new_value = some d.new_value;
    pct_change = pct_change F d;
    direction = some (if up then "up" else "down");
  }

  unfoldable pub price_signal : FactDelta F.Real → String → F.Real → List (Signal F.Real)
  unfolding moved severity_of pct_change abs_change
  price_signal d label pct = if d.is_new then [] else elim (pct_change F d) [
    | none ↦ []
    | some p ↦
        if F.lt (F.absolute p) pct
        then []
        else moved "price_move" d label (severity_of (F.absolute p) pct) (is_up (abs_change F d))
          ∷ []
  ]

  unfoldable pub eval_price_move :
      Dict (Param F.Real) → SnapshotDiff F.Real → Option (List (Signal F.Real))
  unfolding number_or price_signal to_label
  eval_price_move params diff = elim (number_or F params "pct" (F.decimal 50 1)) [
    | none ↦ none
    | some pct ↦ elim (label_or F params "label" "Price") [
      | none ↦ none
      | some unknown ↦ some []
      | some (named label) ↦ elim (lookup label diff.deltas) [
        | none ↦ some []
        | some d ↦ some (price_signal d label pct)
      ]
    ]
  ]

  -- `abs_min is not None and abs(d.abs_change) >= float(abs_min)`
  unfoldable pub big_abs : Param F.Real → F.Real → Option Bool
  unfolding to_number
  big_abs null change = some false
  big_abs p change = elim (to_number F p) [
    | none ↦ none
    | some least ↦ some (F.le least (F.absolute change))
  ]

  abbrev big_pct : Option F.Real → F.Real → Bool
  big_pct none pct = false
  big_pct (some p) pct = F.le pct (F.absolute p)

  -- `d.pct_change or pct`
  abbrev or_pct : Option F.Real → F.Real → F.Real
  or_pct none pct = pct
  or_pct (some p) pct = if is_zero F p then pct else p

  unfoldable pub metric_signal :
      FactDelta F.Real → String → F.Real → Param F.Real → Option (List (Signal F.Real))
  unfolding moved severity_of abs_change pct_change big_abs
  metric_signal d label pct abs_min = if d.is_new then some [] else elim (abs_change F d) [
    | none ↦ some []
    | some change ↦ elim (big_abs abs_min change) [
      | none ↦ none
      | some is_big ↦ some (
          if big_pct (pct_change F d) pct || is_big
          then moved "metric_change" d label
              (severity_of (F.absolute (or_pct (pct_change F d) pct)) pct) (F.lt zero_value change)
            ∷ []
          else [])
    ]
  ]

  unfoldable pub metric_signals :
      SnapshotDiff F.Real → F.Real → Param F.Real → List String → Option (List (Signal F.Real))
  unfolding metric_signal
  metric_signals diff pct abs_min [] = some []
  metric_signals diff pct abs_min (label ∷ labels) =
      let rest = metric_signals diff pct abs_min labels in
      let here : Option (List (Signal F.Real)) = elim (lookup label diff.deltas) [
        | none ↦ some []
        | some d ↦ metric_signal d label pct abs_min
      ] in
      elim here [ none ↦ none | some xs ↦ elim rest [ none ↦ none | some ys ↦ some (xs ++ ys) ] ]

  -- `params.get("labels")` where it is true: what the loop goes through
  abbrev pub listed : Param F.Real → Option (List String)
  listed null = none
  listed (numeric x) = none
  listed (text s) = some (characters s)
  listed (texts xs) = some xs

  unfoldable pub candidates : Dict (Param F.Real) → SnapshotDiff F.Real → Option (List String)
  unfolding to_label
  candidates params diff =
      if param_truth F (param F params "labels")
      then listed (param F params "labels")
      else if param_truth F (param F params "label")
      then elim (to_label F (param F params "label")) [
        | none ↦ none
        | some unknown ↦ some []
        | some (named label) ↦ some (label ∷ [])
      ]
      else some (keys diff.deltas)

  unfoldable pub eval_metric_change :
      Dict (Param F.Real) → SnapshotDiff F.Real → Option (List (Signal F.Real))
  unfolding number_or candidates metric_signals
  eval_metric_change params diff = elim (number_or F params "pct" (F.decimal 100 1)) [
    | none ↦ none
    | some pct ↦ elim (candidates params diff) [
      | none ↦ none
      | some labels ↦ metric_signals diff pct (param F params "abs") labels
    ]
  ]
