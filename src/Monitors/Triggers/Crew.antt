-- ===== src/Monitors/Triggers/Crew.antt =====
-- The level, moving average and filing watchers of src/jim/monitors/triggers.py, and the crew.
use jim_agent.Prelude.{
  String, Bool, true, not, ◌&&◌, Option, none, some, List, [], ◌∷◌, ◌++◌, fmt, str_eq, is_nil,
  if◌then◌else◌,
}
use jim_agent.Prelude.Dict.{Dict, lookup}
use jim_agent.Prelude.Runtime.{Floats}
use jim_agent.Research.Facts.{fmt_value, shown}
use jim_agent.Monitors.Models.{Param, TriggerSpec, Signal, null, numeric, text, texts}
use jim_agent.Monitors.Diff.{FactDelta, SnapshotDiff, as_of_advanced}
use jim_agent.Monitors.Triggers.{eval_price_move, eval_metric_change, get}
use jim_agent.Monitors.Triggers.Params.{
  Label, named, unknown, to_number, to_label, label_or, param, param_truth,
}

abbrev pub joined {ℓ} : {A : Type ℓ} → Option (List A) → Option (List A) → Option (List A)
joined none ys = none
joined (some xs) none = none
joined (some xs) (some ys) = some (xs ++ ys)

module _ (F : Floats) where
  -- A level is crossed when the new value is beyond it and the old one, if any, was not.
  abbrev not_yet : (F.Real → Bool) → Option F.Real → Bool
  not_yet p none = true
  not_yet p (some old) = p old

  unfoldable pub crossing : FactDelta F.Real → String → String → String → F.Real → Signal F.Real
  unfolding fmt_value
  crossing d label word direction level = record {
    kind = "threshold";
    key = fmt ("threshold:" ∷ label ∷ ":" ∷ word ∷ []);
    label = label;
    severity = "notable";
    summary = fmt (
        label
        ∷ " crossed "
        ∷ word
        ∷ " "
        ∷ F.show "g" level
        ∷ ", now "
        ∷ fmt_value F d.new_value d.unit
        ∷ " ["
        ∷ d.fact_id
        ∷ "]."
        ∷ []);
    citation_ids = d.fact_id ∷ [];
    old_value = d.old_value;
    new_value = some d.new_value;
    pct_change = none;
    direction = some direction;
  }

  unfoldable pub above_signals :
      FactDelta F.Real → String → Param F.Real → Option (List (Signal F.Real))
  unfolding crossing to_number
  above_signals d label null = some []
  above_signals d label p = elim (to_number F p) [
    | none ↦ none
    | some level ↦ some (
        if F.le level d.new_value && not_yet (λ old. F.lt old level) d.old_value
        then crossing d label "above" "cross_up" level ∷ []
        else [])
  ]

  unfoldable pub below_signals :
      FactDelta F.Real → String → Param F.Real → Option (List (Signal F.Real))
  unfolding crossing to_number
  below_signals d label null = some []
  below_signals d label p = elim (to_number F p) [
    | none ↦ none
    | some level ↦ some (
        if F.le d.new_value level && not_yet (λ old. F.lt level old) d.old_value
        then crossing d label "below" "cross_down" level ∷ []
        else [])
  ]

  unfoldable pub level_signals :
      Dict (Param F.Real) → SnapshotDiff F.Real → String → Option (List (Signal F.Real))
  unfolding above_signals below_signals
  level_signals params diff label = elim (lookup label diff.deltas) [
    | none ↦ some []
    | some d ↦
        joined (above_signals d label (param F params "above"))
          (below_signals d label (param F params "below"))
  ]

  unfoldable pub eval_threshold :
      Dict (Param F.Real) → SnapshotDiff F.Real → Option (List (Signal F.Real))
  unfolding to_label level_signals
  eval_threshold params diff =
      if not (param_truth F (param F params "label"))
      then some []
      else elim (to_label F (param F params "label")) [
        | none ↦ none
        | some unknown ↦ some []
        | some (named label) ↦ level_signals params diff label
      ]

  -- The text of a label param where its metric exists.
  abbrev label_text : Label → String
  label_text (named s) = s
  label_text unknown = ""

  unfoldable pub cross_signal :
      FactDelta F.Real → FactDelta F.Real → String → String → String → String → Signal F.Real
  unfolding fmt_value
  cross_signal f s fast_label slow_label kind_word key_dir = record {
    kind = "ma_cross";
    key = fmt ("ma_cross:" ∷ fast_label ∷ ":" ∷ slow_label ∷ ":" ∷ key_dir ∷ []);
    label = fmt (fast_label ∷ " / " ∷ slow_label ∷ []);
    severity = "notable";
    summary = fmt (
        "Moving-average "
        ∷ kind_word
        ∷ ": 50-day now "
        ∷ fmt_value F f.new_value f.unit
        ∷ " ["
        ∷ f.fact_id
        ∷ "] vs 200-day "
        ∷ fmt_value F s.new_value s.unit
        ∷ " ["
        ∷ s.fact_id
        ∷ "]."
        ∷ []);
    citation_ids = f.fact_id ∷ s.fact_id ∷ [];
    old_value = f.old_value;
    new_value = some f.new_value;
    pct_change = none;
    direction = some key_dir;
  }

  -- `was_below` and `now_above` decide.
  unfoldable pub cross_signals :
      FactDelta F.Real → FactDelta F.Real → String → String → List (Signal F.Real)
  unfolding cross_signal
  cross_signals f s fast_label slow_label = elim f.old_value [
    | none ↦ []
    | some old_fast ↦ elim s.old_value [
      | none ↦ []
      | some old_slow ↦
          let was_below = F.le old_fast old_slow in
          let now_above = F.lt s.new_value f.new_value in
          if was_below && now_above
          then cross_signal f s fast_label slow_label "golden cross (50-day rose above 200-day)"
              "golden"
            ∷ []
          else if not was_below && not now_above
          then cross_signal f s fast_label slow_label "death cross (50-day fell below 200-day)"
              "death"
            ∷ []
          else []
    ]
  ]

  unfoldable pub eval_ma_cross :
      Dict (Param F.Real) → SnapshotDiff F.Real → Option (List (Signal F.Real))
  unfolding cross_signals to_label
  eval_ma_cross params diff = elim (label_or F params "fast" "50-day moving average") [
    | none ↦ none
    | some fast ↦ elim (label_or F params "slow" "200-day moving average") [
      | none ↦ none
      | some slow ↦ elim (get F diff fast) [
        | none ↦ some []
        | some f ↦ elim (get F diff slow) [
          | none ↦ some []
          | some s ↦ some (cross_signals f s (label_text fast) (label_text slow))
        ]
      ]
    ]
  ]

  -- `acc or diff.new_as_of`
  abbrev accession_or : List String → Option String → String
  accession_or [] as_of = shown as_of
  accession_or (a ∷ rest) as_of = a

  unfoldable pub eval_new_filing : SnapshotDiff F.Real → List (Signal F.Real)
  unfolding as_of_advanced
  eval_new_filing diff =
      let detail : String = elim diff.new_accessions [
        | [] ↦ ""
        | a ∷ rest ↦ fmt (" (accession " ∷ a ∷ ")" ∷ [])
      ] in
      let moment =
        if as_of_advanced diff
        then fmt (" Reporting date advanced to " ∷ shown diff.new_as_of ∷ "." ∷ [])
        else "" in
      if is_nil diff.new_accessions && not (as_of_advanced diff)
      then []
      else record {
        kind = "new_filing";
        key = fmt ("new_filing:" ∷ accession_or diff.new_accessions diff.new_as_of ∷ []);
        label = "SEC filing";
        severity = "notable";
        summary = fmt ("A new primary-source filing was observed" ∷ detail ∷ "." ∷ moment ∷ []);
        citation_ids = [];
        old_value = none;
        new_value = none;
        pct_change = none;
        direction = some "new";
      }
        ∷ []

  unfoldable pub evaluate : TriggerSpec F.Real → SnapshotDiff F.Real → Option (List (Signal F.Real))
  unfolding eval_price_move eval_metric_change eval_threshold eval_ma_cross eval_new_filing
  evaluate spec diff =
      if str_eq spec.kind "price_move"
      then eval_price_move F spec.params diff
      else if str_eq spec.kind "metric_change"
      then eval_metric_change F spec.params diff
      else if str_eq spec.kind "threshold"
      then eval_threshold spec.params diff
      else if str_eq spec.kind "ma_cross"
      then eval_ma_cross spec.params diff
      else if str_eq spec.kind "new_filing"
      then some (eval_new_filing diff)
      else some []

  unfoldable pub evaluate_all :
      List (TriggerSpec F.Real) → SnapshotDiff F.Real → Option (List (Signal F.Real))
  unfolding evaluate
  evaluate_all [] diff = some []
  evaluate_all (spec ∷ specs) diff = joined (evaluate spec diff) (evaluate_all specs diff)

  -- The crew that a product starts with, from the thresholds of the configuration.
  unfoldable pub default_triggers :
      F.Real → F.Real → F.Real → F.Real → String → List (TriggerSpec F.Real)
  default_triggers price_move_pct metric_change_pct rsi_overbought rsi_oversold product =
      if str_eq product "token"
      then record {
        kind = "price_move";
        params = ("label", text "Price (USD)") ∷ ("pct", numeric price_move_pct) ∷ [];
      }
        ∷ record {
          kind = "metric_change";
          params =
              ("labels", texts ("Liquidity / TVL (USD)" ∷ "Cumulative volume (USD)" ∷ []))
              ∷ ("pct", numeric metric_change_pct)
              ∷ [];
        }
        ∷ []
      else record {
        kind = "price_move";
        params = ("label", text "Price") ∷ ("pct", numeric price_move_pct) ∷ [];
      }
        ∷ record {
          kind = "threshold";
          params =
              ("label", text "RSI (14-day)")
              ∷ ("above", numeric rsi_overbought)
              ∷ ("below", numeric rsi_oversold)
              ∷ [];
        }
        ∷ record {
          kind = "ma_cross";
          params =
              ("fast", text "50-day moving average") ∷ ("slow", text "200-day moving average") ∷ [];
        }
        ∷ record {
          kind = "metric_change";
          params =
              ("labels", texts ("Diluted EPS" ∷ "Net income" ∷ []))
              ∷ ("pct", numeric metric_change_pct)
              ∷ [];
        }
        ∷ record { kind = "new_filing"; params = [] }
        ∷ []
