-- ===== src/Monitors/Authoring/Watch/Build.antt =====
-- Triggers from the words of a description and from mini-specs.
use jim_agent.Prelude.{
  String, ◌&&◌, Option, none, some, List, [], ◌∷◌, ◌++◌, mem, str_eq, truthy, contains, ltb, length,
  if◌then◌else◌,
}
use jim_agent.Prelude.Dict.{Dict}
use jim_agent.Prelude.Regex.{Match, finditer, named}
use jim_agent.Prelude.Runtime.{Floats, Unicode}
use jim_agent.Prelude.Split.{split, strip}
use jim_agent.Monitors.Authoring.Watch.{MonitorSettings, any_word, pct_re, first_or, last_or, part}
use jim_agent.Monitors.Models.{Param, TriggerSpec, numeric, text, texts}
use jim_agent.Monitors.Triggers.Crew.{default_triggers}

abbrev pub price_words : List String
price_words = "price" ∷ "move" ∷ "swing" ∷ "jump" ∷ "drop" ∷ "rally" ∷ "selloff" ∷ "%" ∷ []

abbrev pub rsi_words : List String
rsi_words = "rsi" ∷ "overbought" ∷ "oversold" ∷ "momentum" ∷ []

abbrev pub cross_words : List String
cross_words = "golden cross" ∷ "death cross" ∷ "moving average" ∷ "ma cross" ∷ "crossover" ∷ []

abbrev pub filing_words : List String
filing_words = "filing" ∷ "earnings" ∷ "10-k" ∷ "10-q" ∷ "10k" ∷ "10q" ∷ "report" ∷ "results" ∷ []

module _ (F : Floats) where
  abbrev pub Spec : Type 0
  Spec = TriggerSpec F.Real

  abbrev pub spec : String → Dict (Param F.Real) → Spec
  spec kind params = record { kind = kind; params = params }

  abbrev pub crew : MonitorSettings F.Real → String → List Spec
  crew settings product =
      default_triggers F settings.price_move_pct settings.metric_change_pct settings.rsi_overbought
        settings.rsi_oversold product

  abbrev pub price_label : String → String
  price_label product = if str_eq product "token" then "Price (USD)" else "Price"

  abbrev pub price_spec : String → F.Real → Spec
  price_spec product pct =
      spec "price_move" (("label", text (price_label product)) ∷ ("pct", numeric pct) ∷ [])

  abbrev pub rsi_spec : F.Real → F.Real → Spec
  rsi_spec above below =
      spec "threshold"
        (("label", text "RSI (14-day)") ∷ ("above", numeric above) ∷ ("below", numeric below) ∷ [])

  abbrev pub cross_over : Spec
  cross_over =
      spec "ma_cross"
        (("fast", text "50-day moving average") ∷ ("slow", text "200-day moving average") ∷ [])

  abbrev pub metric_spec : List String → F.Real → Spec
  metric_spec labels pct =
      spec "metric_change" (("labels", texts labels) ∷ ("pct", numeric pct) ∷ [])

  abbrev pub when_any : {A : Type 0} → List String → String → A → List A
  when_any words t x = if any_word words t then x ∷ [] else []

  abbrev numbers : List Match → List F.Real
  numbers [] = []
  numbers (m ∷ ms) = elim (named "n" m) [ none ↦ numbers ms | some n ↦ F.numeral n ∷ numbers ms ]

  -- `_pcts`
  unfoldable pub pcts : Unicode → String → List F.Real
  unfolding finditer pct_re
  pcts U described = numbers (finditer U (pct_re U) described)

  unfoldable pub metric_labels : String → String → List String
  unfolding contains
  metric_labels product t =
      if str_eq product "token"
      then when_any ("tvl" ∷ "liquidity" ∷ []) t "Liquidity / TVL (USD)"
        ++ when_any ("volume" ∷ []) t "Cumulative volume (USD)"
      else when_any ("revenue" ∷ []) t "Revenue"
        ++ when_any ("eps" ∷ "earnings per share" ∷ []) t "Diluted EPS"
        ++ when_any ("net income" ∷ "profit" ∷ []) t "Net income"
        ++ when_any ("margin" ∷ []) t "Net margin"

  abbrev pub metric_part : F.Real → List String → List Spec
  metric_part pct [] = []
  metric_part pct (label ∷ labels) = metric_spec (label ∷ labels) pct ∷ []

  abbrev pub or_crew : List Spec → List Spec → List Spec
  or_crew [] d = d
  or_crew (x ∷ xs) d = x ∷ xs

  -- By the words of the text in lower case, and the percentages in it.
  unfoldable pub keyword_triggers :
      MonitorSettings F.Real → String → String → List F.Real → List Spec
  unfolding contains metric_labels
  keyword_triggers settings t product found =
      when_any price_words t (price_spec product (first_or settings.price_move_pct found))
      ++ when_any rsi_words t (rsi_spec settings.rsi_overbought settings.rsi_oversold)
      ++ when_any cross_words t cross_over
      ++ when_any filing_words t (spec "new_filing" [])
      ++ metric_part (last_or settings.metric_change_pct found) (metric_labels product t)

  unfoldable pub deterministic_triggers :
      Unicode → MonitorSettings F.Real → String → String → List Spec
  unfolding keyword_triggers pcts default_triggers
  deterministic_triggers U settings described product =
      or_crew (keyword_triggers settings (U.lower described) product (pcts U described))
        (crew settings product)

  abbrev pub float_or : F.Real → String → Option F.Real
  float_or d s = if truthy s then F.parse s else some d

  -- A level of a threshold, where it is given.
  abbrev pub level_entry : String → String → Option (Dict (Param F.Real))
  level_entry k s =
      if truthy s
      then elim (F.parse s) [ none ↦ none | some x ↦ some ((k, numeric x) ∷ []) ]
      else some []

  abbrev pub one_spec : (F.Real → Spec) → Option F.Real → Option (List Spec)
  one_spec f none = none
  one_spec f (some x) = some (f x ∷ [])

  abbrev pub rsi_from : Option F.Real → Option F.Real → Option (List Spec)
  rsi_from none below = none
  rsi_from (some above) none = none
  rsi_from (some above) (some below) = some (rsi_spec above below ∷ [])

  abbrev pub threshold_from :
      String → Option (Dict (Param F.Real)) → Option (Dict (Param F.Real)) → Option (List Spec)
  threshold_from label none below = none
  threshold_from label (some above) none = none
  threshold_from label (some above) (some below) =
      some (spec "threshold" (("label", text label) ∷ above ++ below) ∷ [])

  -- `none` is a ValueError, and an empty list a spec that is not recognized
  unfoldable pub parse_watch_spec :
      Unicode → MonitorSettings F.Real → String → String → Option (List Spec)
  unfolding split strip part
  parse_watch_spec U settings watched product =
      let parts = split b':' watched in
      let head = U.lower (strip U (part 0 parts)) in
      let bounds = split b'/' (part 1 parts) in
      if mem head ("price" ∷ "price_move" ∷ [])
      then one_spec (price_spec product) (float_or settings.price_move_pct (part 1 parts))
      else if str_eq head "rsi"
      then rsi_from (float_or settings.rsi_overbought (part 0 bounds))
          (float_or settings.rsi_oversold (part 1 bounds))
      else if mem head ("ma" ∷ "macross" ∷ "ma_cross" ∷ [])
      then some (cross_over ∷ [])
      else if mem head ("filing" ∷ "new_filing" ∷ [])
      then some (spec "new_filing" [] ∷ [])
      else if mem head ("metric" ∷ "metric_change" ∷ []) && ltb 1 (length parts)
      then one_spec (metric_spec (part 1 parts ∷ []))
          (float_or settings.metric_change_pct (part 2 parts))
      else if str_eq head "threshold" && ltb 2 (length parts)
      then threshold_from (part 1 parts) (level_entry "above" (part 2 parts))
          (level_entry "below" (part 3 parts))
      else some []

  unfoldable pub parse_watches :
      Unicode → MonitorSettings F.Real → List String → String → Option (List Spec)
  unfolding parse_watch_spec
  parse_watches U settings [] product = some []
  parse_watches U settings (w ∷ ws) product = elim (parse_watch_spec U settings w product) [
    | none ↦ none
    | some here ↦ elim (parse_watches U settings ws product) [
      | none ↦ none
      | some rest ↦ some (here ++ rest)
    ]
  ]
