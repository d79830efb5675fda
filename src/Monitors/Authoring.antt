-- ===== src/Monitors/Authoring.antt =====
-- `validate_triggers` of src/jim/monitors/nl.py: of the triggers that a model proposes, as JSON, those
-- that the crew can run. `none` is an exception; `str` is the library's on a JSON value.
pub mod Typed
pub mod Runs
pub mod Validated
pub mod Watch
use jim_agent.Prelude.{
  String, Bool, true, false, not, ◌&&◌, Option, none, some, List, [], ◌∷◌, ◌++◌, map, mem, str_eq,
  is_nil, characters, if◌then◌else◌,
}
use jim_agent.Prelude.Dict.{Dict, has_key}
use jim_agent.Prelude.Json.{Json, Items, Members, items, find, get, json_truth, json_to_float}
use jim_agent.Prelude.Runtime.{Floats, float_max}
use jim_agent.Monitors.Models.{Param, TriggerSpec, numeric, text, texts}

-- `EVALUATORS`
abbrev pub evaluators : List String
evaluators = "price_move" ∷ "metric_change" ∷ "threshold" ∷ "ma_cross" ∷ "new_filing" ∷ []

abbrev member_names : {Real : Type 0} → Members Real → List String
member_names Members.last = []
member_names (Members.member k x ms) = k ∷ member_names ms

module _ (F : Floats) (str : Json F.Real → String) where
  -- `[str(x) for x in v]`
  unfoldable pub to_texts : Json F.Real → Option (List String)
  to_texts Json.null = none
  to_texts (Json.flag b) = none
  to_texts (Json.num x) = none
  to_texts (Json.str s) = some (characters s)
  to_texts (Json.array xs) = some (map str (items xs))
  to_texts (Json.object ms) = some (member_names ms)

  -- `max(0.1, min(1000.0, x))`
  unfoldable pub clamp : F.Real → F.Real
  clamp x = float_max F (F.decimal 1 1) (if F.lt x (F.decimal 1000 0) then x else F.decimal 1000 0)

  abbrev Entries : Type 0
  Entries = Option (Dict (Param F.Real))

  abbrev pub entry : String → Param F.Real → Dict (Param F.Real)
  entry k p = (k, p) ∷ []

  unfoldable pub pct_entry : Members F.Real → Entries
  unfolding json_to_float clamp
  pct_entry params = elim (find "pct" params) [
    | none ↦ some []
    | some x ↦ elim (json_to_float F x) [
      | none ↦ none
      | some n ↦ some (entry "pct" (numeric (clamp n)))
    ]
  ]

  unfoldable pub label_entry : Members F.Real → Dict (Param F.Real)
  label_entry params =
      if json_truth F (get "label" params)
      then entry "label" (text (str (get "label" params)))
      else []

  unfoldable pub labels_entry : Members F.Real → Entries
  unfolding to_texts
  labels_entry params =
      if json_truth F (get "labels" params)
      then elim (to_texts (get "labels" params)) [
        | none ↦ none
        | some xs ↦ some (entry "labels" (texts xs))
      ]
      else some []

  -- `if params.get(k) is not None: p[k] = float(params[k])`
  unfoldable pub number_entry : String → Members F.Real → Entries
  unfolding json_to_float
  number_entry k params = elim (get k params) [
    | Json.null ↦ some []
    | x ↦ elim (json_to_float F x) [ none ↦ none | some n ↦ some (entry k (numeric n)) ]
  ]

  -- `str(params.get(k, d))`
  unfoldable pub text_entry : String → String → Members F.Real → Dict (Param F.Real)
  text_entry k d params = elim (find k params) [
    | none ↦ entry k (text d)
    | some x ↦ entry k (text (str x))
  ]

  abbrev pub then_entries : Entries → Entries → Entries
  then_entries none q = none
  then_entries (some p) none = none
  then_entries (some p) (some q) = some (p ++ q)

  -- What becomes of one proposal: it is kept, dropped, or raises.
  abbrev pub kept : String → Entries → Option (List (TriggerSpec F.Real))
  kept kind none = none
  kept kind (some p) = some (record { kind = kind; params = p } ∷ [])

  unfoldable pub move_spec : String → Members F.Real → Option (List (TriggerSpec F.Real))
  unfolding pct_entry label_entry labels_entry number_entry
  move_spec kind params = kept kind (
      then_entries (pct_entry params) (
        then_entries (some (label_entry params))
          (then_entries (labels_entry params) (number_entry "abs" params))))

  abbrev pub level_kept : String → Entries → Option (List (TriggerSpec F.Real))
  level_kept label none = none
  level_kept label (some []) = some []
  level_kept label (some (p ∷ ps)) = kept "threshold" (some (entry "label" (text label) ++ p ∷ ps))

  unfoldable pub threshold_spec : Members F.Real → Option (List (TriggerSpec F.Real))
  unfolding number_entry
  threshold_spec params =
      if json_truth F (get "label" params)
      then level_kept (str (get "label" params))
          (then_entries (number_entry "above" params) (number_entry "below" params))
      else some []

  unfoldable pub cross_spec : Members F.Real → Option (List (TriggerSpec F.Real))
  unfolding text_entry
  cross_spec params = kept "ma_cross" (
      some (
        text_entry "fast" "50-day moving average" params
        ++ text_entry "slow" "200-day moving average" params))

  unfoldable pub spec_of : String → Members F.Real → Option (List (TriggerSpec F.Real))
  unfolding move_spec threshold_spec cross_spec
  spec_of kind params =
      if str_eq kind "price_move"
      then move_spec "price_move" params
      else if str_eq kind "metric_change"
      then move_spec "metric_change" params
      else if str_eq kind "threshold"
      then threshold_spec params
      else if str_eq kind "ma_cross"
      then cross_spec params
      else if str_eq kind "new_filing"
      then kept "new_filing" (some [])
      else some []

  -- `params or {}`; only a new filing reads none of them
  unfoldable pub with_params : String → Json F.Real → Option (List (TriggerSpec F.Real))
  unfolding spec_of
  with_params kind (Json.object params) = spec_of kind params
  with_params kind x =
      if json_truth F x
      then if mem kind ("price_move" ∷ "metric_change" ∷ "threshold" ∷ "ma_cross" ∷ [])
        then none
        else spec_of kind Members.last
      else spec_of kind Members.last

  -- One item. A kind that is a list or an object has no hash; any other that is no text is unknown.
  unfoldable pub validate_item : Json F.Real → Option (List (TriggerSpec F.Real))
  unfolding with_params
  validate_item (Json.object ms) = elim (get "kind" ms) [
    | Json.str kind ↦ with_params kind (get "params" ms)
    | Json.array xs ↦ none
    | Json.object xs ↦ none
    | _ ↦ some []
  ]
  validate_item x = some []

  unfoldable pub validate_items : List (Json F.Real) → Option (List (TriggerSpec F.Real))
  unfolding validate_item
  validate_items [] = some []
  validate_items (x ∷ xs) = elim (validate_item x) [
    | none ↦ none
    | some here ↦ elim (validate_items xs) [ none ↦ none | some rest ↦ some (here ++ rest) ]
  ]

  -- `raw or []`; a text or an object gives texts, which are no triggers
  unfoldable pub validate_triggers : Json F.Real → Option (List (TriggerSpec F.Real))
  unfolding validate_items
  validate_triggers Json.null = some []
  validate_triggers (Json.flag b) = if b then none else some []
  validate_triggers (Json.num x) = if json_truth F (Json.num x) then none else some []
  validate_triggers (Json.str s) = some []
  validate_triggers (Json.array xs) = validate_items (items xs)
  validate_triggers (Json.object ms) = some []
