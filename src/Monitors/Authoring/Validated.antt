-- ===== src/Monitors/Authoring/Validated.antt =====
-- What `validate_triggers` keeps, the crew can run.
use jim_agent.Prelude.{
  String, ◌≡◌, refl, subst, Bool, true, false, Option, none, some, List, [], ◌∷◌, mem, str_eq, inl,
  inr, All, All-append, Bool-cases, Option-cases, is_some, if◌then◌else◌,
}
use jim_agent.Prelude.Dict.{Dict}
use jim_agent.Prelude.Json.{Json, Members, items, find, get, json_truth, json_to_float}
use jim_agent.Prelude.Runtime.{Floats}
use jim_agent.Monitors.Authoring.{
  evaluators, to_texts, entry, pct_entry, label_entry, labels_entry, number_entry, text_entry,
  then_entries, kept, move_spec, level_kept, threshold_spec, cross_spec, spec_of, with_params,
  validate_item, validate_items, validate_triggers,
}
use jim_agent.Monitors.Authoring.Typed.{IsTyped}
use jim_agent.Monitors.Authoring.Runs.{evaluate-some}
use jim_agent.Monitors.Diff.{SnapshotDiff}
use jim_agent.Monitors.Models.{Param, TriggerSpec, numeric}
use jim_agent.Monitors.Triggers.Crew.{evaluate}

module _ (F : Floats) where
  -- Known kinds, and params of the right types.
  abbrev pub IsReady : TriggerSpec F.Real → Type 0
  IsReady spec = (mem spec.kind evaluators ≡ true) × IsTyped spec.params

  -- The same of a result, if there is one.
  abbrev pub Ready : Option (List (TriggerSpec F.Real)) → Type 0
  Ready none = Unit
  Ready (some specs) = All IsReady specs

  -- The kind is one of the crew's, and the diff does not make it raise.
  abbrev pub IsRunnable : SnapshotDiff F.Real → TriggerSpec F.Real → Type 0
  IsRunnable diff spec = (mem spec.kind evaluators ≡ true) × (is_some (evaluate F spec diff) ≡ true)

  pub runnable :
      (diff : SnapshotDiff F.Real) (specs : List (TriggerSpec F.Real))
      → All IsReady specs
      → All (IsRunnable diff) specs
  runnable diff [] h = tt
  runnable diff (spec ∷ specs) ((known, typed), h) =
      ((known, evaluate-some F spec diff typed), runnable diff specs h)

module _ (F : Floats) (str : Json F.Real → String) where
  abbrev Typed : Option (Dict (Param F.Real)) → Type 0
  Typed none = Unit
  Typed (some d) = IsTyped d

  pct-Typed : (params : Members F.Real) → Typed (pct_entry F str params)
  unfolding pct_entry
  pct-Typed params = elim (Option-cases (find "pct" params)) [
    | inl e ↦ rw (e, pct_entry) tt
    | inr (x, e) ↦ elim (Option-cases (json_to_float F x)) [
      | inl g ↦ rw (e, g, pct_entry) tt
      | inr (n, g) ↦ rw (e, g, pct_entry) (refl, tt)
    ]
  ]

  label-IsTyped : (params : Members F.Real) → IsTyped (label_entry F str params)
  unfolding label_entry
  label-IsTyped params = elim (Bool-cases (json_truth F (get "label" params))) [
    | inl e ↦ rw (e, label_entry) (refl, tt)
    | inr e ↦ rw (e, label_entry) tt
  ]

  labels-Typed : (params : Members F.Real) → Typed (labels_entry F str params)
  unfolding labels_entry
  labels-Typed params = elim (Bool-cases (json_truth F (get "labels" params))) [
    | inr e ↦ rw (e, labels_entry) tt
    | inl e ↦ elim (Option-cases (to_texts F str (get "labels" params))) [
      | inl g ↦ rw (e, g, labels_entry) tt
      | inr (xs, g) ↦ rw (e, g, labels_entry) (refl, tt)
    ]
  ]

  then-Typed :
      (p q : Option (Dict (Param F.Real))) → Typed p → Typed q → Typed (then_entries F str p q)
  then-Typed none q hp hq = tt
  then-Typed (some p) none hp hq = tt
  then-Typed (some p) (some q) hp hq = All-append _ p q hp hq

  number-Typed :
      (k : String) (params : Members F.Real)
      → mem k ("pct" ∷ "abs" ∷ "above" ∷ "below" ∷ []) ≡ true
      → Typed (number_entry F str k params)
  unfolding number_entry
  number-Typed k params m = converted (get k params)
    where
      as_number :
          (o : Option F.Real)
          → Typed (elim o as (λ y. Option (Dict (Param F.Real))) [
            | none ↦ none
            | some n ↦ some (entry F str k (numeric n))
          ])
      as_number none = tt
      as_number (some n) = (m, tt)

      converted :
          (x : Json F.Real)
          → Typed (elim x as (λ y. Option (Dict (Param F.Real))) [
            | Json.null ↦ some []
            | y ↦ elim (json_to_float F y) [
              | none ↦ none
              | some n ↦ some (entry F str k (numeric n))
            ]
          ])
      converted Json.null = tt
      converted x = as_number (json_to_float F x)

  text-IsTyped :
      (k d : String) (params : Members F.Real)
      → mem k ("label" ∷ "fast" ∷ "slow" ∷ []) ≡ true
      → IsTyped (text_entry F str k d params)
  unfolding text_entry
  text-IsTyped k d params m = elim (Option-cases (find k params)) [
    | inl e ↦ rw (e, text_entry) (m, tt)
    | inr (x, e) ↦ rw (e, text_entry) (m, tt)
  ]

  kept-Ready :
      (kind : String) (p : Option (Dict (Param F.Real)))
      → mem kind evaluators ≡ true
      → Typed p
      → Ready F (kept F str kind p)
  kept-Ready kind none m h = tt
  kept-Ready kind (some p) m h = ((m, h), tt)

  move-Ready :
      (kind : String) (params : Members F.Real)
      → mem kind evaluators ≡ true
      → Ready F (move_spec F str kind params)
  unfolding move_spec
  move-Ready kind params m =
      let label = some (label_entry F str params) in
      let labels = labels_entry F str params in
      let floor = number_entry F str "abs" params in
      let rest = then_entries F str labels floor in
      kept-Ready kind (then_entries F str (pct_entry F str params) (then_entries F str label rest))
        m
        (then-Typed (pct_entry F str params) (then_entries F str label rest) (pct-Typed params) (
          then-Typed label rest (label-IsTyped params)
            (then-Typed labels floor (labels-Typed params) (number-Typed "abs" params refl))))

  level-Ready :
      (label : String) (p : Option (Dict (Param F.Real)))
      → Typed p
      → Ready F (level_kept F str label p)
  level-Ready label none h = tt
  level-Ready label (some []) h = tt
  level-Ready label (some (e ∷ es)) h = ((refl, (refl, h)), tt)

  threshold-Ready : (params : Members F.Real) → Ready F (threshold_spec F str params)
  unfolding threshold_spec
  threshold-Ready params = elim (Bool-cases (json_truth F (get "label" params))) [
    | inl e ↦
        let above = number_entry F str "above" params in
        let below = number_entry F str "below" params in
        rw (e, threshold_spec)
          (level-Ready (str (get "label" params)) (then_entries F str above below) (
            then-Typed above below (number-Typed "above" params refl)
              (number-Typed "below" params refl)))
    | inr e ↦ rw (e, threshold_spec) tt
  ]

  cross-Ready : (params : Members F.Real) → Ready F (cross_spec F str params)
  unfolding cross_spec
  cross-Ready params =
      let fast = text_entry F str "fast" "50-day moving average" params in
      let slow = text_entry F str "slow" "200-day moving average" params in
      (
        (
          refl,
          All-append _ fast slow (text-IsTyped "fast" "50-day moving average" params refl)
              (text-IsTyped "slow" "200-day moving average" params refl),
        ),
        tt,
      )

  spec-Ready : (kind : String) (params : Members F.Real) → Ready F (spec_of F str kind params)
  unfolding spec_of
  spec-Ready kind params = elim (Bool-cases (str_eq kind "price_move")) [
    | inl e ↦ rw (e, spec_of) (move-Ready "price_move" params refl)
    | inr a ↦ elim (Bool-cases (str_eq kind "metric_change")) [
      | inl e ↦ rw (a, e, spec_of) (move-Ready "metric_change" params refl)
      | inr b ↦ elim (Bool-cases (str_eq kind "threshold")) [
        | inl e ↦ rw (a, b, e, spec_of) (threshold-Ready params)
        | inr c ↦ elim (Bool-cases (str_eq kind "ma_cross")) [
          | inl e ↦ rw (a, b, c, e, spec_of) (cross-Ready params)
          | inr d ↦ elim (Bool-cases (str_eq kind "new_filing")) [
            | inl e ↦ rw (a, b, c, d, e, spec_of) ((refl, tt), tt)
            | inr e ↦ rw (a, b, c, d, e, spec_of) tt
          ]
        ]
      ]
    ]
  ]

  either :
      (b : Bool) (x y : Option (List (TriggerSpec F.Real)))
      → Ready F x
      → Ready F y
      → Ready F (if b then x else y)
  either true x y hx hy = hx
  either false x y hx hy = hy

  params-Ready : (kind : String) (x : Json F.Real) → Ready F (with_params F str kind x)
  unfolding with_params
  params-Ready kind (Json.object params) = spec-Ready kind params
  params-Ready kind x =
      let moves = mem kind ("price_move" ∷ "metric_change" ∷ "threshold" ∷ "ma_cross" ∷ []) in
      let bare = spec_of F str kind Members.last in
      either (json_truth F x) (if moves then none else bare) bare
        (either moves none bare tt (spec-Ready kind Members.last)) (spec-Ready kind Members.last)

  item-Ready : (x : Json F.Real) → Ready F (validate_item F str x)
  unfolding validate_item
  item-Ready (Json.object ms) = of_kind (get "kind" ms)
    where
      of_kind :
          (k : Json F.Real)
          → Ready F (elim k as (λ y. Option (List (TriggerSpec F.Real))) [
            | Json.str kind ↦ with_params F str kind (get "params" ms)
            | Json.array xs ↦ none
            | Json.object xs ↦ none
            | _ ↦ some []
          ])
      of_kind (Json.str kind) = params-Ready kind (get "params" ms)
      of_kind (Json.array xs) = tt
      of_kind (Json.object xs) = tt
      of_kind Json.null = tt
      of_kind (Json.flag b) = tt
      of_kind (Json.num n) = tt
  item-Ready x = tt

  items-Ready : (xs : List (Json F.Real)) → Ready F (validate_items F str xs)
  unfolding validate_items
  items-Ready [] = tt
  items-Ready (x ∷ xs) = elim (Option-cases (validate_item F str x)) [
    | inl e ↦ rw (e, validate_items) tt
    | inr (here, e) ↦ elim (Option-cases (validate_items F str xs)) [
      | inl g ↦ rw (e, g, validate_items) tt
      | inr (rest, g) ↦
          rw (e, g, validate_items)
            (All-append (IsReady F) here rest (subst (Ready F) e (item-Ready x))
              (subst (Ready F) g (items-Ready xs)))
    ]
  ]

  pub validate-Ready : (raw : Json F.Real) → Ready F (validate_triggers F str raw)
  unfolding validate_triggers
  validate-Ready Json.null = tt
  validate-Ready (Json.flag b) = either b none (some []) tt tt
  validate-Ready (Json.num x) = either (json_truth F (Json.num x)) none (some []) tt tt
  validate-Ready (Json.str s) = tt
  validate-Ready (Json.array xs) = items-Ready (items xs)
  validate-Ready (Json.object ms) = tt

  -- Whatever a model proposes as triggers, those that `validate_triggers` lets through are of a known
  -- kind, and the crew evaluates each on any diff without an exception.
  pub validate_triggers-IsRunnable :
      (raw : Json F.Real) (specs : List (TriggerSpec F.Real)) (diff : SnapshotDiff F.Real)
      → validate_triggers F str raw ≡ some specs
      → All (IsRunnable F diff) specs
  validate_triggers-IsRunnable raw specs diff e =
      runnable F diff specs (subst (Ready F) e (validate-Ready raw))
