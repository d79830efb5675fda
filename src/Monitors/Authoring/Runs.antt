-- ===== src/Monitors/Authoring/Runs.antt =====
-- The crew runs every typed trigger without an exception.
use jim_agent.Prelude.{
  String, ◌≡◌, refl, true, false, Option, none, some, str_eq, inl, inr, Bool-cases, Option-cases,
  is_some, from_some,
}
use jim_agent.Prelude.Dict.{Dict, lookup}
use jim_agent.Prelude.Runtime.{Floats}
use jim_agent.Monitors.Authoring.Typed.{
  IsTyped, Seen, IsName, IsNumeric, IsList, lookup-Fits, label_or-some, price_lem, number_or-some,
  param-IsNumeric, metric_signals-some, param-IsList,
}
use jim_agent.Monitors.Diff.{SnapshotDiff, FactDelta}
use jim_agent.Monitors.Models.{Param, TriggerSpec, null, numeric, text, texts}
use jim_agent.Monitors.Triggers.{eval_metric_change, candidates, listed, get}
use jim_agent.Monitors.Triggers.Crew.{
  evaluate, eval_threshold, level_signals, above_signals, below_signals, eval_ma_cross,
}
use jim_agent.Monitors.Triggers.Params.{
  Label, named, unknown, to_number, to_label, param, param_truth,
}

module _ (F : Floats) where
  listed_lem :
      (p : Param F.Real) → IsList F p → param_truth F p ≡ true → is_some (listed F p) ≡ true
  listed_lem null h t = absurd cc
  listed_lem (numeric x) h t = absurd cc
  listed_lem (text s) h t = absurd cc
  listed_lem (texts xs) h t = refl

  to_label-param :
      (k : String) (o : Option (Param F.Real))
      → IsName F k
      → Seen k o
      → is_some (to_label F (elim o as (λ x. Param F.Real) [ none ↦ null | some p ↦ p ])) ≡ true
  unfolding to_label
  to_label-param k none n h = refl
  to_label-param k (some null) n h = refl
  to_label-param k (some (numeric x)) n h = refl
  to_label-param k (some (text s)) n h = refl
  to_label-param k (some (texts xs)) n h = absurd cc

  named_lem :
      (params : Dict (Param F.Real)) (diff : SnapshotDiff F.Real) (l : Label)
      → param_truth F (param F params "labels") ≡ false
      → param_truth F (param F params "label") ≡ true
      → to_label F (param F params "label") ≡ some l
      → is_some (candidates F params diff) ≡ true
  unfolding candidates
  named_lem params diff unknown a b e = rw (a, b, e, candidates) refl
  named_lem params diff (named label) a b e = rw (a, b, e, candidates) refl

  candidates-some :
      (params : Dict (Param F.Real)) (diff : SnapshotDiff F.Real)
      → IsTyped params
      → is_some (candidates F params diff) ≡ true
  unfolding candidates
  candidates-some params diff h = elim (Bool-cases (param_truth F (param F params "labels"))) [
    | inl a ↦
        let (xs, e) = from_some (
          listed_lem (param F params "labels")
            (param-IsList F (lookup "labels" params) (lookup-Fits "labels" params h)) a) in
        rw (a, e, candidates) refl
    | inr a ↦ elim (Bool-cases (param_truth F (param F params "label"))) [
      | inl b ↦
          let (l, e) = from_some (
            to_label-param "label" (lookup "label" params) (refl, refl)
              (lookup-Fits "label" params h)) in
          named_lem params diff l a b e
      | inr b ↦ rw (a, b, candidates) refl
    ]
  ]

  metric_lem :
      (params : Dict (Param F.Real)) (diff : SnapshotDiff F.Real)
      → IsTyped params
      → is_some (eval_metric_change F params diff) ≡ true
  unfolding eval_metric_change
  metric_lem params diff h =
      let (x, ex) = number_or-some F (F.decimal 100 1) params h in
      let (labels, el) = from_some (candidates-some params diff h) in
      rw (ex, el, eval_metric_change)
        (metric_signals-some F diff x (param F params "abs") labels
          (param-IsNumeric F "abs" (lookup "abs" params) refl refl (lookup-Fits "abs" params h)))

  above_lem :
      (d : FactDelta F.Real) (label : String) (p : Param F.Real)
      → IsNumeric F p
      → is_some (above_signals F d label p) ≡ true
  unfolding above_signals to_number
  above_lem d label null h = refl
  above_lem d label (numeric x) h = refl
  above_lem d label (text s) h = absurd cc
  above_lem d label (texts xs) h = absurd cc

  below_lem :
      (d : FactDelta F.Real) (label : String) (p : Param F.Real)
      → IsNumeric F p
      → is_some (below_signals F d label p) ≡ true
  unfolding below_signals to_number
  below_lem d label null h = refl
  below_lem d label (numeric x) h = refl
  below_lem d label (text s) h = absurd cc
  below_lem d label (texts xs) h = absurd cc

  level_lem :
      (params : Dict (Param F.Real)) (diff : SnapshotDiff F.Real) (label : String)
      → IsTyped params
      → is_some (level_signals F params diff label) ≡ true
  unfolding level_signals
  level_lem params diff label h = elim (Option-cases (lookup label diff.deltas)) [
    | inl e ↦ rw (e, level_signals) refl
    | inr (d, e) ↦
        let above =
          param-IsNumeric F "above" (lookup "above" params) refl refl
            (lookup-Fits "above" params h) in
        let below =
          param-IsNumeric F "below" (lookup "below" params) refl refl
            (lookup-Fits "below" params h) in
        let (xs, ex) = from_some (above_lem d label (param F params "above") above) in
        let (ys, ey) = from_some (below_lem d label (param F params "below") below) in
        rw (e, ex, ey, level_signals) refl
  ]

  threshold_with :
      (params : Dict (Param F.Real)) (diff : SnapshotDiff F.Real) (l : Label)
      → IsTyped params
      → param_truth F (param F params "label") ≡ true
      → to_label F (param F params "label") ≡ some l
      → is_some (eval_threshold F params diff) ≡ true
  unfolding eval_threshold
  threshold_with params diff unknown h b e = rw (b, e, eval_threshold) refl
  threshold_with params diff (named label) h b e =
      rw (b, e, eval_threshold) (level_lem params diff label h)

  threshold_lem :
      (params : Dict (Param F.Real)) (diff : SnapshotDiff F.Real)
      → IsTyped params
      → is_some (eval_threshold F params diff) ≡ true
  unfolding eval_threshold
  threshold_lem params diff h = elim (Bool-cases (param_truth F (param F params "label"))) [
    | inl b ↦
        let (l, e) = from_some (
          to_label-param "label" (lookup "label" params) (refl, refl)
            (lookup-Fits "label" params h)) in
        threshold_with params diff l h b e
    | inr b ↦ rw (b, eval_threshold) refl
  ]

  cross_lem :
      (params : Dict (Param F.Real)) (diff : SnapshotDiff F.Real)
      → IsTyped params
      → is_some (eval_ma_cross F params diff) ≡ true
  unfolding eval_ma_cross
  cross_lem params diff h =
      let (fast, ef) = label_or-some F "fast" "50-day moving average" params (refl, refl) h in
      let (slow, es) = label_or-some F "slow" "200-day moving average" params (refl, refl) h in
      elim (Option-cases (get F diff fast)) [
        | inl e ↦ rw (ef, es, e, eval_ma_cross) refl
        | inr (f, e) ↦ elim (Option-cases (get F diff slow)) [
          | inl g ↦ rw (ef, es, e, g, eval_ma_cross) refl
          | inr (s, g) ↦ rw (ef, es, e, g, eval_ma_cross) refl
        ]
      ]

  -- Whatever its kind, a trigger with typed params ends with signals.
  pub evaluate-some :
      (spec : TriggerSpec F.Real) (diff : SnapshotDiff F.Real)
      → IsTyped spec.params
      → is_some (evaluate F spec diff) ≡ true
  unfolding evaluate
  evaluate-some spec diff h = elim (Bool-cases (str_eq spec.kind "price_move")) [
    | inl e ↦ rw (e, evaluate) (price_lem F spec.params diff h)
    | inr a ↦ elim (Bool-cases (str_eq spec.kind "metric_change")) [
      | inl e ↦ rw (a, e, evaluate) (metric_lem spec.params diff h)
      | inr b ↦ elim (Bool-cases (str_eq spec.kind "threshold")) [
        | inl e ↦ rw (a, b, e, evaluate) (threshold_lem spec.params diff h)
        | inr c ↦ elim (Bool-cases (str_eq spec.kind "ma_cross")) [
          | inl e ↦ rw (a, b, c, e, evaluate) (cross_lem spec.params diff h)
          | inr d ↦ elim (Bool-cases (str_eq spec.kind "new_filing")) [
            | inl e ↦ rw (a, b, c, d, e, evaluate) refl
            | inr e ↦ rw (a, b, c, d, e, evaluate) refl
          ]
        ]
      ]
    ]
  ]
