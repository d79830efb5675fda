-- ===== src/Monitors/Authoring/Typed.antt =====
-- Params of the right types, and that the price and metric watchers read them without an exception.
use jim_agent.Prelude.{
  String, ◌≡◌, refl, sym, ◌∙◌, subst, true, false, Option, none, some, List, [], ◌∷◌, mem, str_eq,
  eq_iff, All, inl, inr, Bool-cases, Option-cases, is_some, from_some,
}
use jim_agent.Prelude.Dict.{Dict, lookup}
use jim_agent.Prelude.Runtime.{Floats}
use jim_agent.Monitors.Models.{Param, null, numeric, text, texts}
use jim_agent.Monitors.Diff.{SnapshotDiff, FactDelta, abs_change}
use jim_agent.Monitors.Triggers.{eval_price_move, metric_signals, metric_signal, big_abs}
use jim_agent.Monitors.Triggers.Params.{
  Label, named, unknown, number_or, to_number, to_label, label_or,
}

-- The type of a param by its name.
abbrev pub Fits : {Real : Type 0} → String → Param Real → Type 0
Fits k null = true ≡ false
Fits k (numeric x) = mem k ("pct" ∷ "abs" ∷ "above" ∷ "below" ∷ []) ≡ true
Fits k (text s) = mem k ("label" ∷ "fast" ∷ "slow" ∷ []) ≡ true
Fits k (texts xs) = mem k ("labels" ∷ []) ≡ true

abbrev pub IsTyped : {Real : Type 0} → Dict (Param Real) → Type 0
IsTyped = All (λ e. Fits e.0 e.1)

abbrev pub Seen : {Real : Type 0} → String → Option (Param Real) → Type 0
Seen k none = Unit
Seen k (some p) = Fits k p

pub lookup-Fits :
    {Real : Type 0} (k : String) (d : Dict (Param Real)) → IsTyped d → Seen k (lookup k d)
unfolding lookup
lookup-Fits k [] h = tt
lookup-Fits k ((j, q) ∷ d) (here, rest) = elim (Bool-cases (str_eq j k)) [
  | inl s ↦ rw s (subst (λ x. Fits x q) ((eq_iff j k).0 s) here)
  | inr s ↦ rw s (lookup-Fits k d rest)
]

module _ (F : Floats) where
  -- `float(params.get("pct", d))` of typed params.
  pct_lem :
      (d : F.Real) (o : Option (Param F.Real))
      → Seen "pct" o
      → is_some {A = F.Real} (elim o [ none ↦ some d | some p ↦ to_number F p ]) ≡ true
  unfolding to_number
  pct_lem d none h = refl
  pct_lem d (some null) h = absurd cc
  pct_lem d (some (numeric x)) h = refl
  pct_lem d (some (text s)) h = absurd cc
  pct_lem d (some (texts xs)) h = absurd cc

  pub number_or-some :
      (d : F.Real) (params : Dict (Param F.Real))
      → IsTyped params
      → (x : F.Real) × (number_or F params "pct" d ≡ some x)
  unfolding number_or
  number_or-some d params h =
      from_some (pct_lem d (lookup "pct" params) (lookup-Fits "pct" params h))

  -- A param that names a label is a text.
  abbrev pub IsName : String → Type 0
  IsName k =
      (mem k ("pct" ∷ "abs" ∷ "above" ∷ "below" ∷ []) ≡ false) × (mem k ("labels" ∷ []) ≡ false)

  name_lem :
      (k : String) (o : Option (Param F.Real)) (d : Option Label)
      → IsName k
      → is_some d ≡ true
      → Seen k o
      → is_some (elim o as (λ x. Option Label) [ none ↦ d | some p ↦ to_label F p ]) ≡ true
  unfolding to_label
  name_lem k none d n some_d h = some_d
  name_lem k (some null) d n some_d h = refl
  name_lem k (some (numeric x)) d n some_d h = refl
  name_lem k (some (text s)) d n some_d h = refl
  name_lem k (some (texts xs)) d n some_d h = absurd cc

  pub label_or-some :
      (k d : String) (params : Dict (Param F.Real))
      → IsName k
      → IsTyped params
      → (x : Label) × (label_or F params k d ≡ some x)
  label_or-some k d params n h =
      from_some (name_lem k (lookup k params) (some (named d)) n refl (lookup-Fits k params h))

  price_with :
      (params : Dict (Param F.Real)) (diff : SnapshotDiff F.Real) (x : F.Real) (l : Label)
      → number_or F params "pct" (F.decimal 50 1) ≡ some x
      → label_or F params "label" "Price" ≡ some l
      → is_some (eval_price_move F params diff) ≡ true
  unfolding eval_price_move
  price_with params diff x unknown ex el = rw (ex, el, eval_price_move) refl
  price_with params diff x (named label) ex el = elim (Option-cases (lookup label diff.deltas)) [
    | inl e ↦ rw (ex, el, e, eval_price_move) refl
    | inr (d, e) ↦ rw (ex, el, e, eval_price_move) refl
  ]

  pub price_lem :
      (params : Dict (Param F.Real)) (diff : SnapshotDiff F.Real)
      → IsTyped params
      → is_some (eval_price_move F params diff) ≡ true
  price_lem params diff h =
      let (x, ex) = number_or-some (F.decimal 50 1) params h in
      let (l, el) = label_or-some "label" "Price" params (refl, refl) h in
      price_with params diff x l ex el

  -- Where a number is expected, there is one or none at all.
  abbrev pub IsNumeric : Param F.Real → Type 0
  IsNumeric null = Unit
  IsNumeric (numeric x) = Unit
  IsNumeric (text s) = true ≡ false
  IsNumeric (texts xs) = true ≡ false

  pub param-IsNumeric :
      (k : String) (o : Option (Param F.Real))
      → mem k ("label" ∷ "fast" ∷ "slow" ∷ []) ≡ false
      → mem k ("labels" ∷ []) ≡ false
      → Seen k o
      → IsNumeric (elim o as (λ x. Param F.Real) [ none ↦ null | some p ↦ p ])
  param-IsNumeric k none a b h = tt
  param-IsNumeric k (some null) a b h = tt
  param-IsNumeric k (some (numeric x)) a b h = tt
  param-IsNumeric k (some (text s)) a b h = sym h ∙ a
  param-IsNumeric k (some (texts xs)) a b h = sym h ∙ b

  big_abs-some :
      (p : Param F.Real) (change : F.Real) → IsNumeric p → is_some (big_abs F p change) ≡ true
  unfolding big_abs to_number
  big_abs-some null change h = refl
  big_abs-some (numeric x) change h = refl
  big_abs-some (text s) change h = absurd cc
  big_abs-some (texts xs) change h = absurd cc

  metric_signal-some :
      (d : FactDelta F.Real) (label : String) (pct : F.Real) (p : Param F.Real)
      → IsNumeric p
      → is_some (metric_signal F d label pct p) ≡ true
  unfolding metric_signal
  metric_signal-some d label pct p h = elim (Bool-cases d.is_new) [
    | inl n ↦ rw (n, metric_signal) refl
    | inr n ↦ elim (Option-cases (abs_change F d)) [
      | inl e ↦ rw (n, e, metric_signal) refl
      | inr (change, e) ↦
          let (b, eb) = from_some (big_abs-some p change h) in rw (n, e, eb, metric_signal) refl
    ]
  ]

  pub metric_signals-some :
      (diff : SnapshotDiff F.Real) (pct : F.Real) (p : Param F.Real) (labels : List String)
      → IsNumeric p
      → is_some (metric_signals F diff pct p labels) ≡ true
  unfolding metric_signals
  metric_signals-some diff pct p [] h = refl
  metric_signals-some diff pct p (label ∷ labels) h =
      let (ys, er) = from_some (metric_signals-some diff pct p labels h) in
      elim (Option-cases (lookup label diff.deltas)) [
        | inl e ↦ rw (e, er, metric_signals) refl
        | inr (d, e) ↦
            let (xs, es) = from_some (metric_signal-some d label pct p h) in
            rw (e, es, er, metric_signals) refl
      ]

  -- A param that names labels is a list, or there is none.
  abbrev pub IsList : Param F.Real → Type 0
  IsList null = Unit
  IsList (numeric x) = true ≡ false
  IsList (text s) = true ≡ false
  IsList (texts xs) = Unit

  pub param-IsList :
      (o : Option (Param F.Real))
      → Seen "labels" o
      → IsList (elim o as (λ x. Param F.Real) [ none ↦ null | some p ↦ p ])
  param-IsList none h = tt
  param-IsList (some null) h = tt
  param-IsList (some (numeric x)) h = sym h
  param-IsList (some (text s)) h = sym h
  param-IsList (some (texts xs)) h = tt
