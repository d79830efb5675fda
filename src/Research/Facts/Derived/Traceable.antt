-- ===== src/Research/Facts/Derived/Traceable.antt =====
-- Every derived fact can be traced to the facts that it was computed from.
use jim_agent.Prelude.{
  ℕ, ◌+◌, String, ◌≡◌, refl, ap, map, true, ◌⊎◌, inl, inr, Option, none, some, List, [], ◌∷◌, ◌++◌,
  arith, All, All-append, In, str_eq, Option-cases, Bool-cases,
}
use jim_agent.Prelude.Runtime.{Floats}
use jim_agent.Research.Facts.{Fact, percent, multiple, usd}
use jim_agent.Research.Facts.Derived.{
  Metric, by_label, percentage, debt_to_equity, ebitda, metrics, publish, number, compute_derived,
}

by_label-In :
    {Real : Type 0} (primary : List (Fact Real)) (label : String) (f : Fact Real)
    → by_label primary label ≡ some f
    → In f primary × (str_eq f.label label ≡ true)
unfolding by_label
by_label-In [] label f e = cc
by_label-In (g ∷ gs) label f e = elim (Option-cases (by_label gs label)) [
  | inl missing ↦ ground arith
  | inr (h, found) ↦ let (place, named) = by_label-In gs label h found in ground arith
]

module _ (F : Floats) where
  -- The value of a derived fact, by its unit, is that of the formula on the two inputs.
  abbrev IsComputed : String → F.Real → F.Real → F.Real → Type 0
  IsComputed unit value a b =
      (unit ≡ percent) × (value ≡ F.mul (F.div a b) (F.decimal 100 0))
      ⊎ (unit ≡ multiple) × (value ≡ F.div a b)
      ⊎ (unit ≡ usd) × (value ≡ F.add a b)

  abbrev pub IsTraceable : List (Fact F.Real) → Fact F.Real → Type 0
  IsTraceable primary d =
      (d.is_derived ≡ true)
      × ((a : Fact F.Real) × (b : Fact F.Real) × In a primary
          × In b primary
          × (d.derived_from ≡ a.id ∷ b.id ∷ [])
          × IsComputed d.unit d.value a.value b.value)

  abbrev IsSound : List (Fact F.Real) → Metric F.Real → Type 0
  IsSound primary m =
      (a : Fact F.Real) × (b : Fact F.Real) × In a primary
      × In b primary
      × (m.inputs ≡ a ∷ b ∷ [])
      × IsComputed m.unit m.value a.value b.value

  -- An input that was looked up, if it is there, is a primary fact.
  abbrev IsFrom : List (Fact F.Real) → Option (Fact F.Real) → Type 0
  IsFrom primary none = Unit
  IsFrom primary (some f) = In f primary

  by_label-IsFrom :
      (primary : List (Fact F.Real)) (label : String) → IsFrom primary (by_label primary label)
  by_label-IsFrom primary label = elim (Option-cases (by_label primary label)) [
    | inl missing ↦ rw missing tt
    | inr (f, found) ↦ rw found (by_label-In primary label f found).0
  ]

  module _ (primary : List (Fact F.Real)) where
    percentage-IsSound :
        (label formula : String) (a b : Option (Fact F.Real))
        → IsFrom primary a
        → IsFrom primary b
        → All (IsSound primary) (percentage F label formula a b)
    unfolding percentage
    percentage-IsSound label formula (some a) (some b) ha hb =
        elim (Bool-cases (F.eq b.value (F.decimal 0 0))) [
          | inl zero_value ↦ rw zero_value tt
          | inr e ↦ rw e ((a, b, ha, hb, refl, inl (refl, refl)), tt)
        ]
    percentage-IsSound label formula none b ha hb = tt
    percentage-IsSound label formula (some a) none ha hb = tt

    debt_to_equity-IsSound :
        (a b : Option (Fact F.Real))
        → IsFrom primary a
        → IsFrom primary b
        → All (IsSound primary) (debt_to_equity F a b)
    unfolding debt_to_equity
    debt_to_equity-IsSound (some a) (some b) ha hb =
        elim (Bool-cases (F.eq b.value (F.decimal 0 0))) [
          | inl zero_value ↦ rw zero_value tt
          | inr e ↦ rw e ((a, b, ha, hb, refl, inr (inl (refl, refl))), tt)
        ]
    debt_to_equity-IsSound none b ha hb = tt
    debt_to_equity-IsSound (some a) none ha hb = tt

    ebitda-IsSound :
        (a b : Option (Fact F.Real))
        → IsFrom primary a
        → IsFrom primary b
        → All (IsSound primary) (ebitda F a b)
    unfolding ebitda
    ebitda-IsSound (some a) (some b) ha hb = ((a, b, ha, hb, refl, inr (inr (refl, refl))), tt)
    ebitda-IsSound none b ha hb = tt
    ebitda-IsSound (some a) none ha hb = tt

    join_IsSound :
        (xs ys : List (Metric F.Real))
        → All (IsSound primary) xs
        → All (IsSound primary) ys
        → All (IsSound primary) (xs ++ ys)
    join_IsSound = All-append (IsSound primary)

    metrics-IsSound : All (IsSound primary) (metrics F primary)
    unfolding metrics
    metrics-IsSound =
        search
          (
            join_IsSound, percentage-IsSound, debt_to_equity-IsSound, ebitda-IsSound,
            by_label-IsFrom,
          )
          depth 12

    number-IsTraceable :
        (next_id : ℕ → String) (n : ℕ) (ms : List (Metric F.Real))
        → All (IsSound primary) ms
        → All (IsTraceable primary) (number F next_id n ms)
    unfolding number publish
    number-IsTraceable next_id n [] h = tt
    number-IsTraceable next_id n (m ∷ ms) ((a, b, ia, ib, e, v), rest) = (
      (refl, (a, b, ia, ib, ap (map (λ f. f.id)) e, v)),
      number-IsTraceable next_id (n + 1) ms rest,
    )

    -- Every derived fact is marked as derived, names exactly two input facts by their ids, both
    -- among the primary facts, and its value is the formula of its unit on their values: the
    -- quotient times 100 for a percentage, the quotient for a multiple, the sum for dollars.
    pub compute_derived-IsTraceable :
        (next_id : ℕ → String) → All (IsTraceable primary) (compute_derived F primary next_id)
    unfolding compute_derived
    compute_derived-IsTraceable next_id =
        number-IsTraceable next_id 0 (metrics F primary) metrics-IsSound
