-- ===== src/Research/Facts/Derived.antt =====
-- `compute_derived` of src/jim/research/facts.py: ratio metrics computed from primary facts.
pub mod Traceable
use jim_agent.Prelude.{
  ℕ, ◌+◌, String, Bool, true, false, not, ◌&&◌, Option, none, some, List, [], ◌∷◌, ◌++◌, map,
  str_eq, length, if◌then◌else◌,
}
use jim_agent.Prelude.Runtime.{Floats}
use jim_agent.Research.Facts.{Fact, percent, multiple, usd}

-- A derived metric before it has its id: label, unit, formula, value, input facts.
pub record Metric (Real : Type 0) : Type 0 where
  pub label : String
  pub unit : String
  pub formula : String
  pub value : Real
  pub inputs : List (Fact Real)

-- `{f.label: f for f in primary}`: the last fact of a label wins
unfoldable pub by_label : {Real : Type 0} → List (Fact Real) → String → Option (Fact Real)
by_label [] label = none
by_label (f ∷ fs) label = elim (by_label fs label) [
  | some g ↦ some g
  | none ↦ if str_eq f.label label then some f else none
]

module _ (F : Floats) where
  abbrev Input : Type 0
  Input = Option (Fact F.Real)

  -- `x.value` as a condition: not zero
  abbrev nonzero : Fact F.Real → Bool
  nonzero f = not (F.eq f.value (F.decimal 0 0))

  unfoldable pub percentage : String → String → Input → Input → List (Metric F.Real)
  percentage label formula (some a) (some b) =
      if nonzero b
      then record {
        label = label;
        unit = percent;
        formula = formula;
        value = F.mul (F.div a.value b.value) (F.decimal 100 0);
        inputs = a ∷ b ∷ [];
      }
        ∷ []
      else []
  percentage label formula _ _ = []

  unfoldable pub debt_to_equity : Input → Input → List (Metric F.Real)
  debt_to_equity (some a) (some b) =
      if nonzero b
      then record {
        label = "Debt-to-equity";
        unit = multiple;
        formula = "Total liabilities / Stockholders' equity";
        value = F.div a.value b.value;
        inputs = a ∷ b ∷ [];
      }
        ∷ []
      else []
  debt_to_equity _ _ = []

  unfoldable pub ebitda : Input → Input → List (Metric F.Real)
  ebitda (some a) (some b) =
      record {
        label = "EBITDA";
        unit = usd;
        formula = "Operating income + Depreciation & amortization";
        value = F.add a.value b.value;
        inputs = a ∷ b ∷ [];
      }
      ∷ []
  ebitda _ _ = []

  unfoldable pub metrics : List (Fact F.Real) → List (Metric F.Real)
  unfolding percentage debt_to_equity ebitda
  metrics primary =
      let get = by_label primary in
      let revenue = get "Revenue" in
      let net_income = get "Net income" in
      let op_income = get "Operating income" in
      let equity = get "Stockholders' equity" in
      percentage "Gross margin" "Gross profit / Revenue" (get "Gross profit") revenue
      ++ (percentage "Operating margin" "Operating income / Revenue" op_income revenue
          ++ (percentage "Net margin" "Net income / Revenue" net_income revenue
              ++ (percentage "Return on equity" "Net income / Stockholders' equity" net_income
                    equity
                  ++ (percentage "Return on assets" "Net income / Total assets" net_income
                        (get "Total assets")
                      ++ (debt_to_equity (get "Total liabilities") equity
                          ++ ebitda op_income (get "Depreciation & amortization"))))))

  unfoldable pub publish : String → Metric F.Real → Fact F.Real
  publish id m = record {
    id = id;
    label = m.label;
    value = m.value;
    unit = m.unit;
    source_label = none;
    concept = none;
    accession = none;
    form = none;
    fiscal_year = none;
    fiscal_period = none;
    filed = none;
    period_end = none;
    source_url = none;
    is_derived = true;
    derived_from = map (λ f. f.id) m.inputs;
    formula = some m.formula;
  }

  -- `next_id()` gives the citation ids in turn.
  unfoldable pub number : (ℕ → String) → ℕ → List (Metric F.Real) → List (Fact F.Real)
  unfolding publish
  number next_id n [] = []
  number next_id n (m ∷ ms) = publish (next_id n) m ∷ number next_id (n + 1) ms

  unfoldable pub compute_derived : List (Fact F.Real) → (ℕ → String) → List (Fact F.Real)
  unfolding metrics number
  compute_derived primary next_id = number next_id 0 (metrics primary)
