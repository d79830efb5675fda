-- ===== src/Research/Cost.antt =====
-- src/jim/research/cost.py: tokens and what they cost, in nano-dollars.
use jim_agent.Prelude.{
  ℕ, ◌+◌, ◌*◌, String, Option, none, some, List, [], ◌∷◌, ◌++◌, str_eq, if◌then◌else◌,
}
use jim_agent.Interop.Trust.{round_div}

pub record Usage : Type 0 where
  pub model : String
  pub input_tokens : ℕ
  pub output_tokens : ℕ

-- `MODEL_PRICING`: a dollar for a million tokens is 1000 nano-dollars a token.
unfoldable pub rates : String → ℕ × ℕ
rates model =
    if str_eq model "claude-opus-4-8"
    then (15000, 75000)
    else if str_eq model "claude-sonnet-4-6"
    then (3000, 15000)
    else if str_eq model "claude-haiku-4-5-20251001"
    then (1000, 5000)
    else (0, 0)

unfoldable pub cost_usd : Usage → ℕ
unfolding rates
cost_usd u = u.input_tokens * (rates u.model).0 + u.output_tokens * (rates u.model).1

-- `CostLedger.usages` and its sums.
unfoldable pub add : Option Usage → List Usage → List Usage
add none usages = usages
add (some u) usages = usages ++ u ∷ []

unfoldable pub inference_cost_usd : List Usage → ℕ
unfolding cost_usd
inference_cost_usd [] = 0
inference_cost_usd (u ∷ us) = cost_usd u + inference_cost_usd us

-- `round(x, 6)`: to micro-dollars
unfoldable pub to_micro : ℕ → ℕ
unfolding round_div
to_micro x = round_div x 1000 * 1000
