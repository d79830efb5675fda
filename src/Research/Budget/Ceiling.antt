-- ===== src/Research/Budget/Ceiling.antt =====
-- How far the spend of a budget can go.
use jim_agent.Prelude.{ℕ, ◌+◌, ◌*◌, ◌%◌, ◌≤◌, String, ◌≡◌, arith}
use jim_agent.Research.Budget.{BudgetCap, remaining_usd, propose, commit, eps}

-- USDC has six decimals: a settled price is a whole number of micro-dollars.
abbrev pub micro : ℕ
micro = 1000

-- A budget in whole micro-dollars that is not overspent.
pub record IsWithin (b : BudgetCap) : Type 0 where
  pub whole_ceiling : b.ceiling_usd % micro ≡ 0
  pub whole_spent : b.spent_usd % micro ≡ 0
  pub within : b.spent_usd ≤ b.ceiling_usd

pub propose-IsWithin :
    (b : BudgetCap) (amount : ℕ) (reason : String)
    → IsWithin b
    → IsWithin (propose b amount reason).0
unfolding propose
propose-IsWithin b amount reason h = record {
  whole_ceiling = h.whole_ceiling;
  whole_spent = h.whole_spent;
  within = h.within;
}

-- The slack `eps` is worth nothing for a price in base units.
pub commit-IsWithin :
    (b : BudgetCap) (base_units : ℕ)
    → IsWithin b
    → base_units * micro ≤ remaining_usd b + eps
    → IsWithin (commit b (base_units * micro))
unfolding commit remaining_usd
commit-IsWithin b n h fits = record {
  whole_ceiling = h.whole_ceiling;
  whole_spent = omega (arith, h.whole_spent);
  within = omega (arith, h.within, h.whole_spent, h.whole_ceiling);
}
