-- ===== src/Research/Budget.antt =====
-- src/jim/research/budget.py: the per-query budget cap.
-- Amounts are nano-dollars, so `_EPS` (1e-9) is 1; `max(0.0, a - b)` is the truncated `-` of ℕ.
pub mod Ceiling
use jim_agent.Prelude.{
  ℕ, ◌+◌, ◌-◌, String, Bool, true, false, List, [], ◌∷◌, ◌++◌, leb, truthy, if◌then◌else◌,
}

abbrev pub eps : ℕ
eps = 1

-- The text of a decision: the caller's, or the denial with the amounts that it quotes.
pub data Reason : Type 0 where
  note : String → Reason
  denied : ℕ → ℕ → ℕ → Reason

pub record Decision : Type 0 where
  pub approved : Bool
  pub reason : Reason
  pub amount_usd : ℕ

pub record BudgetCap : Type 0 where
  pub ceiling_usd : ℕ
  pub spent_usd : ℕ
  pub decisions : List Decision

unfoldable pub remaining_usd : BudgetCap → ℕ
remaining_usd b = b.ceiling_usd - b.spent_usd

unfoldable pub decide : BudgetCap → ℕ → String → Decision
unfolding remaining_usd
decide b amount reason =
    if leb amount (remaining_usd b + eps)
    then record {
      approved = true;
      reason = note (if truthy reason then reason else "within budget");
      amount_usd = amount;
    }
    else record {
      approved = false;
      reason = denied amount (remaining_usd b) b.ceiling_usd;
      amount_usd = amount;
    }

unfoldable pub propose : BudgetCap → ℕ → String → BudgetCap × Decision
propose b amount reason =
    let d = decide b amount reason in (record b { decisions = b.decisions ++ d ∷ [] }, d)

unfoldable pub commit : BudgetCap → ℕ → BudgetCap
commit b amount = record b { spent_usd = b.spent_usd + amount }

-- `BudgetCap(ceiling_usd=...)`
abbrev pub fresh : ℕ → BudgetCap
fresh ceiling = record { ceiling_usd = ceiling; spent_usd = 0; decisions = [] }
