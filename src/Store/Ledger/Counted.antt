-- ===== src/Store/Ledger/Counted.antt =====
-- A receipt that is recorded is counted once in the rollup of the receipts.
use jim_agent.Prelude.{
  ℕ, ◌+◌, ◌≡◌, List, [], ◌∷◌, ◌++◌, arith, All-append, length-append, if◌then◌else◌,
}
use jim_agent.Prelude.Runtime.{Unicode}
use jim_agent.Store.Memory.{ReceiptRow, MemoryStore, record_receipt}
use jim_agent.Store.Ledger.{ReceiptsSummary, receipts_summary}
use jim_agent.Store.Ledger.Balanced.{IsWhole, AmountsWhole, earned, successes, revenue_lem}

-- How a receipt changes the summary: the revenue, the settlements, all receipts.
abbrev pub Grows : ReceiptsSummary → ℕ → ℕ → ℕ → ReceiptsSummary → Type 0
Grows before usdc paid seen after =
    (after.revenue_usdc ≡ before.revenue_usdc + usdc)
    × (after.settlements ≡ before.settlements + paid)
    × (after.total_receipts ≡ before.total_receipts + seen)

module _ {P : Type 0} where
  earned-append_one :
      (rs : List (ReceiptRow P)) (r : ReceiptRow P)
      → (earned (rs ++ r ∷ []) ≡ earned rs + (if r.success then r.amount_usdc else 0))
        × (successes (rs ++ r ∷ []) ≡ successes rs + (if r.success then 1 else 0))
  earned-append_one [] r = ground arith
  earned-append_one (x ∷ xs) r = ground (arith, earned-append_one xs r)

  -- A receipt is counted exactly once: recording one adds one to the receipts, and if it succeeded
  -- its amount to the revenue and one to the settlements; one that failed adds to neither. All
  -- amounts are whole micro-dollars, and payers are texts or absent.
  pub record_receipt-Grows :
      (U : Unicode) (s : MemoryStore P) (r : ReceiptRow P)
      → AmountsWhole s.receipts
      → IsWhole r.amount_usdc
      → Grows
          (receipts_summary U s)
          (if r.success then r.amount_usdc else 0)
          (if r.success then 1 else 0)
          1
          (receipts_summary U (record_receipt r s))
  unfolding record_receipt
  record_receipt-Grows U s r w here =
      let (old_usdc, old_paid, old_seen) = revenue_lem U s w in
      let (usdc, paid, seen) = revenue_lem U (record_receipt r s) (
        All-append (λ (x : ReceiptRow P). IsWhole x.amount_usdc) s.receipts (r ∷ []) w
          (here, tt)) in
      let (more_usdc, more_paid) = earned-append_one s.receipts r in
      (
        omega (arith, old_usdc, usdc, more_usdc),
        omega (arith, old_paid, paid, more_paid),
        omega (arith, old_seen, seen, length-append s.receipts (r ∷ [])),
      )
