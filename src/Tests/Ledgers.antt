-- ===== src/Tests/Ledgers.antt =====
-- Receipts and their rollup at concrete inputs.
use jim_agent.Prelude.{ℕ, String, ◌≡◌, ◌≤◌, refl, true, false, none, some, [], ◌∷◌, length}
use jim_agent.Store.Memory.{MemoryStore, ReceiptRow, record_receipt}
use jim_agent.Store.Ledger.{receipts_summary}
use jim_agent.Store.Ledger.Balanced.{
  earned, successes, usdc_of, payments_of, receipts_summary-IsBalanced,
}
use jim_agent.Store.Ledger.Counted.{Grows, record_receipt-Grows}
use jim_agent.Tests.Ascii.{ascii}
use jim_agent.Tests.Buying.{empty}

abbrev receipt : String → ℕ → ReceiptRow ℕ
receipt payer amount = record {
  tx_hash = some "0x1";
  payer = some payer;
  pay_to = none;
  amount_usdc = amount;
  network = "base";
  path = "/research/token";
  product = some "token";
  identifier = some "WETH";
  mode = none;
  status_code = 200;
  success = true;
  receipt = 7;
  created_at = 5;
}

abbrev ledger : MemoryStore ℕ
ledger = record empty {
  receipts =
      receipt "0xAA" 250_000_000
      ∷ receipt "0xbb" 50_000_000
      ∷ record (receipt "0xcc" 9_000_000) { success = false }
      ∷ [];
}

receipts_summary-IsBalanced_example :
    let r = receipts_summary ascii ledger in
    (r.revenue_usdc ≡ earned ledger.receipts)
    × (r.settlements ≡ successes ledger.receipts)
    × (usdc_of r.by_product ≡ r.revenue_usdc)
    × (payments_of r.by_product ≡ r.settlements)
    × (usdc_of r.top_buyers ≤ r.revenue_usdc)
    × (payments_of r.top_buyers ≤ r.settlements)
    × (length r.top_buyers ≤ 10)
    × (r.unique_buyers ≤ r.settlements)
receipts_summary-IsBalanced_example =
    receipts_summary-IsBalanced ascii ledger (refl, (refl, (refl, tt)))

record_receipt-Grows_example :
    Grows
      (receipts_summary ascii ledger)
      20_000_000
      1
      1
      (receipts_summary ascii (record_receipt (receipt "0xbb" 20_000_000) ledger))
record_receipt-Grows_example =
    record_receipt-Grows ascii ledger (receipt "0xbb" 20_000_000) (refl, (refl, (refl, tt))) refl
