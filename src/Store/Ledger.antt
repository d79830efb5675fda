-- ===== src/Store/Ledger.antt =====
-- The rollups of src/jim/store/repo.py over the query log and the receipts: `_summarize` and
-- `_summarize_receipts`. Rates are in ten-thousandths, a percentage in hundredths; an amount is
-- rounded to micro-dollars where the code rounds it to six places. A payer is a text or absent; the
-- code raises at one that is neither.
pub mod Balanced
pub mod Counted
use jim_agent.Prelude.{
  ℕ, ◌+◌, ◌*◌, String, Bool, true, false, Option, none, some, List, [], ◌∷◌, map, keep, sort_by,
  first, length, str_eq, truthy, ltb, ◌==◌, if◌then◌else◌,
}
use jim_agent.Prelude.Dict.{Dict, lookup, lookup_or, insert}
use jim_agent.Prelude.Int.{ℤ, pos, negsuc, sub_ℕ, ◌-ℤ◌}
use jim_agent.Prelude.Runtime.{Unicode}
use jim_agent.Interop.Trust.{round_div}
use jim_agent.Research.Cost.{to_micro}
use jim_agent.Store.Memory.{QueryRow, ReceiptRow, MemoryStore}

pub record MarginSummary : Type 0 where
  pub billable_queries : ℕ
  pub total_queries : ℕ
  pub revenue_usd : ℕ
  pub data_cost_usd : ℕ
  pub inference_cost_usd : ℕ
  pub total_margin_usd : ℤ
  pub avg_margin_usd : ℤ
  pub margin_pct : ℤ
  pub cache_hit_rate : ℕ

-- A row of a breakdown: what stands under "address" or "product", and under "spent_usdc" or
-- "revenue_usdc".
pub record Share : Type 0 where
  pub name : String
  pub payments : ℕ
  pub usdc : ℕ

pub record ReceiptsSummary : Type 0 where
  pub settlements : ℕ
  pub total_receipts : ℕ
  pub revenue_usdc : ℕ
  pub unique_buyers : ℕ
  pub avg_payment_usdc : ℕ
  pub by_product : List Share
  pub top_buyers : List Share

abbrev pub total : {A : Type 0} → (A → ℕ) → List A → ℕ
total amount [] = 0
total amount (x ∷ xs) = amount x + total amount xs

-- `round(a / b, n)`, of a numerator scaled by 10 ** n
abbrev pub signed_div : ℤ → ℕ → ℤ
signed_div (pos n) d = pos (round_div n d)
signed_div (negsuc n) d = sub_ℕ 0 (round_div (n + 1) d)

abbrev pub times_ℤ : ℕ → ℤ → ℤ
times_ℤ k (pos n) = pos (k * n)
times_ℤ k (negsuc n) = sub_ℕ 0 (k * (n + 1))

-- `_summarize`
unfoldable pub summarize : List QueryRow → MarginSummary
unfolding round_div to_micro ◌-ℤ◌
summarize queries =
    let billable = keep (λ (q : QueryRow). str_eq q.status "ok") queries in
    let n = length billable in
    let rev = total (λ (q : QueryRow). q.price_out_usd) billable in
    let spent = total (λ (q : QueryRow). q.cost_in_data_usd) billable in
    let inf = total (λ (q : QueryRow). q.cost_inference_usd) billable in
    let margin = pos rev -ℤ pos spent -ℤ pos inf in
    record {
      billable_queries = n;
      total_queries = length queries;
      revenue_usd = to_micro rev;
      data_cost_usd = to_micro spent;
      inference_cost_usd = to_micro inf;
      total_margin_usd = times_ℤ 1000 (signed_div margin 1000);
      avg_margin_usd = if n == 0 then pos 0 else times_ℤ 1000 (signed_div margin (n * 1000));
      margin_pct = if rev == 0 then pos 0 else signed_div (times_ℤ 10000 margin) rev;
      cache_hit_rate =
          if n == 0
          then 0
          else round_div (length (keep (λ (q : QueryRow). q.cache_hit) billable) * 10000) n;
    }

abbrev pub new_share : String → Share
new_share name = record { name = name; payments = 0; usdc = 0 }

unfoldable pub add_payment : ℕ → Share → Share
unfolding to_micro
add_payment amount share = record share {
  payments = share.payments + 1;
  usdc = to_micro (share.usdc + amount);
}

-- `x or y`, of an optional text
abbrev pub text_or : String → Option String → String
text_or y none = y
text_or y (some x) = if truthy x then x else y

abbrev pub values : Dict Share → List Share
values = map (λ e. e.1)

-- The greatest first.
abbrev pub by_amount : List Share → List Share
by_amount = sort_by (λ (a b : Share). ltb b.usdc a.usdc)

module _ {P : Type 0} where
  -- The rows of a breakdown by a key of a receipt, in order of first payment.
  unfoldable pub breakdown : (ReceiptRow P → String) → List (ReceiptRow P) → Dict Share → Dict Share
  unfolding insert lookup add_payment
  breakdown key [] shares = shares
  breakdown key (r ∷ rs) shares =
      let share = lookup_or (key r) (new_share (key r)) shares in
      breakdown key rs (insert (key r) (add_payment r.amount_usdc share) shares)

  abbrev pub settled_rows : List (ReceiptRow P) → List (ReceiptRow P)
  settled_rows = keep (λ (r : ReceiptRow P). r.success)

  abbrev pub payer_of : Unicode → ReceiptRow P → String
  payer_of U r = U.lower (text_or "unknown" r.payer)

  abbrev pub product_of : ReceiptRow P → String
  product_of r = text_or "other" r.product

  -- `_summarize_receipts`
  unfoldable pub summarize_receipts : Unicode → List (ReceiptRow P) → ReceiptsSummary
  unfolding breakdown round_div to_micro
  summarize_receipts U receipts =
      let settled = settled_rows receipts in
      let revenue = total (λ (r : ReceiptRow P). r.amount_usdc) settled in
      let buyers = values (breakdown (payer_of U) settled []) in
      record {
        settlements = length settled;
        total_receipts = length receipts;
        revenue_usdc = to_micro revenue;
        unique_buyers = length buyers;
        avg_payment_usdc =
            if length settled == 0 then 0 else round_div revenue (length settled * 1000) * 1000;
        by_product = by_amount (values (breakdown product_of settled []));
        top_buyers = first 10 (by_amount buyers);
      }

  unfoldable pub margin_summary : MemoryStore P → MarginSummary
  unfolding summarize
  margin_summary s = summarize s.queries

  unfoldable pub receipts_summary : Unicode → MemoryStore P → ReceiptsSummary
  unfolding summarize_receipts
  receipts_summary U s = summarize_receipts U s.receipts
