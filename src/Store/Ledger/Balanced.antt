-- ===== src/Store/Ledger/Balanced.antt =====
-- The rollup of the receipts is balanced: its breakdowns share out the revenue.
use jim_agent.Prelude.{
  ℕ, zero, suc, ◌+◌, ◌%◌, ◌≤◌, String, ◌≡◌, refl, ◌∙◌, Bool, List, [], ◌∷◌, arith, All, insert_by,
  sort_by, first, length, str_eq, ltb, if◌then◌else◌, inl, inr, Bool-cases,
}
use jim_agent.Prelude.Dict.{Dict, lookup, lookup_or, insert}
use jim_agent.Prelude.Runtime.{Unicode}
use jim_agent.Interop.Trust.{round_div}
use jim_agent.Research.Cost.{to_micro}
use jim_agent.Store.Memory.{ReceiptRow, MemoryStore}
use jim_agent.Store.Ledger.{
  Share, new_share, add_payment, breakdown, total, values, by_amount, settled_rows, payer_of,
  product_of, summarize_receipts, receipts_summary,
}

-- A whole number of micro-dollars.
abbrev pub IsWhole : ℕ → Type 0
IsWhole n = n % 1000 ≡ 0

pub to_micro_whole : (n : ℕ) → IsWhole n → to_micro n ≡ n
unfolding to_micro round_div
to_micro_whole n h = ground arith

module _ {A : Type 0} (amount : A → ℕ) where
  total-insert_by :
      (lt : A → A → Bool) (x : A) (xs : List A)
      → total amount (insert_by lt x xs) ≡ amount x + total amount xs
  total-insert_by lt x [] = refl
  total-insert_by lt x (y ∷ ys) = ground (arith, total-insert_by lt x ys)

  total-sort_by : (lt : A → A → Bool) (xs : List A) → total amount (sort_by lt xs) ≡ total amount xs
  total-sort_by lt [] = refl
  total-sort_by lt (x ∷ xs) =
      total-insert_by lt x (sort_by lt xs) ∙ ground (arith, total-sort_by lt xs)

  total-first-le : (n : ℕ) (xs : List A) → total amount (first n xs) ≤ total amount xs
  total-first-le zero xs = omega arith
  total-first-le (suc n) [] = omega arith
  total-first-le (suc n) (x ∷ xs) = omega (arith, total-first-le n xs)

length-first-le : {A : Type 0} (n : ℕ) (xs : List A) → length (first n xs) ≤ n
length-first-le zero xs = omega arith
length-first-le (suc n) [] = omega arith
length-first-le (suc n) (x ∷ xs) = omega (arith, length-first-le n xs)

module _ (amount : Share → ℕ) where
  -- Where `k` is new, its row counts as the fresh one.
  total-insert :
      (k : String) (v : Share) (d : Dict Share)
      → amount (new_share k) ≡ 0
      → total amount (values (insert k v d)) + amount (lookup_or k (new_share k) d)
        ≡ total amount (values d) + amount v
  unfolding insert lookup
  total-insert k v [] h = ground arith
  total-insert k v ((j, w) ∷ d) h = ground (arith, total-insert k v d h)

length-insert :
    (k : String) (v : Share) (d : Dict Share)
    → length (values (insert k v d)) ≤ length (values d) + 1
unfolding insert
length-insert k v [] = omega arith
length-insert k v ((j, w) ∷ d) = ground (arith, length-insert k v d)

-- The amounts of all rows are whole.
abbrev AllWhole : Dict Share → Type 0
AllWhole = All (λ (e : String × Share). IsWhole e.1.usdc)

insert-AllWhole :
    (k : String) (v : Share) (d : Dict Share)
    → IsWhole v.usdc
    → AllWhole d
    → AllWhole (insert k v d)
unfolding insert
insert-AllWhole k v [] h all = (h, tt)
insert-AllWhole k v ((j, w) ∷ d) h (here, all) = elim (Bool-cases (str_eq j k)) [
  | inl e ↦ rw (e, insert) (h, all)
  | inr e ↦ rw (e, insert) (here, insert-AllWhole k v d h all)
]

lookup-IsWhole :
    (k : String) (d : Dict Share) → AllWhole d → IsWhole (lookup_or k (new_share k) d).usdc
unfolding lookup
lookup-IsWhole k [] all = refl
lookup-IsWhole k ((j, w) ∷ d) (here, all) = ground (arith, lookup-IsWhole k d all)

abbrev pub usdc_of : List Share → ℕ
usdc_of = total (λ (s : Share). s.usdc)

abbrev pub payments_of : List Share → ℕ
payments_of = total (λ (s : Share). s.payments)

module _ {P : Type 0} where
  -- The receipts' amounts are whole numbers of micro-dollars.
  abbrev pub AmountsWhole : List (ReceiptRow P) → Type 0
  AmountsWhole = All (λ (r : ReceiptRow P). IsWhole r.amount_usdc)

  abbrev amount_of : ReceiptRow P → ℕ
  amount_of r = r.amount_usdc

  breakdown-total :
      (key : ReceiptRow P → String) (rs : List (ReceiptRow P)) (d : Dict Share)
      → AmountsWhole rs
      → AllWhole d
      → (total (λ (s : Share). s.usdc) (values (breakdown key rs d))
          ≡ total (λ (s : Share). s.usdc) (values d) + total amount_of rs)
        × (total (λ (s : Share). s.payments) (values (breakdown key rs d))
            ≡ total (λ (s : Share). s.payments) (values d) + length rs)
        × (length (values (breakdown key rs d)) ≤ length (values d) + length rs)
  unfolding breakdown add_payment
  breakdown-total key [] d w all = (omega arith, omega arith, omega arith)
  breakdown-total key (r ∷ rs) d (here, w) all =
      let old = lookup_or (key r) (new_share (key r)) d in
      let new = add_payment r.amount_usdc old in
      let exact : new.usdc ≡ old.usdc + r.amount_usdc =
        to_micro_whole (old.usdc + r.amount_usdc)
          (omega (arith, here, lookup-IsWhole (key r) d all)) in
      let (usdc, payments, rows) = breakdown-total key rs (insert (key r) new d) w (
        insert-AllWhole (key r) new d (omega (arith, exact, here, lookup-IsWhole (key r) d all))
          all) in
      (
        omega (arith, usdc, exact, total-insert (λ (s : Share). s.usdc) (key r) new d refl),
        omega (arith, payments, total-insert (λ (s : Share). s.payments) (key r) new d refl),
        omega (arith, rows, length-insert (key r) new d),
      )

  keep-AmountsWhole : (rs : List (ReceiptRow P)) → AmountsWhole rs → AmountsWhole (settled_rows rs)
  keep-AmountsWhole [] w = tt
  keep-AmountsWhole (r ∷ rs) (here, w) = elim (Bool-cases r.success) [
    | inl e ↦ rw e (here, keep-AmountsWhole rs w)
    | inr e ↦ rw e (keep-AmountsWhole rs w)
  ]

  total-IsWhole : (rs : List (ReceiptRow P)) → AmountsWhole rs → IsWhole (total amount_of rs)
  total-IsWhole [] w = refl
  total-IsWhole (r ∷ rs) (here, w) = omega (arith, here, total-IsWhole rs w)

  -- What the successful receipts paid, and how many they are.
  abbrev pub earned : List (ReceiptRow P) → ℕ
  earned [] = 0
  earned (r ∷ rs) = if r.success then r.amount_usdc + earned rs else earned rs

  abbrev pub successes : List (ReceiptRow P) → ℕ
  successes [] = 0
  successes (r ∷ rs) = if r.success then suc (successes rs) else successes rs

  earned_lem :
      (rs : List (ReceiptRow P))
      → (total amount_of (settled_rows rs) ≡ earned rs) × (length (settled_rows rs) ≡ successes rs)
  earned_lem [] = (refl, refl)
  earned_lem (r ∷ rs) = ground (arith, earned_lem rs)

  -- The revenue and the count of the summary are those of the successful receipts.
  pub revenue_lem :
      (U : Unicode) (s : MemoryStore P)
      → AmountsWhole s.receipts
      → ((receipts_summary U s).revenue_usdc ≡ earned s.receipts)
        × ((receipts_summary U s).settlements ≡ successes s.receipts)
        × ((receipts_summary U s).total_receipts ≡ length s.receipts)
  unfolding receipts_summary summarize_receipts
  revenue_lem U s w =
      let settled = settled_rows s.receipts in
      let exact =
        to_micro_whole (total amount_of settled)
          (total-IsWhole settled (keep-AmountsWhole s.receipts w)) in
      (exact ∙ (earned_lem s.receipts).0, (earned_lem s.receipts).1, refl)

  -- The summary of the receipts is balanced, if all amounts are whole micro-dollars: the revenue is
  -- what the successful receipts paid, and the settlements are as many as these; the products share
  -- out exactly the revenue and the settlements; the top buyers, at most ten, paid no more than the
  -- revenue in no more payments, and there are no more buyers than settlements.
  pub receipts_summary-IsBalanced :
      (U : Unicode) (s : MemoryStore P)
      → AmountsWhole s.receipts
      → let r = receipts_summary U s in
        (r.revenue_usdc ≡ earned s.receipts)
        × (r.settlements ≡ successes s.receipts)
        × (usdc_of r.by_product ≡ r.revenue_usdc)
        × (payments_of r.by_product ≡ r.settlements)
        × (usdc_of r.top_buyers ≤ r.revenue_usdc)
        × (payments_of r.top_buyers ≤ r.settlements)
        × (length r.top_buyers ≤ 10)
        × (r.unique_buyers ≤ r.settlements)
  unfolding receipts_summary summarize_receipts
  receipts_summary-IsBalanced U s w =
      let settled = settled_rows s.receipts in
      let whole = keep-AmountsWhole s.receipts w in
      let exact = to_micro_whole (total amount_of settled) (total-IsWhole settled whole) in
      let products = breakdown-total product_of settled [] whole tt in
      let buyers = breakdown-total (payer_of U) settled [] whole tt in
      let rows = values (breakdown product_of settled []) in
      let people = values (breakdown (payer_of U) settled []) in
      let lt = λ (a b : Share). ltb b.usdc a.usdc in
      (
        exact ∙ (earned_lem s.receipts).0,
        (earned_lem s.receipts).1,
        omega (arith, exact, products.0, total-sort_by (λ (x : Share). x.usdc) lt rows),
        omega (arith, products.1, total-sort_by (λ (x : Share). x.payments) lt rows),
        omega (
          arith,
          exact,
          buyers.0,
          total-sort_by (λ (x : Share). x.usdc) lt people,
          total-first-le (λ (x : Share). x.usdc) 10 (by_amount people),
        ),
        omega (
          arith,
          buyers.1,
          total-sort_by (λ (x : Share). x.payments) lt people,
          total-first-le (λ (x : Share). x.payments) 10 (by_amount people),
        ),
        length-first-le 10 (by_amount people),
        omega (arith, buyers.2),
      )
