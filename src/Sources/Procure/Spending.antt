-- ===== src/Sources/Procure/Spending.antt =====
-- What a purchase can cost, and what it leaves behind when it fails.
use jim_agent.Prelude.{
  ℕ, ◌+◌, ◌*◌, ◌≤◌, ◌≡◌, refl, Bool, true, false, Option, none, some, arith, Option-cases,
  Bool-cases, inl, inr, ◌==◌, if◌then◌else◌,
}
use jim_agent.Prelude.Dict.{lookup_or}
use jim_agent.Prelude.Runtime.{Unicode}
use jim_agent.Net.Resilience.{
  ResiliencePolicy, closed, result, Outcome, returned, raised, circuit_open, unreachable, guarded,
  resilient_call,
}
use jim_agent.Net.Resilience.Retries.{guarded-returned}
use jim_agent.Research.Budget.{BudgetCap, remaining_usd, eps, propose, commit, decide}
use jim_agent.Research.Budget.Ceiling.{micro, IsWithin, commit-IsWithin, propose-IsWithin}
use jim_agent.Store.Memory.{get_cached_purchase, record_purchase}
use jim_agent.Sources.Pay.{
  Buyer, Exchange, PaidResponse, response, pay, settle, announced, Probe, Answer,
}
use jim_agent.Sources.Procure.{
  Order, World, Procured, procured, failed, Fault, tries_of, accept, conclude, procure,
  ProcureError, buy_reason, ProcureResult,
}

-- A price in base units that is within what is left, and its slack.
abbrev pub FitsCap : ℕ → ℕ → Type 0
FitsCap cap cost = (n : ℕ) × (cost ≡ n * micro) × (n * micro ≤ cap + eps)

announced-micro : (p : Probe) → (n : ℕ) × (announced p ≡ n * micro)
unfolding announced
announced-micro p = elim (Option-cases p.advertised) [
  | inl absent ↦ (0, ground arith)
  | inr (n, e) ↦ elim (Bool-cases (p.status == 402)) [
    | inl paid ↦ (n, ground arith)
    | inr free ↦ (0, ground arith)
  ]
]

module _ {P : Type 0} where
  settle-FitsCap :
      (cap : ℕ) (p : Probe) (answer : Option (Answer P)) (r : PaidResponse P)
      → announced p ≤ cap + eps
      → settle (announced p) answer ≡ response r
      → FitsCap cap r.cost_in_usd
  unfolding settle
  settle-FitsCap cap p none r h e = cc
  settle-FitsCap cap p (some a) r h e =
      let (n, whole) = announced-micro p in
      elim (Bool-cases a.settled) [
        | inl yes_settled ↦ (n, ground arith, ground arith)
        | inr free ↦ (0, ground arith, ground arith)
      ]

  -- A response's cost is a price in base units within the cap that was given.
  pay-FitsCap :
      (U : Unicode) (buyer : Buyer) (cap : ℕ) (e : Exchange P) (r : PaidResponse P)
      → pay U buyer (some cap) e ≡ response r
      → FitsCap cap r.cost_in_usd
  unfolding pay
  pay-FitsCap U buyer cap e r h = elim (Option-cases e.probe) [
    | inl lost_probe ↦ ground arith
    | inr (p, probed) ↦ settle-FitsCap cap p e.answer r (ground arith) (ground arith)
  ]

branch-IsWithin :
    {P : Type 0} (b : Bool) (x y : Procured P × World P)
    → IsWithin x.1.budget
    → IsWithin y.1.budget
    → IsWithin (if b then x else y).1.budget
branch-IsWithin true x y hx hy = hx
branch-IsWithin false x y hx hy = hy

module _ {P : Type 0} (U : Unicode) (buyer : Buyer) (policy : ResiliencePolicy) (order : Order)
    (now dialled : ℕ) (clock jitter : ℕ → ℕ) (exchanges : ℕ → Exchange P) where
  -- An attempt that gives a result was paid within what the budget has left.
  attempt-FitsCap :
      (budget : BudgetCap) (n : ℕ) (r : PaidResponse P)
      → (tries_of U buyer policy order budget exchanges clock jitter n).attempt ≡ result r
      → FitsCap (remaining_usd budget) r.cost_in_usd
  unfolding tries_of
  attempt-FitsCap budget n r h =
      pay-FitsCap U buyer (remaining_usd budget) (exchanges n) r (ground arith)

  module _ (w : World P) where
    abbrev asked : BudgetCap
    asked = (propose w.budget order.price_estimate_usd (buy_reason order)).0

    abbrev outcome : Outcome (PaidResponse P) Fault
    outcome =
        (guarded policy (tries_of U buyer policy order asked exchanges clock jitter) order.host
          dialled (lookup_or order.host closed w.breakers)).0

    abbrev approval : Bool
    approval = (propose w.budget order.price_estimate_usd (buy_reason order)).1.approved

    -- The world when the outcome is looked at.
    abbrev attempted : World P
    attempted = record {
      budget = asked;
      store = w.store;
      breakers =
          (resilient_call policy (tries_of U buyer policy order asked exchanges clock jitter)
            order.host dialled w.breakers).1;
    }

    outcome-FitsCap :
        (r : PaidResponse P) → outcome ≡ returned r → FitsCap (remaining_usd asked) r.cost_in_usd
    outcome-FitsCap r h =
        let (n, got) =
          guarded-returned policy (tries_of U buyer policy order asked exchanges clock jitter)
            order.host dialled (lookup_or order.host closed w.breakers) r h in
        attempt-FitsCap asked n r got

  accept-IsWithin :
      (r : PaidResponse P) (w : World P)
      → IsWithin w.budget
      → FitsCap (remaining_usd w.budget) r.cost_in_usd
      → IsWithin (accept U buyer policy order now r w).1.budget
  unfolding accept
  accept-IsWithin r w h (n, whole, fits) = elim (Option-cases r.payload) [
    | inl absent ↦ ground (arith, h)
    | inr (p, e) ↦ elim (Bool-cases (r.status_code == 200)) [
      | inl good ↦ rw (good, e, whole) (commit-IsWithin w.budget n h fits)
      | inr bad ↦ rw bad h
    ]
  ]

  conclude-IsWithin :
      (o : Outcome (PaidResponse P) Fault) (w : World P)
      → IsWithin w.budget
      → ((r : PaidResponse P) → o ≡ returned r → FitsCap (remaining_usd w.budget) r.cost_in_usd)
      → IsWithin (conclude U buyer policy order now o w).1.budget
  unfolding conclude
  conclude-IsWithin (returned r) w h fits = accept-IsWithin r w h (fits r refl)
  conclude-IsWithin (raised e) w h fits = h
  conclude-IsWithin (circuit_open host n t) w h fits = h
  conclude-IsWithin unreachable w h fits = h

  -- The budget's ceiling holds across a purchase: a budget in whole micro-dollars that is not
  -- overspent is not overspent afterwards, whatever the cache, the sellers and the network do; the
  -- slack of the comparisons buys nothing.
  pub procure-IsWithin :
      (w : World P)
      → IsWithin w.budget
      → IsWithin (procure U buyer policy order now dialled clock jitter exchanges w).1.budget
  unfolding procure resilient_call
  procure-IsWithin w h =
      let kept = propose-IsWithin w.budget order.price_estimate_usd (buy_reason order) h in
      elim (Option-cases (get_cached_purchase now w.store order.source_name order.cache_key)) [
        | inr (c, hit) ↦ rw (hit, procure) h
        | inl miss ↦
            rw (miss, procure)
              (branch-IsWithin (approval w) _ _
                (conclude-IsWithin (outcome w) (attempted w) kept (outcome-FitsCap w)) kept)
      ]

  accept_failed :
      (r : PaidResponse P) (w : World P) (e : ProcureError)
      → (accept U buyer policy order now r w).0 ≡ failed e
      → (accept U buyer policy order now r w).1 ≡ w
  unfolding accept
  accept_failed r w e h = ground arith

  conclude_failed :
      (o : Outcome (PaidResponse P) Fault) (w : World P) (e : ProcureError)
      → (conclude U buyer policy order now o w).0 ≡ failed e
      → (conclude U buyer policy order now o w).1 ≡ w
  unfolding conclude
  conclude_failed (returned r) w e h = accept_failed r w e h
  conclude_failed (raised x) w e h = refl
  conclude_failed (circuit_open host n t) w e h = refl
  conclude_failed unreachable w e h = refl

  -- A purchase that fails, at whatever step, leaves the store as it was and the recorded spend as
  -- it was.
  pub procure_failed :
      (w : World P) (e : ProcureError)
      → (procure U buyer policy order now dialled clock jitter exchanges w).0 ≡ failed e
      → let after = (procure U buyer policy order now dialled clock jitter exchanges w).1 in
        (after.store ≡ w.store) × (after.budget.spent_usd ≡ w.budget.spent_usd)
  unfolding procure propose resilient_call
  procure_failed w e h = ground (arith, conclude_failed (outcome w) (attempted w) e)

  -- The world after a purchase that went through.
  abbrev bought : World P → ProcureResult P → World P
  bought w r = record w {
    budget = commit w.budget r.cost_in_usd;
    store =
        record_purchase now order.source_name order.cache_key order.url order.network r.cost_in_usd
          r.tx_hash r.payload order.ttl_seconds w.store;
  }

  conclude_procured :
      (o : Outcome (PaidResponse P) Fault) (w : World P) (r : ProcureResult P)
      → (conclude U buyer policy order now o w).0 ≡ procured r
      → ((conclude U buyer policy order now o w).1 ≡ bought w r)
        × ((q : PaidResponse P) × (o ≡ returned q) × (q.cost_in_usd ≡ r.cost_in_usd))
  unfolding conclude accept
  conclude_procured (returned q) w r h = (ground arith, (q, refl, ground arith))
  conclude_procured (raised x) w r h = cc
  conclude_procured (circuit_open host n t) w r h = cc
  conclude_procured unreachable w r h = cc

  -- A purchase that is made (not served from the cache) was approved at its estimate, cost a price
  -- in base units within what the budget had left, up to the slack, is added to the spend, and is
  -- recorded in the store.
  pub procure_bought :
      (w : World P) (r : ProcureResult P)
      → (procure U buyer policy order now dialled clock jitter exchanges w).0 ≡ procured r
      → r.cache_hit ≡ false
      → let after = (procure U buyer policy order now dialled clock jitter exchanges w).1 in
        (order.price_estimate_usd ≤ remaining_usd w.budget + eps)
        × FitsCap (remaining_usd w.budget) r.cost_in_usd
        × (after.budget.spent_usd ≡ w.budget.spent_usd + r.cost_in_usd)
        × (after.store
            ≡ record_purchase now order.source_name order.cache_key order.url order.network
                r.cost_in_usd r.tx_hash r.payload order.ttl_seconds w.store)
  unfolding procure
  procure_bought w r h fresh =
      elim (Option-cases (get_cached_purchase now w.store order.source_name order.cache_key)) [
        | inr (c, hit) ↦ ground arith
        | inl miss ↦ elim (Bool-cases (approval w)) [
          | inl approved ↦
              let ended : (conclude U buyer policy order now (outcome w) (attempted w)).0
                  ≡ procured r =
                unfold resilient_call in ground arith in
              let (after, (q, got, cost)) = conclude_procured (outcome w) (attempted w) r ended in
              let fits : FitsCap (remaining_usd (asked w)) r.cost_in_usd =
                rw (← cost) (outcome-FitsCap w q got) in
              (
                unfold propose decide in ground arith,
                unfold propose remaining_usd in fits,
                unfold resilient_call propose commit in ground (arith, after),
                unfold resilient_call propose commit in ground (arith, after),
              )
          | inr refusal ↦ ground arith
        ]
      ]
