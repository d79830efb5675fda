-- ===== src/Sources/Procure.antt =====
-- `procure` of src/jim/sources/base.py: cache, budget, buy, record.
pub mod Spending
use jim_agent.Prelude.{
  ℕ, String, append, Bool, true, false, not, Option, none, some, List, [], ◌∷◌, fmt, ◌==◌,
  if◌then◌else◌,
}
use jim_agent.Prelude.Dict.{Dict}
use jim_agent.Prelude.Runtime.{Unicode}
use jim_agent.Net.Resilience.{
  ResiliencePolicy, BreakerState, Attempt, result, transport, semantic, Try, Outcome, returned,
  raised, circuit_open, unreachable, resilient_call,
}
use jim_agent.Research.Budget.{BudgetCap, Decision, Reason, propose, commit, remaining_usd}
use jim_agent.Store.Memory.{MemoryStore, CachedPurchase, get_cached_purchase, record_purchase}
use jim_agent.Sources.Pay.{
  Buyer, Exchange, PaidResponse, PayError, price_cap_exceeded, chain_too_deep, no_private_key, Paid,
  response, refused, transport_error, pay,
}

-- What is bought, and under which settings.
pub record Order : Type 0 where
  pub source_name : String
  pub cache_key : String
  pub url : String
  pub host : String
  pub network : String
  pub price_estimate_usd : ℕ
  pub ttl_seconds : ℕ

pub record ProcureResult (P : Type 0) : Type 0 where
  pub payload : P
  pub cost_in_usd : ℕ
  pub cache_hit : Bool
  pub tx_hash : Option String

-- `BudgetExceeded`, by what denied it, `ProcurementError`, and what passes through.
pub data ProcureError : Type 0 where
  denied : Reason → ProcureError
  spend_refused : PayError → ProcureError
  bad_status : ℕ → ProcureError
  not_json : ProcureError
  circuit : String → ℕ → ℕ → ProcureError
  other : PayError → ProcureError
  lost : ProcureError
  assertion : ProcureError

pub data Procured (P : Type 0) : Type 0 where
  procured : ProcureResult P → Procured P
  failed : ProcureError → Procured P

-- What a purchase may change: the budget, the store and the breakers.
pub record World (P : Type 0) : Type 0 where
  pub budget : BudgetCap
  pub store : MemoryStore P
  pub breakers : Dict BreakerState

-- The exceptions that reach the caller: a lost request, or one of `pay`'s.
pub data Fault : Type 0 where
  transport_fault : Fault
  pay_fault : PayError → Fault

abbrev of_fault : Fault → ProcureError
of_fault transport_fault = lost
of_fault (pay_fault (price_cap_exceeded advertised cap)) =
    spend_refused (price_cap_exceeded advertised cap)
of_fault (pay_fault (chain_too_deep hops max_depth)) = spend_refused (chain_too_deep hops max_depth)
of_fault (pay_fault no_private_key) = other no_private_key

abbrev attempt_of : {P : Type 0} → Paid P → Attempt (PaidResponse P) Fault
attempt_of (response r) = result r
attempt_of (refused e) = semantic (pay_fault e)
attempt_of transport_error = transport transport_fault

abbrev buy_reason : Order → String
buy_reason order = fmt ("buy " ∷ order.source_name ∷ " data (" ∷ order.cache_key ∷ ")" ∷ [])

module _ {P : Type 0} (U : Unicode) (buyer : Buyer) (policy : ResiliencePolicy)
    (order : Order) where
  -- The attempts of the buy: each pays within what the budget has left.
  unfoldable pub tries_of :
      BudgetCap → (ℕ → Exchange P) → (ℕ → ℕ) → (ℕ → ℕ) → ℕ → Try (PaidResponse P) Fault
  unfolding pay
  tries_of budget exchanges clock jitter n = record {
    attempt = attempt_of (pay U buyer (some (remaining_usd budget)) (exchanges n));
    clock = clock n;
    jitter = jitter n;
  }

  -- A response is checked, paid for in the budget, and recorded.
  unfoldable pub accept : ℕ → PaidResponse P → World P → Procured P × World P
  accept now r w =
      if not (r.status_code == 200)
      then (failed (bad_status r.status_code), w)
      else elim r.payload [
        | none ↦ (failed not_json, w)
        | some payload ↦ (
          procured (record {
            payload = payload;
            cost_in_usd = r.cost_in_usd;
            cache_hit = false;
            tx_hash = r.tx_hash;
          }),
          record w {
            budget = commit w.budget r.cost_in_usd;
            store =
                record_purchase now order.source_name order.cache_key order.url order.network
                  r.cost_in_usd r.tx_hash payload order.ttl_seconds w.store;
          },
        )
      ]

  unfoldable pub conclude : ℕ → Outcome (PaidResponse P) Fault → World P → Procured P × World P
  unfolding accept
  conclude now (returned r) w = accept now r w
  conclude now (raised e) w = (failed (of_fault e), w)
  conclude now (circuit_open host failures retry_in) w =
      (failed (circuit host failures retry_in), w)
  conclude now unreachable w = (failed assertion, w)

  -- `now` is the store's clock and `clock` the monotonic one; `dialled` is its reading at the call.
  unfoldable pub procure :
      ℕ → ℕ → (ℕ → ℕ) → (ℕ → ℕ) → (ℕ → Exchange P) → World P → Procured P × World P
  unfolding tries_of conclude resilient_call propose
  procure now dialled clock jitter exchanges w =
      elim (get_cached_purchase now w.store order.source_name order.cache_key) [
        | some c ↦ (
          procured (record {
            payload = c.payload;
            cost_in_usd = 0;
            cache_hit = true;
            tx_hash = c.tx_hash;
          }),
          w,
        )
        | none ↦
            let (asked, decision) = propose w.budget order.price_estimate_usd (buy_reason order) in
            let (outcome, breakers, delays) =
              resilient_call policy (tries_of asked exchanges clock jitter) order.host dialled
                w.breakers in
            if decision.approved
            then conclude now outcome
                (record { budget = asked; store = w.store; breakers = breakers })
            else (failed (denied decision.reason), record w { budget = asked })
      ]
