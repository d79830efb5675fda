-- ===== src/Tests/Buying.antt =====
-- Purchases, caches, trust and derived facts at concrete inputs.
use jim_agent.Prelude.{
  ℕ, ◌+◌, ◌≤◌, ◌≡◌, refl, true, false, Option, none, some, [], ◌∷◌, arith, any, All, str_eq, ltb,
  ◌&&◌, if◌then◌else◌, ◌-◌,
}
use jim_agent.Prelude.Dict.{lookup}
use jim_agent.Prelude.Int.{ℤ}
use jim_agent.Interop.CallChain.{outbound_payment_headers, header}
use jim_agent.Interop.Trust.{origin_of, attribute_gate_outcome}
use jim_agent.Interop.Trust.Attribution.{implicates, attribute_gate_outcome-exact}
use jim_agent.Net.Resilience.{ResiliencePolicy}
use jim_agent.Research.Budget.{fresh, remaining_usd, eps, decide}
use jim_agent.Research.Budget.Ceiling.{IsWithin}
use jim_agent.Research.Facts.{Fact}
use jim_agent.Research.Facts.Derived.{compute_derived}
use jim_agent.Research.Facts.Derived.Traceable.{IsTraceable, compute_derived-IsTraceable}
use jim_agent.Research.Gate.Sourcing.{GateResult, Violation}
use jim_agent.Sources.Pay.{Buyer, Exchange, Probe, Answer, announced}
use jim_agent.Sources.Procure.{Order, World, ProcureResult, ProcureError, procured, failed, procure}
use jim_agent.Sources.Procure.Spending.{FitsCap, procure-IsWithin, procure_failed, procure_bought}
use jim_agent.Store.Memory.{MemoryStore, get_cached_purchase, record_purchase}
use jim_agent.Store.Memory.Caching.{purchase_cached}
use jim_agent.Tests.Ascii.{ascii}
use jim_agent.Tests.Gating.{apple}
use jim_agent.Tests.Milli.{milli}

abbrev pub empty : MemoryStore ℕ
empty = record {
  purchases = [];
  queries = [];
  insights = [];
  receipts = [];
  memos = [];
  trust_events = [];
}

abbrev world : World ℕ
world = record { budget = fresh 100_000_000; store = empty; breakers = [] }

abbrev buyer : Buyer
buyer = record { has_key = true; identity = "0xbb"; inbound = []; max_depth = 4 }

abbrev policy : ResiliencePolicy
policy = record {
  retries = 2;
  backoff_base = 250;
  breaker_failure_threshold = 5;
  breaker_reset = 30000;
}

abbrev order : Order
order = record {
  source_name = "peer:alpha";
  cache_key = "alpha:AAPL";
  url = "https://peer.example/signals";
  host = "peer.example";
  network = "base";
  price_estimate_usd = 50_000_000;
  ttl_seconds = 3600;
}

-- A price of two cents.
abbrev probe : Probe
probe = record { status = 402; advertised = some 20_000 }

abbrev answer : Option ℕ → Answer ℕ
answer payload = record { status = 200; payload = payload; settled = true; tx_hash = some "0x1" }

abbrev exchanges : Option ℕ → ℕ → Exchange ℕ
exchanges payload i = record { probe = some probe; answer = some (answer payload) }

abbrev zero_clock : ℕ → ℕ
zero_clock i = 0

abbrev receipt : ProcureResult ℕ
receipt = record { payload = 7; cost_in_usd = 20_000_000; cache_hit = false; tx_hash = some "0x1" }

buys :
    (procure ascii buyer policy order 10 0 zero_clock zero_clock (exchanges (some 7)) world).0
    ≡ procured receipt
unfolding procure get_cached_purchase decide lookup outbound_payment_headers
buys = refl

world-IsWithin : IsWithin world.budget
world-IsWithin = record { whole_ceiling = refl; whole_spent = refl; within = omega arith }

procure-IsWithin_example :
    IsWithin
      (procure ascii buyer policy order 10 0 zero_clock zero_clock
        (exchanges (some 7))
        world).1.budget
procure-IsWithin_example =
    procure-IsWithin ascii buyer policy order 10 0 zero_clock zero_clock (exchanges (some 7)) world
      world-IsWithin

procure_bought_example :
    let after =
      (procure ascii buyer policy order 10 0 zero_clock zero_clock (exchanges (some 7)) world).1 in
    (50_000_000 ≤ remaining_usd world.budget + eps)
    × FitsCap (remaining_usd world.budget) 20_000_000
    × (after.budget.spent_usd ≡ 0 + 20_000_000)
    × (after.store
        ≡ record_purchase 10 "peer:alpha" "alpha:AAPL" "https://peer.example/signals" "base"
            20_000_000
            (some "0x1")
            7
            3600
            empty)
procure_bought_example =
    procure_bought ascii buyer policy order 10 0 zero_clock zero_clock (exchanges (some 7)) world
      receipt buys refl

sends : outbound_payment_headers ascii [] "0xbb" 4 ≡ header "0xbb"
unfolding outbound_payment_headers
sends = refl

misses : get_cached_purchase 10 empty "peer:alpha" "alpha:AAPL" ≡ none
unfolding get_cached_purchase
misses = refl

approves : 50_000_000 ≤ remaining_usd world.budget + eps
unfolding remaining_usd
approves = omega arith

affords : announced probe ≤ remaining_usd world.budget + eps
unfolding remaining_usd announced
affords = omega arith

unknown_host : lookup "peer.example" world.breakers ≡ none
unfolding lookup
unknown_host = refl

fails :
    (procure ascii buyer policy order 10 0 zero_clock zero_clock (exchanges none) world).0
    ≡ failed ProcureError.not_json
unfolding procure get_cached_purchase decide lookup outbound_payment_headers
fails = refl

procure_failed_example :
    let after =
      (procure ascii buyer policy order 10 0 zero_clock zero_clock (exchanges none) world).1 in
    (after.store ≡ empty) × (after.budget.spent_usd ≡ 0)
procure_failed_example =
    procure_failed ascii buyer policy order 10 0 zero_clock zero_clock (exchanges none) world
      ProcureError.not_json fails

purchase_cached_example :
    get_cached_purchase 100 (record_purchase 10 "s" "k" "u" "n" 5 none 7 3600 empty) "s" "k" ≡ (
      if str_eq "s" "s" && str_eq "k" "k"
      then (if ltb 3600 (100 - 10)
          then none
          else some (record { payload = 7; cost_usd = 5; tx_hash = none; age_seconds = 100 - 10 }))
      else get_cached_purchase 100 empty "s" "k")
purchase_cached_example =
    purchase_cached 10 100 3600 5 "s" "k" "u" "n" "s" "k" none 7 empty (omega arith)

abbrev rejected : GateResult
rejected = record {
  passed = false;
  violations =
      record {
        figure = "$5";
        reason = "value mismatch";
        segment = "$5 [C1]";
        cited_ids = "C1" ∷ [];
      }
      ∷ [];
  n_figures = 1;
  n_covered = 0;
}

attribute_gate_outcome-exact_example :
    lookup "edgar" (attribute_gate_outcome apple "edgar" rejected) ≡ (
      if rejected.passed
      then (if any (λ (f : Fact ℤ). str_eq (origin_of apple "edgar" f.id) "edgar") apple.facts
          then some true
          else none)
      else if any
          (λ (v : Violation). any (implicates apple "edgar" "edgar") v.cited_ids)
          rejected.violations
      then some false
      else none)
attribute_gate_outcome-exact_example = attribute_gate_outcome-exact apple "edgar" rejected "edgar"

compute_derived-IsTraceable_example :
    All (IsTraceable milli apple.facts) (compute_derived milli apple.facts (λ n. "C9"))
compute_derived-IsTraceable_example = compute_derived-IsTraceable milli apple.facts (λ n. "C9")
