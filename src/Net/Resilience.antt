-- ===== src/Net/Resilience.antt =====
-- src/jim/net/resilience.py: timeouts, retries and the circuit breaker for outbound calls.
-- Times are microseconds. The exchange with the host is a function from the attempt's number to what
-- came of it: a result, a transport failure (the wall-clock timeout is one), or another exception.
-- `retries` is not negative; a cancellation of the task, which touches no breaker, is left out.
pub mod Retries
pub mod Breaking
pub mod Machine
pub mod Traces
use jim_agent.Prelude.{
  ℕ, zero, suc, ◌+◌, ◌-◌, ◌*◌, ◌^◌, String, Option, none, some, List, [], ◌∷◌, ltb, leb,
  if◌then◌else◌,
}
use jim_agent.Prelude.Dict.{Dict, lookup_or, insert}

pub record ResiliencePolicy : Type 0 where
  pub retries : ℕ
  pub backoff_base : ℕ
  pub breaker_failure_threshold : ℕ
  pub breaker_reset : ℕ

pub record BreakerState : Type 0 where
  pub failures : ℕ
  pub opened_at : Option ℕ

abbrev pub closed : BreakerState
closed = record { failures = 0; opened_at = none }

pub data Attempt (A E : Type 0) : Type 0 where
  result : A → Attempt A E
  transport : E → Attempt A E
  semantic : E → Attempt A E

-- One attempt: what came of it, what `_now()` reads then, and the jitter drawn for the delay.
pub record Try (A E : Type 0) : Type 0 where
  pub attempt : Attempt A E
  pub clock : ℕ
  pub jitter : ℕ

-- What the call gives back; `unreachable` is the assertion behind the loop.
pub data Outcome (A E : Type 0) : Type 0 where
  returned : A → Outcome A E
  raised : E → Outcome A E
  circuit_open : String → ℕ → ℕ → Outcome A E
  unreachable : Outcome A E

-- The outcome, the breaker, and the delays that were slept between attempts.
abbrev pub Called : Type 0 → Type 0 → Type 0
Called A E = Outcome A E × BreakerState × List ℕ

-- `state.failures += 1`, and the breaker opens at the threshold
unfoldable pub record_failure : ResiliencePolicy → ℕ → BreakerState → BreakerState
record_failure policy clock state = record {
  failures = state.failures + 1;
  opened_at =
      if leb policy.breaker_failure_threshold (state.failures + 1)
      then some clock
      else state.opened_at;
}

unfoldable pub delay : ResiliencePolicy → ℕ → ℕ → ℕ
delay policy attempt jitter = policy.backoff_base * 2 ^ attempt + jitter

abbrev pub after_delay : {A E : Type 0} → ℕ → Called A E → Called A E
after_delay d (outcome, state, delays) = (outcome, state, d ∷ delays)

module _ {A E : Type 0} (policy : ResiliencePolicy) (tries : ℕ → Try A E) where
  -- The `for` loop, with the rounds that are left.
  unfoldable pub attempts : ℕ → ℕ → BreakerState → Called A E
  unfolding record_failure delay
  attempts zero attempt state = (unreachable, state, [])
  attempts (suc left) attempt state = elim ((tries attempt).attempt) [
    | result a ↦ (returned a, closed, [])
    | semantic e ↦ (raised e, closed, [])
    | transport e ↦
        let failed = record_failure policy (tries attempt).clock state in
        let rest = attempts left (attempt + 1) failed in
        if leb policy.retries attempt
        then (raised e, failed, [])
        else after_delay (delay policy attempt (tries attempt).jitter) rest
  ]

  unfoldable pub attempt_all : BreakerState → Called A E
  unfolding attempts
  attempt_all state = attempts (policy.retries + 1) 0 state

  -- An open breaker fails fast until its cooldown has elapsed.
  unfoldable pub guarded : String → ℕ → BreakerState → Called A E
  unfolding attempt_all
  guarded host now state = elim state.opened_at [
    | none ↦ attempt_all state
    | some opened ↦
        if ltb (now - opened) policy.breaker_reset
        then (circuit_open host state.failures (policy.breaker_reset - (now - opened)), state, [])
        else attempt_all state
  ]

  -- `_breakers` is the registry; `setdefault` enters a closed breaker for a new host.
  unfoldable pub resilient_call :
      String → ℕ → Dict BreakerState → Outcome A E × Dict BreakerState × List ℕ
  unfolding guarded
  resilient_call host now breakers =
      let (outcome, state, delays) = guarded host now (lookup_or host closed breakers) in
      (outcome, insert host state breakers, delays)
