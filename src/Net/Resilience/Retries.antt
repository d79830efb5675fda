-- ===== src/Net/Resilience/Retries.antt =====
-- The retry loop against an independent description: the first attempt that is answered decides.
use jim_agent.Prelude.{
  ℕ, String, zero, suc, ◌+◌, ◌≤◌, ◌≡◌, refl, some, List, [], ◌∷◌, arith, leb, if◌then◌else◌,
}
use jim_agent.Net.Resilience.{
  ResiliencePolicy, BreakerState, closed, Attempt, result, transport, semantic, Try, Outcome,
  returned, raised, Called, record_failure, delay, attempts, attempt_all, guarded,
}

module _ {A E : Type 0} (policy : ResiliencePolicy) (tries : ℕ → Try A E) where
  -- How many attempts from `attempt` on fail in the transport, up to `n`.
  abbrev pub lost : ℕ → ℕ → ℕ
  lost zero attempt = 0
  lost (suc n) attempt = elim ((tries attempt).attempt) [
    | transport e ↦ suc (lost n (attempt + 1))
    | _ ↦ 0
  ]

  abbrev pub backoffs : ℕ → ℕ → List ℕ
  backoffs zero attempt = []
  backoffs (suc n) attempt = delay policy attempt (tries attempt).jitter ∷ backoffs n (attempt + 1)

  -- What an attempt that ends the call gives, after `n` failures in the transport.
  abbrev pub verdict : ℕ → ℕ → BreakerState → Outcome A E × BreakerState
  verdict n attempt state = elim ((tries attempt).attempt) [
    | result a ↦ (returned a, closed)
    | semantic e ↦ (raised e, closed)
    | transport e ↦ (
      raised e,
      record {
        failures = state.failures + n + 1;
        opened_at =
            if leb policy.breaker_failure_threshold (state.failures + n + 1)
            then some (tries attempt).clock
            else state.opened_at;
      },
    )
  ]

  abbrev pub described : ℕ → ℕ → ℕ → BreakerState → Called A E
  described n attempt last state =
      let (outcome, after) = verdict n last state in (outcome, after, backoffs n attempt)

  attempts-described :
      (left attempt last : ℕ) (state : BreakerState)
      → attempt + left ≡ policy.retries
      → attempt + lost left attempt ≡ last
      → attempts policy tries (suc left) attempt state
        ≡ described (lost left attempt) attempt last state
  unfolding attempts record_failure
  attempts-described zero attempt last state h e =
      let same : attempt ≡ last = omega arith in rw (← same) (ground arith)
  attempts-described (suc left) attempt last state h e = ground (
    arith,
    attempts-described left (attempt + 1) last (record_failure policy (tries attempt).clock state),
  )

  -- The retry loop: the first attempt with number 0, 1, …, `retries` that does not fail in the
  -- transport decides, its result or exception is passed on and the breaker is closed; if there is
  -- none, the last attempt's exception is raised, `retries` + 1 failures are counted, and the
  -- breaker is stamped with the last failure's time if the count has reached the threshold.
  -- Between attempts the delays are the exponential backoff with jitter, one for each retry.
  pub attempt_all-described :
      (state : BreakerState)
      → attempt_all policy tries state
        ≡ described (lost policy.retries 0) 0 (lost policy.retries 0) state
  unfolding attempt_all
  attempt_all-described state =
      let one : policy.retries + 1 ≡ suc policy.retries = omega arith in
      rw one (
        attempts-described policy.retries 0 (lost policy.retries 0) state (omega arith)
          (omega arith))

  pub lost-le : (n attempt : ℕ) → lost n attempt ≤ n
  lost-le zero attempt = omega arith
  lost-le (suc n) attempt = ground (arith, lost-le n (attempt + 1))

  attempts-returned :
      (left attempt : ℕ) (state : BreakerState) (a : A)
      → (attempts policy tries left attempt state).0 ≡ returned a
      → (n : ℕ) × ((tries n).attempt ≡ result a)
  unfolding attempts
  attempts-returned zero attempt state a e = cc
  attempts-returned (suc left) attempt state a e =
      go (tries attempt).attempt refl e
        (attempts-returned left (attempt + 1) (record_failure policy (tries attempt).clock state) a)
    where
      go :
          (x : Attempt A E)
          → (tries attempt).attempt ≡ x
          → (attempts policy tries (suc left) attempt state).0 ≡ returned a
          → ((attempts policy tries left
                  (attempt + 1)
                  (record_failure policy (tries attempt).clock state)).0
                ≡ returned a
              → (n : ℕ) × ((tries n).attempt ≡ result a))
          → (n : ℕ) × ((tries n).attempt ≡ result a)
      go (result b) p e ih = (attempt, ground arith)
      go (semantic b) p e ih = ground arith
      go (transport b) p e ih = ih (ground arith)

  -- What a call returns is what one of the attempts gave.
  pub guarded-returned :
      (host : String) (now : ℕ) (state : BreakerState) (a : A)
      → (guarded policy tries host now state).0 ≡ returned a
      → (n : ℕ) × ((tries n).attempt ≡ result a)
  unfolding guarded attempt_all
  guarded-returned host now state a e =
      attempts-returned (policy.retries + 1) 0 state a (ground arith)
