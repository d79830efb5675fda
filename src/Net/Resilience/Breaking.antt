-- ===== src/Net/Resilience/Breaking.antt =====
-- The breaker: when it is open, what an open one does, and that hosts do not meddle.
use jim_agent.Prelude.{
  ℕ, zero, suc, ◌+◌, ◌-◌, ◌<◌, String, ◌≡◌, ◌≢◌, some, arith, leb, is_some, eq_iff, [],
}
use jim_agent.Prelude.Dict.{Dict, lookup, lookup_or, lookup-insert}
use jim_agent.Net.Resilience.{
  ResiliencePolicy, BreakerState, closed, Try, circuit_open, record_failure, attempts, attempt_all,
  guarded, resilient_call,
}

-- The breaker is open exactly when the failures have reached the threshold.
abbrev pub IsCoherent : ResiliencePolicy → BreakerState → Type 0
IsCoherent policy state =
    is_some state.opened_at ≡ leb policy.breaker_failure_threshold state.failures

module _ {A E : Type 0} (policy : ResiliencePolicy)
    (positive : 0 < policy.breaker_failure_threshold) where
  attempts-IsCoherent :
      (tries : ℕ → Try A E) (left attempt : ℕ) (state : BreakerState)
      → IsCoherent policy state
      → IsCoherent policy (attempts policy tries left attempt state).1
  unfolding attempts record_failure
  attempts-IsCoherent tries zero attempt state h = h
  attempts-IsCoherent tries (suc left) attempt state h = ground (
    arith,
    attempts-IsCoherent tries left (attempt + 1)
        (record_failure policy (tries attempt).clock state),
  )

  guarded-IsCoherent :
      (tries : ℕ → Try A E) (host : String) (now : ℕ) (state : BreakerState)
      → IsCoherent policy state
      → IsCoherent policy (guarded policy tries host now state).1
  unfolding guarded attempt_all
  guarded-IsCoherent tries host now state h =
      ground (arith, attempts-IsCoherent tries (policy.retries + 1) 0 state h)

  -- In a registry where every breaker is open exactly from the threshold on, it is so after a call
  -- to any host, with any results; the threshold is positive.
  pub resilient_call-IsCoherent :
      (tries : ℕ → Try A E) (host : String) (now : ℕ) (breakers : Dict BreakerState)
      → ((h : String) → IsCoherent policy (lookup_or h closed breakers))
      → (h : String)
      → IsCoherent policy (lookup_or h closed (resilient_call policy tries host now breakers).1)
  unfolding resilient_call
  resilient_call-IsCoherent tries host now breakers all h =
      let state = (guarded policy tries host now (lookup_or host closed breakers)).1 in
      ground (
        arith,
        all h,
        lookup-insert host h state breakers,
        guarded-IsCoherent tries host now (lookup_or host closed breakers) (all host),
      )

module _ {A E : Type 0} (policy : ResiliencePolicy) where
  -- A host whose breaker opened less than the cooldown ago is not dialled: whatever it would
  -- answer, the call fails with the time that is left, without a delay, and each breaker, this
  -- host's included, stays as it was.
  pub open_fails_fast :
      (tries : ℕ → Try A E) (host : String) (now opened : ℕ) (state : BreakerState)
      (breakers : Dict BreakerState)
      → lookup host breakers ≡ some state
      → state.opened_at ≡ some opened
      → now - opened < policy.breaker_reset
      → let (outcome, after, delays) = resilient_call policy tries host now breakers in
        (outcome ≡ circuit_open host state.failures (policy.breaker_reset - (now - opened)))
        × (delays ≡ [])
        × ((h : String) → lookup h after ≡ lookup h breakers)
  unfolding resilient_call guarded
  open_fails_fast tries host now opened state breakers found at soon =
      (ground arith, ground arith, λ h. rw lookup-insert (ground (arith, eq_iff host h)))

  -- A call to one host leaves the breaker of every other host as it was.
  pub other_hosts_untouched :
      (tries : ℕ → Try A E) (host other : String) (now : ℕ) (breakers : Dict BreakerState)
      → host ≢ other
      → lookup other (resilient_call policy tries host now breakers).1 ≡ lookup other breakers
  unfolding resilient_call
  other_hosts_untouched tries host other now breakers ne =
      rw lookup-insert (ground (arith, eq_iff host other))
