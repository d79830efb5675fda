-- ===== src/Net/Resilience/Traces.antt =====
-- Sequences of calls: every host goes through the phases of its breaker's state machine.
use jim_agent.Prelude.{
  ℕ, ◌<◌, String, ◌≡◌, ◌≢◌, arith, List, [], ◌∷◌, inl, inr, eq_iff, str_eq, Bool-cases,
}
use jim_agent.Prelude.Dict.{Dict, lookup, lookup_or, insert, lookup-insert}
use jim_agent.Net.Resilience.{
  ResiliencePolicy, BreakerState, closed, Try, Outcome, guarded, resilient_call,
}
use jim_agent.Net.Resilience.Breaking.{IsCoherent, resilient_call-IsCoherent, other_hosts_untouched}
use jim_agent.Net.Resilience.Machine.{Phase, healthy, phase_of, Move, guarded-Move}

abbrev pub phase_at : String → Dict BreakerState → Phase
phase_at host breakers = phase_of (lookup_or host closed breakers)

-- A call, as its caller makes it.
pub record Call (A E : Type 0) : Type 0 where
  pub host : String
  pub now : ℕ
  pub tries : ℕ → Try A E

module _ {A E : Type 0} (policy : ResiliencePolicy) where
  -- The calls one after the other: their outcomes and the registry at the end.
  unfoldable pub calls :
      List (Call A E) → Dict BreakerState → List (Outcome A E) × Dict BreakerState
  calls [] breakers = ([], breakers)
  calls (c ∷ cs) breakers =
      let (o, after, delays) = resilient_call policy c.tries c.host c.now breakers in
      let (os, end) = calls cs after in (o ∷ os, end)

  -- The phases that one host goes through while calls to any hosts are made.
  pub data Follows (host : String)
      : List (Call A E) → List (Outcome A E) → Phase → Phase → Type 0 where
    done : (p : Phase) → Follows host [] [] p p
    own :
        (c : Call A E) (o : Outcome A E) (cs : List (Call A E)) (os : List (Outcome A E))
        (p q r : Phase)
        → c.host ≡ host
        → Move policy host c.tries c.now p o q
        → Follows host cs os q r
        → Follows host (c ∷ cs) (o ∷ os) p r
    elsewhere :
        (c : Call A E) (o : Outcome A E) (cs : List (Call A E)) (os : List (Outcome A E))
        (p r : Phase)
        → c.host ≢ host
        → Follows host cs os p r
        → Follows host (c ∷ cs) (o ∷ os) p r

  own-Move :
      (tries : ℕ → Try A E) (dialled host : String) (now : ℕ) (breakers : Dict BreakerState)
      → dialled ≡ host
      → IsCoherent policy (lookup_or host closed breakers)
      → let (o, after, delays) = resilient_call policy tries dialled now breakers in
        Move policy host tries now (phase_at host breakers) o (phase_at host after)
  unfolding resilient_call
  own-Move tries dialled host now breakers same coherent =
      let state = lookup_or host closed breakers in
      let kept : lookup_or host closed
            (insert host (guarded policy tries host now state).1 breakers)
          ≡ (guarded policy tries host now state).1 =
        ground (
          arith,
          lookup-insert host host (guarded policy tries host now state).1 breakers,
          eq_iff host host,
        ) in
      rw (same, kept) (guarded-Move policy tries host now state coherent)

  other-phase_at :
      (tries : ℕ → Try A E) (dialled host : String) (now : ℕ) (breakers : Dict BreakerState)
      → dialled ≢ host
      → phase_at host breakers ≡ phase_at host (resilient_call policy tries dialled now breakers).1
  other-phase_at tries dialled host now breakers ne =
      ground (arith, other_hosts_untouched policy tries dialled host now breakers ne)

  calls-Follows :
      (host : String) (cs : List (Call A E)) (breakers : Dict BreakerState)
      → 0 < policy.breaker_failure_threshold
      → ((h : String) → IsCoherent policy (lookup_or h closed breakers))
      → Follows host cs
          (calls cs breakers).0
          (phase_at host breakers)
          (phase_at host (calls cs breakers).1)
  unfolding calls
  calls-Follows host [] breakers positive coherent = done _
  calls-Follows host (c ∷ cs) breakers positive coherent =
      let after = (resilient_call policy c.tries c.host c.now breakers).1 in
      let rest =
        calls-Follows host cs after positive
          (resilient_call-IsCoherent policy positive c.tries c.host c.now breakers coherent) in
      elim (Bool-cases (str_eq c.host host)) [
        | inl same ↦
            let here : c.host ≡ host = (eq_iff c.host host).0 same in
            own c _ cs _ _ _ _ here
              (own-Move c.tries c.host host c.now breakers here (coherent host)) rest
        | inr other ↦
            let apart : c.host ≢ host = ground (arith, eq_iff c.host host) in
            elsewhere c _ cs _ _ _ apart
              (rw (other-phase_at c.tries c.host host c.now breakers apart) rest)
      ]

  -- The circuit breaker is a state machine for each host. From a fresh process on, and for any
  -- sequence of calls to any hosts with any results, one after the other, each host goes through the
  -- phases of the machine: from healthy with no failure, a call to it makes one move, whose outcome
  -- the caller gets, and a call to another host makes none. A move refuses while the breaker is
  -- tripped and cooling down; passes on the answer of the first attempt that is not lost, and heals;
  -- or raises the last failure after all attempts, with the failures counted, and trips from the
  -- threshold on, which is positive.
  pub calls-Refines :
      (host : String) (cs : List (Call A E))
      → 0 < policy.breaker_failure_threshold
      → Follows host cs (calls cs []).0 (healthy 0) (phase_at host (calls cs []).1)
  unfolding lookup
  calls-Refines host cs positive = calls-Follows host cs [] positive (λ h. ground arith)
