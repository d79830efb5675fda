-- ===== src/Net/Resilience/Machine.antt =====
-- The breaker of a host as a state machine, and that the calls run through it.
use jim_agent.Prelude.{
  ℕ, zero, suc, ◌+◌, ◌-◌, ◌<◌, ◌≤◌, String, ◌≡◌, ◌⊎◌, refl, Bool, true, false, none, some, arith,
  inl, inr, Option-cases, leb, ltb, Bool-cases,
}
use native.Mathlib.Decide.{ℕ_discrete}
use jim_agent.Net.Resilience.{
  ResiliencePolicy, BreakerState, Attempt, result, transport, semantic, Try, Outcome, returned,
  raised, circuit_open, attempt_all, guarded,
}
use jim_agent.Net.Resilience.Retries.{lost, verdict, attempt_all-described, lost-le}
use jim_agent.Net.Resilience.Breaking.{IsCoherent}

-- A host is healthy after some failures in a row, or its breaker tripped: the failures, since when.
pub data Phase : Type 0 where
  healthy : ℕ → Phase
  tripped : ℕ → ℕ → Phase

abbrev pub phase_of : BreakerState → Phase
phase_of state = elim state.opened_at [
  | none ↦ healthy state.failures
  | some since ↦ tripped state.failures since
]

abbrev failures_of : Phase → ℕ
failures_of (healthy n) = n
failures_of (tripped n since) = n

-- A tripped host is dialled again once the cooldown is over.
abbrev pub Admits : ResiliencePolicy → ℕ → Phase → Type 0
Admits policy now (healthy n) = Unit
Admits policy now (tripped n since) = policy.breaker_reset ≤ now - since

module _ {A E : Type 0} where
  abbrev pub is_lost : Attempt A E → Bool
  is_lost (transport e) = true
  is_lost (result a) = false
  is_lost (semantic e) = false

  abbrev pub AllLost : (ℕ → Try A E) → ℕ → Type 0
  AllLost tries n = (i : ℕ) → i < n → is_lost (tries i).attempt ≡ true

  -- What an attempt that reached the host means to the caller.
  pub data Answers (x : Attempt A E) (o : Outcome A E) : Type 0 where
    gave : (a : A) → x ≡ result a → o ≡ returned a → Answers x o
    objected : (e : E) → x ≡ semantic e → o ≡ raised e → Answers x o

Attempt-cases :
    {A E : Type 0} (x : Attempt A E)
    → ((a : A) × (x ≡ result a)) ⊎ (((e : E) × (x ≡ semantic e)) ⊎ ((e : E) × (x ≡ transport e)))
Attempt-cases (result a) = inl (a, refl)
Attempt-cases (semantic e) = inr (inl (e, refl))
Attempt-cases (transport e) = inr (inr (e, refl))

module _ {A E : Type 0} (policy : ResiliencePolicy) where
  -- One call at `now`: the phase before, the outcome, the phase after.
  pub data Move (host : String) (tries : ℕ → Try A E) (now : ℕ) (p : Phase) (o : Outcome A E)
      (q : Phase) : Type 0 where
    refused :
        (n since : ℕ)
        → p ≡ tripped n since
        → now - since < policy.breaker_reset
        → o ≡ circuit_open host n (policy.breaker_reset - (now - since))
        → q ≡ p
        → Move host tries now p o q
    answered :
        (k : ℕ)
        → Admits policy now p
        → k ≤ policy.retries
        → AllLost tries k
        → Answers (tries k).attempt o
        → q ≡ healthy 0
        → Move host tries now p o q
    strained :
        (n : ℕ) (e : E)
        → p ≡ healthy n
        → AllLost tries (policy.retries + 1)
        → (tries policy.retries).attempt ≡ transport e
        → n + policy.retries + 1 < policy.breaker_failure_threshold
        → o ≡ raised e
        → q ≡ healthy (n + policy.retries + 1)
        → Move host tries now p o q
    opened :
        (e : E)
        → Admits policy now p
        → AllLost tries (policy.retries + 1)
        → (tries policy.retries).attempt ≡ transport e
        → policy.breaker_failure_threshold ≤ failures_of p + policy.retries + 1
        → o ≡ raised e
        → q ≡ tripped (failures_of p + policy.retries + 1) (tries policy.retries).clock
        → Move host tries now p o q

  module _ (tries : ℕ → Try A E) where
    lost_before :
        (n attempt i : ℕ)
        → i < lost policy tries n attempt
        → is_lost (tries (attempt + i)).attempt ≡ true
    lost_before zero attempt i h = absurd (omega (arith, h))
    lost_before (suc n) attempt zero h = ground arith
    lost_before (suc n) attempt (suc i) h =
        let shift : attempt + suc i ≡ attempt + 1 + i = omega arith in
        rw shift (ground (arith, lost_before n (attempt + 1) i))

    lost_decides :
        (n attempt : ℕ)
        → lost policy tries n attempt < n
        → is_lost (tries (attempt + lost policy tries n attempt)).attempt ≡ false
    lost_decides zero attempt h = absurd (omega (arith, h))
    lost_decides (suc n) attempt h =
        let shift : attempt + suc (lost policy tries n (attempt + 1))
            ≡ attempt + 1 + lost policy tries n (attempt + 1) =
          omega arith in
        let here : attempt + 0 ≡ attempt = omega arith in
        ground (arith, shift, here, lost_decides n (attempt + 1))

    at_number :
        (i j : ℕ) (b : Bool) → j ≡ i → is_lost (tries j).attempt ≡ b → is_lost (tries i).attempt ≡ b
    at_number i j b same h = rw (← same) h

    all_lost : (n : ℕ) → AllLost tries n → is_lost (tries n).attempt ≡ true → AllLost tries (n + 1)
    all_lost n all last i h = elim (ℕ_discrete i n) [
      | yes same ↦ rw same last
      | no other ↦ all i (omega arith)
    ]

    exhausted-Move :
        (host : String) (now : ℕ) (state : BreakerState) (e : E)
        → AllLost tries policy.retries
        → (tries policy.retries).attempt ≡ transport e
        → IsCoherent policy state
        → Admits policy now (phase_of state)
        → let (o, after) = verdict policy tries policy.retries policy.retries state in
          Move host tries now (phase_of state) o (phase_of after)
    exhausted-Move host now state e all last coherent admits =
        let every : AllLost tries (policy.retries + 1) =
          all_lost policy.retries all (ground arith) in
        elim (Bool-cases
          (leb policy.breaker_failure_threshold (state.failures + policy.retries + 1))) [
            | inl over ↦ opened e admits every last (ground arith) (ground arith) (ground arith)
            | inr under ↦
                strained state.failures e (ground arith) every last (ground arith) (ground arith)
                  (ground arith)
          ]

    verdict-Move :
        (host : String) (now n : ℕ) (state : BreakerState)
        → n ≤ policy.retries
        → AllLost tries n
        → (n < policy.retries → is_lost (tries n).attempt ≡ false)
        → IsCoherent policy state
        → Admits policy now (phase_of state)
        → let (o, after) = verdict policy tries n n state in
          Move host tries now (phase_of state) o (phase_of after)
    verdict-Move host now n state le all decides coherent admits =
        elim (Attempt-cases (tries n).attempt) [
          | inl (a, e) ↦ answered n admits le all (gave a e (ground arith)) (ground arith)
          | inr (inl (b, e)) ↦ answered n admits le all (objected b e (ground arith)) (ground arith)
          | inr (inr (b, e)) ↦
              let last : n ≡ policy.retries = ground (arith, decides, e) in
              rw last
                (exhausted-Move host now state b (rw (← last) all) (rw (← last) e) coherent admits)
        ]

    attempt_all-Move :
        (host : String) (now : ℕ) (state : BreakerState)
        → IsCoherent policy state
        → Admits policy now (phase_of state)
        → let (o, after, delays) = attempt_all policy tries state in
          Move host tries now (phase_of state) o (phase_of after)
    attempt_all-Move host now state coherent admits =
        rw (attempt_all-described policy tries state) (
          verdict-Move host now (lost policy tries policy.retries 0) state
            (lost-le policy tries policy.retries 0)
            (λ i h. at_number i (0 + i) true (omega arith) (lost_before policy.retries 0 i h))
            (λ h.
              at_number (lost policy tries policy.retries 0)
                (0 + lost policy tries policy.retries 0) false (omega arith)
                (lost_decides policy.retries 0 h))
            coherent admits)

    dialled-Move :
        (host : String) (now : ℕ) (state : BreakerState)
        → IsCoherent policy state
        → Admits policy now (phase_of state)
        → guarded policy tries host now state ≡ attempt_all policy tries state
        → let (o, after, delays) = guarded policy tries host now state in
          Move host tries now (phase_of state) o (phase_of after)
    dialled-Move host now state coherent admits same =
        rw same (attempt_all-Move host now state coherent admits)

    pub guarded-Move :
        (host : String) (now : ℕ) (state : BreakerState)
        → IsCoherent policy state
        → let (o, after, delays) = guarded policy tries host now state in
          Move host tries now (phase_of state) o (phase_of after)
    unfolding guarded
    guarded-Move host now state coherent = elim (Option-cases state.opened_at) [
      | inl up ↦ dialled-Move host now state coherent (ground arith) (ground arith)
      | inr (since, down) ↦ elim (Bool-cases (ltb (now - since) policy.breaker_reset)) [
        | inl soon ↦
            refused state.failures since (ground arith) (ground arith) (ground arith) (ground arith)
        | inr late ↦ dialled-Move host now state coherent (ground arith) (ground arith)
      ]
    ]
