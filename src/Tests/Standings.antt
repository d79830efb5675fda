-- ===== src/Tests/Standings.antt =====
-- The trust of two sources at a concrete ledger.
use jim_agent.Prelude.{
  ℕ, String, ◌≡◌, Bool, true, false, none, some, [], ◌∷◌, any, str_eq, if◌then◌else◌,
}
use jim_agent.Prelude.Dict.{lookup}
use jim_agent.Interop.Trust.{laplace_score}
use jim_agent.Store.Memory.{TrustEvent, MemoryStore}
use jim_agent.Store.Reputation.{trust_scores}
use jim_agent.Store.Reputation.Tallies.{standing, outcomes, trust_scores-exact}
use jim_agent.Tests.Buying.{empty}
use jim_agent.Tests.Clock.{strokes_iso}

abbrev event : String → Bool → ℕ → TrustEvent
event source ok t = record {
  source = source;
  ok = ok;
  context = "fundamentals:AAPL";
  created_at = t;
}

abbrev ledger : MemoryStore ℕ
ledger = record empty {
  trust_events = event "peer:a" true 1 ∷ event "edgar" true 2 ∷ event "peer:a" false 3 ∷ [];
}

trust_scores-exact_example : standing (lookup "peer:a" (trust_scores strokes_iso ledger)) ≡ (
    if any (λ (e : TrustEvent). str_eq e.source "peer:a") ledger.trust_events
    then some (
      outcomes true "peer:a" ledger.trust_events,
      outcomes false "peer:a" ledger.trust_events,
      laplace_score
          (outcomes true "peer:a" ledger.trust_events)
          (outcomes false "peer:a" ledger.trust_events),
    )
    else none)
trust_scores-exact_example = trust_scores-exact strokes_iso "peer:a" ledger
