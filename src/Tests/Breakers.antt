-- ===== src/Tests/Breakers.antt =====
-- The breaker at concrete exchanges: the first attempts fail in the transport.
use jim_agent.Prelude.{ℕ, String, ◌≡◌, List, [], ◌∷◌, arith, ltb, ◌+◌, if◌then◌else◌}
use jim_agent.Net.Resilience.{ResiliencePolicy, closed, result, transport, Try, attempt_all}
use jim_agent.Net.Resilience.Retries.{described, lost, attempt_all-described}
use jim_agent.Net.Resilience.Machine.{healthy}
use jim_agent.Net.Resilience.Traces.{Call, calls, Follows, phase_at, calls-Refines}

abbrev policy : ResiliencePolicy
policy = record {
  retries = 2;
  backoff_base = 250;
  breaker_failure_threshold = 5;
  breaker_reset = 30000;
}

-- The host answers from the attempt `n` on.
abbrev down_until : ℕ → ℕ → Try ℕ String
down_until n i = record {
  attempt = if ltb i n then transport "refused" else result 7;
  clock = 100 + i;
  jitter = 3;
}

attempt_all-described_example :
    attempt_all policy (down_until 2) closed
    ≡ described policy
        (down_until 2)
        (lost policy (down_until 2) 2 0)
        0
        (lost policy (down_until 2) 2 0)
        closed
attempt_all-described_example = attempt_all-described policy (down_until 2) closed

-- Two calls that are lost trip the breaker of the host, and another host is called in between.
abbrev day : List (Call ℕ String)
day =
    record { host = "a.example"; now = 0; tries = down_until 9 }
    ∷ record { host = "b.example"; now = 50; tries = down_until 1 }
    ∷ record { host = "a.example"; now = 200; tries = down_until 9 }
    ∷ record { host = "a.example"; now = 300; tries = down_until 0 }
    ∷ []

calls-Refines_example :
    Follows policy "a.example" day
      (calls policy day []).0
      (healthy 0)
      (phase_at "a.example" (calls policy day []).1)
calls-Refines_example = calls-Refines policy "a.example" day (omega arith)
