-- ===== src/Tests/Answers.antt =====
-- Requests at concrete inputs: what is delivered, and what the next one is served.
use jim_agent.Prelude.{ℕ, String, ◌≡◌, refl, true, false, none, some, [], arith}
use jim_agent.Prelude.Int.{ℤ, pos, ◌-ℤ◌}
use jim_agent.Research.Budget.{fresh}
use jim_agent.Research.Facts.{Snapshot}
use jim_agent.Research.Gate.Sourcing.{check_sourcing, check_segments}
use jim_agent.Research.Identifiers.{canonicalize, fundamentals_re}
use jim_agent.Research.Pipeline.{Models, serve}
use jim_agent.Research.Run.{
  gathered, Product, RunSettings, Moments, GraphEnd, ResearchResult, outcome_of, after_gather,
  run_graph, ended,
}
use jim_agent.Research.Run.Books.{close_books}
use jim_agent.Research.Run.Request.{run_research}
use jim_agent.Research.Run.Warm.{IsServed, warm-IsServed}
use jim_agent.Seller.Delivery.{deliver_or_refuse, IsFair, deliver_or_refuse-IsFair}
use jim_agent.Sources.Peer.{GatherResult}
use jim_agent.Sources.Procure.{World}
use jim_agent.Store.Memory.{MemoryStore}
use jim_agent.Tests.Ascii.{ascii}
use jim_agent.Tests.Buying.{empty}
use jim_agent.Tests.Milli.{milli}
use jim_agent.Tests.Polling.{priced}

abbrev pub world : World ℕ
world = record { budget = fresh 100_000_000; store = empty; breakers = [] }

abbrev pub found : GatherResult ℤ
found = record { snapshot = priced 200; cost_in_usd = 0; cache_hit = false; notes = [] }

abbrev pub product : Product ℤ ℕ
product = record {
  name = "fundamentals";
  source_name = "edgar";
  gather = λ identifier w. (gathered found, w);
  price_out_usd = 250_000_000;
}

abbrev pub settings : RunSettings ℤ
settings = record {
  enable_debate = false;
  memo_cache_enabled = true;
  memo_cache_ttl_seconds = 3600;
  research_max_attempts = 2;
  per_query_budget_usd = 100_000_000;
  completeness_material_floor = pos 600;
}

-- A model that writes one good memo, and one that does not answer.
abbrev pub good : String → Snapshot ℤ → Models
good mode snapshot = record {
  debate = none;
  synthesize = λ n notes.
      some ("Price is $2.00 [C1].", record { model = "m"; input_tokens = 9; output_tokens = 9 });
  judge = λ memo. some (true, none);
}

abbrev pub silent : String → Snapshot ℤ → Models
silent mode snapshot = record { debate = none; synthesize = λ n notes. none; judge = λ memo. none }

abbrev pub at : ℕ → Moments
at n = record { looked_up = n; attributed = n; recorded = n; stored = n }

abbrev pub sha : String → String
sha s = s

abbrev pub graph_end : GraphEnd ℤ
graph_end =
    outcome_of milli ascii sha settings good (at 5) product "AAPL" "human" false true
      (gathered found) world

abbrev pub end : ResearchResult ℤ × World ℕ
end = close_books milli ascii sha settings (at 5) product "AAPL" "human" true graph_end world

pub let_in :
    run_research milli ascii sha settings good
      (λ name. some product)
      (at 5)
      "aapl"
      "fundamentals"
      "human"
      none
      none
      world
    ≡ some end
unfolding run_research run_graph canonicalize fundamentals_re
let_in = refl

deliver_or_refuse-IsFair_example :
    IsFair milli ascii good product [] end.1.store.queries
      (deliver_or_refuse milli "No advice." end.0)
unfolding canonicalize fundamentals_re
deliver_or_refuse-IsFair_example =
    deliver_or_refuse-IsFair milli ascii sha settings good (λ name. some product) (at 5) "aapl"
      "fundamentals" "human" none none world end.1 end.0 "AAPL" product "No advice." refl refl
      let_in

-- The store some time later, with another log.
abbrev later_store : MemoryStore ℕ
later_store = record end.1.store { queries = [] }

warm-IsServed_example :
    IsServed "Price is $2.00 [C1]."
      (after_gather milli ascii sha settings silent
        (at 65)
        product
        "AAPL"
        "human"
        false
        true
        found
        later_store).final
unfolding after_gather serve check_sourcing check_segments ended ◌-ℤ◌
warm-IsServed_example =
    warm-IsServed milli ascii sha settings good (at 5) (at 65) product "AAPL" "human" false false
      found found world "Price is $2.00 [C1]." silent later_store refl refl refl refl refl
      (omega arith) refl
