-- ===== src/Tests/Peers.antt =====
-- A composition at concrete inputs.
use jim_agent.Prelude.{ℕ, ◌≡◌, refl, false, some, List, [], ◌∷◌, ◌++◌, map}
use jim_agent.Prelude.Decimal.{show}
use jim_agent.Prelude.Int.{ℤ}
use jim_agent.Research.Budget.{fresh}
use jim_agent.Research.Facts.{Fact}
use jim_agent.Sources.Peer.{GatherResult, bought, merged}
use jim_agent.Sources.Peer.Composite.{Peer, composite_gather, max_number, id_number}
use jim_agent.Sources.Peer.Composite.Merging.{IsComposed, sales, composite_gather-IsComposed}
use jim_agent.Sources.Procure.{World}
use jim_agent.Tests.Buying.{empty}
use jim_agent.Tests.Polling.{priced}

abbrev world : World ℕ
world = record { budget = fresh 100_000_000; store = empty; breakers = [] }

abbrev found : ℕ → GatherResult ℤ
found cents = record { snapshot = priced cents; cost_in_usd = 3; cache_hit = false; notes = [] }

abbrev peers : List (Peer ℤ ℕ)
peers =
    ("peer:alpha", λ w. (bought (found 300), w)) ∷ ("peer:beta", λ w. (bought (found 400), w)) ∷ []

abbrev all_three : GatherResult ℤ
all_three = record {
  snapshot = record (priced 200) {
    facts =
        (priced 200).facts
        ++ map (λ (f : Fact ℤ). record f { id = "C2" }) (priced 300).facts
        ++ map (λ (f : Fact ℤ). record f { id = "C3" }) (priced 400).facts;
    origins = ("C1", "edgar") ∷ ("C2", "peer:alpha") ∷ ("C3", "peer:beta") ∷ [];
  };
  cost_in_usd = 9;
  cache_hit = false;
  notes = merged "peer:alpha" 1 3 false ∷ merged "peer:beta" 1 3 false ∷ [];
}

composed : (composite_gather "edgar" peers (found 200) world).0 ≡ some all_three
unfolding composite_gather max_number id_number show
composed = refl

composite_gather-IsComposed_example : IsComposed (priced 200).facts (sales peers world) all_three
composite_gather-IsComposed_example =
    composite_gather-IsComposed "edgar" peers (found 200) all_three world (refl, tt) composed
