-- ===== src/Tests/Runs.antt =====
-- Runs of the research graph at concrete inputs.
use jim_agent.Prelude.{refl, true, false, none, some}
use jim_agent.Research.Gate.Sourcing.{check_sourcing, check_segments}
use jim_agent.Research.Pipeline.{Models, serve}
use jim_agent.Research.Pipeline.Shipped.{IsShippable, ok-IsShippable}
use jim_agent.Store.Memory.{CachedMemo}
use jim_agent.Tests.Ascii.{ascii}
use jim_agent.Tests.Milli.{milli}
use jim_agent.Tests.Polling.{priced}

abbrev models : Models
models = record {
  debate = none;
  synthesize = λ n notes.
      some ("Price is 99.9%.", record { model = "m"; input_tokens = 9; output_tokens = 9 });
  judge = λ memo. some (true, none);
}

abbrev cached : CachedMemo
cached = record { memo = ""; debate = none; age_seconds = 3 }

ok-IsShippable_example :
    IsShippable milli ascii models
      (priced 100)
      (serve milli ascii models (priced 100) (some cached) false 2)
unfolding serve check_sourcing check_segments
ok-IsShippable_example = ok-IsShippable milli ascii models (priced 100) (some cached) false 2 refl
