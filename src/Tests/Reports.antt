-- ===== src/Tests/Reports.antt =====
-- A completeness report at a concrete memo.
use jim_agent.Prelude.Int.{pos}
use jim_agent.Research.Gate.Figures.{cited_ids}
use jim_agent.Research.Completeness.{check_completeness}
use jim_agent.Research.Completeness.Partition.{IsAccounted, check_completeness-IsAccounted}
use jim_agent.Tests.Ascii.{ascii}
use jim_agent.Tests.Gating.{apple, sourced}
use jim_agent.Tests.Milli.{milli}

check_completeness-IsAccounted_example :
    IsAccounted milli
      (cited_ids ascii sourced)
      apple.facts
      (check_completeness milli ascii (pos 600) sourced apple)
check_completeness-IsAccounted_example =
    check_completeness-IsAccounted milli ascii (pos 600) sourced apple
