-- ===== src/Research/Run/Request.antt =====
-- `run_research` as its callers see it.
use jim_agent.Prelude.{String, Bool, Option, none, some, []}
use jim_agent.Prelude.Regex.{take}
use jim_agent.Prelude.Runtime.{Floats, Unicode}
use jim_agent.Research.Budget.{fresh}
use jim_agent.Research.Facts.{Snapshot}
use jim_agent.Research.Identifiers.{canonical, refused, canonicalize}
use jim_agent.Research.Pipeline.{Models, error_final}
use jim_agent.Sources.Procure.{World}
use jim_agent.Research.Run.{Product, RunSettings, Moments, ResearchResult, run_graph}
use jim_agent.Research.Run.Books.{close_books}

-- An argument that overrides a setting.
abbrev pub or_default : Bool → Option Bool → Bool
or_default b none = b
or_default b (some c) = c

module _ (F : Floats) where
  abbrev pub refused_result : String → String → String → ResearchResult F.Real
  refused_result identifier product mode = record {
    ticker = take 40 identifier;
    mode = mode;
    product = product;
    final = error_final [];
    snapshot = none;
    completeness = none;
    cost = none;
    error = none;
  }

module _ (F : Floats) (U : Unicode) (sha : String → String) (settings : RunSettings F.Real)
    (models : String → Snapshot F.Real → Models) {P : Type 0} where
  -- `none` is the ValueError for a product that is not on sale.
  unfoldable pub run_research :
      (String → Option (Product F.Real P))
      → Moments
      → String
      → String
      → String
      → Option Bool
      → Option Bool
      → World P
      → Option (ResearchResult F.Real × World P)
  unfolding canonicalize run_graph close_books
  run_research products at raw product mode enable_debate use_memo_cache w =
      let debate_on = or_default settings.enable_debate enable_debate in
      let cache_on = or_default settings.memo_cache_enabled use_memo_cache in
      elim (canonicalize U raw product) [
        | refused why ↦ some (refused_result F raw product mode, w)
        | canonical identifier ↦ elim (products product) [
          | none ↦ none
          | some spec ↦
              let (e, after) =
                run_graph F U sha settings models at spec identifier mode debate_on cache_on
                  (record w { budget = fresh settings.per_query_budget_usd }) in
              some (close_books F U sha settings at spec identifier mode cache_on e after)
        ]
      ]
