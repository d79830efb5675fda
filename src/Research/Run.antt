-- ===== src/Research/Run.antt =====
-- `run_research` of src/jim/research/engine.py: one request from the identifier to what the store
-- keeps. The graph's other nodes are in `Research/Pipeline`. What the models answer is a parameter, by
-- mode and facts; how a source gathers is a function on the world. Traces are left out.
pub mod Books
pub mod Request
pub mod Honest
pub mod Log
pub mod Billing
pub mod Warm
use jim_agent.Prelude.{
  ℕ, String, Bool, false, Option, none, some, List, [], ◌∷◌, str_eq, fmt, if◌then◌else◌,
}
use jim_agent.Prelude.Int.{ℤ}
use jim_agent.Prelude.Runtime.{Floats, Unicode}
use jim_agent.Research.Completeness.{CompletenessResult}
use jim_agent.Research.Cost.{Usage, inference_cost_usd}
use jim_agent.Research.Facts.{Snapshot}
use jim_agent.Research.Pipeline.{Final, Models, fingerprint, error_final, serve}
use jim_agent.Sources.Peer.{GatherResult, Note}
use jim_agent.Sources.Procure.{World}
use jim_agent.Store.Memory.{MemoryStore, CachedMemo, get_cached_memo}

-- A source answers, fails in a way that `_gather` catches, or raises something else.
pub data Gathered (Real : Type 0) : Type 0 where
  gathered : GatherResult Real → Gathered Real
  source_failed : String → Gathered Real
  crashed : Gathered Real

-- `Product`, with its source's name and how that gathers.
pub record Product (Real P : Type 0) : Type 0 where
  pub name : String
  pub source_name : String
  pub gather : String → World P → Gathered Real × World P
  pub price_out_usd : ℕ

pub record RunSettings (Real : Type 0) : Type 0 where
  pub enable_debate : Bool
  pub memo_cache_enabled : Bool
  pub memo_cache_ttl_seconds : ℕ
  pub research_max_attempts : ℕ
  pub per_query_budget_usd : ℕ
  pub completeness_material_floor : Real

-- `_utcnow()` at the store's calls.
pub record Moments : Type 0 where
  pub looked_up : ℕ
  pub attributed : ℕ
  pub recorded : ℕ
  pub stored : ℕ

-- The graph's last state.
pub record GraphEnd (Real : Type 0) : Type 0 where
  pub final : Final
  pub snapshot : Option (Snapshot Real)
  pub cost_in_data : ℕ
  pub cache_hit : Bool
  pub sourcing_notes : List Note
  pub error : Option String

-- The dict `cost`, in nano-dollars.
pub record Economics (Real : Type 0) : Type 0 where
  pub input_tokens : ℕ
  pub output_tokens : ℕ
  pub inference_cost_usd : ℕ
  pub data_cost_usd : ℕ
  pub price_out_usd : ℕ
  pub margin_usd : ℤ
  pub cache_hit : Bool
  pub served_from_cache : Bool
  pub sourcing_notes : List Note

-- `error` is the text of a failed source; other errors are only told by the status.
pub record ResearchResult (Real : Type 0) : Type 0 where
  pub ticker : String
  pub mode : String
  pub product : String
  pub final : Final
  pub snapshot : Option (Snapshot Real)
  pub completeness : Option (CompletenessResult Real)
  pub cost : Option (Economics Real)
  pub error : Option String

abbrev pub is_ok : {Real : Type 0} → ResearchResult Real → Bool
is_ok r = str_eq r.final.status "ok"

-- `_memo_cache_key`
abbrev pub memo_cache_key : Unicode → String → String → String → String
memo_cache_key U product identifier mode =
    fmt (product ∷ ":" ∷ U.upper identifier ∷ ":" ∷ mode ∷ [])

-- A run whose graph raised: what it found is lost.
abbrev pub failed_end : {Real : Type 0} → List Usage → Option String → GraphEnd Real
failed_end usages error = record {
  final = error_final usages;
  snapshot = none;
  cost_in_data = 0;
  cache_hit = false;
  sourcing_notes = [];
  error = error;
}

-- The state that the graph ends in: where a node raised, nothing but the error is left.
unfoldable pub ended : {Real : Type 0} → GatherResult Real → Final → GraphEnd Real
ended r final = if str_eq final.status "error" then failed_end final.usages none else record {
  final = final;
  snapshot = some r.snapshot;
  cost_in_data = r.cost_in_usd;
  cache_hit = r.cache_hit;
  sourcing_notes = r.notes;
  error = none;
}

module _ (F : Floats) (U : Unicode) (sha : String → String) (settings : RunSettings F.Real)
    {P : Type 0} where
  -- What `memo_cache` asks the store for, where it is enabled.
  unfoldable pub recent_memo :
      ℕ
      → Product F.Real P
      → String
      → String
      → Bool
      → Snapshot F.Real
      → MemoryStore P
      → Option CachedMemo
  unfolding fingerprint get_cached_memo
  recent_memo now spec identifier mode cache_on snapshot store =
      if cache_on
      then get_cached_memo now store (memo_cache_key U spec.name identifier mode)
          (fingerprint F sha snapshot) settings.memo_cache_ttl_seconds
      else none

module _ (F : Floats) (U : Unicode) (sha : String → String) (settings : RunSettings F.Real)
    (models : String → Snapshot F.Real → Models) {P : Type 0} where
  -- From `memo_cache` on.
  unfoldable pub after_gather :
      Moments
      → Product F.Real P
      → String
      → String
      → Bool
      → Bool
      → GatherResult F.Real
      → MemoryStore P
      → GraphEnd F.Real
  unfolding serve recent_memo ended
  after_gather at spec identifier mode debate_on cache_on r store = ended r (
      serve F U (models mode r.snapshot) r.snapshot
        (recent_memo F U sha settings at.looked_up spec identifier mode cache_on r.snapshot store)
        debate_on settings.research_max_attempts)

  abbrev pub outcome_of :
      Moments
      → Product F.Real P
      → String
      → String
      → Bool
      → Bool
      → Gathered F.Real
      → World P
      → GraphEnd F.Real
  outcome_of at spec identifier mode debate_on cache_on (gathered r) w =
      after_gather at spec identifier mode debate_on cache_on r w.store
  outcome_of at spec identifier mode debate_on cache_on (source_failed error) w =
      failed_end [] (some error)
  outcome_of at spec identifier mode debate_on cache_on crashed w = failed_end [] none

  unfoldable pub run_graph :
      Moments
      → Product F.Real P
      → String
      → String
      → Bool
      → Bool
      → World P
      → GraphEnd F.Real × World P
  unfolding after_gather
  run_graph at spec identifier mode debate_on cache_on w =
      let (outcome, after) = spec.gather identifier w in
      (outcome_of at spec identifier mode debate_on cache_on outcome after, after)
