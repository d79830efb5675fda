-- ===== src/Research/Run/Books.antt =====
-- What a finished run leaves behind: its economics, the sources' credit, the query log, the caches.
use jim_agent.Prelude.{
  ℕ, String, Bool, false, not, ◌&&◌, ◌||◌, Option, none, some, List, [], ◌∷◌, ◌+◌, str_eq, truthy,
  fmt, if◌then◌else◌,
}
use jim_agent.Prelude.Dict.{Dict}
use jim_agent.Prelude.Int.{ℤ, pos, negsuc, sub_ℕ, ◌-ℤ◌}
use jim_agent.Prelude.Runtime.{Floats, Unicode}
use jim_agent.Interop.Trust.{attribute_gate_outcome}
use jim_agent.Research.Completeness.{CompletenessResult, check_completeness}
use jim_agent.Research.Cost.{Usage, inference_cost_usd, to_micro}
use jim_agent.Research.Pipeline.{fingerprint}
use jim_agent.Sources.Procure.{World}
use jim_agent.Store.Memory.{
  MemoryStore, record_trust_event, record_query, upsert_insight, put_cached_memo,
}
use jim_agent.Research.Run.{
  Product, RunSettings, Moments, GraphEnd, Economics, ResearchResult, memo_cache_key,
}

-- `round(x, 6)` of a margin
abbrev pub round_margin : ℤ → ℤ
round_margin (pos n) = pos (to_micro n)
round_margin (negsuc n) = sub_ℕ 0 (to_micro (1 + n))

unfoldable pub input_tokens : List Usage → ℕ
input_tokens [] = 0
input_tokens (u ∷ us) = u.input_tokens + input_tokens us

unfoldable pub output_tokens : List Usage → ℕ
output_tokens [] = 0
output_tokens (u ∷ us) = u.output_tokens + output_tokens us

abbrev pub is_some_truthy : Option String → Bool
is_some_truthy none = false
is_some_truthy (some s) = truthy s

module _ {P : Type 0} where
  unfoldable pub record_verdicts : ℕ → String → Dict Bool → MemoryStore P → MemoryStore P
  unfolding record_trust_event
  record_verdicts now context [] s = s
  record_verdicts now context ((source, ok) ∷ verdicts) s =
      record_verdicts now context verdicts (record_trust_event now source ok context s)

module _ {Real : Type 0} where
  abbrev pub inference_cost : GraphEnd Real → ℕ
  inference_cost e = to_micro (inference_cost_usd e.final.usages)

  -- What a run that is refused or broken off earns is nothing.
  abbrev pub price_out : {P : Type 0} → Product Real P → GraphEnd Real → ℕ
  price_out spec e = if str_eq e.final.status "ok" then spec.price_out_usd else 0

  unfoldable pub economics : {P : Type 0} → Product Real P → GraphEnd Real → Economics Real
  unfolding input_tokens output_tokens to_micro inference_cost_usd
  economics spec e = record {
    input_tokens = input_tokens e.final.usages;
    output_tokens = output_tokens e.final.usages;
    inference_cost_usd = inference_cost e;
    data_cost_usd = to_micro e.cost_in_data;
    price_out_usd = price_out spec e;
    margin_usd =
        round_margin (pos (price_out spec e) -ℤ pos e.cost_in_data -ℤ pos (inference_cost e));
    cache_hit = e.cache_hit;
    served_from_cache = e.final.served_from_cache;
    sourcing_notes = e.sourcing_notes;
  }

module _ (F : Floats) (U : Unicode) (settings : RunSettings F.Real) where
  unfoldable pub completeness_of : GraphEnd F.Real → Option (CompletenessResult F.Real)
  unfolding check_completeness
  completeness_of e = elim e.final.memo [
    | none ↦ none
    | some memo ↦ elim e.snapshot [
      | none ↦ none
      | some snapshot ↦
          if truthy memo
          then some (check_completeness F U settings.completeness_material_floor memo snapshot)
          else none
    ]
  ]

module _ (F : Floats) (U : Unicode) {P : Type 0} where
  -- The outcome at the gate, credited to sources; a cached memo's was when it was written.
  unfoldable pub attribute :
      Moments → Product F.Real P → String → GraphEnd F.Real → MemoryStore P → MemoryStore P
  unfolding record_verdicts attribute_gate_outcome
  attribute at spec identifier e s = elim e.snapshot [
    | none ↦ s
    | some snapshot ↦ elim e.final.gate [
      | none ↦ s
      | some gate ↦
          if e.final.served_from_cache
          then s
          else record_verdicts at.attributed (fmt (spec.name ∷ ":" ∷ U.upper identifier ∷ []))
              (attribute_gate_outcome snapshot spec.source_name gate) s
    ]
  ]

  unfoldable pub record_run :
      Moments → Product F.Real P → String → String → GraphEnd F.Real → MemoryStore P → MemoryStore P
  unfolding record_query to_micro inference_cost_usd
  record_run at spec identifier mode e s =
      if str_eq e.final.status "ok" || str_eq e.final.status "rejected"
      then record_query at.recorded spec.name (U.upper identifier) mode e.final.status
          (price_out spec e) e.cost_in_data (inference_cost e) e.cache_hit e.final.attempts_made s
      else s

module _ (F : Floats) (U : Unicode) (sha : String → String) {P : Type 0} where
  -- A memo that was written in this run, for the next one.
  unfoldable pub warm :
      Moments
      → Product F.Real P
      → String
      → String
      → Bool
      → GraphEnd F.Real
      → MemoryStore P
      → MemoryStore P
  unfolding upsert_insight put_cached_memo fingerprint
  warm at spec identifier mode cache_on e s = elim e.final.memo [
    | none ↦ s
    | some memo ↦
        if str_eq e.final.status "ok" && truthy memo && not e.final.served_from_cache
        then (let key = memo_cache_key U spec.name identifier mode in
            let t = upsert_insight key memo s in
            elim e.snapshot [
              | none ↦ t
              | some snapshot ↦
                  if cache_on
                  then put_cached_memo at.stored key (fingerprint F sha snapshot) memo
                      e.final.debate t
                  else t
            ])
        else s
  ]

module _ (F : Floats) (U : Unicode) (sha : String → String) (settings : RunSettings F.Real)
    {P : Type 0} where
  unfoldable pub close_books :
      Moments
      → Product F.Real P
      → String
      → String
      → Bool
      → GraphEnd F.Real
      → World P
      → ResearchResult F.Real × World P
  unfolding economics completeness_of attribute record_run warm
  close_books at spec identifier mode cache_on e w = (
    record {
      ticker = U.upper identifier;
      mode = mode;
      product = spec.name;
      final = e.final;
      snapshot = e.snapshot;
      completeness = completeness_of F U settings e;
      cost = some (economics spec e);
      error = e.error;
    },
    record w {
      store =
          warm F U sha at spec identifier mode cache_on e
            (record_run F U at spec identifier mode e (attribute F U at spec identifier e w.store));
    },
  )
