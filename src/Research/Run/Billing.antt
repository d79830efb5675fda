-- ===== src/Research/Run/Billing.antt =====
-- What a run ships, and what the ledger then says that it earned.
use jim_agent.Prelude.{
  ℕ, String, ◌≡◌, refl, sym, ap, ◌∙◌, subst, Bool, true, false, Option, none, some, List, [], ◌∷◌,
  ◌++◌, inl, inr, ◌⊎◌, str_eq, ◌||◌,
}
use jim_agent.Prelude.Int.{pos, ◌-ℤ◌}
use jim_agent.Prelude.Runtime.{Floats, Unicode}
use jim_agent.Research.Facts.{Snapshot}
use jim_agent.Research.Budget.{fresh}
use jim_agent.Research.Identifiers.{canonical, canonicalize}
use jim_agent.Research.Run.Request.{or_default, run_research}
use jim_agent.Research.Pipeline.{Models}
use jim_agent.Research.Run.{
  Product, RunSettings, Moments, GraphEnd, ResearchResult, outcome_of, run_graph,
}
use jim_agent.Research.Pipeline.Statuses.{IsKnown}
use jim_agent.Research.Run.Books.{
  attribute, warm, record_run, close_books, price_out, inference_cost,
}
use jim_agent.Sources.Procure.{World}
use jim_agent.Store.Memory.{MemoryStore, QueryRow, record_query}
use jim_agent.Research.Run.Honest.{IsVerified, IsHonest, outcome_lem, known_lem}
use jim_agent.Research.Run.Log.{queries-attribute, queries-warm}

module _ (F : Floats) (U : Unicode) (models : String → Snapshot F.Real → Models) {P : Type 0}
    (spec : Product F.Real P) where
  -- The log has one more entry, for this price.
  abbrev pub IsLogged : List QueryRow → ℕ → List QueryRow → Type 0
  IsLogged before price after =
      (row : QueryRow) × (after ≡ before ++ row ∷ []) × (row.price_out_usd ≡ price)

  -- The three ways that a run is accounted for.
  abbrev pub IsBilled : List QueryRow → ResearchResult F.Real → List QueryRow → Type 0
  IsBilled before r after =
      ((r.final.status ≡ "ok")
        × IsVerified F U models r.mode r.final r.snapshot
        × IsLogged before spec.price_out_usd after)
      ⊎ (((r.final.status ≡ "rejected") × IsLogged before 0 after)
          ⊎ ((r.final.status ≡ "error") × (after ≡ before)))

  module _ (at : Moments) (identifier mode : String) (e : GraphEnd F.Real) (s : MemoryStore P) where
    record_run_lem :
        str_eq e.final.status "ok" || str_eq e.final.status "rejected" ≡ true
        → IsLogged s.queries (price_out spec e) (record_run F U at spec identifier mode e s).queries
    unfolding record_run record_query
    record_run_lem h = rw (h, record_run) (entry, refl, refl)
      where
        entry : QueryRow
        entry = record {
          product = spec.name;
          identifier = U.upper identifier;
          mode = mode;
          status = e.final.status;
          price_out_usd = price_out spec e;
          cost_in_data_usd = e.cost_in_data;
          cost_inference_usd = inference_cost e;
          margin_usd = pos (price_out spec e) -ℤ pos e.cost_in_data -ℤ pos (inference_cost e);
          cache_hit = e.cache_hit;
          attempts = e.final.attempts_made;
          created_at = at.recorded;
        }

    unrecorded :
        e.final.status ≡ "error" → (record_run F U at spec identifier mode e s).queries ≡ s.queries
    unfolding record_run
    unrecorded h =
        let not_ok : str_eq e.final.status "ok" ≡ false = rw h refl in
        let not_rejected : str_eq e.final.status "rejected" ≡ false = rw h refl in
        rw (not_ok, not_rejected, record_run) refl

    -- By the status, what the store's log holds.
    logged :
        IsKnown e.final.status
        → ((e.final.status ≡ "ok")
            × IsLogged s.queries spec.price_out_usd
                (record_run F U at spec identifier mode e s).queries)
          ⊎ (((e.final.status ≡ "rejected")
                × IsLogged s.queries 0 (record_run F U at spec identifier mode e s).queries)
              ⊎ ((e.final.status ≡ "error")
                  × ((record_run F U at spec identifier mode e s).queries ≡ s.queries)))
    logged (inl h) =
        let t : str_eq e.final.status "ok" ≡ true = rw h refl in
        let price : price_out spec e ≡ spec.price_out_usd = rw t refl in
        let (row, grown, cost) = record_run_lem (rw t refl) in inl (h, (row, grown, cost ∙ price))
    logged (inr (inl h)) =
        let t : str_eq e.final.status "ok" ≡ false = rw h refl in
        let u : str_eq e.final.status "rejected" ≡ true = rw h refl in
        let price : price_out spec e ≡ 0 = rw t refl in
        let (row, grown, cost) = record_run_lem (rw (t, u) refl) in
        inr (inl (h, (row, grown, cost ∙ price)))
    logged (inr (inr h)) = inr (inr (h, unrecorded h))

  module _ (sha : String → String) (settings : RunSettings F.Real) (at : Moments)
      (identifier mode : String) (e : GraphEnd F.Real) where
    conclude_lem :
        (cache_on : Bool) (w : World P)
        → IsKnown e.final.status
        → IsHonest F U models mode e
        → IsBilled w.store.queries
            (close_books F U sha settings at spec identifier mode cache_on e w).0
            (close_books F U sha settings at spec identifier mode cache_on e w).1.store.queries
    unfolding close_books record_run record_query
    conclude_lem cache_on w known honest =
        let s = attribute F U at spec identifier e w.store in
        let t = record_run F U at spec identifier mode e s in
        let warmed : (warm F U sha at spec identifier mode cache_on e t).queries ≡ t.queries =
          queries-warm F U sha at spec identifier e mode cache_on t in
        let same : s.queries ≡ w.store.queries =
          queries-attribute F U sha at spec identifier e w.store in
        elim (logged at identifier mode e s known) [
          | inl (h, (row, grown, cost)) ↦
              inl (h, honest h, (row, warmed ∙ grown ∙ ap (λ q. q ++ row ∷ []) same, cost))
          | inr (inl (h, (row, grown, cost))) ↦
              inr (inl (h, (row, warmed ∙ grown ∙ ap (λ q. q ++ row ∷ []) same, cost)))
          | inr (inr (h, kept)) ↦ inr (inr (h, warmed ∙ kept ∙ same))
        ]

module _ (F : Floats) (U : Unicode) (sha : String → String) (settings : RunSettings F.Real)
    (models : String → Snapshot F.Real → Models) {P : Type 0} where
  -- For a product on sale and an identifier that is let in, every run is accounted for in one of
  -- three ways, whatever the models, the source and the caches answer. Its status is ok, its memo passes the
  -- sourcing gate against its facts, and the query log grows by one entry at the product's price; or
  -- it is rejected, and the log grows by one entry at no price; or it is an error, and the log stays as
  -- the source's gathering left it.
  pub run_research-IsBilled :
      (products : String → Option (Product F.Real P)) (at : Moments) (raw product mode : String)
      (enable_debate use_memo_cache : Option Bool) (w after : World P) (r : ResearchResult F.Real)
      (identifier : String) (spec : Product F.Real P)
      → canonicalize U raw product ≡ canonical identifier
      → products product ≡ some spec
      → run_research F U sha settings models products at raw product mode enable_debate
          use_memo_cache w
        ≡ some (r, after)
      → IsBilled F U models spec
          (spec.gather identifier
            (record w { budget = fresh settings.per_query_budget_usd })).1.store.queries
          r
          after.store.queries
  unfolding run_research run_graph
  run_research-IsBilled products at raw product mode enable_debate use_memo_cache w after r
        identifier spec named sold h =
      let debate_on = or_default settings.enable_debate enable_debate in
      let cache_on = or_default settings.memo_cache_enabled use_memo_cache in
      let start : World P = record w { budget = fresh settings.per_query_budget_usd } in
      let outcome = (spec.gather identifier start).0 in
      let gathered_world = (spec.gather identifier start).1 in
      let e =
        outcome_of F U sha settings models at spec identifier mode debate_on cache_on outcome
          gathered_world in
      let end = close_books F U sha settings at spec identifier mode cache_on e gathered_world in
      let computed : run_research F U sha settings models products at raw product mode enable_debate
            use_memo_cache w
          ≡ some end =
        rw (named, sold, run_research) refl in
      let same : some end ≡ some (r, after) = sym computed ∙ h in
      subst (Billed spec gathered_world.store.queries) same (
        conclude_lem F U models spec sha settings at identifier mode e cache_on gathered_world
          (known_lem F U sha settings models at spec identifier mode debate_on cache_on outcome
            gathered_world)
          (outcome_lem F U sha settings models at spec identifier mode debate_on cache_on outcome
            gathered_world))
    where
      Billed : Product F.Real P → List QueryRow → Option (ResearchResult F.Real × World P) → Type 0
      Billed spec before none = Unit
      Billed spec before (some end) = IsBilled F U models spec before end.0 end.1.store.queries
