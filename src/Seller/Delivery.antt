-- ===== src/Seller/Delivery.antt =====
-- `_deliver_or_refuse` of src/jim/seller/app.py: 422, 502, or the research. The payment middleware, a
-- package, settles the third alone.
use jim_agent.Prelude.{
  ℕ, String, ◌≡◌, refl, Bool, true, false, Option, some, List, map, inl, inr, str_eq, if◌then◌else◌,
}
use jim_agent.Prelude.Runtime.{Floats, Unicode}
use jim_agent.Research.Budget.{fresh}
use jim_agent.Research.Facts.{Snapshot}
use jim_agent.Research.Gate.Sourcing.{GateResult, check_sourcing}
use jim_agent.Research.Identifiers.{canonical, canonicalize}
use jim_agent.Research.Pipeline.{Models}
use jim_agent.Research.Run.{Product, RunSettings, Moments, ResearchResult}
use jim_agent.Research.Run.Billing.{IsLogged, IsBilled, run_research-IsBilled}
use jim_agent.Research.Run.Request.{run_research}
use jim_agent.Seller.Response.{FundamentalsResponse, citation_out, if_any, from_result}
use jim_agent.Sources.Procure.{World}
use jim_agent.Store.Memory.{QueryRow}

-- `detail` of the 502, its fixed texts left out.
pub record Diagnostics : Type 0 where
  pub status : String
  pub is_billed : Bool
  pub sourcing : Option (Bool × ℕ × ℕ)
  pub attempts_made : ℕ

pub data Reply (Real : Type 0) : Type 0 where
  invalid : Option String → Reply Real
  withheld : Diagnostics → Reply Real
  delivered : FundamentalsResponse Real → Reply Real

unfoldable pub deliver_or_refuse : (F : Floats) → String → ResearchResult F.Real → Reply F.Real
unfolding from_result
deliver_or_refuse F disclaimer r =
    if str_eq r.final.status "error"
    then invalid r.error
    else if str_eq r.final.status "ok"
    then delivered (from_result F disclaimer r)
    else withheld (record {
      status = r.final.status;
      is_billed = false;
      sourcing = if_any (λ (g : GateResult). (g.passed, g.n_figures, g.n_covered)) r.final.gate;
      attempts_made = r.final.attempts_made;
    })

module _ (F : Floats) (U : Unicode) (models : String → Snapshot F.Real → Models) {P : Type 0}
    (spec : Product F.Real P) (before after : List QueryRow) where
  -- What is delivered passed the gate against the facts that it cites and is logged at the price;
  -- what is withheld is logged at no price, and of an error nothing is logged.
  abbrev pub IsFair : Reply F.Real → Type 0
  IsFair (invalid why) = after ≡ before
  IsFair (withheld d) = IsLogged F U models spec before 0 after
  IsFair (delivered x) =
      (memo : String) × (s : Snapshot F.Real) × (x.memo ≡ some memo)
      × (x.citations ≡ map citation_out s.facts)
      × ((check_sourcing F U s memo).passed ≡ true)
      × IsLogged F U models spec before spec.price_out_usd after

  deliver_lem :
      (disclaimer : String) (r : ResearchResult F.Real)
      → IsBilled F U models spec before r after
      → IsFair (deliver_or_refuse F disclaimer r)
  unfolding deliver_or_refuse
  deliver_lem disclaimer r (inl (h, (s, facts, shippable), log)) =
      let t : str_eq r.final.status "error" ≡ false = rw h refl in
      let u : str_eq r.final.status "ok" ≡ true = rw h refl in
      rw (t, u, deliver_or_refuse) (shippable.0, s, shippable.1, rw facts refl, shippable.2, log)
  deliver_lem disclaimer r (inr (inl (h, log))) =
      let t : str_eq r.final.status "error" ≡ false = rw h refl in
      let u : str_eq r.final.status "ok" ≡ false = rw h refl in rw (t, u, deliver_or_refuse) log
  deliver_lem disclaimer r (inr (inr (h, kept))) =
      let t : str_eq r.final.status "error" ≡ true = rw h refl in rw (t, deliver_or_refuse) kept

module _ (F : Floats) (U : Unicode) (sha : String → String) (settings : RunSettings F.Real)
    (models : String → Snapshot F.Real → Models) {P : Type 0} where
  -- The buyer is billed for verified research only. Whatever the models, the source and the caches
  -- answer for a product on sale and an identifier that is let in: if the endpoint delivers, the memo
  -- passes the sourcing gate against the facts that the response cites, and the query log gained one
  -- entry at the product's price; if it withholds, one entry at no price; if it reports an error, none.
  pub deliver_or_refuse-IsFair :
      (products : String → Option (Product F.Real P)) (at : Moments) (raw product mode : String)
      (enable_debate use_memo_cache : Option Bool) (w after : World P) (r : ResearchResult F.Real)
      (identifier : String) (spec : Product F.Real P) (disclaimer : String)
      → canonicalize U raw product ≡ canonical identifier
      → products product ≡ some spec
      → run_research F U sha settings models products at raw product mode enable_debate
          use_memo_cache w
        ≡ some (r, after)
      → IsFair F U models spec
          (spec.gather identifier
            (record w { budget = fresh settings.per_query_budget_usd })).1.store.queries
          after.store.queries
          (deliver_or_refuse F disclaimer r)
  deliver_or_refuse-IsFair products at raw product mode enable_debate use_memo_cache w after r
        identifier spec disclaimer named sold h =
      let start : World P = record w { budget = fresh settings.per_query_budget_usd } in
      deliver_lem F U models spec (spec.gather identifier start).1.store.queries after.store.queries
        disclaimer r
        (run_research-IsBilled F U sha settings models products at raw product mode enable_debate
          use_memo_cache w after r identifier spec named sold h)
