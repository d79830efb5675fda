-- ===== src/Sources/Peer.antt =====
-- `PeerSource` of src/jim/sources/peer.py: cited signals that are bought from another agent.
-- What of an optional field of a row is no text is kept as its text, by `repr` where it is a list or
-- an object; `quote`, `hostname` and `repr` are the library's.
pub mod Payload
pub mod Composite
pub mod Specs
use jim_agent.Prelude.{
  ℕ, suc, ◌+◌, String, append, Bool, true, false, not, ◌&&◌, ◌||◌, Option, none, some, List, [],
  ◌∷◌, map, fmt, str_eq, mem, is_nil, leb, ltb, after_prefix, is_some, if◌then◌else◌,
}
use jim_agent.Prelude.Dict.{Dict, lookup}
use jim_agent.Prelude.Decimal.{show}
use jim_agent.Prelude.Json.{Json, Members, get, json_or}
use jim_agent.Prelude.Runtime.{Floats, Unicode, Iso}
use jim_agent.Prelude.Split.{strip}
use jim_agent.Prelude.Regex.{has_code}
use jim_agent.Net.Resilience.{ResiliencePolicy}
use jim_agent.Research.Facts.{Fact, Snapshot}
use jim_agent.Sources.Pay.{Buyer, Exchange}
use jim_agent.Sources.Procure.{
  Order, World, ProcureError, ProcureResult, Procured, procured, failed, procure,
}
use jim_agent.Store.Memory.{MemoryStore, record_trust_event}
use jim_agent.Store.Reputation.{TrustRow, trust_scores}
use Payload.{
  Rows, usable, no_list, no_rows, crash, facts_from_payload, number_of, text_of, optional_text,
}

-- An element of `products` that is no text is none: it names no product.
pub record PeerSpec : Type 0 where
  pub name : String
  pub url : String
  pub identifier_param : String
  pub price_estimate_usd : ℕ
  pub products : List (Option String)

-- The settings that a purchase from a peer reads; a score is in ten-thousandths.
pub record PeerSettings : Type 0 where
  pub trust_min_events : ℕ
  pub trust_floor : ℕ
  pub network : String
  pub cache_ttl_seconds : ℕ

-- `GatherResult` of src/jim/sources/base.py
pub data Note : Type 0 where
  merged : String → ℕ → ℕ → Bool → Note
  skipped : String → Note
  said : String → Note

pub record GatherResult (Real : Type 0) : Type 0 where
  pub snapshot : Snapshot Real
  pub cost_in_usd : ℕ
  pub cache_hit : Bool
  pub notes : List Note

-- A purchase that is refused, by the trust floor or by `procure`, one whose payload is unusable, and
-- one that ends in an exception which nobody expects.
pub data Bought (Real : Type 0) : Type 0 where
  bought : GatherResult Real → Bought Real
  below_floor : ℕ → ℕ → Bought Real
  not_bought : ProcureError → Bought Real
  unusable : Bought Real
  broken : Bought Real

-- What the network does in one purchase, and its clocks.
pub record Traffic (P : Type 0) : Type 0 where
  pub now : ℕ
  pub dialled : ℕ
  pub clock : ℕ → ℕ
  pub jitter : ℕ → ℕ
  pub exchanges : ℕ → Exchange P

abbrev pub peer_name : PeerSpec → String
peer_name spec = append "peer:" spec.name

-- `?` or `&` before the parameter
unfoldable pub request_url : (String → String) → PeerSpec → String → String
unfolding has_code
request_url quote spec identifier = fmt (
    spec.url
    ∷ (if has_code b'?' spec.url then "&" else "?")
    ∷ spec.identifier_param
    ∷ "="
    ∷ quote identifier
    ∷ [])

-- `_check_trust`: the score and the number of events that refuse the peer
unfoldable pub check_trust : PeerSettings → Option TrustRow → Option (ℕ × ℕ)
check_trust settings none = none
check_trust settings (some row) =
    if leb settings.trust_min_events (row.ok + row.fail) && ltb row.score settings.trust_floor
    then some (row.score, row.ok + row.fail)
    else none

module _ (F : Floats) (U : Unicode) (T : Iso) (settings : PeerSettings)
    (quote hostname : String → String) (repr : Json F.Real → String) (spec : PeerSpec) where
  unfoldable pub order_of : String → Order
  unfolding request_url
  order_of identifier = record {
    source_name = peer_name spec;
    cache_key = fmt (spec.name ∷ ":" ∷ U.upper identifier ∷ []);
    url = request_url quote spec identifier;
    host = hostname (request_url quote spec identifier);
    network = settings.network;
    price_estimate_usd = spec.price_estimate_usd;
    ttl_seconds = settings.cache_ttl_seconds;
  }

  -- A row as a cited fact.
  unfoldable pub fact_of : String → Option String → ℕ → Members F.Real → Fact F.Real
  unfolding strip
  fact_of service tx_hash i row =
      let text = λ (x : Json F.Real). text_of F repr x in
      let anchor : Json F.Real = elim tx_hash [
        | none ↦ Json.str (append "x402:" spec.name)
        | some h ↦ json_or F (Json.str h) (Json.str (append "x402:" spec.name))
      ] in
      record {
        id = append "C" (show i);
        label = strip U (text (get "label" row));
        value = number_of F (get "value" row);
        unit = text (get "unit" row);
        source_label = some (text (json_or F (get "source_label" row) (Json.str service)));
        concept = optional_text F repr (get "concept" row);
        accession = some (text (json_or F (get "accession" row) anchor));
        form = some "peer agent (x402)";
        fiscal_year = none;
        fiscal_period = none;
        filed = optional_text F repr (json_or F (get "filed" row) (get "as_of" row));
        period_end = none;
        source_url = some (text (json_or F (get "source_url" row) (Json.str spec.url)));
        is_derived = false;
        derived_from = [];
        formula = none;
      }

  unfoldable pub facts_from :
      String → Option String → ℕ → List (Members F.Real) → List (Fact F.Real)
  unfolding fact_of
  facts_from service tx_hash i [] = []
  facts_from service tx_hash i (row ∷ rows) =
      fact_of service tx_hash i row ∷ facts_from service tx_hash (suc i) rows

  unfoldable pub peer_snapshot :
      String → Members F.Real → Option String → List (Members F.Real) → Snapshot F.Real
  unfolding facts_from
  peer_snapshot identifier payload tx_hash rows =
      let service = text_of F repr (json_or F (get "service" payload) (Json.str spec.name)) in
      let facts = facts_from service tx_hash 1 rows in
      record {
        ticker = U.upper identifier;
        cik = append "PEER:" spec.name;
        entity_name = fmt (U.upper identifier ∷ " — " ∷ service ∷ " signals" ∷ []);
        facts = facts;
        as_of = optional_text F repr (get "as_of" payload);
        origins = map (λ (f : Fact F.Real). (f.id, peer_name spec)) facts;
      }

  abbrev Paying : Type 0
  Paying = World (Json F.Real)

  -- Garbage is debited before the failure.
  unfoldable pub debit : ℕ → String → Paying → Paying
  unfolding record_trust_event
  debit now identifier w = record w {
    store =
        record_trust_event now (peer_name spec) false
          (fmt ("unusable payload for " ∷ identifier ∷ [])) w.store;
  }

  -- What is made of a payload that was bought.
  unfoldable pub unpack : ℕ → String → ProcureResult (Json F.Real) → Paying → Bought F.Real × Paying
  unfolding peer_snapshot debit facts_from_payload
  unpack now identifier r w = elim r.payload [
    | Json.object payload ↦ elim (facts_from_payload F U payload) [
      | usable rows ↦ (
        bought (record {
          snapshot = peer_snapshot identifier payload r.tx_hash rows;
          cost_in_usd = r.cost_in_usd;
          cache_hit = r.cache_hit;
          notes = [];
        }),
        w,
      )
      | no_list ↦ (unusable, debit now identifier w)
      | no_rows ↦ (unusable, debit now identifier w)
      | crash ↦ (broken, w)
    ]
    | _ ↦ (broken, w)
  ]

  unfoldable pub after_purchase :
      ℕ → String → Procured (Json F.Real) × Paying → Bought F.Real × Paying
  unfolding unpack
  after_purchase now identifier (procured r, w) = unpack now identifier r w
  after_purchase now identifier (failed e, w) = (not_bought e, w)

  unfoldable pub peer_gather :
      Buyer → ResiliencePolicy → String → Traffic (Json F.Real) → Paying → Bought F.Real × Paying
  unfolding check_trust after_purchase order_of procure trust_scores
  peer_gather buyer policy identifier t w =
      elim (check_trust settings (lookup (peer_name spec) (trust_scores T w.store))) [
        | some (score, events) ↦ (below_floor score events, w)
        | none ↦ after_purchase t.now identifier (
            procure U buyer policy (order_of identifier) t.now t.dialled t.clock t.jitter
              t.exchanges w)
      ]
