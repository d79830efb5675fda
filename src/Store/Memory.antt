-- ===== src/Store/Memory.antt =====
-- `MemoryStore` of src/jim/store/repo.py, without its monitor tables. Times are seconds, amounts
-- nano-dollars, payloads (decoded JSON) and embeddings any types. `_utcnow()` is an argument.
pub mod Caching
use jim_agent.Prelude.{
  ℕ, ◌+◌, ◌-◌, String, Bool, true, false, not, ◌&&◌, Option, none, some, List, [], ◌∷◌, ◌++◌,
  str_eq, ltb, if◌then◌else◌,
}
use jim_agent.Prelude.Dict.{Dict, lookup, insert}
use jim_agent.Prelude.Int.{ℤ, pos, ◌-ℤ◌}

pub record PurchaseRow (P : Type 0) : Type 0 where
  pub source : String
  pub key : String
  pub url : String
  pub network : String
  pub cost_usd : ℕ
  pub tx_hash : Option String
  pub payload : P
  pub created_at : ℕ
  pub expires_at : ℕ

pub record CachedPurchase (P : Type 0) : Type 0 where
  pub payload : P
  pub cost_usd : ℕ
  pub tx_hash : Option String
  pub age_seconds : ℕ

pub record QueryRow : Type 0 where
  pub product : String
  pub identifier : String
  pub mode : String
  pub status : String
  pub price_out_usd : ℕ
  pub cost_in_data_usd : ℕ
  pub cost_inference_usd : ℕ
  pub margin_usd : ℤ
  pub cache_hit : Bool
  pub attempts : ℕ
  pub created_at : ℕ

pub record ReceiptRow (P : Type 0) : Type 0 where
  pub tx_hash : Option String
  pub payer : Option String
  pub pay_to : Option String
  pub amount_usdc : ℕ
  pub network : String
  pub path : String
  pub product : Option String
  pub identifier : Option String
  pub mode : Option String
  pub status_code : ℕ
  pub success : Bool
  pub receipt : P
  pub created_at : ℕ

pub record MemoRow : Type 0 where
  pub fingerprint : String
  pub memo : String
  pub debate : Option String
  pub created_at : ℕ

pub record CachedMemo : Type 0 where
  pub memo : String
  pub debate : Option String
  pub age_seconds : ℕ

pub record TrustEvent : Type 0 where
  pub source : String
  pub ok : Bool
  pub context : String
  pub created_at : ℕ

pub record MemoryStore (P : Type 0) : Type 0 where
  pub purchases : List (PurchaseRow P)
  pub queries : List QueryRow
  pub insights : Dict String
  pub receipts : List (ReceiptRow P)
  pub memos : Dict MemoRow
  pub trust_events : List TrustEvent

module _ {P : Type 0} where
  -- `self.purchases.get((source, key))`: the table has one row for each pair
  abbrev is_row : String → String → PurchaseRow P → Bool
  is_row source key row = str_eq row.source source && str_eq row.key key

  unfoldable pub find_purchase : String → String → List (PurchaseRow P) → Option (PurchaseRow P)
  find_purchase source key [] = none
  find_purchase source key (row ∷ rows) =
      if is_row source key row then some row else find_purchase source key rows

  unfoldable pub put_purchase : PurchaseRow P → List (PurchaseRow P) → List (PurchaseRow P)
  put_purchase new [] = new ∷ []
  put_purchase new (row ∷ rows) =
      if is_row new.source new.key row then new ∷ rows else row ∷ put_purchase new rows

  unfoldable pub get_cached_purchase :
      ℕ → MemoryStore P → String → String → Option (CachedPurchase P)
  unfolding find_purchase
  get_cached_purchase now s source key = elim (find_purchase source key s.purchases) [
    | none ↦ none
    | some row ↦
        if ltb row.expires_at now
        then none
        else some (record {
          payload = row.payload;
          cost_usd = row.cost_usd;
          tx_hash = row.tx_hash;
          age_seconds = now - row.created_at;
        })
  ]

  unfoldable pub record_purchase :
      ℕ
      → String
      → String
      → String
      → String
      → ℕ
      → Option String
      → P
      → ℕ
      → MemoryStore P
      → MemoryStore P
  unfolding put_purchase
  record_purchase now source key url network cost tx_hash payload ttl s = record s {
    purchases =
        put_purchase
          (record {
            source = source;
            key = key;
            url = url;
            network = network;
            cost_usd = cost;
            tx_hash = tx_hash;
            payload = payload;
            created_at = now;
            expires_at = now + ttl;
          })
          s.purchases;
  }

  unfoldable pub record_query :
      ℕ → String → String → String → String → ℕ → ℕ → ℕ → Bool → ℕ → MemoryStore P → MemoryStore P
  record_query now product identifier mode status price data_cost inference hit attempts s =
      record s {
        queries =
            s.queries
            ++ record {
              product = product;
              identifier = identifier;
              mode = mode;
              status = status;
              price_out_usd = price;
              cost_in_data_usd = data_cost;
              cost_inference_usd = inference;
              margin_usd = pos price -ℤ pos data_cost -ℤ pos inference;
              cache_hit = hit;
              attempts = attempts;
              created_at = now;
            }
              ∷ [];
      }

  unfoldable pub record_receipt : ReceiptRow P → MemoryStore P → MemoryStore P
  record_receipt row s = record s { receipts = s.receipts ++ row ∷ [] }

  unfoldable pub upsert_insight : String → String → MemoryStore P → MemoryStore P
  upsert_insight key text s = record s { insights = insert key text s.insights }

  unfoldable pub get_cached_memo : ℕ → MemoryStore P → String → String → ℕ → Option CachedMemo
  get_cached_memo now s key fingerprint ttl = elim (lookup key s.memos) [
    | none ↦ none
    | some row ↦
        if not (str_eq row.fingerprint fingerprint)
        then none
        else if ltb ttl (now - row.created_at)
        then none
        else some
            (record { memo = row.memo; debate = row.debate; age_seconds = now - row.created_at })
  ]

  unfoldable pub put_cached_memo :
      ℕ → String → String → String → Option String → MemoryStore P → MemoryStore P
  put_cached_memo now key fingerprint memo debate s = record s {
    memos =
        insert key
          (record { fingerprint = fingerprint; memo = memo; debate = debate; created_at = now })
          s.memos;
  }

  unfoldable pub record_trust_event : ℕ → String → Bool → String → MemoryStore P → MemoryStore P
  record_trust_event now source ok context s = record s {
    trust_events =
        s.trust_events
        ++ record { source = source; ok = ok; context = context; created_at = now } ∷ [];
  }
