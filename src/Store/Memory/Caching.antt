-- ===== src/Store/Memory/Caching.antt =====
-- The two caches: what is read back after a write.
use jim_agent.Prelude.{
  ℕ, ◌+◌, ◌-◌, ◌≤◌, String, ◌≡◌, refl, ◌&&◌, Option, none, some, List, [], ◌∷◌, arith, ltb, str_eq,
  eq_iff, if◌then◌else◌,
}
use jim_agent.Prelude.Dict.{lookup-insert}
use jim_agent.Store.Memory.{
  PurchaseRow, MemoryStore, find_purchase, put_purchase, get_cached_purchase, record_purchase,
  get_cached_memo, put_cached_memo,
}

module _ {P : Type 0} where
  find-put :
      (new : PurchaseRow P) (source key : String) (rows : List (PurchaseRow P))
      → find_purchase source key (put_purchase new rows) ≡ (
          if str_eq new.source source && str_eq new.key key
          then some new
          else find_purchase source key rows)
  unfolding find_purchase put_purchase
  find-put new source key [] = refl
  find-put new source key (row ∷ rows) = ground (
    arith,
    eq_iff new.source source,
    eq_iff new.key key,
    eq_iff row.source source,
    eq_iff row.key key,
    eq_iff row.source new.source,
    eq_iff row.key new.key,
    find-put new source key rows,
  )

  -- A datum bought at `bought` is served from the cache exactly until its time to live has
  -- elapsed, with its payload, cost and transaction; what is cached of any other source or key is
  -- as before. `now` is not before the purchase.
  pub purchase_cached :
      (bought now ttl cost : ℕ) (source key url network other_source other_key : String)
      (tx : Option String) (payload : P) (s : MemoryStore P)
      → bought ≤ now
      → get_cached_purchase now
          (record_purchase bought source key url network cost tx payload ttl s)
          other_source
          other_key
        ≡ (if str_eq source other_source && str_eq key other_key
            then (if ltb ttl (now - bought)
                then none
                else some (record {
                  payload = payload;
                  cost_usd = cost;
                  tx_hash = tx;
                  age_seconds = now - bought;
                }))
            else get_cached_purchase now s other_source other_key)
  unfolding get_cached_purchase record_purchase
  purchase_cached bought now ttl cost source key url network other_source other_key tx payload s h =
      let new : PurchaseRow P = record {
        source = source;
        key = key;
        url = url;
        network = network;
        cost_usd = cost;
        tx_hash = tx;
        payload = payload;
        created_at = bought;
        expires_at = bought + ttl;
      } in
      ground (arith, find-put new other_source other_key s.purchases)

  -- A memo that was stored is served for its key while the fingerprint is the same and its age is
  -- at most the time to live; other keys are as before.
  memo_cached :
      (stored now ttl : ℕ) (key fingerprint memo other_key other_fingerprint : String)
      (debate : Option String) (s : MemoryStore P)
      → get_cached_memo now
          (put_cached_memo stored key fingerprint memo debate s)
          other_key
          other_fingerprint
          ttl
        ≡ (if str_eq key other_key
            then (if str_eq fingerprint other_fingerprint
                then (if ltb ttl (now - stored)
                    then none
                    else some (record { memo = memo; debate = debate; age_seconds = now - stored }))
                else none)
            else get_cached_memo now s other_key other_fingerprint ttl)
  unfolding get_cached_memo put_cached_memo
  memo_cached stored now ttl key fingerprint memo other_key other_fingerprint debate s = ground (
    arith,
    lookup-insert key other_key
        (record { fingerprint = fingerprint; memo = memo; debate = debate; created_at = stored })
        s.memos,
  )
