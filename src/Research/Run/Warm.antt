-- ===== src/Research/Run/Warm.antt =====
-- A memo that one run wrote is what the next run on the same facts serves.
use jim_agent.Prelude.{
  ℕ, ◌-◌, ◌≤◌, String, ◌≡◌, refl, sym, ap, ◌∙◌, subst, Bool, true, false, none, some, [], inl, inr,
  arith, str_eq, eq_iff, truthy, ltb, Bool-cases,
}
use jim_agent.Prelude.Dict.{lookup, lookup-insert}
use jim_agent.Prelude.Runtime.{Floats, Unicode}
use jim_agent.Research.Facts.{Snapshot}
use jim_agent.Research.Gate.Sourcing.{check_sourcing}
use jim_agent.Research.Pipeline.{Final, Models, fingerprint, serve}
use jim_agent.Research.Pipeline.Shipped.{ok-IsShippable}
use jim_agent.Research.Run.{
  Product, RunSettings, Moments, GraphEnd, memo_cache_key, ended, recent_memo, after_gather,
}
use jim_agent.Research.Run.Books.{attribute, record_run, warm, close_books}
use jim_agent.Sources.Peer.{GatherResult}
use jim_agent.Sources.Procure.{World}
use jim_agent.Store.Memory.{
  MemoryStore, MemoRow, CachedMemo, get_cached_memo, put_cached_memo, upsert_insight,
}

module _ (F : Floats) (U : Unicode) (sha : String → String) {P : Type 0} (at : Moments)
    (spec : Product F.Real P) (identifier mode : String) (r : GatherResult F.Real) (final : Final)
    (memo : String) where
  abbrev key : String
  key = memo_cache_key U spec.name identifier mode

  abbrev row : MemoRow
  row = record {
    fingerprint = fingerprint F sha r.snapshot;
    memo = memo;
    debate = final.debate;
    created_at = at.stored;
  }

  lookup-warm :
      (s : MemoryStore P)
      → final.status ≡ "ok"
      → final.served_from_cache ≡ false
      → final.memo ≡ some memo
      → truthy memo ≡ true
      → lookup key (warm F U sha at spec identifier mode true (ended r final) s).memos ≡ some row
  unfolding warm ended put_cached_memo upsert_insight
  lookup-warm s ok fresh written full =
      let not_error : str_eq final.status "error" ≡ false = rw ok refl in
      let is_ok : str_eq final.status "ok" ≡ true = rw ok refl in
      let same : str_eq key key ≡ true = (eq_iff key key).1 refl in
      let kept : GraphEnd F.Real = record {
        final = final;
        snapshot = some r.snapshot;
        cost_in_data = r.cost_in_usd;
        cache_hit = r.cache_hit;
        sourcing_notes = r.notes;
        error = none;
      } in
      let plain : ended r final ≡ kept = rw (not_error, ended) refl in
      let t = upsert_insight key memo s in
      let stored : lookup key (warm F U sha at spec identifier mode true kept s).memos ≡ some row =
        rw (written, is_ok, full, fresh, warm) (lookup-insert key key row s.memos ∙ rw same refl) in
      rw plain stored

-- The second run's answer is the first one's, and no model was asked for it.
abbrev pub IsServed : String → Final → Type 0
IsServed memo final =
    (final.status ≡ "ok")
    × (final.memo ≡ some memo)
    × (final.served_from_cache ≡ true)
    × (final.usages ≡ [])

module _ (F : Floats) (U : Unicode) (sha : String → String) (settings : RunSettings F.Real) where
  get_lem :
      {P : Type 0} (now ttl : ℕ) (key fingerprint : String) (row : MemoRow) (s : MemoryStore P)
      → lookup key s.memos ≡ some row
      → row.fingerprint ≡ fingerprint
      → now - row.created_at ≤ ttl
      → get_cached_memo now s key fingerprint ttl
        ≡ some (record { memo = row.memo; debate = row.debate; age_seconds = now - row.created_at })
  unfolding get_cached_memo
  get_lem now ttl key fingerprint row s found same young =
      let e : str_eq row.fingerprint fingerprint ≡ true =
        (eq_iff row.fingerprint fingerprint).1 same in
      let f : ltb ttl (now - row.created_at) ≡ false = ground (arith, young) in
      rw (found, e, f, get_cached_memo) refl

  serve_cached :
      (models : Models) (snapshot : Snapshot F.Real) (cached : CachedMemo) (debate_on : Bool)
      (n : ℕ)
      → (check_sourcing F U snapshot cached.memo).passed ≡ true
      → IsServed cached.memo (serve F U models snapshot (some cached) debate_on n)
  unfolding serve
  serve_cached models snapshot cached debate_on n pass = rw (pass, serve) (refl, refl, refl, refl)

  ended-IsServed :
      (r : GatherResult F.Real) (memo : String) (final : Final)
      → IsServed memo final
      → IsServed memo (ended r final).final
  unfolding ended
  ended-IsServed r memo final served =
      let e : str_eq final.status "error" ≡ false = rw served.0 refl in rw (e, ended) served

ended_ok :
    {Real : Type 0} (r : GatherResult Real) (final : Final)
    → (ended r final).final.status ≡ "ok"
    → (ended r final).final ≡ final
unfolding ended
ended_ok r final ok = elim (Bool-cases (str_eq final.status "error")) [
  | inl e ↦ let bad : (ended r final).final.status ≡ "error" = rw (e, ended) refl in absurd cc
  | inr e ↦ rw (e, ended) refl
]

module _ (F : Floats) (U : Unicode) (sha : String → String) (settings : RunSettings F.Real)
    (others : String → Snapshot F.Real → Models) {P : Type 0} (at later : Moments)
    (spec : Product F.Real P) (identifier mode : String) where
  -- The second run, after the store was warmed with `final`.
  second_run :
      (again : Bool) (r r' : GatherResult F.Real) (memo : String) (final : Final)
      (s t : MemoryStore P)
      → t.memos ≡ (warm F U sha at spec identifier mode true (ended r final) s).memos
      → final.status ≡ "ok"
      → final.served_from_cache ≡ false
      → final.memo ≡ some memo
      → truthy memo ≡ true
      → r'.snapshot ≡ r.snapshot
      → (check_sourcing F U r.snapshot memo).passed ≡ true
      → later.looked_up - at.stored ≤ settings.memo_cache_ttl_seconds
      → IsServed memo
          (after_gather F U sha settings others later spec identifier mode again true r' t).final
  unfolding after_gather recent_memo
  second_run again r r' memo final s t warmed ok fresh written full same pass young =
      let k = key F U sha at spec identifier mode r final memo in
      let kept = row F U sha at spec identifier mode r final memo in
      let stored : lookup k t.memos ≡ some kept =
        rw warmed
          (lookup-warm F U sha at spec identifier mode r final memo s ok fresh written full) in
      let print : kept.fingerprint ≡ fingerprint F sha r'.snapshot =
        ap (fingerprint F sha) (sym same) in
      let cached : CachedMemo = record {
        memo = memo;
        debate = final.debate;
        age_seconds = later.looked_up - at.stored;
      } in
      let found : recent_memo F U sha settings later.looked_up spec identifier mode true r'.snapshot
            t
          ≡ some cached =
        get_lem F U sha settings later.looked_up settings.memo_cache_ttl_seconds k
          (fingerprint F sha r'.snapshot) kept t stored print young in
      let passes : (check_sourcing F U r'.snapshot memo).passed ≡ true = rw same pass in
      let M = others mode r'.snapshot in
      let n = settings.research_max_attempts in
      let second : IsServed memo (
          serve F U M r'.snapshot
            (recent_memo F U sha settings later.looked_up spec identifier mode true r'.snapshot t)
            again n) =
        rw found (serve_cached F U sha settings M r'.snapshot cached again n passes) in
      ended-IsServed F U sha settings r' memo
        (serve F U M r'.snapshot
          (recent_memo F U sha settings later.looked_up spec identifier mode true r'.snapshot t)
          again n)
        second

module _ (F : Floats) (U : Unicode) (sha : String → String) (settings : RunSettings F.Real)
    (models : String → Snapshot F.Real → Models) {P : Type 0} where
  -- The memo cache is a round trip. If a run ends ok with a memo that it wrote itself and stores it,
  -- then a later run for the same product, identifier and mode, on the same facts, within the cache's
  -- time to live, and with the memos in the store as the first run left them, ends ok with that memo,
  -- from the cache and at no inference cost, whatever the models would have said and whatever else of
  -- the store has changed.
  pub warm-IsServed :
      (at later : Moments) (spec : Product F.Real P) (identifier mode : String)
      (debate_on again : Bool) (r r' : GatherResult F.Real) (w : World P) (memo : String)
      (others : String → Snapshot F.Real → Models) (t : MemoryStore P)
      → (after_gather F U sha settings models at spec identifier mode debate_on true r
          w.store).final.status
        ≡ "ok"
      → (after_gather F U sha settings models at spec identifier mode debate_on true r
          w.store).final.served_from_cache
        ≡ false
      → (after_gather F U sha settings models at spec identifier mode debate_on true r
          w.store).final.memo
        ≡ some memo
      → truthy memo ≡ true
      → r'.snapshot ≡ r.snapshot
      → later.looked_up - at.stored ≤ settings.memo_cache_ttl_seconds
      → t.memos
        ≡ (close_books F U sha settings at spec identifier mode true
            (after_gather F U sha settings models at spec identifier mode debate_on true r w.store)
            w).1.store.memos
      → IsServed memo
          (after_gather F U sha settings others later spec identifier mode again true r' t).final
  unfolding after_gather close_books recent_memo
  warm-IsServed at later spec identifier mode debate_on again r r' w memo others t ok fresh written
        full same young kept =
      let n = settings.research_max_attempts in
      let M = models mode r.snapshot in
      let cached =
        recent_memo F U sha settings at.looked_up spec identifier mode true r.snapshot w.store in
      let final = serve F U M r.snapshot cached debate_on n in
      let plain : (ended r final).final ≡ final = ended_ok r final ok in
      let ok' : final.status ≡ "ok" = ap (λ (f : Final). f.status) (sym plain) ∙ ok in
      let (m, m_written, m_pass, _, _) = ok-IsShippable F U M r.snapshot cached debate_on n ok' in
      let written' : final.memo ≡ some memo = ap (λ (f : Final). f.memo) (sym plain) ∙ written in
      let m_same : m ≡ memo = some_inj m memo (sym m_written ∙ written') in
      let e = ended r final in
      second_run F U sha settings others at later spec identifier mode again r r' memo final
        (record_run F U at spec identifier mode e (attribute F U at spec identifier e w.store)) t
        kept ok' (ap (λ (f : Final). f.served_from_cache) (sym plain) ∙ fresh) written' full same
        (subst (λ x. (check_sourcing F U r.snapshot x).passed ≡ true) m_same m_pass) young
    where
      some_inj : (a b : String) → some a ≡ some b → a ≡ b
      some_inj a b h = cc
