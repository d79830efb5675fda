-- ===== src/Sources/Peer/Composite/Spending.antt =====
-- A query that buys from many peers stays within its one budget.
use jim_agent.Prelude.{
  ℕ, String, ◌≡◌, sym, subst, inl, inr, List, [], ◌∷◌, map, arith, All, Option-cases,
}
use jim_agent.Prelude.Dict.{lookup}
use jim_agent.Prelude.Json.{Json}
use jim_agent.Prelude.Runtime.{Floats, Unicode, Iso}
use jim_agent.Net.Resilience.{ResiliencePolicy}
use jim_agent.Research.Budget.Ceiling.{IsWithin}
use jim_agent.Sources.Pay.{Buyer}
use jim_agent.Sources.Procure.{World, Procured, procured, failed, ProcureResult, procure}
use jim_agent.Sources.Procure.Spending.{procure-IsWithin}
use jim_agent.Sources.Peer.{
  PeerSpec, PeerSettings, GatherResult, Traffic, peer_name, peer_gather, after_purchase, unpack,
  debit, order_of, check_trust, Bought,
}
use jim_agent.Sources.Peer.Composite.{Peer, combine, gather_peers, composite_gather}
use jim_agent.Store.Reputation.{trust_scores}

-- A purchase that keeps a budget within its ceiling.
abbrev Keeps : {Real P : Type 0} → (World P → Bought Real × World P) → Type 0
Keeps {Real} {P} gather = (w : World P) → IsWithin w.budget → IsWithin (gather w).1.budget

module _ {Real P : Type 0} where
  gather_peers-IsWithin :
      (peers : List (Peer Real P)) (n : ℕ) (base : GatherResult Real) (w : World P)
      → All (λ (p : Peer Real P). Keeps p.1) peers
      → IsWithin w.budget
      → IsWithin (gather_peers peers n base w).1.budget
  unfolding gather_peers
  gather_peers-IsWithin [] n base w keep h = h
  gather_peers-IsWithin ((name, gather) ∷ peers) n base w (here, keep) h =
      elim (Option-cases (combine name n base (gather w).0)) [
        | inl e ↦ rw (e, gather_peers) (here w h)
        | inr ((next, m), e) ↦
            rw (e, gather_peers) (gather_peers-IsWithin peers m next (gather w).1 keep (here w h))
      ]

module _ (F : Floats) (U : Unicode) (T : Iso) (settings : PeerSettings)
    (quote hostname : String → String) (repr : Json F.Real → String) where
  unpack-budget :
      (spec : PeerSpec) (now : ℕ) (identifier : String) (r : ProcureResult (Json F.Real))
      (w : World (Json F.Real))
      → (unpack F U T settings quote hostname repr spec now identifier r w).1.budget ≡ w.budget
  unfolding unpack debit
  unpack-budget spec now identifier r w = ground arith

  after_purchase-IsWithin :
      (spec : PeerSpec) (now : ℕ) (identifier : String)
      (p : Procured (Json F.Real) × World (Json F.Real))
      → IsWithin p.1.budget
      → IsWithin (after_purchase F U T settings quote hostname repr spec now identifier p).1.budget
  unfolding after_purchase
  after_purchase-IsWithin spec now identifier (failed e, w) h = h
  after_purchase-IsWithin spec now identifier (procured r, w) h =
      subst IsWithin (sym (unpack-budget spec now identifier r w)) h

  abbrev bought_from :
      Buyer
      → ResiliencePolicy
      → String
      → PeerSpec
      → Traffic (Json F.Real)
      → World (Json F.Real)
      → Procured (Json F.Real) × World (Json F.Real)
  bought_from buyer policy identifier spec t w =
      procure U buyer policy (order_of F U T settings quote hostname repr spec identifier) t.now
        t.dialled t.clock t.jitter t.exchanges w

  peer_gather-Keeps :
      (buyer : Buyer) (policy : ResiliencePolicy) (identifier : String) (spec : PeerSpec)
      (t : Traffic (Json F.Real))
      → Keeps (peer_gather F U T settings quote hostname repr spec buyer policy identifier t)
  unfolding peer_gather
  peer_gather-Keeps buyer policy identifier spec t w h =
      elim (Option-cases
        (check_trust settings (lookup (peer_name spec) (trust_scores T w.store)))) [
          | inr ((score, events), e) ↦ rw (e, peer_gather) h
          | inl e ↦
              rw (e, peer_gather)
                (after_purchase-IsWithin spec t.now identifier
                  (bought_from buyer policy identifier spec t w)
                  (procure-IsWithin U buyer policy
                    (order_of F U T settings quote hostname repr spec identifier) t.now t.dialled
                    t.clock t.jitter t.exchanges w h))
        ]

  -- The peers as a query composes them.
  abbrev pub peers_of :
      Buyer
      → ResiliencePolicy
      → String
      → List (PeerSpec × Traffic (Json F.Real))
      → List (Peer F.Real (Json F.Real))
  peers_of buyer policy identifier = map (λ (e : PeerSpec × Traffic (Json F.Real)). (
    peer_name e.0,
    peer_gather F U T settings quote hostname repr e.0 buyer policy identifier e.1,
  ))

  peers_of-Keeps :
      (buyer : Buyer) (policy : ResiliencePolicy) (identifier : String)
      (entries : List (PeerSpec × Traffic (Json F.Real)))
      → All
          (λ (p : Peer F.Real (Json F.Real)). Keeps p.1)
          (peers_of buyer policy identifier entries)
  peers_of-Keeps buyer policy identifier [] = tt
  peers_of-Keeps buyer policy identifier ((spec, t) ∷ entries) = (
    peer_gather-Keeps buyer policy identifier spec t,
    peers_of-Keeps buyer policy identifier entries,
  )

  -- One budget for a whole query: whatever peers it is composed with, in whatever order, whatever
  -- each of them asks, sends or fails with, and also where an exception ends the composition, a
  -- budget in whole micro-dollars that was not overspent before the peers is not overspent after.
  pub composite_gather-IsWithin :
      (buyer : Buyer) (policy : ResiliencePolicy) (primary identifier : String)
      (entries : List (PeerSpec × Traffic (Json F.Real))) (base : GatherResult F.Real)
      (w : World (Json F.Real))
      → IsWithin w.budget
      → IsWithin
          (composite_gather primary (peers_of buyer policy identifier entries) base w).1.budget
  unfolding composite_gather
  composite_gather-IsWithin buyer policy primary identifier entries base w h =
      gather_peers-IsWithin (peers_of buyer policy identifier entries) _ _ w
        (peers_of-Keeps buyer policy identifier entries) h
