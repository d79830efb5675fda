-- ===== src/Sources/Peer/Composite.antt =====
-- `CompositeSource` of src/jim/sources/peer.py: a primary source's facts with those bought from peers.
-- A purchase from a peer is a function on the world, such as `peer_gather`. Citation ids are read in
-- ASCII digits.
pub mod Merging
pub mod Spending
use jim_agent.Prelude.{
  ℕ, suc, ◌+◌, String, append, Bool, true, false, Option, none, some, List, [], ◌∷◌, ◌++◌, map,
  is_nil, ltb, length, after_prefix, if◌then◌else◌,
}
use jim_agent.Prelude.Dict.{Dict, insert}
use jim_agent.Prelude.Decimal.{show}
use jim_agent.Prelude.Decimal.Reading.{read}
use jim_agent.Research.Facts.{Fact, Snapshot}
use jim_agent.Sources.Procure.{
  World, ProcureError, denied, spend_refused, bad_status, not_json, circuit, other, lost, assertion,
}
use jim_agent.Sources.Peer.{
  GatherResult, Note, merged, skipped, Bought, bought, below_floor, not_bought, unusable, broken,
}

-- `_ID_RE` and `int`: the number of an id, if it has one
unfoldable pub id_number : String → Option ℕ
unfolding after_prefix read
id_number id = elim (after_prefix "C" id) [ none ↦ none | some digits ↦ read digits ]

abbrev pub greater : ℕ → ℕ → ℕ
greater a b = if ltb a b then b else a

-- `1 + max(..., default=0)`
unfoldable pub max_number : {Real : Type 0} → List (Fact Real) → ℕ
unfolding id_number
max_number [] = 0
max_number (f ∷ fs) = elim (id_number f.id) [
  | none ↦ max_number fs
  | some n ↦ greater n (max_number fs)
]

abbrev pub citation_id : ℕ → String
citation_id n = append "C" (show n)

-- The exceptions that a composition survives.
unfoldable pub is_caught : ProcureError → Bool
is_caught (denied reason) = true
is_caught (spend_refused e) = true
is_caught (bad_status n) = true
is_caught not_json = true
is_caught (circuit host failures retry_in) = true
is_caught lost = true
is_caught (other e) = false
is_caught assertion = false

-- A peer's name and its purchase.
abbrev pub Peer : Type 0 → Type 0 → Type 0
Peer Real P = String × (World P → Bought Real × World P)

module _ {Real : Type 0} where
  -- `replace(fact, id=new_id)` for every fact, from `n` on
  unfoldable pub renumbered : ℕ → List (Fact Real) → List (Fact Real)
  renumbered n [] = []
  renumbered n (f ∷ fs) = record f { id = citation_id n } ∷ renumbered (suc n) fs

  unfoldable pub add_origins : String → List (Fact Real) → Dict String → Dict String
  unfolding insert
  add_origins name [] d = d
  add_origins name (f ∷ fs) d = add_origins name fs (insert f.id name d)

  unfoldable pub merge : String → ℕ → GatherResult Real → GatherResult Real → GatherResult Real
  unfolding renumbered add_origins
  merge name n r base =
      let added = renumbered n r.snapshot.facts in
      record {
        snapshot = record base.snapshot {
          facts = base.snapshot.facts ++ added;
          origins = add_origins name added base.snapshot.origins;
        };
        cost_in_usd = base.cost_in_usd + r.cost_in_usd;
        cache_hit = base.cache_hit;
        notes = base.notes ++ merged name (length r.snapshot.facts) r.cost_in_usd r.cache_hit ∷ [];
      }

  abbrev skip : String → GatherResult Real → GatherResult Real
  skip name base = record base { notes = base.notes ++ skipped name ∷ [] }

  -- The outcome of one peer on what is gathered so far; `none` is an exception that is not caught.
  unfoldable pub combine :
      String → ℕ → GatherResult Real → Bought Real → Option (GatherResult Real × ℕ)
  unfolding merge is_caught
  combine name n base (bought r) = some (merge name n r base, n + length r.snapshot.facts)
  combine name n base (below_floor score events) = some (skip name base, n)
  combine name n base unusable = some (skip name base, n)
  combine name n base broken = none
  combine name n base (not_bought e) = if is_caught e then some (skip name base, n) else none

  unfoldable pub gather_peers :
      {P : Type 0}
      → List (Peer Real P)
      → ℕ
      → GatherResult Real
      → World P
      → Option (GatherResult Real) × World P
  unfolding combine
  gather_peers [] n base w = (some base, w)
  gather_peers ((name, gather) ∷ peers) n base w =
      let (outcome, after) = gather w in
      elim (combine name n base outcome) [
        | none ↦ (none, after)
        | some (next, m) ↦ gather_peers peers m next after
      ]

  -- Where the primary source names no origins, its facts are its own.
  unfoldable pub with_origins : String → GatherResult Real → GatherResult Real
  with_origins primary base = record base {
    snapshot = record base.snapshot {
      origins =
          if is_nil base.snapshot.origins
          then map (λ (f : Fact Real). (f.id, primary)) base.snapshot.facts
          else base.snapshot.origins;
    };
  }

  -- `CompositeSource.gather`, after the primary source has answered.
  unfoldable pub composite_gather :
      {P : Type 0}
      → String
      → List (Peer Real P)
      → GatherResult Real
      → World P
      → Option (GatherResult Real) × World P
  unfolding with_origins gather_peers max_number
  composite_gather primary peers base w =
      gather_peers peers (suc (max_number base.snapshot.facts)) (with_origins primary base) w
