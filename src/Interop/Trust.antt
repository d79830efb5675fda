-- ===== src/Interop/Trust.antt =====
-- src/jim/interop/trust.py: a source's trust is its smoothed pass rate at the gate.
-- A score is kept in ten-thousandths, as the store rounds it to four decimals.
pub mod Attribution
pub mod Score
use jim_agent.Prelude.{
  ℕ, ◌+◌, ◌*◌, ◌/◌, ◌%◌, String, Bool, true, false, Option, none, some, List, [], ◌∷◌, ltb, ◌==◌,
  if◌then◌else◌,
}
use jim_agent.Prelude.Dict.{Dict, lookup_or, insert}
use jim_agent.Research.Facts.{Fact, Snapshot, by_id}
use jim_agent.Research.Gate.Sourcing.{GateResult, Violation}

-- `round(a / b)`, halves to even
unfoldable pub round_div : ℕ → ℕ → ℕ
round_div a b =
    let q = a / b in
    if ltb (2 * (a % b)) b
    then q
    else if ltb b (2 * (a % b))
    then q + 1
    else if q % 2 == 0
    then q
    else q + 1

abbrev pub one_score : ℕ
one_score = 10000

unfoldable pub laplace_score : ℕ → ℕ → ℕ
unfolding round_div
laplace_score ok fail = round_div ((ok + 1) * one_score) (ok + fail + 2)

module _ {Real : Type 0} (snapshot : Snapshot Real) (default_source : String) where
  -- `origins.get(fact_id, default_source)`
  abbrev pub origin_of : String → String
  origin_of fact_id = lookup_or fact_id default_source snapshot.origins

  unfoldable pub credit : List (Fact Real) → Dict Bool → Dict Bool
  credit [] d = d
  credit (f ∷ fs) d = credit fs (insert (origin_of f.id) true d)

  abbrev blame_id : String → Dict Bool → Dict Bool
  blame_id cid d = elim (by_id snapshot cid) [ none ↦ d | some f ↦ insert (origin_of cid) false d ]

  unfoldable pub blame_ids : List String → Dict Bool → Dict Bool
  blame_ids [] d = d
  blame_ids (c ∷ cs) d = blame_ids cs (blame_id c d)

  -- The set of blamed sources, as the verdicts that it is turned into.
  unfoldable pub blame : List Violation → Dict Bool → Dict Bool
  unfolding blame_ids
  blame [] d = d
  blame (v ∷ vs) d = blame vs (blame_ids v.cited_ids d)

  unfoldable pub attribute_gate_outcome : GateResult → Dict Bool
  unfolding credit blame
  attribute_gate_outcome gate =
      if gate.passed then credit snapshot.facts [] else blame gate.violations []
