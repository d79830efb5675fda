-- ===== src/Interop/Trust/Attribution.antt =====
-- Who is credited and who is blamed.
use jim_agent.Prelude.{
  String, ◌≡◌, refl, Bool, true, false, ◌&&◌, none, some, List, [], ◌∷◌, arith, any, str_eq,
  is_some, if◌then◌else◌,
}
use jim_agent.Prelude.Dict.{Dict, lookup, insert, lookup-insert}
use jim_agent.Research.Facts.{Fact, Snapshot, by_id}
use jim_agent.Research.Gate.Sourcing.{GateResult, Violation}
use jim_agent.Interop.Trust.{origin_of, credit, blame_id, blame_ids, blame, attribute_gate_outcome}

module _ {Real : Type 0} (snapshot : Snapshot Real) (default_source : String) where
  credit-lookup :
      (src : String) (fs : List (Fact Real)) (d : Dict Bool)
      → lookup src (credit snapshot default_source fs d) ≡ (
          if any (λ (f : Fact Real). str_eq (origin_of snapshot default_source f.id) src) fs
          then some true
          else lookup src d)
  unfolding credit
  credit-lookup src [] d = refl
  credit-lookup src (f ∷ fs) d =
      let origin = origin_of snapshot default_source f.id in
      ground (arith, lookup-insert origin src true d, credit-lookup src fs (insert origin true d))

  -- An id that names a fact of the source.
  abbrev pub implicates : String → String → Bool
  implicates src cid =
      is_some (by_id snapshot cid) && str_eq (origin_of snapshot default_source cid) src

  blame_id-lookup :
      (src cid : String) (d : Dict Bool)
      → lookup src (blame_id snapshot default_source cid d)
        ≡ (if implicates src cid then some false else lookup src d)
  blame_id-lookup src cid d =
      ground (arith, lookup-insert (origin_of snapshot default_source cid) src false d)

  blame_ids-lookup :
      (src : String) (cs : List String) (d : Dict Bool)
      → lookup src (blame_ids snapshot default_source cs d)
        ≡ (if any (implicates src) cs then some false else lookup src d)
  unfolding blame_ids
  blame_ids-lookup src [] d = refl
  blame_ids-lookup src (c ∷ cs) d = ground (
    arith,
    blame_id-lookup src c d,
    blame_ids-lookup src cs (blame_id snapshot default_source c d),
  )

  blame-lookup :
      (src : String) (vs : List Violation) (d : Dict Bool)
      → lookup src (blame snapshot default_source vs d) ≡ (
          if any (λ (v : Violation). any (implicates src) v.cited_ids) vs
          then some false
          else lookup src d)
  unfolding blame
  blame-lookup src [] d = refl
  blame-lookup src (v ∷ vs) d = ground (
    arith,
    blame_ids-lookup src v.cited_ids d,
    blame-lookup src vs (blame_ids snapshot default_source v.cited_ids d),
  )

  -- The attribution rule: after a run that passed, exactly the sources that contributed a fact get
  -- a verdict, and it is `true`; after one that failed, exactly the sources of published facts
  -- that some violation cites get one, and it is `false`. No other source gets a signal.
  pub attribute_gate_outcome-exact :
      (gate : GateResult) (src : String)
      → lookup src (attribute_gate_outcome snapshot default_source gate) ≡ (
          if gate.passed
          then (if any
                (λ (f : Fact Real). str_eq (origin_of snapshot default_source f.id) src)
                snapshot.facts
              then some true
              else none)
          else if any (λ (v : Violation). any (implicates src) v.cited_ids) gate.violations
          then some false
          else none)
  unfolding attribute_gate_outcome lookup
  attribute_gate_outcome-exact gate src =
      ground (arith, credit-lookup src snapshot.facts [], blame-lookup src gate.violations [])
