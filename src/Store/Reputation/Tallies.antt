-- ===== src/Store/Reputation/Tallies.antt =====
-- The score of a source is that of its own gate outcomes.
use jim_agent.Prelude.{
  ℕ, ◌+◌, String, ◌≡◌, refl, ◌∙◌, Bool, true, false, ◌&&◌, ◌||◌, Option, none, some, List, [], ◌∷◌,
  arith, any, eq_iff, str_eq, is_some, not, inl, inr, Option-cases, Bool-cases, if◌then◌else◌,
}
use jim_agent.Prelude.Dict.{Dict, lookup, lookup_or, insert, lookup-insert}
use jim_agent.Prelude.Runtime.{Iso}
use jim_agent.Interop.Trust.{laplace_score}
use jim_agent.Store.Memory.{TrustEvent, MemoryStore}
use jim_agent.Store.Reputation.{TrustRow, new_row, count_event, tally, scored, trust_scores}

-- How many of a source's events have the outcome.
abbrev pub outcomes : Bool → String → List TrustEvent → ℕ
outcomes ok source [] = 0
outcomes ok source (e ∷ es) =
    let rest = outcomes ok source es in
    if str_eq e.source source && (if ok then e.ok else not e.ok) then rest + 1 else rest

abbrev ok_of : Option TrustRow → ℕ
ok_of none = 0
ok_of (some row) = row.ok

abbrev fail_of : Option TrustRow → ℕ
fail_of none = 0
fail_of (some row) = row.fail

-- The row of a source without its last event: passes, failures and score.
abbrev pub standing : Option TrustRow → Option (ℕ × ℕ × ℕ)
standing none = none
standing (some row) = some (row.ok, row.fail, row.score)

lookup-scored :
    (source : String) (rows : Dict TrustRow)
    → standing (lookup source (scored rows)) ≡ (
        if is_some (lookup source rows)
        then some (
          ok_of (lookup source rows),
          fail_of (lookup source rows),
          laplace_score (ok_of (lookup source rows)) (fail_of (lookup source rows)),
        )
        else none)
unfolding scored lookup
lookup-scored source [] = refl
lookup-scored source ((k, row) ∷ rows) = ground (arith, lookup-scored source rows)

module _ (T : Iso) (source : String) where
  tally_lem :
      (es : List TrustEvent) (rows : Dict TrustRow)
      → (ok_of (lookup source (tally T es rows))
          ≡ ok_of (lookup source rows) + outcomes true source es)
        × (fail_of (lookup source (tally T es rows))
            ≡ fail_of (lookup source rows) + outcomes false source es)
        × (is_some (lookup source (tally T es rows))
            ≡ (is_some (lookup source rows) || any (λ (e : TrustEvent). str_eq e.source source) es))
  unfolding tally count_event
  tally_lem [] rows = ground arith
  tally_lem (e ∷ es) rows =
      let row = count_event T e (lookup_or e.source (new_row e.source) rows) in
      elim (Bool-cases (str_eq e.source source)) [
        | inl same ↦ elim (Option-cases (lookup e.source rows)) [
          | inl e' ↦ ground (
            arith,
            eq_iff e.source source,
            lookup-insert e.source source row rows,
            tally_lem es (insert e.source row rows),
          )
          | inr (old, e') ↦ ground (
            arith,
            eq_iff e.source source,
            lookup-insert e.source source row rows,
            tally_lem es (insert e.source row rows),
          )
        ]
        | inr other ↦
            ground (
              arith,
              lookup-insert e.source source row rows,
              tally_lem es (insert e.source row rows),
            )
      ]

  -- A source has a standing just when it has events; its passes and failures are those of its own
  -- events, in any order and whatever the other sources did, and its score is the smoothed pass
  -- rate of these.
  pub trust_scores-exact :
      {P : Type 0} (s : MemoryStore P)
      → standing (lookup source (trust_scores T s)) ≡ (
          if any (λ (e : TrustEvent). str_eq e.source source) s.trust_events
          then some (
            outcomes true source s.trust_events,
            outcomes false source s.trust_events,
            laplace_score
                (outcomes true source s.trust_events)
                (outcomes false source s.trust_events),
          )
          else none)
  unfolding trust_scores lookup
  trust_scores-exact s =
      let rows = tally T s.trust_events [] in
      let sums = tally_lem s.trust_events [] in
      let passes : ok_of (lookup source rows) ≡ outcomes true source s.trust_events =
        ground (arith, sums) in
      let failures : fail_of (lookup source rows) ≡ outcomes false source s.trust_events =
        ground (arith, sums) in
      lookup-scored source rows ∙ rw (passes, failures, sums.2) refl
