-- ===== src/Monitors/Materiality.antt =====
-- src/jim/monitors/materiality.py: whether anything is worth saying. Times are microseconds.
pub mod Cooling
use jim_agent.Prelude.{
  ℕ, ◌+◌, String, Bool, true, false, not, ◌&&◌, Option, none, some, List, [], ◌∷◌, ◌++◌, truthy,
  ltb, is_nil, if◌then◌else◌,
}
use jim_agent.Prelude.Dict.{Dict, lookup, insert}
use jim_agent.Prelude.Runtime.{Iso}
use jim_agent.Monitors.Models.{Signal, severity_rank, microseconds}

pub record MaterialityVerdict (Real : Type 0) : Type 0 where
  pub material : Bool
  pub severity : String
  pub published : List (Signal Real)
  pub suppressed : List (Signal Real)
  pub cooldowns : Dict String

-- `published`, `suppressed` and `cooldowns` as the loop has them.
pub record Sorting (Real : Type 0) : Type 0 where
  pub published : List (Signal Real)
  pub suppressed : List (Signal Real)
  pub cooldowns : Dict String

-- The highest severity so far and the next signal.
unfoldable pub top_severity : {Real : Type 0} → String → List (Signal Real) → String
unfolding severity_rank
top_severity severity [] = severity
top_severity severity (sig ∷ sigs) =
    top_severity
      (if ltb (severity_rank severity) (severity_rank sig.severity) then sig.severity else severity)
      sigs

module _ (T : Iso) (now cooldown_seconds : ℕ) where
  -- A signal that fired at `last` is still cooling down; an unparseable time counts as expired.
  unfoldable pub is_cooling : Option String → Bool
  is_cooling none = false
  is_cooling (some last) = truthy last && ltb 0 cooldown_seconds && elim (T.fromisoformat last) [
    | none ↦ false
    | some fired ↦ ltb now (fired + microseconds cooldown_seconds)
  ]

  module _ {Real : Type 0} where
    unfoldable pub is_held : ℕ → Dict String → Signal Real → Bool
    unfolding is_cooling severity_rank
    is_held floor cooldowns sig =
        if ltb (severity_rank sig.severity) floor
        then true
        else is_cooling (lookup sig.key cooldowns)

    unfoldable pub sort : ℕ → List (Signal Real) → Sorting Real → Sorting Real
    unfolding is_held
    sort floor [] st = st
    sort floor (sig ∷ sigs) st = sort floor sigs (
        if is_held floor st.cooldowns sig
        then record st { suppressed = st.suppressed ++ sig ∷ [] }
        else record {
          published = st.published ++ sig ∷ [];
          suppressed = st.suppressed;
          cooldowns = insert sig.key (T.isoformat now) st.cooldowns;
        })

    unfoldable pub assess : List (Signal Real) → String → Dict String → MaterialityVerdict Real
    unfolding sort top_severity severity_rank
    assess signals severity_floor cooldowns =
        let start : Sorting Real = record {
          published = [];
          suppressed = [];
          cooldowns = cooldowns;
        } in
        let done = sort (severity_rank severity_floor) signals start in
        record {
          material = not (is_nil done.published);
          severity = top_severity "info" done.published;
          published = done.published;
          suppressed = done.suppressed;
          cooldowns = done.cooldowns;
        }
