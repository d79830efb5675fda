-- ===== src/Monitors/Update.antt =====
-- src/jim/monitors/update.py: the note on what changed, written by a language model under both
-- gates, or built from the facts. `ask` is the exchange with the model: the number of the call and
-- the prompt to its answer and the usage, or `none` where the call raised.
pub mod Checked
use jim_agent.Prelude.{
  ℕ, zero, suc, ◌+◌, String, Bool, true, false, not, ◌&&◌, Option, none, some, List, [], ◌∷◌, ◌++◌,
  map, fmt, join, str_eq, truthy, if◌then◌else◌,
}
use jim_agent.Prelude.Runtime.{Floats, Unicode}
use jim_agent.Prelude.Split.{strip}
use jim_agent.Research.Facts.{Fact, Snapshot, by_id, fmt_value, facts_block, shown}
use jim_agent.Research.Gate.Sourcing.{GateResult, check_sourcing, feedback}
use jim_agent.Research.Cost.{Usage, inference_cost_usd}
use jim_agent.Monitors.Models.{Signal}
use jim_agent.Monitors.Impersonal.{ImpersonalResult, check_impersonal, disclaimer}

pub record UpdateResult : Type 0 where
  pub memo : String
  pub severity : String
  pub gate : GateResult
  pub used_fallback : Bool
  pub usages : List Usage

abbrev pub human_hint : String
human_hint =
    "Mode: HUMAN — one or two plain-language sentences a non-expert follows, then the cited specifics."

abbrev pub agent_hint : String
agent_hint =
    "Mode: AGENT — terse '<metric>: <value> [C#]' lines, no narrative, one-line NET at the end."

-- `_DIRECTION_CLAUSE.get(direction or "", "")`
unfoldable pub direction_clause : Option String → String
direction_clause none = ""
direction_clause (some d) =
    if str_eq d "up"
    then "higher than the prior reading"
    else if str_eq d "down"
    then "lower than the prior reading"
    else if str_eq d "cross_up"
    then "crossing above the configured level"
    else if str_eq d "cross_down"
    then "crossing below the configured level"
    else if str_eq d "golden"
    then "with the 50-day now above the 200-day"
    else if str_eq d "death"
    then "with the 50-day now below the 200-day"
    else ""

module _ (F : Floats) (U : Unicode) where
  -- `next((snapshot.by_id(cid) for cid in signal.citation_ids), None)`: the first citation's fact
  abbrev first_fact : Snapshot F.Real → List String → Option (Fact F.Real)
  first_fact snapshot [] = none
  first_fact snapshot (cid ∷ cids) = by_id snapshot cid

  abbrev tail_of : String → String
  tail_of clause = if truthy clause then fmt (", " ∷ clause ∷ []) else ""

  unfoldable pub fallback_line : Snapshot F.Real → Signal F.Real → String
  unfolding by_id fmt_value direction_clause
  fallback_line snapshot sig = elim (first_fact snapshot sig.citation_ids) [
    | some fact ↦ fmt (
        fact.label
        ∷ " is now "
        ∷ fmt_value F fact.value fact.unit
        ∷ " ["
        ∷ fact.id
        ∷ "]"
        ∷ tail_of (direction_clause sig.direction)
        ∷ "."
        ∷ [])
    | none ↦
        if str_eq sig.kind "new_filing"
        then fmt (
            "A new primary-source filing was observed for " ∷ snapshot.ticker ∷ " this period."
            ∷ [])
        else fmt (sig.label ∷ " changed since the last check." ∷ [])
  ]

  unfoldable pub fallback_memo : Snapshot F.Real → List (Signal F.Real) → String
  unfolding fallback_line
  fallback_memo snapshot signals = join "\n" (
      fmt (snapshot.entity_name ∷ " (" ∷ snapshot.ticker ∷ ") — monitor update." ∷ [])
      ∷ (map (fallback_line snapshot) signals ++ disclaimer ∷ []))

  unfoldable pub signal_block : List (Signal F.Real) → String
  signal_block signals =
      join "\n"
        (map (λ (s : Signal F.Real). fmt ("- [" ∷ s.severity ∷ "] " ∷ s.summary ∷ [])) signals)

  module _ (snapshot : Snapshot F.Real) (signals : List (Signal F.Real))
      (severity mode : String) where
    -- `_accept`: whether both gates pass, the sourcing gate, what the impersonal guard found
    unfoldable pub accept : String → Bool × GateResult × List String
    unfolding check_sourcing check_impersonal
    accept memo =
        let gate = check_sourcing F U snapshot memo in
        let imp = check_impersonal U memo in (gate.passed && imp.passed, gate, imp.violations)

    unfoldable pub fallback : List Usage → UpdateResult
    unfolding fallback_memo accept
    fallback usages =
        let memo = fallback_memo snapshot signals in
        record {
          memo = memo;
          severity = severity;
          gate = (accept memo).1;
          used_fallback = true;
          usages = usages;
        }

    unfoldable pub prompt : String → String
    unfolding signal_block facts_block
    prompt notes = join "\n" (
        (if str_eq mode "human" then human_hint else agent_hint)
        ∷ fmt (
            "Entity: "
            ∷ snapshot.entity_name
            ∷ " ("
            ∷ snapshot.ticker
            ∷ "). Data as of "
            ∷ shown snapshot.as_of
            ∷ "."
            ∷ [])
        ∷ "\nDETECTED CHANGES (already verified by a deterministic crew):"
        ∷ signal_block signals
        ∷ "\nCURRENT FACTS (cite each number you use with its [C#]):"
        ∷ facts_block F snapshot
        ∷ fmt ("\nDISCLAIMER (include verbatim at the end):\n" ∷ disclaimer ∷ [])
        ∷ (if truthy notes
            then fmt
                ("\nYOUR PREVIOUS ATTEMPT WAS REJECTED:\n" ∷ notes ∷ "\nRewrite the note." ∷ [])
              ∷ []
            else []))

    -- The feedback after a rejected note.
    unfoldable pub notes_of : GateResult → List String → String
    unfolding feedback strip
    notes_of gate found =
        strip U (join "\n" (feedback gate ∷ map (λ v. fmt ("impersonal: " ∷ v ∷ [])) found))

    module _ (ask : ℕ → String → Option (String × Usage)) where
      -- The loop: attempts left, calls made, feedback, usages. What it gives is the result and the
      -- number of calls made.
      unfoldable pub attempts : ℕ → ℕ → String → List Usage → UpdateResult × ℕ
      unfolding accept fallback prompt notes_of strip
      attempts zero n notes usages = (fallback usages, n)
      attempts (suc left) n notes usages = elim (ask n (prompt notes)) [
        | none ↦ (fallback usages, n + 1)
        | some reply ↦
            let memo = strip U reply.0 in
            let spent = usages ++ reply.1 ∷ [] in
            let onward = attempts left (n + 1) (notes_of (accept memo).1 (accept memo).2) spent in
            if (accept memo).0
            then (
              record {
                memo = memo;
                severity = severity;
                gate = (accept memo).1;
                used_fallback = false;
                usages = spent;
              },
              n + 1,
            )
            else onward
      ]

      -- `has_key` is whether an API key is configured; `more` is `max(1, max_attempts) - 1`.
      unfoldable pub synthesize_update : Bool → ℕ → UpdateResult × ℕ
      unfolding attempts fallback
      synthesize_update has_key more =
          if has_key then attempts (suc more) 0 "" [] else (fallback [], 0)
