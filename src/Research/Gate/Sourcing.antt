-- ===== src/Research/Gate/Sourcing.antt =====
-- `_unit_ok`, `_matches`, `check_sourcing`, `GateResult` of src/jim/research/gate.py.
pub mod Verdict
use jim_agent.Prelude.{
  ℕ, suc, ◌+◌, String, append, Bool, true, false, not, ◌&&◌, ◌||◌, Option, none, some, List, [],
  ◌∷◌, ◌++◌, map, str_eq, mem, join, fmt, any, is_nil, ◌==◌, if◌then◌else◌,
}
use jim_agent.Prelude.Runtime.{Floats, Unicode, float_max}
use jim_agent.Prelude.Split.{strip}
use jim_agent.Research.Facts.{
  Fact, Snapshot, by_id, ids, usd, usd_per_share, shares, percent, multiple, count,
}
use jim_agent.Research.Gate.Figures.{Figure, segments, cited_ids, segment_figures}

pub record Violation : Type 0 where
  pub figure : String
  pub reason : String
  pub segment : String
  pub cited_ids : List String

pub record GateResult : Type 0 where
  pub passed : Bool
  pub violations : List Violation
  pub n_figures : ℕ
  pub n_covered : ℕ

-- `_BARE_UNITS`
abbrev bare_units : List String
bare_units = shares ∷ count ∷ usd ∷ usd_per_share ∷ []

unfoldable pub unit_ok : String → String → Bool
unit_ok kind unit =
    if str_eq kind "pct"
    then str_eq unit percent
    else if str_eq kind "mult"
    then str_eq unit multiple
    else if str_eq kind "cur"
    then mem unit (usd ∷ usd_per_share ∷ [])
    else if str_eq kind "anchored"
    then true
    else mem unit bare_units

unfoldable pub feedback_line : Violation → String
feedback_line v =
    let ids : String = elim v.cited_ids [
      | [] ↦ "none"
      | c ∷ cs ↦ fmt ("['" ∷ join "', '" (c ∷ cs) ∷ "']" ∷ [])
    ] in
    fmt ("  - " ∷ v.reason ∷ ": \"" ∷ v.figure ∷ "\" (citations: " ∷ ids ∷ ")" ∷ [])

abbrev rules : String
rules =
    "Rules: every dollar amount, percentage, ratio, or large number MUST be immediately followed by a [C#] citation whose fact value equals it. Do not state any number that is not in the provided facts."

unfoldable pub feedback : GateResult → String
unfolding feedback_line
feedback g =
    if g.passed
    then ""
    else join "\n" (
        "The sourcing gate REJECTED the memo. Fix every issue below:"
        ∷ (map feedback_line g.violations ++ rules ∷ []))

-- The facts that a list of ids names.
unfoldable pub facts_of : {Real : Type 0} → Snapshot Real → List String → List (Fact Real)
facts_of s [] = []
facts_of s (c ∷ cs) = elim (by_id s c) [ none ↦ facts_of s cs | some f ↦ f ∷ facts_of s cs ]

-- The loop's variables.
pub record Tally : Type 0 where
  pub violations : List Violation
  pub n_figures : ℕ
  pub n_covered : ℕ

module _ (F : Floats) where
  unfoldable pub tolerance : F.Real → F.Real
  tolerance fact_value = float_max F (F.mul (F.absolute fact_value) (F.decimal 2 2)) (F.decimal 5 2)

  unfoldable pub matches : F.Real → String → F.Real → String → Bool
  unfolding unit_ok tolerance
  matches value kind fact_value unit =
      if not (unit_ok kind unit)
      then false
      else if F.le (F.absolute (F.sub value fact_value)) (tolerance fact_value)
      then true
      else F.lt fact_value (F.decimal 0 0)
        && F.le (F.absolute (F.sub (F.absolute value) (F.absolute fact_value)))
            (tolerance fact_value)

  unfoldable pub is_covered : List (Fact F.Real) → Figure F.Real → Bool
  unfolding matches
  is_covered facts g = any (λ (f : Fact F.Real). matches g.value g.kind f.value f.unit) facts

  module _ (U : Unicode) where
    abbrev pub violation : String → String → String → List String → Violation
    violation figure reason seg cited = record {
      figure = figure;
      reason = reason;
      segment = strip U seg;
      cited_ids = cited;
    }

    abbrev pub put : Tally → Violation → Tally
    put t v = record t { violations = t.violations ++ v ∷ [] }

    -- Citations of ids that were never published.
    unfoldable pub check_ids : List String → String → List String → List String → Tally → Tally
    check_ids valid seg cited [] t = t
    check_ids valid seg cited (c ∷ cs) t =
        check_ids valid seg cited cs
          (if mem c valid then t else put t (violation c "phantom citation" seg cited))

    unfoldable pub check_figure :
        String → List String → List (Fact F.Real) → Figure F.Real → Tally → Tally
    unfolding is_covered
    check_figure seg cited facts g t =
        let counted = record t { n_figures = t.n_figures + 1 } in
        if is_nil facts
        then put counted (violation g.raw "uncited" seg cited)
        else if is_covered facts g
        then record counted { n_covered = t.n_covered + 1 }
        else put counted (violation g.raw "value mismatch" seg cited)

    unfoldable pub check_figures :
        String → List String → List (Fact F.Real) → List (Figure F.Real) → Tally → Tally
    unfolding check_figure
    check_figures seg cited facts [] t = t
    check_figures seg cited facts (g ∷ gs) t =
        check_figures seg cited facts gs (check_figure seg cited facts g t)

    module _ (snapshot : Snapshot F.Real) where
      unfoldable pub check_segment : String → Tally → Tally
      unfolding check_ids check_figures cited_ids segment_figures facts_of by_id ids
      check_segment seg t =
          let cited = cited_ids U seg in
          check_figures seg cited (facts_of snapshot cited) (segment_figures U F seg)
            (check_ids (ids snapshot) seg cited cited t)

      unfoldable pub check_segments : List String → Tally → Tally
      unfolding check_segment
      check_segments [] t = t
      check_segments (seg ∷ segs) t = check_segments segs (check_segment seg t)

      abbrev pub empty_tally : Tally
      empty_tally = record { violations = []; n_figures = 0; n_covered = 0 }

      abbrev gate_result : Tally → GateResult
      gate_result t = record {
        passed = is_nil t.violations;
        violations = t.violations;
        n_figures = t.n_figures;
        n_covered = t.n_covered;
      }

      unfoldable pub check_sourcing : String → GateResult
      unfolding check_segments segments
      check_sourcing memo = gate_result (check_segments (segments U memo) empty_tally)
