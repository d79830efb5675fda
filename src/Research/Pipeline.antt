-- ===== src/Research/Pipeline.antt =====
-- The graph of src/jim/research/engine.py: memo cache, debate, synthesis under the sourcing gate, and
-- the judge. The model's answers are the record `Models`; `none` is a call that raised.
pub mod Shipped
pub mod Statuses
use jim_agent.Prelude.{
  ℕ, zero, suc, ◌+◌, ◌-◌, String, Bool, true, false, ◌&&◌, ◌||◌, Option, none, some, List, [], ◌∷◌,
  ◌++◌, map, fmt, join, str_eq, sort_by, truthy, if◌then◌else◌,
}
use jim_agent.Prelude.Runtime.{Floats, Unicode}
use jim_agent.Research.Cost.{Usage, add}
use jim_agent.Research.Facts.{Fact, Snapshot, shown}
use jim_agent.Research.Gate.Sourcing.{GateResult, check_sourcing, feedback}
use jim_agent.Monitors.Diff.{text_lt}
use jim_agent.Store.Memory.{MemoryStore, CachedMemo, get_cached_memo}

-- `Snapshot.fingerprint`, by the first 16 hex digits `sha` of a SHA-256
module _ (F : Floats) (sha : String → String) where
  abbrev fact_lt : Fact F.Real → Fact F.Real → Bool
  fact_lt f g = text_lt f.label g.label || (str_eq f.label g.label && text_lt f.unit g.unit)

  unfoldable pub fingerprint : Snapshot F.Real → String
  unfolding text_lt
  fingerprint s = sha (
      fmt (
        s.ticker
        ∷ "|"
        ∷ s.cik
        ∷ "|"
        ∷ shown s.as_of
        ∷ "|"
        ∷ join "||" (
            map
              (λ (f : Fact F.Real).
                fmt (f.label ∷ "|" ∷ f.unit ∷ "|" ∷ F.show "" (F.round f.value 4) ∷ []))
              (sort_by fact_lt s.facts))
        ∷ []))

-- A run's final state; `judged` is whether the judge passed the memo, where it was asked.
pub record Final : Type 0 where
  pub status : String
  pub memo : Option String
  pub gate : Option GateResult
  pub judged : Option Bool
  pub debate : Option String
  pub attempts_made : ℕ
  pub served_from_cache : Bool
  pub usages : List Usage

pub record Models : Type 0 where
  pub debate : Option (String × List Usage)
  pub synthesize : ℕ → Option String → Option (String × Usage)
  pub judge : String → Option (Bool × Option Usage)

abbrev pub error_final : List Usage → Final
error_final usages = record {
  status = "error";
  memo = none;
  gate = none;
  judged = none;
  debate = none;
  attempts_made = 0;
  served_from_cache = false;
  usages = usages;
}

-- `gate.feedback() or None`
abbrev pub or_none : String → Option String
or_none s = if truthy s then some s else none

module _ (F : Floats) (U : Unicode) (models : Models) (snapshot : Snapshot F.Real) where
  -- `_judge`
  unfoldable pub judge_memo : String → GateResult → Option String → ℕ → List Usage → Final
  unfolding add
  judge_memo memo gate debate n usages = elim (models.judge memo) [
    | none ↦ error_final usages
    | some verdict ↦ record {
      status = if gate.passed && verdict.0 then "ok" else "rejected";
      memo = some memo;
      gate = some gate;
      judged = some verdict.0;
      debate = debate;
      attempts_made = n;
      served_from_cache = false;
      usages = add verdict.1 usages;
    }
  ]

  -- `_finalize` after the last attempt
  unfoldable pub give_up : String → GateResult → Option String → ℕ → List Usage → Final
  give_up memo gate debate n usages = record {
    status = "rejected";
    memo = some memo;
    gate = some gate;
    judged = none;
    debate = debate;
    attempts_made = n;
    served_from_cache = false;
    usages = usages;
  }

  -- `_synthesize`, `_gate` and `_route_after_gate`, with the retries left and the attempts made.
  unfoldable pub write : ℕ → ℕ → Option String → Option String → List Usage → Final
  unfolding check_sourcing feedback judge_memo give_up
  write zero n notes debate usages = elim (models.synthesize n notes) [
    | none ↦ error_final usages
    | some reply ↦
        let gate = check_sourcing F U snapshot reply.0 in
        let spent = usages ++ reply.1 ∷ [] in
        if gate.passed
        then judge_memo reply.0 gate debate (n + 1) spent
        else give_up reply.0 gate debate (n + 1) spent
  ]
  write (suc left) n notes debate usages = elim (models.synthesize n notes) [
    | none ↦ error_final usages
    | some reply ↦
        let gate = check_sourcing F U snapshot reply.0 in
        let spent = usages ++ reply.1 ∷ [] in
        let again = write left (n + 1) (or_none (feedback gate)) debate spent in
        if gate.passed then judge_memo reply.0 gate debate (n + 1) spent else again
  ]

  -- From the debate on, if it is enabled.
  unfoldable pub compose : Bool → ℕ → Final
  unfolding write
  compose enable_debate max_attempts =
      if enable_debate
      then elim models.debate [
        | none ↦ error_final []
        | some d ↦ write (max_attempts - 1) 0 none (some d.0) d.1
      ]
      else write (max_attempts - 1) 0 none none []

  -- `_memo_cache` and `_route_after_cache`, on what the cache gave.
  unfoldable pub serve : Option CachedMemo → Bool → ℕ → Final
  unfolding compose check_sourcing
  serve none enable_debate max_attempts = compose enable_debate max_attempts
  serve (some cached) enable_debate max_attempts =
      let gate = check_sourcing F U snapshot cached.memo in
      if gate.passed
      then record {
        status = "ok";
        memo = some cached.memo;
        gate = some gate;
        judged = none;
        debate = cached.debate;
        attempts_made = 0;
        served_from_cache = true;
        usages = [];
      }
      else compose enable_debate max_attempts
