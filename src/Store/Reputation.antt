-- ===== src/Store/Reputation.antt =====
-- `_summarize_trust` of src/jim/store/repo.py: the trust of every source, from its gate outcomes.
pub mod Tallies
use jim_agent.Prelude.{
  ℕ, ◌+◌, String, Bool, true, false, ◌&&◌, Option, none, some, List, [], ◌∷◌, map, truthy,
  if◌then◌else◌,
}
use jim_agent.Prelude.Dict.{Dict, lookup, lookup_or, insert}
use jim_agent.Prelude.Runtime.{Iso}
use jim_agent.Interop.Trust.{laplace_score}
use jim_agent.Monitors.Diff.{text_lt}
use jim_agent.Store.Memory.{TrustEvent, MemoryStore}

-- The score is in ten-thousandths.
pub record TrustRow : Type 0 where
  pub source : String
  pub ok : ℕ
  pub fail : ℕ
  pub last_event_at : Option String
  pub score : ℕ

abbrev pub new_row : String → TrustRow
new_row source = record { source = source; ok = 0; fail = 0; last_event_at = none; score = 0 }

-- `row["last_event_at"]` after an event at `ts`
unfoldable pub latest : String → Option String → Option String
unfolding text_lt
latest ts none = if truthy ts then some ts else none
latest ts (some last) = if truthy ts && text_lt last ts then some ts else some last

unfoldable pub scored : Dict TrustRow → Dict TrustRow
unfolding laplace_score
scored [] = []
scored ((k, row) ∷ rows) = (k, record row { score = laplace_score row.ok row.fail }) ∷ scored rows

module _ (T : Iso) where
  unfoldable pub count_event : TrustEvent → TrustRow → TrustRow
  unfolding latest
  count_event e row = record row {
    ok = if e.ok then row.ok + 1 else row.ok;
    fail = if e.ok then row.fail else row.fail + 1;
    last_event_at = latest (T.isoformat e.created_at) row.last_event_at;
  }

  unfoldable pub tally : List TrustEvent → Dict TrustRow → Dict TrustRow
  unfolding count_event lookup insert
  tally [] rows = rows
  tally (e ∷ es) rows =
      tally es (insert e.source (count_event e (lookup_or e.source (new_row e.source) rows)) rows)

  unfoldable pub trust_scores : {P : Type 0} → MemoryStore P → Dict TrustRow
  unfolding tally scored
  trust_scores s = scored (tally s.trust_events [])
