-- ===== src/Research/Run/Honest.antt =====
-- How the graph ends: with a known status, and where it is ok with a memo that passed.
use jim_agent.Prelude.{
  String, ◌≡◌, refl, Bool, Option, none, some, List, [], inl, inr, str_eq, Bool-cases,
}
use jim_agent.Prelude.Runtime.{Floats, Unicode}
use jim_agent.Research.Cost.{Usage}
use jim_agent.Research.Facts.{Snapshot}
use jim_agent.Research.Pipeline.{Final, Models, serve}
use jim_agent.Research.Pipeline.Shipped.{IsShippable, ok-IsShippable}
use jim_agent.Research.Run.{
  Gathered, gathered, source_failed, crashed, Product, RunSettings, Moments, GraphEnd, failed_end,
  ended, recent_memo, after_gather, outcome_of,
}
use jim_agent.Research.Pipeline.Statuses.{IsKnown, serve-IsKnown}
use jim_agent.Sources.Peer.{GatherResult}
use jim_agent.Sources.Procure.{World}

module _ (F : Floats) (U : Unicode) (models : String → Snapshot F.Real → Models)
    (mode : String) where
  -- There are facts, and the memo passed the gate against them.
  abbrev pub IsVerified : Final → Option (Snapshot F.Real) → Type 0
  IsVerified final snapshot =
      (s : Snapshot F.Real) × (snapshot ≡ some s) × IsShippable F U (models mode s) s final

  abbrev pub IsHonest : GraphEnd F.Real → Type 0
  IsHonest e = e.final.status ≡ "ok" → IsVerified e.final e.snapshot

  failed_lem : (usages : List Usage) (error : Option String) → IsHonest (failed_end usages error)
  failed_lem usages error h = absurd cc

  ended_lem :
      (r : GatherResult F.Real) (final : Final)
      → (final.status ≡ "ok" → IsShippable F U (models mode r.snapshot) r.snapshot final)
      → IsHonest (ended r final)
  unfolding ended
  ended_lem r final good = elim (Bool-cases (str_eq final.status "error")) [
    | inl e ↦ rw (e, ended) (failed_lem final.usages none)
    | inr e ↦ rw (e, ended) (λ h. (r.snapshot, refl, good h))
  ]

ended-IsKnown :
    {Real : Type 0} (r : GatherResult Real) (final : Final)
    → IsKnown final.status
    → IsKnown (ended r final).final.status
unfolding ended
ended-IsKnown r final known = elim (Bool-cases (str_eq final.status "error")) [
  | inl e ↦ rw (e, ended) (inr (inr refl))
  | inr e ↦ rw (e, ended) known
]

module _ (F : Floats) (U : Unicode) (sha : String → String) (settings : RunSettings F.Real)
    (models : String → Snapshot F.Real → Models) {P : Type 0} (at : Moments)
    (spec : Product F.Real P) (identifier mode : String) where
  pub outcome_lem :
      (debate_on cache_on : Bool) (outcome : Gathered F.Real) (w : World P)
      → IsHonest F U models mode
          (outcome_of F U sha settings models at spec identifier mode debate_on cache_on outcome w)
  unfolding after_gather
  outcome_lem debate_on cache_on (gathered r) w =
      let cached =
        recent_memo F U sha settings at.looked_up spec identifier mode cache_on r.snapshot
          w.store in
      let M = models mode r.snapshot in
      let n = settings.research_max_attempts in
      ended_lem F U models mode r (serve F U M r.snapshot cached debate_on n)
        (ok-IsShippable F U M r.snapshot cached debate_on n)
  outcome_lem debate_on cache_on (source_failed e) w = failed_lem F U models mode [] (some e)
  outcome_lem debate_on cache_on crashed w = failed_lem F U models mode [] none

  pub known_lem :
      (debate_on cache_on : Bool) (outcome : Gathered F.Real) (w : World P)
      → IsKnown
          (outcome_of F U sha settings models at spec identifier mode debate_on cache_on outcome
            w).final.status
  unfolding after_gather
  known_lem debate_on cache_on (gathered r) w =
      let cached =
        recent_memo F U sha settings at.looked_up spec identifier mode cache_on r.snapshot
          w.store in
      let M = models mode r.snapshot in
      let n = settings.research_max_attempts in
      ended-IsKnown r (serve F U M r.snapshot cached debate_on n)
        (serve-IsKnown F U M r.snapshot cached debate_on n)
  known_lem debate_on cache_on (source_failed e) w = inr (inr refl)
  known_lem debate_on cache_on crashed w = inr (inr refl)
