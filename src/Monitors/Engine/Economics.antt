-- ===== src/Monitors/Engine/Economics.antt =====
-- What a tick costs that does not speak.
use jim_agent.Prelude.{
  ℕ, ◌≡◌, refl, subst, Bool, true, false, ◌⊎◌, none, some, List, [], arith, Option-cases,
  Bool-cases, inl, inr,
}
use jim_agent.Prelude.Runtime.{Floats, Unicode, Iso}
use jim_agent.Research.Facts.{Snapshot}
use jim_agent.Research.Cost.{to_micro}
use jim_agent.Store.MonitorTables.{Tables}
use jim_agent.Monitors.Models.{Monitor, MonitorRun, Signal}
use jim_agent.Monitors.Diff.{diff_snapshots}
use jim_agent.Monitors.Triggers.Crew.{evaluate_all}
use jim_agent.Monitors.Materiality.{MaterialityVerdict, assess}
use jim_agent.Monitors.Engine.{
  World, Gathered, gathered, failed, crashed, new_run, finalize, written, delivered, publish,
  judged, compared, run_monitor_once, Tick,
}

-- A run that wrote nothing, pushed nothing and earned nothing.
abbrev pub IsFree : {Real : Type 0} → MonitorRun Real → Type 0
IsFree run =
    (run.cost_inference_usd ≡ 0)
    × (run.price_out_usd ≡ 0)
    × (run.delivered_to ≡ [])
    × (run.memo ≡ none)
    × (run.signals ≡ [])

module _ (F : Floats) (U : Unicode) (T : Iso) (world : World) (deliver persist : Bool)
    (now : ℕ) where
  abbrev Costs : Tick F.Real → Type 0
  Costs none = Unit
  Costs (some r) = (r.1.material ≡ true) ⊎ IsFree r.1

  publish_lem :
      (m : Monitor F.Real) (s : Snapshot F.Real) (run : MonitorRun F.Real)
      (v : MaterialityVerdict F.Real) (after : MonitorRun F.Real)
      → publish F U T world deliver m s run v ≡ some after
      → after.material ≡ true
  unfolding publish written delivered
  publish_lem m s run v after h = ground arith

  judged_lem :
      (m : Monitor F.Real) (s : Snapshot F.Real) (cost : ℕ) (hit : Bool) (tables : Tables F.Real)
      (signals : List (Signal F.Real))
      → Costs (
          judged F U T world deliver persist now m s
            (record (new_run m "quiet" now) { cost_in_data_usd = to_micro cost; cache_hit = hit })
            tables
            signals)
  unfolding judged finalize new_run
  judged_lem m s cost hit tables signals =
      let v = assess T now m.cooldown_seconds signals m.severity_floor m.cooldowns in
      let m' = record m { cooldowns = v.cooldowns } in
      let run : MonitorRun F.Real = record (new_run m "quiet" now) {
        cost_in_data_usd = to_micro cost;
        cache_hit = hit;
      } in
      elim (Bool-cases v.material) [
        | inl e ↦ elim (Option-cases (publish F U T world deliver m' s run v)) [
          | inl raised ↦ rw (e, raised, judged) tt
          | inr (run', p) ↦ rw (e, p, judged) (inl (publish_lem m' s run v run' p))
        ]
        | inr e ↦ rw (e, judged) (inr (refl, refl, refl, refl, refl))
      ]

  compared_lem :
      (m : Monitor F.Real) (s : Snapshot F.Real) (cost : ℕ) (hit : Bool) (tables : Tables F.Real)
      → Costs (
          compared F U T world deliver persist now m s
            (record (new_run m "quiet" now) { cost_in_data_usd = to_micro cost; cache_hit = hit })
            tables)
  unfolding compared finalize new_run
  compared_lem m s cost hit tables =
      let diff = diff_snapshots m.baseline s in
      elim (Bool-cases diff.is_first_run) [
        | inl first ↦ rw (first, compared) (inr (refl, refl, refl, refl, refl))
        | inr later ↦ elim (Option-cases (evaluate_all F m.triggers diff)) [
          | inl e ↦ rw (later, e, compared) tt
          | inr (signals, e) ↦ rw (later, e, compared) (judged_lem m s cost hit tables signals)
        ]
      ]

  run_lem :
      (m : Monitor F.Real) (g : Gathered F.Real) (tables : Tables F.Real)
      → Costs (run_monitor_once F U T world deliver persist now m g tables)
  unfolding run_monitor_once finalize new_run
  run_lem m (gathered s cost hit) tables = compared_lem m s cost hit tables
  run_lem m (failed e) tables = inr (refl, refl, refl, refl, refl)
  run_lem m (crashed e) tables = tt

  -- A tick that finds nothing material (quiet, the first one, or one whose gathering failed) costs no
  -- inference, pushes nothing to any channel and earns nothing.
  pub quiet-IsFree :
      (m : Monitor F.Real) (g : Gathered F.Real) (tables : Tables F.Real)
      (r : Monitor F.Real × MonitorRun F.Real × Tables F.Real)
      → run_monitor_once F U T world deliver persist now m g tables ≡ some r
      → r.1.material ≡ false
      → IsFree r.1
  quiet-IsFree m g tables r h quiet = elim (subst Costs h (run_lem m g tables)) [
    | inl loud ↦ absurd (ground arith)
    | inr free ↦ free
  ]
