-- ===== src/Monitors/Engine/Ticks.antt =====
-- What a tick does, saves and costs.
use jim_agent.Prelude.{
  ℕ, ◌+◌, ◌≡◌, refl, subst, Bool, none, some, List, Option-cases, Bool-cases, inl, inr,
  if◌then◌else◌,
}
use jim_agent.Prelude.Runtime.{Floats, Unicode, Iso}
use jim_agent.Research.Facts.{Snapshot}
use jim_agent.Store.MonitorTables.{Tables, save_monitor, record_monitor_run}
use jim_agent.Monitors.Models.{Monitor, MonitorRun, Signal, microseconds}
use jim_agent.Monitors.Models.Rows.{to_row}
use jim_agent.Monitors.Diff.{diff_snapshots, snapshot_to_baseline}
use jim_agent.Monitors.Triggers.Crew.{evaluate_all}
use jim_agent.Monitors.Materiality.{assess}
use jim_agent.Monitors.Engine.{
  World, Gathered, gathered, failed, crashed, rolled, finalize, publish, judged, compared,
  run_monitor_once, Tick,
}

-- The baseline that a tick leaves.
abbrev pub baseline_after : {Real : Type 0} → Monitor Real → Gathered Real → Monitor Real
baseline_after m (gathered s cost hit) = record m { baseline = some (snapshot_to_baseline s) }
baseline_after m _ = m

module _ (F : Floats) (U : Unicode) (T : Iso) (world : World) (deliver persist : Bool)
    (now : ℕ) where
  abbrev pub IsSaved :
      Monitor F.Real
      → Gathered F.Real
      → Tables F.Real
      → Monitor F.Real × MonitorRun F.Real × Tables F.Real
      → Type 0
  IsSaved m g tables r =
      (r.0.next_run_at ≡ some (now + microseconds m.interval_seconds))
      × (r.0.last_run_at ≡ some now)
      × (r.0.last_status ≡ some r.1.status)
      × (r.0.baseline ≡ (baseline_after m g).baseline)
      × (r.2 ≡ (
          if persist then save_monitor (to_row T r.0) (record_monitor_run r.1 tables) else tables))
      × (r.0.id ≡ m.id)

  abbrev Saves : Monitor F.Real → Gathered F.Real → Tables F.Real → Tick F.Real → Type 0
  Saves m g tables none = Unit
  Saves m g tables (some r) = IsSaved m g tables r

  judged_lem :
      (m : Monitor F.Real) (s : Snapshot F.Real) (run : MonitorRun F.Real) (tables : Tables F.Real)
      (signals : List (Signal F.Real)) (cost : ℕ) (hit : Bool)
      → Saves m
          (gathered s cost hit)
          tables
          (judged F U T world deliver persist now m s run tables signals)
  unfolding judged finalize rolled
  judged_lem m s run tables signals cost hit =
      let v = assess T now m.cooldown_seconds signals m.severity_floor m.cooldowns in
      let m' = record m { cooldowns = v.cooldowns } in
      elim (Bool-cases v.material) [
        | inl e ↦ elim (Option-cases (publish F U T world deliver m' s run v)) [
          | inl raised ↦ rw (e, raised, judged) tt
          | inr (run', p) ↦ rw (e, p, judged) (refl, refl, refl, refl, refl, refl)
        ]
        | inr e ↦ rw (e, judged) (refl, refl, refl, refl, refl, refl)
      ]

  compared_lem :
      (m : Monitor F.Real) (s : Snapshot F.Real) (run : MonitorRun F.Real) (tables : Tables F.Real)
      (cost : ℕ) (hit : Bool)
      → Saves m
          (gathered s cost hit)
          tables
          (compared F U T world deliver persist now m s run tables)
  unfolding compared finalize rolled
  compared_lem m s run tables cost hit =
      let diff = diff_snapshots m.baseline s in
      elim (Bool-cases diff.is_first_run) [
        | inl first ↦ rw (first, compared) (refl, refl, refl, refl, refl, refl)
        | inr later ↦ elim (Option-cases (evaluate_all F m.triggers diff)) [
          | inl e ↦ rw (later, e, compared) tt
          | inr (signals, e) ↦ rw (later, e, compared) (judged_lem m s run tables signals cost hit)
        ]
      ]

  run_lem :
      (m : Monitor F.Real) (g : Gathered F.Real) (tables : Tables F.Real)
      → Saves m g tables (run_monitor_once F U T world deliver persist now m g tables)
  unfolding run_monitor_once finalize rolled
  run_lem m (gathered s cost hit) tables = compared_lem m s _ tables cost hit
  run_lem m (failed e) tables = (refl, refl, refl, refl, refl, refl)
  run_lem m (crashed e) tables = tt

  -- A tick that returns, with an error of the sources included, leaves the monitor scheduled one
  -- interval from now, and its baseline is the fresh snapshot, or the old one where the gathering
  -- failed, and its id stays. The run and the monitor are saved just when they are to persist.
  pub tick-IsSaved :
      (m : Monitor F.Real) (g : Gathered F.Real) (tables : Tables F.Real)
      (r : Monitor F.Real × MonitorRun F.Real × Tables F.Real)
      → run_monitor_once F U T world deliver persist now m g tables ≡ some r
      → IsSaved m g tables r
  tick-IsSaved m g tables r h = subst (Saves m g tables) h (run_lem m g tables)
