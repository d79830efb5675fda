-- ===== src/Monitors/Engine.antt =====
-- src/jim/monitors/engine.py: one tick of a monitor. What the sources gave is an argument; `none`
-- stands for an exception that leaves the tick, with nothing saved.
pub mod Ticks
pub mod Served
pub mod Economics
pub mod Atomic
pub mod Scheduler
use jim_agent.Prelude.{
  ℕ, ◌+◌, String, Bool, true, false, not, Option, none, some, List, [], ◌∷◌, map, is_nil,
  if◌then◌else◌,
}
use jim_agent.Prelude.Runtime.{Floats, Unicode, Iso}
use jim_agent.Research.Cost.{Usage, to_micro, inference_cost_usd}
use jim_agent.Research.Facts.{Snapshot, citation}
use jim_agent.Store.MonitorTables.{Tables, save_monitor, record_monitor_run}
use jim_agent.Monitors.Models.{Monitor, MonitorRun, Signal, microseconds}
use jim_agent.Monitors.Models.Rows.{to_row}
use jim_agent.Monitors.Diff.{SnapshotDiff, diff_snapshots, snapshot_to_baseline}
use jim_agent.Monitors.Triggers.Crew.{evaluate_all}
use jim_agent.Monitors.Materiality.{MaterialityVerdict, assess}
use jim_agent.Monitors.Notify.{Channel, Payload, build_payload, build_channels, deliver_all}
use jim_agent.Monitors.Update.{UpdateResult, synthesize_update}

-- `spec.source.gather`: a result, an error that the tick handles, or another exception.
pub data Gathered (Real : Type 0) : Type 0 where
  gathered : Snapshot Real → ℕ → Bool → Gathered Real
  failed : String → Gathered Real
  crashed : String → Gathered Real

-- The settings, the exchange with the model (`has_key`, `more` and `ask` as in `Update`) and with the
-- webhooks.
pub record World : Type 0 where
  pub monitor_update_price : ℕ
  pub has_key : Bool
  pub more : ℕ
  pub ask : ℕ → String → Option (String × Usage)
  pub post : String → Payload → Option Bool

abbrev pub Tick : Type 0 → Type 0
Tick Real = Option (Monitor Real × MonitorRun Real × Tables Real)

module _ {Real : Type 0} where
  -- `MonitorRun(...)` with what it has by default
  unfoldable pub new_run : Monitor Real → String → ℕ → MonitorRun Real
  new_run m status now = record {
    monitor_id = m.id;
    identifier = m.identifier;
    product = m.product;
    status = status;
    material = false;
    signals = [];
    memo = none;
    severity = "info";
    delivered_to = [];
    price_out_usd = 0;
    cost_in_data_usd = 0;
    cost_inference_usd = 0;
    cache_hit = false;
    gate_passed = none;
    error = none;
    ran_at = now;
  }

  -- The monitor after `_finalize`; the snapshot rolls the baseline.
  unfoldable pub rolled : Option (Snapshot Real) → String → ℕ → Monitor Real → Monitor Real
  unfolding snapshot_to_baseline
  rolled snapshot status now m = record m {
    last_run_at = some now;
    last_status = some status;
    next_run_at = some (now + microseconds m.interval_seconds);
    baseline = elim snapshot [ none ↦ m.baseline | some s ↦ some (snapshot_to_baseline s) ];
  }

  unfoldable pub finalize :
      Iso
      → Monitor Real
      → MonitorRun Real
      → Tables Real
      → ℕ
      → Option (Snapshot Real)
      → Bool
      → Monitor Real × MonitorRun Real × Tables Real
  unfolding rolled save_monitor record_monitor_run
  finalize T m run tables now snapshot persist =
      let after = rolled snapshot run.status now m in
      (
        after,
        run,
        if persist then save_monitor (to_row T after) (record_monitor_run run tables) else tables,
      )

module _ (F : Floats) (U : Unicode) (T : Iso) (world : World) where
  -- The run of a material change, before and after its delivery.
  unfoldable pub written :
      MonitorRun F.Real → MaterialityVerdict F.Real → UpdateResult → MonitorRun F.Real
  unfolding to_micro inference_cost_usd
  written run verdict update = record run {
    status = "material";
    material = true;
    signals = verdict.published;
    severity = verdict.severity;
    memo = some update.memo;
    gate_passed = some update.gate.passed;
    cost_inference_usd = to_micro (inference_cost_usd update.usages);
    price_out_usd = world.monitor_update_price;
  }

  -- `none` where the delivery to a channel raised
  unfoldable pub delivered :
      Bool → Monitor F.Real → Snapshot F.Real → MonitorRun F.Real → Option (MonitorRun F.Real)
  unfolding build_channels deliver_all build_payload
  delivered false m snapshot run = some run
  delivered true m snapshot run =
      let channels = build_channels U m.channels in
      if is_nil channels
      then some run
      else elim (deliver_all world.post channels
          (build_payload T m run (map (λ f. citation f) snapshot.facts))) [
            | none ↦ none
            | some names ↦ some (record run { delivered_to = names })
          ]

  unfoldable pub publish :
      Bool
      → Monitor F.Real
      → Snapshot F.Real
      → MonitorRun F.Real
      → MaterialityVerdict F.Real
      → Option (MonitorRun F.Real)
  unfolding written delivered synthesize_update
  publish deliver m snapshot run verdict = delivered deliver m snapshot (
      written run verdict
        (synthesize_update F U snapshot verdict.published verdict.severity m.mode world.ask
          world.has_key world.more).0)

  -- Steps 3 and 4: the verdict on what the crew saw.
  unfoldable pub judged :
      Bool
      → Bool
      → ℕ
      → Monitor F.Real
      → Snapshot F.Real
      → MonitorRun F.Real
      → Tables F.Real
      → List (Signal F.Real)
      → Tick F.Real
  unfolding assess publish finalize
  judged deliver persist now m snapshot run tables signals =
      let verdict = assess T now m.cooldown_seconds signals m.severity_floor m.cooldowns in
      let m' = record m { cooldowns = verdict.cooldowns } in
      if verdict.material
      then elim (publish deliver m' snapshot run verdict) [
        | none ↦ none
        | some run' ↦ some (finalize T m' run' tables now (some snapshot) persist)
      ]
      else some (finalize T m' run tables now (some snapshot) persist)

  -- Steps 2 to 4: the first run sets the baseline.
  unfoldable pub compared :
      Bool
      → Bool
      → ℕ
      → Monitor F.Real
      → Snapshot F.Real
      → MonitorRun F.Real
      → Tables F.Real
      → Tick F.Real
  unfolding diff_snapshots evaluate_all judged finalize
  compared deliver persist now m snapshot run tables =
      let diff = diff_snapshots m.baseline snapshot in
      if diff.is_first_run
      then some
          (finalize T m (record run { status = "baseline" }) tables now (some snapshot) persist)
      else elim (evaluate_all F m.triggers diff) [
        | none ↦ none
        | some signals ↦ judged deliver persist now m snapshot run tables signals
      ]

  unfoldable pub run_monitor_once :
      Bool → Bool → ℕ → Monitor F.Real → Gathered F.Real → Tables F.Real → Tick F.Real
  unfolding new_run compared finalize to_micro
  run_monitor_once deliver persist now m (crashed e) tables = none
  run_monitor_once deliver persist now m (failed e) tables =
      some
        (finalize T m (record (new_run m "error" now) { error = some e }) tables now none persist)
  run_monitor_once deliver persist now m (gathered snapshot cost hit) tables =
      compared deliver persist now m snapshot
        (record (new_run m "quiet" now) { cost_in_data_usd = to_micro cost; cache_hit = hit })
        tables
