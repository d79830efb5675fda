-- ===== src/Monitors/Engine/Scheduler.antt =====
-- `MonitorScheduler.tick` of src/jim/monitors/scheduler.py: every due monitor runs, and one that
-- raises does not stop the others. The runs are taken one after the other.
use jim_agent.Prelude.{ℕ, String, Bool, true, false, Option, none, some, List, [], ◌∷◌}
use jim_agent.Prelude.Runtime.{Floats, Unicode, Iso}
use jim_agent.Store.MonitorTables.{Tables, due_monitors}
use jim_agent.Monitors.Models.{MonitorRun}
use jim_agent.Monitors.Models.Rows.{MonitorRow, from_row}
use jim_agent.Monitors.Engine.{World, Gathered, run_monitor_once}

module _ (F : Floats) (U : Unicode) (T : Iso) (world : World) where
  -- What is reported of a monitor whose run raised; it is not recorded.
  unfoldable pub error_run : MonitorRow F.Real → String → ℕ → MonitorRun F.Real
  error_run row e now = record {
    monitor_id = row.id;
    identifier = row.identifier;
    product = row.product;
    status = "error";
    material = false;
    signals = [];
    memo = none;
    severity = "info";
    delivered_to = [];
    price_out_usd = 0;
    cost_in_data_usd = 0;
    cost_inference_usd = 0;
    cache_hit = false;
    gate_passed = none;
    error = some e;
    ran_at = now;
  }

  module _ (deliver : Bool) (now : ℕ) (gather : String → String → Gathered F.Real)
      (message : MonitorRow F.Real → String) where
    -- One due monitor: its run and the tables after it.
    unfoldable pub run_row : MonitorRow F.Real → Tables F.Real → MonitorRun F.Real × Tables F.Real
    unfolding run_monitor_once from_row error_run
    run_row row tables =
        let raised : MonitorRun F.Real × Tables F.Real =
          (error_run row (message row) now, tables) in
        elim (from_row T now row) [
          | none ↦ raised
          | some m ↦
              elim (run_monitor_once F U T world deliver true now m (gather m.product m.identifier)
                tables) [ none ↦ raised | some (m', run, after) ↦ (run, after) ]
        ]

    unfoldable pub run_rows :
        List (MonitorRow F.Real) → Tables F.Real → List (MonitorRun F.Real) × Tables F.Real
    unfolding run_row
    run_rows [] tables = ([], tables)
    run_rows (row ∷ rows) tables =
        let (run, after) = run_row row tables in
        let (runs, final) = run_rows rows after in (run ∷ runs, final)

    -- `none` where a stored time does not parse
    unfoldable pub tick : Tables F.Real → Option (List (MonitorRun F.Real) × Tables F.Real)
    unfolding due_monitors run_rows
    tick tables = elim (due_monitors T now tables) [
      | none ↦ none
      | some rows ↦ some (run_rows rows tables)
    ]
