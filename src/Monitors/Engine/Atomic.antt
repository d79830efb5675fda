-- ===== src/Monitors/Engine/Atomic.antt =====
-- A due monitor's turn is all or nothing.
use jim_agent.Prelude.{ℕ, ◌+◌, ◌≡◌, ◌⊎◌, String, Bool, some}
use jim_agent.Prelude.Runtime.{Floats, Unicode, Iso}
use jim_agent.Store.MonitorTables.{Tables, save_monitor, record_monitor_run}
use jim_agent.Monitors.Models.{Monitor, MonitorRun, microseconds}
use jim_agent.Monitors.Models.Rows.{MonitorRow, to_row, from_row}
use jim_agent.Monitors.Engine.{World, Gathered}
use jim_agent.Monitors.Engine.Scheduler.{error_run}

module _ (F : Floats) (U : Unicode) (T : Iso) (world : World) (deliver : Bool) (now : ℕ)
    (gather : String → String → Gathered F.Real) (message : MonitorRow F.Real → String) where
  -- What the turn of a row leaves.
  abbrev pub IsAtomic :
      MonitorRow F.Real → Tables F.Real → MonitorRun F.Real × Tables F.Real → Type 0
  IsAtomic row tables r =
      ((r.0 ≡ error_run F U T world row (message row) now) × (r.1 ≡ tables))
      ⊎ ((old : Monitor F.Real) × (m : Monitor F.Real) × (from_row T now row ≡ some old)
          × (m.id ≡ row.id)
          × (r.0.monitor_id ≡ row.id)
          × (r.1 ≡ save_monitor (to_row T m) (record_monitor_run r.0 tables))
          × (m.next_run_at ≡ some (now + microseconds old.interval_seconds))
          × (m.last_run_at ≡ some now)
          × (m.last_status ≡ some r.0.status))
