-- ===== src/Store/MonitorTables.antt =====
-- The monitor tables of `MemoryStore` of src/jim/store/repo.py. `R` is the row of a monitor, as far
-- as the table reads it, and runs are kept in the order in which they were recorded.
use jim_agent.Prelude.{
  ℕ, ◌+◌, String, Bool, true, false, ◌||◌, ◌*◌, ◌==◌, sort_by, first, Option, none, some, List, [],
  ◌∷◌, ◌++◌, map, keep, str_eq, leb, length, not, truthy, if◌then◌else◌,
}
use jim_agent.Prelude.Dict.{Dict, lookup, insert}
use jim_agent.Prelude.Int.{ℤ, pos, ◌+ℤ◌}
use jim_agent.Prelude.Runtime.{Iso}
use jim_agent.Interop.Trust.{round_div}
use jim_agent.Monitors.Diff.{text_lt}
use jim_agent.Monitors.Models.{MonitorRun, margin_usd}
use jim_agent.Monitors.Models.Rows.{MonitorRow}

pub record Tables (Real : Type 0) : Type 0 where
  pub monitors : Dict (MonitorRow Real)
  pub monitor_runs : List (MonitorRun Real)

-- `_summarize_monitor_runs`: the rate in ten-thousandths, as it is rounded. The amounts of a run are
-- whole micro-dollars, which rounding to six places leaves alone.
pub record MonitorStats : Type 0 where
  pub total_runs : ℕ
  pub updates_delivered : ℕ
  pub quiet_runs : ℕ
  pub baseline_runs : ℕ
  pub error_runs : ℕ
  pub materiality_rate : ℕ
  pub revenue_usd : ℕ
  pub data_cost_usd : ℕ
  pub inference_cost_usd : ℕ
  pub total_margin_usd : ℤ
  pub inference_saved_usd : ℕ

abbrev pub or_empty : Option String → String
or_empty none = ""
or_empty (some s) = s

-- `not nxt or nxt <= now`; `none` where the time is not an ISO time
unfoldable pub time_due : Iso → ℕ → Option String → Option Bool
time_due T now none = some true
time_due T now (some next) = elim (T.fromisoformat next) [ none ↦ none | some t ↦ some (leb t now) ]

module _ {Real : Type 0} where
  unfoldable pub save_monitor : MonitorRow Real → Tables Real → Tables Real
  save_monitor row t = record t { monitors = insert row.id row t.monitors }

  unfoldable pub get_monitor : String → Tables Real → Option (MonitorRow Real)
  get_monitor id t = lookup id t.monitors

  unfoldable pub without_key : String → Dict (MonitorRow Real) → Dict (MonitorRow Real)
  without_key k [] = []
  without_key k ((j, row) ∷ d) =
      let rest = without_key k d in if str_eq j k then rest else (j, row) ∷ rest

  unfoldable pub delete_monitor : String → Tables Real → Tables Real × Bool
  unfolding without_key
  delete_monitor id t = elim (lookup id t.monitors) [
    | none ↦ (t, false)
    | some row ↦ (record t { monitors = without_key id t.monitors }, true)
  ]

  -- `r.get("enabled", True)`
  abbrev pub is_enabled : MonitorRow Real → Bool
  is_enabled row = elim row.enabled [ none ↦ true | some b ↦ b ]

  unfoldable pub record_monitor_run : MonitorRun Real → Tables Real → Tables Real
  record_monitor_run run t = record t { monitor_runs = t.monitor_runs ++ run ∷ [] }

  -- Whether an enabled row is due.
  unfoldable pub row_due : Iso → ℕ → MonitorRow Real → Option Bool
  unfolding time_due
  row_due T now row = if is_enabled row then time_due T now row.next_run_at else some false

  unfoldable pub due_rows : Iso → ℕ → Dict (MonitorRow Real) → Option (List (MonitorRow Real))
  unfolding row_due
  due_rows T now [] = some []
  due_rows T now ((id, row) ∷ d) =
      let rest = due_rows T now d in
      elim (row_due T now row) [
        | none ↦ none
        | some false ↦ rest
        | some true ↦ elim rest [ none ↦ none | some rows ↦ some (row ∷ rows) ]
      ]

  unfoldable pub due_monitors : Iso → ℕ → Tables Real → Option (List (MonitorRow Real))
  unfolding due_rows text_lt
  due_monitors T now t = elim (due_rows T now t.monitors) [
    | none ↦ none
    | some rows ↦ some (
        sort_by
          (λ (a b : MonitorRow Real). text_lt (or_empty a.next_run_at) (or_empty b.next_run_at))
          rows)
  ]

  unfoldable pub list_monitors : Bool → Tables Real → List (MonitorRow Real)
  unfolding text_lt
  list_monitors enabled_only t =
      let rows : List (MonitorRow Real) = map (λ e. e.1) t.monitors in
      sort_by (λ (a b : MonitorRow Real). text_lt (or_empty a.created_at) (or_empty b.created_at))
        (if enabled_only then keep is_enabled rows else rows)

  -- The latest runs first.
  unfoldable pub monitor_feed :
      Iso → ℕ → Option String → Bool → Tables Real → List (MonitorRun Real)
  unfolding text_lt
  monitor_feed T limit monitor_id material_only t =
      let of_monitor = λ (r : MonitorRun Real).
        not (truthy (or_empty monitor_id)) || str_eq r.monitor_id (or_empty monitor_id) in
      let shown_run = λ (r : MonitorRun Real). not material_only || r.material in
      first limit (
        sort_by (λ (a b : MonitorRun Real). text_lt (T.isoformat b.ran_at) (T.isoformat a.ran_at))
          (keep shown_run (keep of_monitor t.monitor_runs)))

  abbrev pub total : (MonitorRun Real → ℕ) → List (MonitorRun Real) → ℕ
  total amount [] = 0
  total amount (r ∷ rs) = amount r + total amount rs

  unfoldable pub total_margin : List (MonitorRun Real) → ℤ
  unfolding margin_usd ◌+ℤ◌
  total_margin [] = pos 0
  total_margin (r ∷ rs) = margin_usd r +ℤ total_margin rs

  abbrev pub with_status : String → List (MonitorRun Real) → List (MonitorRun Real)
  with_status s = keep (λ (r : MonitorRun Real). str_eq r.status s)

  abbrev pub material_runs : List (MonitorRun Real) → List (MonitorRun Real)
  material_runs = keep (λ (r : MonitorRun Real). r.material)

  -- `_summarize_monitor_runs`
  unfoldable pub monitor_stats : Tables Real → MonitorStats
  unfolding total_margin round_div
  monitor_stats t =
      let runs = t.monitor_runs in
      let n_mat = length (material_runs runs) in
      let spent = total (λ r. r.cost_inference_usd) (material_runs runs) in
      record {
        total_runs = length runs;
        updates_delivered = n_mat;
        quiet_runs = length (with_status "quiet" runs);
        baseline_runs = length (with_status "baseline" runs);
        error_runs = length (with_status "error" runs);
        materiality_rate = if length runs == 0 then 0 else round_div (n_mat * 10000) (length runs);
        revenue_usd = total (λ r. r.price_out_usd) (material_runs runs);
        data_cost_usd = total (λ r. r.cost_in_data_usd) runs;
        inference_cost_usd = total (λ r. r.cost_inference_usd) runs;
        total_margin_usd = total_margin runs;
        inference_saved_usd =
            if n_mat == 0
            then 0
            else round_div (length (with_status "quiet" runs) * spent) (n_mat * 1000) * 1000;
      }
