-- ===== src/Monitors/Engine/Served.antt =====
-- Every due monitor gets its run.
use jim_agent.Prelude.{
  ℕ, ◌≡◌, refl, sym, ap, ◌∙◌, subst, String, Bool, true, false, Option, none, some, List, [], ◌∷◌,
  All, In, inl, inr, arith, str_eq, leb, is_some, from_some, sort_by, In-sort_by, Bool-cases,
  Option-cases, if◌then◌else◌,
}
use jim_agent.Prelude.Dict.{Dict, insert}
use jim_agent.Prelude.Runtime.{Floats, Unicode, Iso}
use jim_agent.Research.Facts.{Snapshot}
use jim_agent.Store.MonitorTables.{
  Tables, time_due, row_due, due_rows, due_monitors, or_empty, save_monitor,
}
use jim_agent.Monitors.Diff.{diff_snapshots, text_lt}
use jim_agent.Monitors.Models.{Monitor, MonitorRun, Signal, due}
use jim_agent.Monitors.Models.Rows.{MonitorRow, to_row, from_row, parse_dt, iso}
use jim_agent.Monitors.Triggers.Crew.{evaluate_all}
use jim_agent.Monitors.Materiality.{assess}
use jim_agent.Monitors.Engine.{
  World, Gathered, gathered, failed, crashed, finalize, written, delivered, publish, judged,
  compared, new_run, run_monitor_once, Tick,
}
use jim_agent.Monitors.Engine.Scheduler.{run_row, run_rows, tick, error_run}

module _ (F : Floats) where
  -- One of the runs is of this monitor.
  abbrev pub IsServed : String → List (MonitorRun F.Real) → Type 0
  IsServed id runs = (run : MonitorRun F.Real) × In run runs × (run.monitor_id ≡ id)

  -- The run is the monitor's.
  abbrev Ran : String → Tick F.Real → Type 0
  Ran id none = Unit
  Ran id (some r) = r.1.monitor_id ≡ id

module _ (F : Floats) (U : Unicode) (T : Iso) (world : World) (deliver persist : Bool)
    (now : ℕ) where
  -- A run that comes through a delivery is of the same monitor.
  delivered-Same :
      (m : Monitor F.Real) (s : Snapshot F.Real) (run : MonitorRun F.Real)
      (after : MonitorRun F.Real)
      → delivered F U T world deliver m s run ≡ some after
      → after.monitor_id ≡ run.monitor_id
  unfolding delivered
  delivered-Same m s run after h = ground arith

  judged-Ran :
      (m : Monitor F.Real) (s : Snapshot F.Real) (run : MonitorRun F.Real) (tables : Tables F.Real)
      (signals : List (Signal F.Real))
      → Ran F run.monitor_id (judged F U T world deliver persist now m s run tables signals)
  unfolding judged finalize publish written
  judged-Ran m s run tables signals =
      let v = assess T now m.cooldown_seconds signals m.severity_floor m.cooldowns in
      let m' = record m { cooldowns = v.cooldowns } in
      elim (Bool-cases v.material) [
        | inl e ↦ elim (Option-cases (publish F U T world deliver m' s run v)) [
          | inl raised ↦ rw (e, raised, judged) tt
          | inr (run', p) ↦ rw (e, p, judged) (delivered-Same m' s _ run' p)
        ]
        | inr e ↦ rw (e, judged) refl
      ]

  compared-Ran :
      (m : Monitor F.Real) (s : Snapshot F.Real) (run : MonitorRun F.Real) (tables : Tables F.Real)
      → Ran F run.monitor_id (compared F U T world deliver persist now m s run tables)
  unfolding compared finalize
  compared-Ran m s run tables =
      let diff = diff_snapshots m.baseline s in
      elim (Bool-cases diff.is_first_run) [
        | inl first ↦ rw (first, compared) refl
        | inr later ↦ elim (Option-cases (evaluate_all F m.triggers diff)) [
          | inl e ↦ rw (later, e, compared) tt
          | inr (signals, e) ↦ rw (later, e, compared) (judged-Ran m s run tables signals)
        ]
      ]

  run_monitor_once-Ran :
      (m : Monitor F.Real) (g : Gathered F.Real) (tables : Tables F.Real)
      → Ran F m.id (run_monitor_once F U T world deliver persist now m g tables)
  unfolding run_monitor_once finalize new_run
  run_monitor_once-Ran m (gathered s cost hit) tables = compared-Ran m s _ tables
  run_monitor_once-Ran m (failed e) tables = refl
  run_monitor_once-Ran m (crashed e) tables = tt

abbrev pub Names : {Real : Type 0} → String → Option (Monitor Real) → Type 0
Names id none = Unit
Names id (some m) = m.id ≡ id

pub from_row-Names :
    {Real : Type 0} (T : Iso) (now : ℕ) (row : MonitorRow Real) → Names row.id (from_row T now row)
unfolding from_row
from_row-Names T now row = elim (Option-cases (parse_dt T row.created_at)) [
  | inl e ↦ rw (e, from_row) tt
  | inr (c, e) ↦ elim (Option-cases (parse_dt T row.last_run_at)) [
    | inl g ↦ rw (e, g, from_row) tt
    | inr (l, g) ↦ elim (Option-cases (parse_dt T row.next_run_at)) [
      | inl h ↦ rw (e, g, h, from_row) tt
      | inr (n, h) ↦ rw (e, g, h, from_row) refl
    ]
  ]
]

module _ (F : Floats) (U : Unicode) (T : Iso) (world : World) (deliver : Bool) (now : ℕ)
    (gather : String → String → Gathered F.Real) (message : MonitorRow F.Real → String) where
  pub run_row-id :
      (row : MonitorRow F.Real) (tables : Tables F.Real)
      → (run_row F U T world deliver now gather message row tables).0.monitor_id ≡ row.id
  unfolding run_row error_run
  run_row-id row tables = elim (Option-cases (from_row T now row)) [
    | inl e ↦ rw (e, run_row) refl
    | inr (m, e) ↦
        let id : m.id ≡ row.id = subst (Names row.id) e (from_row-Names T now row) in
        let g = gather m.product m.identifier in
        elim (Option-cases (run_monitor_once F U T world deliver true now m g tables)) [
          | inl h ↦ rw (e, h, run_row) refl
          | inr (r, h) ↦
              rw (e, h, run_row)
                (subst (Ran F m.id) h (run_monitor_once-Ran F U T world deliver true now m g tables)
                  ∙ id)
        ]
  ]

  run_rows_lem :
      (rows : List (MonitorRow F.Real)) (tables : Tables F.Real) (row : MonitorRow F.Real)
      → In row rows
      → IsServed F row.id (run_rows F U T world deliver now gather message rows tables).0
  unfolding run_rows
  run_rows_lem [] tables row i = absurd i
  run_rows_lem (r ∷ rows) tables row (inl e) = (
    (run_row F U T world deliver now gather message r tables).0,
    inl refl,
    run_row-id r tables ∙ sym (ap (λ (x : MonitorRow F.Real). x.id) e),
  )
  run_rows_lem (r ∷ rows) tables row (inr i) =
      let (run, place, id) =
        run_rows_lem rows (run_row F U T world deliver now gather message r tables).1 row i in
      (run, inr place, id)

time_due-iso :
    (T : Iso) (now : ℕ) (b : Bool) (o : Option ℕ)
    → ((t : ℕ) → T.fromisoformat (T.isoformat t) ≡ some t)
    → (if b then elim o [ none ↦ true | some next ↦ leb next now ] else false) ≡ true
    → (if b then time_due T now (iso T o) else some false) ≡ some true
unfolding time_due iso
time_due-iso T now true none law h = refl
time_due-iso T now true (some t) law h = rw (law t, h) refl
time_due-iso T now false o law h = absurd cc

module _ {Real : Type 0} (T : Iso) (now : ℕ) where
  -- A row whose time can be read.
  abbrev pub IsReadable : MonitorRow Real → Type 0
  IsReadable row = is_some (row_due T now row) ≡ true

  -- What is taken into the list of due rows.
  taken :
      (row : MonitorRow Real) (id : String) (d : Dict (MonitorRow Real)) (b : Bool)
      (rows : List (MonitorRow Real))
      → row_due T now row ≡ some b
      → due_rows T now d ≡ some rows
      → due_rows T now ((id, row) ∷ d) ≡ some (if b then row ∷ rows else rows)
  unfolding due_rows
  taken row id d true rows e h = rw (e, h, due_rows) refl
  taken row id d false rows e h = rw (e, h, due_rows) refl

  -- If every time can be read, there is a list, and each due row stands in it.
  abbrev Collects : Dict (MonitorRow Real) → List (MonitorRow Real) → Type 0
  Collects d rows =
      (due_rows T now d ≡ some rows)
      × ((id : String) (row : MonitorRow Real)
          → In (id, row) d
          → row_due T now row ≡ some true
          → In row rows)

  due_rows_lem :
      (d : Dict (MonitorRow Real))
      → All (λ e. IsReadable e.1) d
      → (rows : List (MonitorRow Real)) × Collects d rows
  unfolding due_rows
  due_rows_lem [] h = ([], (refl, λ id row i e. absurd i))
  due_rows_lem ((id, row) ∷ d) (here, h) =
      let (rows, (e, inside)) = due_rows_lem d h in
      let (b, due_here) = from_some here in
      (
        (if b then row ∷ rows else rows),
        (taken row id d b rows due_here e, joined id row d b rows due_here inside),
      )
    where
      joined :
          (id : String) (row : MonitorRow Real) (d : Dict (MonitorRow Real)) (b : Bool)
          (rows : List (MonitorRow Real))
          → row_due T now row ≡ some b
          → ((id' : String) (row' : MonitorRow Real)
              → In (id', row') d
              → row_due T now row' ≡ some true
              → In row' rows)
          → (id' : String) (row' : MonitorRow Real) → In (id', row') ((id, row) ∷ d)
          → row_due T now row' ≡ some true
          → In row' (if b then row ∷ rows else rows)
      joined id row d true rows here inside id' row' (inl e) h = inl (ap (λ x. x.1) e)
      joined id row d true rows here inside id' row' (inr i) h = inr (inside id' row' i h)
      joined id row d false rows here inside id' row' (inr i) h = inside id' row' i h
      joined id row d false rows here inside id' row' (inl e) h =
          let same : row_due T now row ≡ some true =
            rw (← ap (λ (x : String × MonitorRow Real). x.1) e) h in
          absurd cc

  row_due-to_row :
      (m : Monitor Real)
      → ((t : ℕ) → T.fromisoformat (T.isoformat t) ≡ some t)
      → due m now ≡ true
      → row_due T now (to_row T m) ≡ some true
  unfolding row_due to_row due
  row_due-to_row m law h = time_due-iso T now m.enabled m.next_run_at law h

module _ {V : Type 0} where
  In-insert : (k : String) (v : V) (d : Dict V) → In (k, v) (insert k v d)
  unfolding insert
  In-insert k v [] = inl refl
  In-insert k v ((j, w) ∷ d) = elim (Bool-cases (str_eq j k)) [
    | inl e ↦ rw e (inl refl)
    | inr e ↦ rw e (inr (In-insert k v d))
  ]

  All-insert :
      (P : String × V → Type 0) (k : String) (v : V) (d : Dict V)
      → P (k, v)
      → All P d
      → All P (insert k v d)
  unfolding insert
  All-insert P k v [] here h = (here, tt)
  All-insert P k v ((j, w) ∷ d) here (first, h) = elim (Bool-cases (str_eq j k)) [
    | inl e ↦ rw e (here, h)
    | inr e ↦ rw e (first, All-insert P k v d here h)
  ]

module _ (F : Floats) (U : Unicode) (T : Iso) (world : World) (deliver : Bool) (now : ℕ)
    (gather : String → String → Gathered F.Real) (message : MonitorRow F.Real → String) where
  -- No due monitor is passed over: if the times in the table can be read, the tick after a monitor
  -- that is enabled and due was saved returns, and one of its runs is of that monitor, whatever the other
  -- monitors, the sources and the models do. Times are read back from their ISO form.
  pub tick-IsServed :
      (m : Monitor F.Real) (tables : Tables F.Real)
      → ((t : ℕ) → T.fromisoformat (T.isoformat t) ≡ some t)
      → due m now ≡ true
      → All (λ e. IsReadable T now e.1) tables.monitors
      → (r : List (MonitorRun F.Real) × Tables F.Real) × (tick F U T world deliver now gather
            message
            (save_monitor (to_row T m) tables)
          ≡ some r)
        × IsServed F m.id r.0
  unfolding tick due_monitors save_monitor to_row
  tick-IsServed m tables law is_due readable =
      let row = to_row T m in
      let saved = save_monitor row tables in
      let e_due = row_due-to_row T now m law is_due in
      let all =
        All-insert (λ e. IsReadable T now e.1) row.id row tables.monitors (rw e_due refl)
          readable in
      let (rows, (e, inside)) = due_rows_lem T now saved.monitors all in
      let in_rows = inside row.id row (In-insert row.id row tables.monitors) e_due in
      let by_time =
        λ (a b : MonitorRow F.Real). text_lt (or_empty a.next_run_at) (or_empty b.next_run_at) in
      let sorted = sort_by by_time rows in
      let runs = run_rows F U T world deliver now gather message sorted saved in
      (
        runs,
        rw (e, tick, due_monitors) refl,
        run_rows_lem F U T world deliver now gather message sorted saved row
            (In-sort_by by_time row rows in_rows),
      )
