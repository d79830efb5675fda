-- ===== src/Tests/Polling.antt =====
-- Monitors at concrete inputs.
use jim_agent.Prelude.{
  ℕ, suc, ◌≤◌, String, ◌≡◌, ◌≢◌, refl, true, false, Option, none, some, List, [], ◌∷◌, arith, ◌*◌,
  length, if◌then◌else◌,
}
use jim_agent.Prelude.Dict.{lookup, insert}
use jim_agent.Prelude.Int.{ℤ, pos, ◌-ℤ◌, ◌*ℤ◌}
use jim_agent.Research.Facts.{Fact, Snapshot}
use jim_agent.Research.Cost.{Usage}
use jim_agent.Store.MonitorTables.{Tables, save_monitor}
use jim_agent.Monitors.Models.{
  Monitor, MonitorRun, Signal, TriggerSpec, due, severity_rank, text, numeric,
}
use jim_agent.Monitors.Models.Rows.{MonitorRow, to_row, from_row, from_row-to_row}
use jim_agent.Monitors.Diff.{diff_snapshots, snapshot_to_baseline, first_diff}
use jim_agent.Monitors.Materiality.{assess, sort, is_held, is_cooling}
use jim_agent.Monitors.Materiality.Cooling.{fired, IsExact, assess-IsExact, not_repeated}
use jim_agent.Monitors.Notify.{ok, verify_delivery, sign_delivery, check_fresh}
use jim_agent.Monitors.Notify.Replays.{Delivery, verified, seen_after, replay_refused}
use jim_agent.Monitors.Update.{synthesize_update}
use jim_agent.Monitors.Update.Checked.{IsChecked, synthesize_update-IsChecked}
use jim_agent.Monitors.Engine.{
  World, Gathered, gathered, failed, new_run, finalize, compared, run_monitor_once,
}
use jim_agent.Monitors.Engine.Ticks.{IsSaved, tick-IsSaved}
use jim_agent.Monitors.Engine.Economics.{IsFree, quiet-IsFree}
use jim_agent.Monitors.Engine.Scheduler.{tick}
use jim_agent.Monitors.Engine.Served.{IsServed, tick-IsServed}
use jim_agent.Tests.Ascii.{ascii}
use jim_agent.Tests.Clock.{strokes_iso, reads_back}
use jim_agent.Tests.Milli.{milli}

abbrev price_fact : ℕ → Fact ℤ
price_fact cents = record {
  id = "C1";
  label = "Price";
  value = pos (cents * 10);
  unit = "USD/shares";
  source_label = none;
  concept = none;
  accession = none;
  form = none;
  fiscal_year = none;
  fiscal_period = none;
  filed = none;
  period_end = none;
  source_url = none;
  is_derived = false;
  derived_from = [];
  formula = none;
}

abbrev pub priced : ℕ → Snapshot ℤ
priced cents = record {
  ticker = "AAPL";
  cik = "0000320193";
  entity_name = "Apple Inc.";
  facts = price_fact cents ∷ [];
  as_of = none;
  origins = [];
}

-- A watch on the price, with the param of the level a text that is no number.
abbrev bad_level : TriggerSpec ℤ
bad_level = record {
  kind = "threshold";
  params = ("label", text "Price") ∷ ("above", text "high") ∷ [];
}

abbrev watch : TriggerSpec ℤ
watch = record { kind = "price_move"; params = ("pct", numeric (pos 5000)) ∷ [] }

abbrev monitor : TriggerSpec ℤ → Option (Snapshot ℤ) → Monitor ℤ
monitor trigger last = record {
  id = "fund-aapl-1";
  product = "fundamentals";
  identifier = "AAPL";
  mode = "agent";
  interval_seconds = 60;
  triggers = trigger ∷ [];
  channels = "console" ∷ [];
  cooldown_seconds = 30;
  severity_floor = "info";
  enabled = true;
  label = none;
  baseline = elim last [ none ↦ none | some s ↦ some (snapshot_to_baseline s) ];
  cooldowns = [];
  created_at = 1;
  last_run_at = none;
  next_run_at = some 2;
  last_status = none;
}

abbrev signal : String → String → Signal ℤ
signal key severity = record {
  kind = "price_move";
  key = key;
  label = "Price";
  severity = severity;
  summary = "";
  citation_ids = "C1" ∷ [];
  old_value = none;
  new_value = none;
  pct_change = none;
  direction = none;
}

abbrev batch : List (Signal ℤ)
batch = signal "p" "notable" ∷ signal "q" "info" ∷ signal "p" "critical" ∷ []

abbrev tables : Tables ℤ
tables = record { monitors = []; monitor_runs = [] }

abbrev world : World
world = record {
  monitor_update_price = 20_000_000;
  has_key = false;
  more = 1;
  ask = λ n prompt. none;
  post = λ url payload. some true;
}

from_row-to_row_example :
    from_row strokes_iso 9 (to_row strokes_iso (monitor watch none)) ≡ some (monitor watch none)
from_row-to_row_example = from_row-to_row strokes_iso reads_back 9 (monitor watch none) (λ e. cc)

assess-IsExact_example :
    IsExact strokes_iso 5 30 batch "notable" [] (assess strokes_iso 5 30 batch "notable" [])
assess-IsExact_example = assess-IsExact strokes_iso 5 30 batch "notable" []

not_repeated_example :
    fired "p"
      (assess strokes_iso 7 30 batch "info"
        (assess strokes_iso 5 30 batch "notable" []).cooldowns).published
    ≡ false
unfolding assess sort is_held is_cooling severity_rank lookup insert
not_repeated_example =
    not_repeated strokes_iso 5 30 batch batch "notable" "info" [] 7 "p" refl refl (omega arith)
      (omega arith) refl

-- A stand-in for the HMAC and the reading of integers.
abbrev mac : String → String → String
mac secret message = message

abbrev to_int : String → Option ℤ
to_int s = some (pos 100)

abbrev delivery : String → String → String → ℤ → Delivery
delivery body signature nonce now = record {
  body = body;
  signature = some signature;
  timestamp = some "100";
  nonce = some nonce;
  tolerance = 300;
  now = now;
}

abbrev genuine : Delivery
genuine = delivery "body" "sha256=100.n1.body" "n1" (pos 100_000_000)

abbrev next_one : Delivery
next_one = delivery "more" "sha256=100.n2.more" "n2" (pos 100_500_000)

abbrev replayed : Delivery
replayed = delivery "body" "sha256=100.n1.body" "n1" (pos 101_000_000)

replay_refused_example :
    (verified mac to_int "key" replayed (
      seen_after mac to_int "key"
        (next_one ∷ [])
        (verified mac to_int "key" genuine (some [])).1)).0
    ≢ ok
unfolding verify_delivery sign_delivery check_fresh ◌-ℤ◌ ◌*ℤ◌
replay_refused_example =
    replay_refused mac to_int "key" genuine [] (next_one ∷ []) replayed refl refl

abbrev reply : ℕ → String → Option (String × Usage)
reply n prompt =
    some ("Price is $2.00 [C1].", record { model = "m"; input_tokens = 9; output_tokens = 9 })

synthesize_update-IsChecked_example :
    let (u, calls) =
      synthesize_update milli ascii (priced 200) batch "notable" "agent" reply true 1 in
    IsChecked milli ascii (priced 200) batch "notable" "agent" reply u
    × (calls ≤ (if true then suc 1 else 0))
    × (length u.usages ≤ calls)
synthesize_update-IsChecked_example =
    synthesize_update-IsChecked milli ascii (priced 200) batch "notable" "agent" reply true 1

-- The rest of a run that failed, and of a first one.
abbrev failing_run : MonitorRun ℤ
failing_run = record (new_run (monitor watch none) "error" 5) { error = some "timeout" }

abbrev first_run : MonitorRun ℤ
first_run = record (new_run (monitor watch none) "baseline" 5) {
  cost_in_data_usd = 0;
  cache_hit = true;
}

tick-IsSaved_example :
    IsSaved milli ascii strokes_iso world true true 5
      (monitor watch none)
      (failed "timeout")
      tables
      (finalize strokes_iso (monitor watch none) failing_run tables 5 none true)
unfolding run_monitor_once
tick-IsSaved_example =
    tick-IsSaved milli ascii strokes_iso world true true 5 (monitor watch none) (failed "timeout")
      tables (finalize strokes_iso (monitor watch none) failing_run tables 5 none true) refl

quiet-IsFree_example :
    IsFree (finalize strokes_iso (monitor watch none) first_run tables 5 (some (priced 100)) true).1
unfolding run_monitor_once compared diff_snapshots first_diff new_run finalize
quiet-IsFree_example =
    quiet-IsFree milli ascii strokes_iso world true true 5 (monitor watch none)
      (gathered (priced 100) 0 true) tables
      (finalize strokes_iso (monitor watch none) first_run tables 5 (some (priced 100)) true) refl
      refl

tick-IsServed_example :
    (r : List (MonitorRun ℤ) × Tables ℤ) × (tick milli ascii strokes_iso world true 9
        (λ product identifier. failed "down")
        (λ row. "")
        (save_monitor (to_row strokes_iso (monitor watch none)) tables)
      ≡ some r)
    × IsServed milli "fund-aapl-1" r.0
unfolding due
tick-IsServed_example =
    tick-IsServed milli ascii strokes_iso world true 9 (λ product identifier. failed "down")
      (λ row. "") (monitor watch none) tables reads_back refl tt

-- A monitor whose trigger raises, with its price moved since the last run.
abbrev raising : MonitorRow ℤ
raising = to_row strokes_iso (monitor bad_level (some (priced 100)))

abbrev message : MonitorRow ℤ → String
message row = "could not convert string to float"

abbrev risen : String → String → Gathered ℤ
risen product identifier = gathered (priced 120) 0 true
