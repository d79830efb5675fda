-- ===== src/Tests/Creating.antt =====
-- Monitors as they are created.
use jim_agent.Prelude.{String, ◌≡◌, refl, true, false, none, some, [], ◌∷◌, append}
use jim_agent.Prelude.Int.{ℤ, pos}
use jim_agent.Prelude.Json.{Json}
use jim_agent.Prelude.Regex.{has_code}
use jim_agent.Monitors.Authoring.Watch.{
  MonitorSettings, seconds, written, duration_re, parse_interval, every_re,
}
use jim_agent.Monitors.Authoring.Watch.Create.{MonitorArgs, create_monitor}
use jim_agent.Monitors.Authoring.Watch.Ready.{IsWatchful, create_monitor-IsWatchful}
use jim_agent.Monitors.Diff.{diff_snapshots}
use jim_agent.Monitors.Models.{Monitor, text, numeric}
use jim_agent.Tests.Ascii.{ascii}
use jim_agent.Tests.Milli.{milli}
use jim_agent.Tests.Polling.{priced}

abbrev settings : MonitorSettings ℤ
settings = record {
  price_move_pct = pos 5000;
  metric_change_pct = pos 10000;
  rsi_overbought = pos 70000;
  rsi_oversold = pos 30000;
  default_interval_seconds = 86400;
  cooldown_seconds = 21600;
  default_mode = "agent";
}

abbrev str : Json ℤ → String
str x = ""

abbrev id_of : String → String → String
id_of product identifier = append product identifier

abbrev args : MonitorArgs
args = record {
  identifier = "aapl";
  product = none;
  mode = none;
  every = some (written "30m");
  watch = "price:7" ∷ "threshold:Price:100" ∷ [];
  describe = none;
  channels = [];
  severity_floor = none;
  cooldown = some (seconds 60);
}

abbrev created : Monitor ℤ
created = record {
  id = "fundamentalsAAPL";
  product = "fundamentals";
  identifier = "AAPL";
  mode = "agent";
  interval_seconds = 1800;
  triggers =
      record {
        kind = "price_move";
        params = ("label", text "Price") ∷ ("pct", numeric (pos 7000)) ∷ [];
      }
      ∷ record {
        kind = "threshold";
        params = ("label", text "Price") ∷ ("above", numeric (pos 100000)) ∷ [];
      }
      ∷ [];
  channels = "console" ∷ [];
  cooldown_seconds = 60;
  severity_floor = "info";
  enabled = true;
  label = none;
  baseline = none;
  cooldowns = [];
  created_at = 4;
  last_run_at = none;
  next_run_at = none;
  last_status = none;
}

built : create_monitor milli ascii str settings id_of 4 false none args ≡ some created
unfolding create_monitor duration_re has_code
built = refl

every_two_hours : parse_interval ascii "Watch AAPL every 2 hours" ≡ some 7200
unfolding parse_interval every_re has_code
every_two_hours = refl

create_monitor-IsWatchful_example :
    IsWatchful milli ascii str settings (diff_snapshots none (priced 200)) created
create_monitor-IsWatchful_example =
    create_monitor-IsWatchful milli ascii str settings id_of 4 false none args
      (diff_snapshots none (priced 200)) created built
