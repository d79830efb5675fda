-- ===== src/Monitors/Models.antt =====
-- src/jim/monitors/models.py: monitors, trigger specs, signals and runs. Times are microseconds
-- since the epoch, amounts nano-dollars, values floats of the runtime.
pub mod Rows
use jim_agent.Prelude.{
  ℕ, ◌*◌, String, Bool, true, false, Option, none, some, List, [], ◌∷◌, str_eq, leb, if◌then◌else◌,
}
use jim_agent.Prelude.Dict.{Dict}
use jim_agent.Prelude.Int.{ℤ, pos, ◌-ℤ◌}

-- `SEVERITIES.index(severity)`, 0 for any other text
unfoldable pub severity_rank : String → ℕ
severity_rank severity =
    if str_eq severity "critical" then 2 else if str_eq severity "notable" then 1 else 0

-- What the params of a trigger hold: JSON's null, a number, a text or a list of texts.
pub data Param (Real : Type 0) : Type 0 where
  null : Param Real
  numeric : Real → Param Real
  text : String → Param Real
  texts : List String → Param Real

pub record TriggerSpec (Real : Type 0) : Type 0 where
  pub kind : String
  pub params : Dict (Param Real)

pub record Signal (Real : Type 0) : Type 0 where
  pub kind : String
  pub key : String
  pub label : String
  pub severity : String
  pub summary : String
  pub citation_ids : List String
  pub old_value : Option Real
  pub new_value : Option Real
  pub pct_change : Option Real
  pub direction : Option String

-- One entry of a baseline's facts, and the baseline.
pub record BaseFact (Real : Type 0) : Type 0 where
  pub value : Real
  pub unit : String
  pub id : String
  pub accession : Option String

pub record Baseline (Real : Type 0) : Type 0 where
  pub as_of : Option String
  pub facts : Dict (BaseFact Real)
  pub accessions : List String

-- An empty baseline is `none`.
pub record Monitor (Real : Type 0) : Type 0 where
  pub id : String
  pub product : String
  pub identifier : String
  pub mode : String
  pub interval_seconds : ℕ
  pub triggers : List (TriggerSpec Real)
  pub channels : List String
  pub cooldown_seconds : ℕ
  pub severity_floor : String
  pub enabled : Bool
  pub label : Option String
  pub baseline : Option (Baseline Real)
  pub cooldowns : Dict String
  pub created_at : ℕ
  pub last_run_at : Option ℕ
  pub next_run_at : Option ℕ
  pub last_status : Option String

abbrev pub microseconds : ℕ → ℕ
microseconds seconds = seconds * 1000000

unfoldable pub due : {Real : Type 0} → Monitor Real → ℕ → Bool
due m now =
    if m.enabled then elim m.next_run_at [ none ↦ true | some next ↦ leb next now ] else false

pub record MonitorRun (Real : Type 0) : Type 0 where
  pub monitor_id : String
  pub identifier : String
  pub product : String
  pub status : String
  pub material : Bool
  pub signals : List (Signal Real)
  pub memo : Option String
  pub severity : String
  pub delivered_to : List String
  pub price_out_usd : ℕ
  pub cost_in_data_usd : ℕ
  pub cost_inference_usd : ℕ
  pub cache_hit : Bool
  pub gate_passed : Option Bool
  pub error : Option String
  pub ran_at : ℕ

unfoldable pub margin_usd : {Real : Type 0} → MonitorRun Real → ℤ
margin_usd r = pos r.price_out_usd -ℤ pos r.cost_in_data_usd -ℤ pos r.cost_inference_usd
