-- ===== src/Monitors/Authoring/Watch/Create.antt =====
-- `propose_triggers` and `create_monitor`: the model's proposal where there is a key, and the monitor.
use jim_agent.Prelude.{
  ℕ, ◌==◌, String, Bool, true, false, Option, none, some, List, [], ◌∷◌, truthy, is_nil,
  if◌then◌else◌,
}
use jim_agent.Prelude.Json.{Json, Items, Members, find}
use jim_agent.Prelude.Runtime.{Floats, Unicode}
use jim_agent.Monitors.Authoring.{validate_triggers}
use jim_agent.Monitors.Authoring.Watch.{
  MonitorSettings, Duration, parse_interval, interval_of, detect_product,
}
use jim_agent.Monitors.Authoring.Watch.Build.{
  Spec, crew, or_crew, deterministic_triggers, parse_watches,
}
use jim_agent.Monitors.Models.{Monitor}

-- The arguments of `create_monitor`; an empty list or text counts as none.
pub record MonitorArgs : Type 0 where
  pub identifier : String
  pub product : Option String
  pub mode : Option String
  pub every : Option Duration
  pub watch : List String
  pub describe : Option String
  pub channels : List String
  pub severity_floor : Option String
  pub cooldown : Option Duration

-- `x or d` of an optional text
abbrev pub text_or : String → Option String → String
text_or d none = d
text_or d (some s) = if truthy s then s else d

-- The description, where it is not empty.
abbrev pub described_by : Option String → Option String
described_by none = none
described_by (some s) = if truthy s then some s else none

module _ (F : Floats) (U : Unicode) (str : Json F.Real → String)
    (settings : MonitorSettings F.Real) where
  -- `(block.input or {}).get("triggers", []) if block else []`
  abbrev pub proposed : Option (Members F.Real) → Json F.Real
  proposed none = Json.array Items.stop
  proposed (some input) = elim (find "triggers" input) [ none ↦ Json.array Items.stop | some x ↦ x ]

  -- The model's answer is `none` where the call raised.
  unfoldable pub propose_triggers :
      Bool → Option (Option (Members F.Real)) → String → String → List (Spec F) × Bool
  unfolding validate_triggers deterministic_triggers
  propose_triggers has_key answer described product =
      let plain : List (Spec F) × Bool =
        (deterministic_triggers F U settings described product, false) in
      if has_key
      then elim answer [
        | none ↦ plain
        | some block ↦ elim (validate_triggers F str (proposed block)) [
          | none ↦ plain
          | some [] ↦ plain
          | some (t ∷ ts) ↦ (t ∷ ts, true)
        ]
      ]
      else plain

  unfoldable pub product_for : MonitorArgs → String
  unfolding detect_product
  product_for args =
      text_or
        (elim (described_by args.describe) [ none ↦ "fundamentals" | some d ↦ detect_product U d ])
        args.product

  abbrev interval_described : Option String → ℕ
  interval_described none = settings.default_interval_seconds
  interval_described (some d) = elim (parse_interval U d) [
    | none ↦ settings.default_interval_seconds
    | some n ↦ if n == 0 then settings.default_interval_seconds else n
  ]

  -- `none` is a ValueError
  unfoldable pub interval_for : MonitorArgs → Option ℕ
  unfolding interval_of parse_interval
  interval_for args = elim args.every [
    | some d ↦ interval_of U d
    | none ↦ some (interval_described (described_by args.describe))
  ]

  unfoldable pub cooldown_for : MonitorArgs → Option ℕ
  unfolding interval_of
  cooldown_for args = elim args.cooldown [
    | some d ↦ interval_of U d
    | none ↦ some settings.cooldown_seconds
  ]

  unfoldable pub triggers_for :
      Bool → Option (Option (Members F.Real)) → MonitorArgs → Option (List (Spec F))
  unfolding parse_watches propose_triggers product_for
  triggers_for has_key answer args =
      let product = product_for args in
      if is_nil args.watch
      then elim (described_by args.describe) [
        | none ↦ some (crew F settings product)
        | some d ↦ some (propose_triggers has_key answer d product).0
      ]
      else elim (parse_watches F U settings args.watch product) [
        | none ↦ none
        | some ts ↦ some (or_crew F ts (crew F settings product))
      ]

  abbrev or_console : List String → List String
  or_console [] = "console" ∷ []
  or_console (c ∷ cs) = c ∷ cs

  unfoldable pub create_monitor :
      (String → String → String)
      → ℕ
      → Bool
      → Option (Option (Members F.Real))
      → MonitorArgs
      → Option (Monitor F.Real)
  unfolding product_for interval_for cooldown_for triggers_for
  create_monitor new_monitor_id now has_key answer args = elim (interval_for args) [
    | none ↦ none
    | some interval ↦ elim (cooldown_for args) [
      | none ↦ none
      | some cooldown ↦ elim (triggers_for has_key answer args) [
        | none ↦ none
        | some triggers ↦ some (record {
          id = new_monitor_id (product_for args) (U.upper args.identifier);
          product = product_for args;
          identifier = U.upper args.identifier;
          mode = text_or settings.default_mode args.mode;
          interval_seconds = interval;
          triggers = triggers;
          channels = or_console args.channels;
          cooldown_seconds = cooldown;
          severity_floor = text_or "info" args.severity_floor;
          enabled = true;
          label = args.describe;
          baseline = none;
          cooldowns = [];
          created_at = now;
          last_run_at = none;
          next_run_at = none;
          last_status = none;
        })
      ]
    ]
  ]
