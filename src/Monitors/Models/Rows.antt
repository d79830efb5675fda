-- ===== src/Monitors/Models/Rows.antt =====
-- `to_row` and `from_row` of src/jim/monitors/models.py: the dicts that the store keeps. A field of
-- a row that may be absent is an `Option`, and a field that may also be None another one.
use jim_agent.Prelude.{
  ℕ, ◌≡◌, refl, String, Bool, true, Option, none, some, List, [], ◌∷◌, ◌≢◌, map, arith,
}
use jim_agent.Prelude.Dict.{Dict}
use jim_agent.Prelude.Runtime.{Iso}
use jim_agent.Monitors.Models.{Param, TriggerSpec, Baseline, Monitor}

pub record TriggerRow (Real : Type 0) : Type 0 where
  pub kind : String
  pub params : Option (Dict (Param Real))

pub record MonitorRow (Real : Type 0) : Type 0 where
  pub id : String
  pub product : String
  pub identifier : String
  pub mode : Option String
  pub interval_seconds : Option ℕ
  pub triggers : Option (List (TriggerRow Real))
  pub channels : Option (List String)
  pub cooldown_seconds : Option ℕ
  pub severity_floor : Option String
  pub enabled : Option Bool
  pub label : Option String
  pub baseline : Option (Baseline Real)
  pub cooldowns : Option (Dict String)
  pub created_at : Option String
  pub last_run_at : Option String
  pub next_run_at : Option String
  pub last_status : Option String

abbrev or_else {ℓ} : {A : Type ℓ} → Option A → A → A
or_else none x = x
or_else (some y) x = y

-- `list(row.get("channels") or ["store"])`
abbrev channels_of : Option (List String) → List String
channels_of none = "store" ∷ []
channels_of (some []) = "store" ∷ []
channels_of (some (c ∷ cs)) = c ∷ cs

channels_of_lem : (cs : List String) → cs ≢ [] → channels_of (some cs) ≡ cs
channels_of_lem [] h = absurd (h refl)
channels_of_lem (c ∷ cs) h = refl

module _ (T : Iso) where
  unfoldable pub iso : Option ℕ → Option String
  iso none = none
  iso (some t) = some (T.isoformat t)

  -- `_parse_dt`; the outer `none` is a ValueError
  unfoldable pub parse_dt : Option String → Option (Option ℕ)
  parse_dt none = some none
  parse_dt (some s) = elim (T.fromisoformat s) [ none ↦ none | some t ↦ some (some t) ]

  parse_dt-iso :
      ((t : ℕ) → T.fromisoformat (T.isoformat t) ≡ some t)
      → (o : Option ℕ) → parse_dt (iso o) ≡ some o
  unfolding parse_dt iso
  parse_dt-iso law none = refl
  parse_dt-iso law (some t) = rw (law t) refl

module _ {Real : Type 0} where
  unfoldable pub trigger_to_row : TriggerSpec Real → TriggerRow Real
  trigger_to_row t = record { kind = t.kind; params = some t.params }

  unfoldable pub trigger_from_row : TriggerRow Real → TriggerSpec Real
  trigger_from_row row = record { kind = row.kind; params = or_else row.params [] }

  module _ (T : Iso) where
    unfoldable pub to_row : Monitor Real → MonitorRow Real
    unfolding trigger_to_row iso
    to_row m = record {
      id = m.id;
      product = m.product;
      identifier = m.identifier;
      mode = some m.mode;
      interval_seconds = some m.interval_seconds;
      triggers = some (map trigger_to_row m.triggers);
      channels = some m.channels;
      cooldown_seconds = some m.cooldown_seconds;
      severity_floor = some m.severity_floor;
      enabled = some m.enabled;
      label = m.label;
      baseline = m.baseline;
      cooldowns = some m.cooldowns;
      created_at = iso T (some m.created_at);
      last_run_at = iso T m.last_run_at;
      next_run_at = iso T m.next_run_at;
      last_status = m.last_status;
    }

    -- `now` is `_utcnow()`; `none` is a ValueError of a time
    unfoldable pub from_row : ℕ → MonitorRow Real → Option (Monitor Real)
    unfolding trigger_from_row parse_dt
    from_row now row = elim (parse_dt T row.created_at) [
      | none ↦ none
      | some created ↦ elim (parse_dt T row.last_run_at) [
        | none ↦ none
        | some last ↦ elim (parse_dt T row.next_run_at) [
          | none ↦ none
          | some next ↦ some (record {
            id = row.id;
            product = row.product;
            identifier = row.identifier;
            mode = or_else row.mode "agent";
            interval_seconds = or_else row.interval_seconds 86400;
            triggers = map trigger_from_row (or_else row.triggers []);
            channels = channels_of row.channels;
            cooldown_seconds = or_else row.cooldown_seconds 21600;
            severity_floor = or_else row.severity_floor "info";
            enabled = or_else row.enabled true;
            label = row.label;
            baseline = row.baseline;
            cooldowns = or_else row.cooldowns [];
            created_at = or_else created now;
            last_run_at = last;
            next_run_at = next;
            last_status = row.last_status;
          })
        ]
      ]
    ]

    triggers_back :
        (ts : List (TriggerSpec Real)) → map trigger_from_row (map trigger_to_row ts) ≡ ts
    unfolding trigger_from_row trigger_to_row
    triggers_back [] = refl
    triggers_back (t ∷ ts) = ground (arith, triggers_back ts)

    -- A monitor that has a channel is read back from its row as it was, whenever it is read, if
    -- times are read back from their ISO form.
    pub from_row-to_row :
        ((t : ℕ) → T.fromisoformat (T.isoformat t) ≡ some t)
        → (now : ℕ) (m : Monitor Real) → m.channels ≢ []
        → from_row now (to_row m) ≡ some m
    unfolding from_row to_row
    from_row-to_row law now m h =
        rw
          (
            parse_dt-iso T law (some m.created_at),
            parse_dt-iso T law m.last_run_at,
            parse_dt-iso T law m.next_run_at,
            triggers_back m.triggers,
            channels_of_lem m.channels h,
          )
          refl
