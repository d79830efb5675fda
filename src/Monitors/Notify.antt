-- ===== src/Monitors/Notify.antt =====
-- src/jim/monitors/notify.py: signed deliveries, their check by a subscriber, and the channels.
-- `sign body secret timestamp nonce` is the HMAC of `f"{timestamp}.{nonce}." + body`, in hex.
pub mod Replays
use jim_agent.Prelude.{
  ℕ, String, Bool, true, false, not, ◌&&◌, ◌||◌, Option, none, some, List, [], ◌∷◌, ◌++◌, map, fmt,
  append, str_eq, mem, truthy, after_prefix, ltb, if◌then◌else◌,
}
use jim_agent.Prelude.Int.{ℤ, ◌-ℤ◌, ◌*ℤ◌, pos, abs}
use jim_agent.Prelude.Runtime.{Unicode, Iso}
use jim_agent.Prelude.Split.{strip}
use jim_agent.Research.Facts.{is_truthy, shown}
use jim_agent.Monitors.Models.{Monitor, MonitorRun, Signal, margin_usd, microseconds}
use jim_agent.Monitors.Impersonal.{disclaimer}

-- `ok`, or why not.
pub data Verdict : Type 0 where
  ok : Verdict
  missing_signature : Verdict
  missing_timestamp : Verdict
  missing_nonce : Verdict
  signature_mismatch : Verdict
  not_an_integer : String → Verdict
  outside_window : Verdict
  nonce_already_seen : Verdict

-- The set of nonces, if the caller keeps one, and the verdict. `now` is in microseconds.
unfoldable pub check_fresh :
    ℕ → ℤ → ℤ → String → Option (List String) → Verdict × Option (List String)
check_fresh tolerance now ts nonce seen =
    if ltb (microseconds tolerance) (abs (now -ℤ ts *ℤ pos 1000000))
    then (outside_window, seen)
    else elim seen [
      | none ↦ (ok, none)
      | some nonces ↦
          if mem nonce nonces
          then (nonce_already_seen, some nonces)
          else (ok, some (nonce ∷ nonces))
    ]

module _ (hmac : String → String → String) (to_int : String → Option ℤ) where
  unfoldable pub sign_delivery : String → String → String → String → String
  sign_delivery body secret timestamp nonce =
      append "sha256=" (hmac secret (fmt (timestamp ∷ "." ∷ nonce ∷ "." ∷ body ∷ [])))

  unfoldable pub verify_delivery :
      String
      → String
      → Option String
      → Option String
      → Option String
      → ℕ
      → Option (List String)
      → ℤ
      → Verdict × Option (List String)
  unfolding sign_delivery check_fresh
  verify_delivery body secret signature timestamp nonce tolerance seen now =
      if not (is_truthy signature)
      then (missing_signature, seen)
      else if not (is_truthy timestamp)
      then (missing_timestamp, seen)
      else if not (is_truthy nonce)
      then (missing_nonce, seen)
      else if not
          (str_eq (sign_delivery body secret (shown timestamp) (shown nonce)) (shown signature))
      then (signature_mismatch, seen)
      else elim (to_int (shown timestamp)) [
        | none ↦ (not_an_integer (shown timestamp), seen)
        | some ts ↦ check_fresh tolerance now ts (shown nonce) seen
      ]

-- `build_payload`: the dict that subscribers get, without its constant type; the margin is signed.
pub record SignalEntry : Type 0 where
  pub kind : String
  pub label : String
  pub severity : String
  pub summary : String
  pub citations : List String

pub record Economics : Type 0 where
  pub price_out_usd : ℕ
  pub cost_in_data_usd : ℕ
  pub cost_inference_usd : ℕ
  pub margin_usd : ℤ
  pub cache_hit : Bool

pub record Payload : Type 0 where
  pub monitor_id : String
  pub product : String
  pub identifier : String
  pub severity : String
  pub ran_at : String
  pub signals : List SignalEntry
  pub memo : Option String
  pub citations : List String
  pub economics : Economics
  pub disclaimer : String

unfoldable pub signal_entry : {Real : Type 0} → Signal Real → SignalEntry
signal_entry s = record {
  kind = s.kind;
  label = s.label;
  severity = s.severity;
  summary = s.summary;
  citations = s.citation_ids;
}

unfoldable pub build_payload :
    {Real : Type 0} → Iso → Monitor Real → MonitorRun Real → List String → Payload
unfolding signal_entry margin_usd
build_payload T m run citations = record {
  monitor_id = m.id;
  product = run.product;
  identifier = run.identifier;
  severity = run.severity;
  ran_at = T.isoformat run.ran_at;
  signals = map (λ s. signal_entry s) run.signals;
  memo = run.memo;
  citations = citations;
  economics = record {
    price_out_usd = run.price_out_usd;
    cost_in_data_usd = run.cost_in_data_usd;
    cost_inference_usd = run.cost_inference_usd;
    margin_usd = margin_usd run;
    cache_hit = run.cache_hit;
  };
  disclaimer = disclaimer;
}

-- A `Channel`.
pub data Channel : Type 0 where
  console : Channel
  webhook : String → Channel

abbrev pub channel_name : Channel → String
channel_name console = "console"
channel_name (webhook url) = "webhook"

unfoldable pub channel_of : String → List Channel
unfolding after_prefix
channel_of spec =
    if str_eq spec "console" then console ∷ [] else elim (after_prefix "webhook:" spec) [
      | none ↦ []
      | some url ↦ if truthy url then webhook url ∷ [] else []
    ]

unfoldable pub build_channels : Unicode → List String → List Channel
unfolding channel_of strip
build_channels U [] = []
build_channels U (spec ∷ specs) = channel_of (strip U spec) ++ build_channels U specs

-- `post` is whether the webhook at a URL took the payload, an `httpx.HTTPError` being a failure to;
-- `none` is another exception, which leaves `deliver`. The console always takes it.
abbrev delivers : {P : Type 0} → (String → P → Option Bool) → Channel → P → Option Bool
delivers post console payload = some true
delivers post (webhook url) payload = post url payload

-- `deliver_all`, from the names of those that took it on; an exception ends it.
unfoldable pub deliver_from :
    {P : Type 0}
    → (String → P → Option Bool)
    → List Channel
    → P
    → List String
    → Option (List String)
deliver_from post [] payload names = some names
deliver_from post (ch ∷ chs) payload names = elim (delivers post ch payload) [
  | none ↦ none
  | some took ↦
      deliver_from post chs payload (if took then names ++ channel_name ch ∷ [] else names)
]

unfoldable pub deliver_all :
    {P : Type 0} → (String → P → Option Bool) → List Channel → P → Option (List String)
unfolding deliver_from
deliver_all post channels payload = deliver_from post channels payload []
