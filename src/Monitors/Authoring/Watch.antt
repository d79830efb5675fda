-- ===== src/Monitors/Authoring/Watch.antt =====
-- `create_monitor` of src/jim/monitors/create.py with the parsers of src/jim/monitors/nl.py: from
-- arguments or a description to a monitor. `none` is a ValueError. Numbers in a description are in
-- ASCII digits; the hash of an id and the answer of the model are parameters.
pub mod Build
pub mod Create
pub mod Ready
use jim_agent.Prelude.{
  ℕ, zero, suc, ◌*◌, String, Bool, true, false, not, ◌&&◌, ◌||◌, Option, none, some, List, [], ◌∷◌,
  ◌++◌, map, any, mem, str_eq, truthy, contains, is_nil, if◌then◌else◌,
}
use jim_agent.Prelude.Decimal.Reading.{read, is_decimal}
use jim_agent.Prelude.Dict.{Dict, lookup}
use jim_agent.Prelude.Json.{Json, Items, Members, find}
use jim_agent.Prelude.Regex.{
  Regex, Match, seqs, alts, opt, plus, among, finditer, search, match_start, named,
}
use jim_agent.Prelude.Runtime.{Floats, Unicode}
use jim_agent.Prelude.Split.{split, strip}
use jim_agent.Monitors.Authoring.{validate_triggers}
use jim_agent.Monitors.Models.{Monitor, Param, TriggerSpec, numeric, text, texts}
use jim_agent.Monitors.Triggers.Crew.{default_triggers}

pub record MonitorSettings (Real : Type 0) : Type 0 where
  pub price_move_pct : Real
  pub metric_change_pct : Real
  pub rsi_overbought : Real
  pub rsi_oversold : Real
  pub default_interval_seconds : ℕ
  pub cooldown_seconds : ℕ
  pub default_mode : String

-- `str | int`
pub data Duration : Type 0 where
  seconds : ℕ → Duration
  written : String → Duration

abbrev pub interval_words : Dict ℕ
interval_words =
    ("minutely", 60)
    ∷ ("hourly", 3600)
    ∷ ("intraday", 3600)
    ∷ ("daily", 86400)
    ∷ ("nightly", 86400)
    ∷ ("weekly", 604800)
    ∷ []

abbrev pub unit_seconds : Dict ℕ
unit_seconds =
    ("sec", 1)
    ∷ ("second", 1)
    ∷ ("min", 60)
    ∷ ("minute", 60)
    ∷ ("hour", 3600)
    ∷ ("hr", 3600)
    ∷ ("day", 86400)
    ∷ ("week", 604800)
    ∷ []

abbrev letter_seconds : Dict ℕ
letter_seconds = ("", 1) ∷ ("s", 1) ∷ ("m", 60) ∷ ("h", 3600) ∷ ("d", 86400) ∷ ("w", 604800) ∷ []

abbrev exactly : String → Regex
exactly String.[] = Regex.nothing
exactly (String.◌∷◌ c String.[]) = among (String.◌∷◌ c String.[])
exactly (String.◌∷◌ c (String.◌∷◌ d s)) =
    Regex.seq (among (String.◌∷◌ c String.[])) (exactly (String.◌∷◌ d s))

abbrev digits : Regex
digits = plus (Regex.one is_decimal)

abbrev times_unit : Option String → Option ℕ → Option ℕ
times_unit none u = none
times_unit (some n) none = none
times_unit (some n) (some u) = elim (read n) [ none ↦ none | some k ↦ some (k * u) ]

abbrev unit_of : Dict ℕ → Option String → Option ℕ
unit_of d none = none
unit_of d (some u) = lookup u d

-- The first pair whose word stands in the text.
unfoldable pub first_word : String → Dict ℕ → Option ℕ
unfolding contains
first_word t [] = none
first_word t ((word, n) ∷ rest) =
    let other = first_word t rest in if contains word t then some n else other

abbrev pub any_word : List String → String → Bool
any_word words t = any (λ w. contains w t) words

module _ (U : Unicode) where
  abbrev space : Regex
  space = Regex.one U.is_space

  unfoldable pub every_re : Regex
  every_re = seqs (
      exactly "every"
      ∷ plus space
      ∷ Regex.group "n" digits
      ∷ Regex.star space
      ∷ Regex.group "unit" (
          alts (exactly "sec") (
            exactly "second"
            ∷ exactly "min"
            ∷ exactly "minute"
            ∷ exactly "hour"
            ∷ exactly "hr"
            ∷ exactly "day"
            ∷ exactly "week"
            ∷ []))
      ∷ opt (among "s")
      ∷ [])

  unfoldable pub parse_interval : String → Option ℕ
  unfolding search every_re first_word read lookup
  parse_interval described =
      let t = U.lower described in
      elim (search U every_re t) [
        | some m ↦ times_unit (named "n" m) (unit_of unit_seconds (named "unit" m))
        | none ↦ first_word t interval_words
      ]

  unfoldable pub duration_re : Regex
  duration_re =
      seqs
        (Regex.group "n" digits ∷ Regex.star space ∷ Regex.group "unit" (opt (among "smhdw")) ∷ [])

  -- `none` is the ValueError
  unfoldable pub duration_seconds : String → Option ℕ
  unfolding strip match_start duration_re read lookup
  duration_seconds value =
      let t = U.lower (strip U value) in
      elim (match_start U (Regex.seq duration_re Regex.line_end) t) [
        | none ↦ none
        | some m ↦
            if str_eq m.text t
            then times_unit (named "n" m) (unit_of letter_seconds (named "unit" m))
            else none
      ]

  unfoldable pub interval_of : Duration → Option ℕ
  unfolding duration_seconds
  interval_of (seconds n) = some n
  interval_of (written s) = duration_seconds s

  unfoldable pub detect_product : String → String
  unfolding contains
  detect_product described =
      if any_word ("token" ∷ "on-chain" ∷ "onchain" ∷ "crypto" ∷ "defi" ∷ "uniswap" ∷ "tvl" ∷ [])
        (U.lower described)
      then "token"
      else "fundamentals"

  unfoldable pub pct_re : Regex
  pct_re = seqs (
      Regex.group "n" (Regex.seq digits (opt (Regex.seq (among ".") digits)))
      ∷ Regex.star space
      ∷ among "%"
      ∷ [])

abbrev pub first_or : {A : Type 0} → A → List A → A
first_or d [] = d
first_or d (x ∷ xs) = x

abbrev pub last_or : {A : Type 0} → A → List A → A
last_or d [] = d
last_or d (x ∷ xs) = last_or x xs

-- `parts[n] if len(parts) > n and parts[n]`, as an empty text where it is not
unfoldable pub part : ℕ → List String → String
part n [] = ""
part zero (x ∷ xs) = x
part (suc n) (x ∷ xs) = part n xs
