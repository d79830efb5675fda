-- ===== src/Prelude/Runtime.antt =====
-- What the language's runtime gives the program and the model takes as a parameter: binary floats,
-- the Unicode tables behind `str` and `re`, and ISO timestamps. Laws are hypotheses where a theorem
-- needs them, so everything else holds of any arithmetic, rounding and NaN included.
use Prim.Native.Nat.{ℕ}
use Prim.Native.String.{String}
use mathlib.Core.Bool.{Bool}
use mathlib.Core.Option.{Option}
use jim_agent.Prelude.Tests.{if◌then◌else◌}

-- `float`: a literal is a decimal, `decimal 5 2` is 0.05.
pub record Floats : Type 1 where
  pub Real : Type 0
  pub decimal : ℕ → ℕ → Real
  pub add : Real → Real → Real
  pub sub : Real → Real → Real
  pub mul : Real → Real → Real
  pub div : Real → Real → Real
  pub neg : Real → Real
  pub absolute : Real → Real
  pub lt : Real → Real → Bool
  pub le : Real → Real → Bool
  pub eq : Real → Real → Bool
  -- `float(s)`, where it raises no ValueError
  pub parse : String → Option Real
  -- the same of digits with or without a fraction, which raise none
  pub numeral : String → Real
  -- `round(x, n)`
  pub round : Real → ℕ → Real
  -- `f"{x}"`, by its format
  pub show : String → Real → String

-- The character classes of `re` and the case maps of `str`, on code points.
pub record Unicode : Type 0 where
  pub is_digit : ℕ → Bool
  pub is_space : ℕ → Bool
  pub is_word : ℕ → Bool
  pub lower : String → String
  pub upper : String → String

-- `datetime.isoformat` and `datetime.fromisoformat`, on microseconds since the epoch.
pub record Iso : Type 0 where
  pub isoformat : ℕ → String
  pub fromisoformat : String → Option ℕ

-- Python's `max(a, b)`: the first unless the second is greater.
abbrev pub float_max : (F : Floats) → F.Real → F.Real → F.Real
float_max F a b = if F.lt a b then b else a
