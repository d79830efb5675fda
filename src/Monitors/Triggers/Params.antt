-- ===== src/Monitors/Triggers/Params.antt =====
-- How the crew of src/jim/monitors/triggers.py reads a trigger's params. `none` stands for an
-- exception, a ValueError or a TypeError of a param of the wrong kind.
use jim_agent.Prelude.{String, Bool, false, not, Option, none, some, truthy, is_nil}
use jim_agent.Prelude.Dict.{Dict, lookup}
use jim_agent.Prelude.Runtime.{Floats}
use jim_agent.Monitors.Models.{Param, null, numeric, text, texts}
use jim_agent.Monitors.Diff.{is_zero}

-- What a param names as a label: a text, or a value that no metric has.
pub data Label : Type 0 where
  named : String → Label
  unknown : Label

module _ (F : Floats) where
  -- `float(p)`
  unfoldable pub to_number : Param F.Real → Option F.Real
  to_number null = none
  to_number (numeric x) = some x
  to_number (text s) = F.parse s
  to_number (texts xs) = none

  -- `float(params.get(k, d))`
  unfoldable pub number_or : Dict (Param F.Real) → String → F.Real → Option F.Real
  unfolding to_number
  number_or params k d = elim (lookup k params) [ none ↦ some d | some p ↦ to_number p ]

  -- `params.get(k)`, with null for a key that is missing
  abbrev pub param : Dict (Param F.Real) → String → Param F.Real
  param params k = elim (lookup k params) [ none ↦ null | some p ↦ p ]

  -- `bool(p)`
  abbrev pub param_truth : Param F.Real → Bool
  param_truth null = false
  param_truth (numeric x) = not (is_zero F x)
  param_truth (text s) = truthy s
  param_truth (texts xs) = not (is_nil xs)

  -- The key of `diff.get(p)`; a list is not hashable.
  unfoldable pub to_label : Param F.Real → Option Label
  to_label null = some unknown
  to_label (numeric x) = some unknown
  to_label (text s) = some (named s)
  to_label (texts xs) = none

  abbrev pub label_or : Dict (Param F.Real) → String → String → Option Label
  label_or params k d = elim (lookup k params) [ none ↦ some (named d) | some p ↦ to_label p ]
