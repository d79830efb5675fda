-- ===== src/Sources/Peer/Payload.antt =====
-- `_facts_from_payload` of src/jim/sources/peer.py: the usable rows of a payload.
use jim_agent.Prelude.{
  String, Bool, true, false, ◌&&◌, Option, none, some, List, [], ◌∷◌, mem, truthy, if◌then◌else◌,
}
use jim_agent.Prelude.Json.{Json, Members, items, get}
use jim_agent.Prelude.Runtime.{Floats, Unicode}
use jim_agent.Prelude.Split.{strip}
use jim_agent.Research.Facts.{usd, usd_per_share, shares, percent, multiple, count, index}

-- `_ALLOWED_UNITS`
abbrev pub allowed_units : List String
allowed_units = usd ∷ usd_per_share ∷ shares ∷ percent ∷ multiple ∷ count ∷ index ∷ []

-- The rows, the two procurement errors, and a TypeError (a unit that cannot be hashed).
pub data Rows (Real : Type 0) : Type 0 where
  usable : List (Members Real) → Rows Real
  no_list no_rows crash : Rows Real

module _ (F : Floats) where
  -- `str(x)`
  abbrev pub text_of : (Json F.Real → String) → Json F.Real → String
  text_of repr Json.null = "None"
  text_of repr (Json.flag true) = "True"
  text_of repr (Json.flag false) = "False"
  text_of repr (Json.num x) = F.show "" x
  text_of repr (Json.str s) = s
  text_of repr (Json.array xs) = repr (Json.array xs)
  text_of repr (Json.object ms) = repr (Json.object ms)

  abbrev pub optional_text : (Json F.Real → String) → Json F.Real → Option String
  optional_text repr Json.null = none
  optional_text repr x = some (text_of repr x)

  -- `float(x)` of a number; a row whose value is none is not usable
  abbrev pub number_of : Json F.Real → F.Real
  number_of (Json.num x) = x
  number_of x = F.decimal 0 0

  abbrev is_number : Json F.Real → Bool
  is_number (Json.num x) = true
  is_number x = false

  module _ (U : Unicode) where
    abbrev is_label : Json F.Real → Bool
    is_label (Json.str s) = truthy (strip U s)
    is_label x = false

    -- `unit in _ALLOWED_UNITS`; lists and objects have no hash
    abbrev unit_allowed : Json F.Real → Option Bool
    unit_allowed (Json.str s) = some (mem s allowed_units)
    unit_allowed (Json.array xs) = none
    unit_allowed (Json.object ms) = none
    unit_allowed x = some false

    -- Whether a row can be used; the unit is looked at last.
    unfoldable pub is_usable : Members F.Real → Option Bool
    unfolding strip
    is_usable row =
        if is_label (get "label" row) && is_number (get "value" row)
        then unit_allowed (get "unit" row)
        else some false

    -- `none` is the TypeError; what is no object is passed over
    unfoldable pub usable_rows : List (Json F.Real) → Option (List (Members F.Real))
    unfolding is_usable
    usable_rows [] = some []
    usable_rows (Json.object row ∷ xs) =
        let rest = usable_rows xs in
        elim (is_usable row) [
          | none ↦ none
          | some false ↦ rest
          | some true ↦ elim rest [ none ↦ none | some rows ↦ some (row ∷ rows) ]
        ]
    usable_rows (x ∷ xs) = usable_rows xs

    abbrev rows_in : Json F.Real → Rows F.Real
    rows_in (Json.array xs) = elim (usable_rows (items xs)) [
      | none ↦ crash
      | some [] ↦ no_rows
      | some (row ∷ rows) ↦ usable (row ∷ rows)
    ]
    rows_in x = no_list

    abbrev facts_or_citations : Json F.Real → Json F.Real → Json F.Real
    facts_or_citations Json.null y = y
    facts_or_citations x y = x

    unfoldable pub facts_from_payload : Members F.Real → Rows F.Real
    unfolding usable_rows
    facts_from_payload payload =
        rows_in (facts_or_citations (get "facts" payload) (get "citations" payload))
