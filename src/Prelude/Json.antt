-- ===== src/Prelude/Json.antt =====
-- What `json.loads` gives. A number is a float of the runtime; a boolean is none.
use Prim.Native.String.{String}
use mathlib.Core.Bool.{Bool, true, false, not}
use mathlib.Core.Option.{Option, none, some}
use mathlib.Core.List.{List, [], ◌∷◌}
use jim_agent.Prelude.Tests.{if◌then◌else◌}
use jim_agent.Prelude.Text.{truthy, str_eq}
use jim_agent.Prelude.Runtime.{Floats}

mutual
  pub data Json (Real : Type 0) : Type 0 where
    null : Json Real
    flag : Bool → Json Real
    num : Real → Json Real
    str : String → Json Real
    array : Items Real → Json Real
    object : Members Real → Json Real

  pub data Items (Real : Type 0) : Type 0 where
    stop : Items Real
    item : Json Real → Items Real → Items Real

  pub data Members (Real : Type 0) : Type 0 where
    last : Members Real
    member : String → Json Real → Members Real → Members Real

module _ {Real : Type 0} where
  abbrev pub items : Items Real → List (Json Real)
  items Items.stop = []
  items (Items.item x xs) = x ∷ items xs

  -- `d.get(k)`, with null for a key that is missing; of two entries with a key the last counts
  abbrev pub find : String → Members Real → Option (Json Real)
  find k Members.last = none
  find k (Members.member j x ms) = elim (find k ms) [
    | some y ↦ some y
    | none ↦ if str_eq j k then some x else none
  ]

  abbrev pub or_null : Option (Json Real) → Json Real
  or_null none = Json.null
  or_null (some x) = x

  abbrev pub get : String → Members Real → Json Real
  get k ms = or_null (find k ms)

module _ (F : Floats) where
  -- `bool(x)`
  abbrev pub json_truth : Json F.Real → Bool
  json_truth Json.null = false
  json_truth (Json.flag b) = b
  json_truth (Json.num x) = not (F.eq x (F.decimal 0 0))
  json_truth (Json.str s) = truthy s
  json_truth (Json.array Items.stop) = false
  json_truth (Json.array (Items.item x xs)) = true
  json_truth (Json.object Members.last) = false
  json_truth (Json.object (Members.member k x ms)) = true

  -- `x or y`
  abbrev pub json_or : Json F.Real → Json F.Real → Json F.Real
  json_or x y = if json_truth x then x else y

  -- `float(x)`
  unfoldable pub json_to_float : Json F.Real → Option F.Real
  json_to_float Json.null = none
  json_to_float (Json.flag b) = some (if b then F.decimal 1 0 else F.decimal 0 0)
  json_to_float (Json.num x) = some x
  json_to_float (Json.str s) = F.parse s
  json_to_float (Json.array xs) = none
  json_to_float (Json.object ms) = none
