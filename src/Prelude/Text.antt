-- ===== src/Prelude/Text.antt =====
-- Native texts: the test for equality, membership and joining.
use Prim.Native.Nat.{ℕ, zero, suc, ◌-◌, compare, Ordering}
use Prim.Native.Char.{code}
use Prim.Native.String.{String, count, ◌++◌ as append}
use mathlib.Core.Option.{Option, none, some}
use jim_agent.Prelude.Tests.{if◌then◌else◌}
use mathlib.Core.Bool.{Bool, true, false, ◌||◌}
use mathlib.Core.List.{List, [], ◌∷◌}
use text.Mathlib.Text.{◌==◌}

abbrev pub str_eq : String → String → Bool
str_eq s t = s == t

-- `k in xs`
abbrev pub mem : String → List String → Bool
mem k [] = false
mem k (x ∷ xs) = str_eq k x || mem k xs

-- `if s`: a text is true when it is not empty
abbrev pub truthy : String → Bool
truthy String.[] = false
truthy (String.◌∷◌ c s) = true

-- `sep.join(xs)`
abbrev pub join : String → List String → String
join sep [] = ""
join sep (x ∷ []) = x
join sep (x ∷ y ∷ ys) = append x (append sep (join sep (y ∷ ys)))

-- An f-string, as the list of its parts.
abbrev pub fmt : List String → String
fmt [] = ""
fmt (x ∷ xs) = append x (fmt xs)

-- `s.startswith(w)`, with what follows it, and `s.endswith(w)`, with what stands before it.
unfoldable pub after_prefix : String → String → Option String
after_prefix String.[] s = some s
after_prefix (String.◌∷◌ c w) String.[] = none
after_prefix (String.◌∷◌ c w) (String.◌∷◌ d s) = elim (compare (code c) (code d)) [
  | Ordering.eq ↦ after_prefix w s
  | _ ↦ none
]

unfoldable pub before_suffix : String → String → Option String
before_suffix w String.[] = if str_eq w "" then some "" else none
before_suffix w (String.◌∷◌ c s) =
    let rest = before_suffix w s in
    if str_eq (String.◌∷◌ c s) w
    then some ""
    else elim rest [ none ↦ none | some t ↦ some (String.◌∷◌ c t) ]

-- `s.replace(w, r)` for a `w` that is not empty; the number is how much of `w` is still to skip.
unfoldable pub replace_from : String → String → ℕ → String → String
unfolding after_prefix
replace_from w r n String.[] = ""
replace_from w r (suc n) (String.◌∷◌ c s) = replace_from w r n s
replace_from w r zero (String.◌∷◌ c s) = elim (after_prefix w (String.◌∷◌ c s)) [
  | none ↦ String.◌∷◌ c (replace_from w r 0 s)
  | some t ↦ append r (replace_from w r (count w - 1) s)
]

unfoldable pub replace : String → String → String → String
unfolding replace_from
replace w r s = replace_from w r 0 s

-- `s.replace(w, "")`
unfoldable pub remove : String → String → String
unfolding replace_from
remove w s = replace_from w "" 0 s

-- `s.startswith(w)`
abbrev pub starts_with : String → String → Bool
starts_with w s = elim (after_prefix w s) [ none ↦ false | some rest ↦ true ]

-- `w in s`
unfoldable pub contains : String → String → Bool
unfolding after_prefix
contains w String.[] = starts_with w ""
contains w (String.◌∷◌ c s) = starts_with w (String.◌∷◌ c s) || contains w s

-- The characters of a text: `for c in s`.
abbrev pub characters : String → List String
characters String.[] = []
characters (String.◌∷◌ c s) = String.◌∷◌ c String.[] ∷ characters s
