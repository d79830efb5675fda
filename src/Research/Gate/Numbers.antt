-- ===== src/Research/Gate/Numbers.antt =====
-- The values of figures: `_scale_of`, `_to_float`, `_word_value` of src/jim/research/gate.py.
use Prim.Native.Char.{code}
use Prim.Native.String.{String}
use jim_agent.Prelude.{
  ℕ, ◌^◌, Bool, ◌&&◌, Option, none, some, List, [], ◌∷◌, map, str_eq, after_prefix, before_suffix,
  remove, is_some, ◌==◌, if◌then◌else◌,
}
use jim_agent.Prelude.Dict.{Dict, lookup, lookup_or}
use jim_agent.Prelude.Runtime.{Floats, Unicode}
use jim_agent.Prelude.Regex.{has_code}
use jim_agent.Prelude.Split.{split, strip, cons}

-- `for ch in chars: s = s.replace(ch, "")`
unfoldable pub without_chars : String → String → String
unfolding has_code
without_chars chars String.[] = ""
without_chars chars (String.◌∷◌ c s) =
    let rest = without_chars chars s in if has_code (code c) chars then rest else cons c rest

-- The minus sign as a hyphen.
unfoldable pub plain_minus : String → String
plain_minus String.[] = ""
plain_minus (String.◌∷◌ c s) =
    if code c == 0x2212 then cons "-" (plain_minus s) else cons c (plain_minus s)

-- `s.rstrip("x")`
unfoldable pub without_x : String → String
without_x String.[] = ""
without_x (String.◌∷◌ c s) =
    let rest = without_x s in if str_eq rest "" && code c == b'x' then "" else cons c rest

module _ (F : Floats) where
  -- `_SCALE_WORDS`
  abbrev scale_words : Dict F.Real
  scale_words =
      ("trillion", F.decimal (10 ^ 12) 0)
      ∷ ("billion", F.decimal (10 ^ 9) 0)
      ∷ ("million", F.decimal (10 ^ 6) 0)
      ∷ ("thousand", F.decimal (10 ^ 3) 0)
      ∷ ("tn", F.decimal (10 ^ 12) 0)
      ∷ ("bn", F.decimal (10 ^ 9) 0)
      ∷ ("mn", F.decimal (10 ^ 6) 0)
      ∷ []

  -- `_SCALE_LETTERS`
  abbrev scale_letters : Dict F.Real
  scale_letters =
      ("t", F.decimal (10 ^ 12) 0)
      ∷ ("b", F.decimal (10 ^ 9) 0)
      ∷ ("m", F.decimal (10 ^ 6) 0)
      ∷ ("k", F.decimal (10 ^ 3) 0)
      ∷ []

  -- `_WORD_VALUES`
  abbrev word_values : Dict F.Real
  word_values =
      map {A = String × ℕ} (λ e. (e.0, F.decimal e.1 0))
        (("a", 1)
          ∷ ("an", 1)
          ∷ ("one", 1)
          ∷ ("two", 2)
          ∷ ("three", 3)
          ∷ ("four", 4)
          ∷ ("five", 5)
          ∷ ("six", 6)
          ∷ ("seven", 7)
          ∷ ("eight", 8)
          ∷ ("nine", 9)
          ∷ ("ten", 10)
          ∷ ("eleven", 11)
          ∷ ("twelve", 12)
          ∷ ("twenty", 20)
          ∷ ("thirty", 30)
          ∷ ("forty", 40)
          ∷ ("fifty", 50)
          ∷ ("sixty", 60)
          ∷ ("seventy", 70)
          ∷ ("eighty", 80)
          ∷ ("ninety", 90)
          ∷ [])

  abbrev one : F.Real
  one = F.decimal 1 0

  -- The first table entry that the text ends with: what stands before it, and its factor.
  unfoldable pub suffix_in : Dict F.Real → String → Option (String × F.Real)
  unfolding before_suffix
  suffix_in [] s = none
  suffix_in ((w, factor) ∷ table) s = elim (before_suffix w s) [
    | some front ↦ some (front, factor)
    | none ↦ suffix_in table s
  ]

  module _ (U : Unicode) where
    unfoldable pub scale_of : Option String → F.Real
    unfolding lookup
    scale_of none = one
    scale_of (some token) =
        if str_eq token "" then one else elim (lookup (U.lower token) scale_words) [
          | some factor ↦ factor
          | none ↦ lookup_or (U.lower token) one scale_letters
        ]

    -- The number's text and its factor, from the cleaned text.
    unfoldable pub split_scale : String → String × F.Real
    unfolding suffix_in strip
    split_scale s = elim (suffix_in scale_words s) [
      | some (front, factor) ↦ (strip U front, factor)
      | none ↦ elim (suffix_in scale_letters s) [
        | some (front, factor) ↦ (strip U front, factor)
        | none ↦ (s, one)
      ]
    ]

    -- The text without its marks.
    unfoldable pub cleaned : String → String → String
    unfolding without_chars plain_minus without_x strip remove
    cleaned s kind =
        let bare =
          strip U (remove "%" (remove "percent" (plain_minus (without_chars "()$€£_," s)))) in
        if str_eq kind "mult" then strip U (without_x bare) else bare

    abbrev in_parentheses : String → Bool
    in_parentheses s = is_some (after_prefix "(" s) && is_some (before_suffix ")" s)

    unfoldable pub to_float : String → String → Option F.Real
    unfolding cleaned split_scale after_prefix before_suffix strip
    to_float raw kind =
        let s = strip U (U.lower raw) in
        let (number, factor) = split_scale (cleaned s kind) in
        elim (F.parse number) [
          | none ↦ none
          | some n ↦
              let value = F.mul n factor in
              some (if in_parentheses s && F.lt (F.decimal 0 0) value then F.neg value else value)
        ]

    abbrev total : List F.Real → F.Real → F.Real
    total [] acc = acc
    total (x ∷ xs) acc = total xs (F.add acc x)

    unfoldable pub word_value : String → String → F.Real
    unfolding scale_of lookup split strip
    word_value words scale =
        let w = strip U (U.lower words) in
        let quantity =
          if str_eq w "half a"
          then F.decimal 5 1
          else total (map (λ part. lookup_or part (F.decimal 0 0) word_values) (split b'-' w))
              (F.decimal 0 0) in
        if str_eq (U.lower scale) "percent"
        then quantity
        else F.mul quantity (scale_of (some scale))
