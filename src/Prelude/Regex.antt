-- ===== src/Prelude/Regex.antt =====
-- The part of `re` that the program uses: ordered choice, greedy repetition, groups, with
-- backtracking, over the code points of a text. A pattern is matched against what follows a place,
-- and the rest of the pattern is the function `k`, so a choice is undone when `k` fails.
pub mod Reach
use Prim.Native.Nat.{ℕ, zero, suc, ◌+◌, ◌-◌}
use Prim.Native.Char.{code}
use Prim.Native.String.{String, count}
use mathlib.Core.Bool.{Bool, true, false, not, ◌&&◌, ◌||◌, xor}
use mathlib.Core.Option.{Option, none, some}
use mathlib.Core.List.{List, [], ◌∷◌}
use jim_agent.Prelude.Tests.{◌==◌, leb, if◌then◌else◌}
use jim_agent.Prelude.Dict.{Dict, lookup, insert}
use jim_agent.Prelude.Runtime.{Unicode}
use jim_agent.Prelude.Split.{cons}

-- The first characters of a text, and what follows them.
unfoldable pub take : ℕ → String → String
take zero s = ""
take (suc n) String.[] = ""
take (suc n) (String.◌∷◌ c s) = cons c (take n s)

unfoldable pub drop : ℕ → String → String
drop zero s = s
drop (suc n) String.[] = ""
drop (suc n) (String.◌∷◌ c s) = drop n s

-- Whether a code point stands in a text.
unfoldable pub has_code : ℕ → String → Bool
has_code n String.[] = false
has_code n (String.◌∷◌ c s) = n == code c || has_code n s

-- The lower case of a letter as IGNORECASE compares: of the letters in patterns, only i, k and s
-- have partners outside ASCII.
unfoldable pub fold : ℕ → ℕ
fold n =
    if leb b'A' n && leb n b'Z'
    then n + 32
    else if n == 0x130 || n == 0x131
    then b'i'
    else if n == 0x17f
    then b's'
    else if n == 0x212a
    then b'k'
    else n

pub data Regex : Type 0 where
  nothing boundary line_end : Regex
  one behind : (ℕ → Bool) → Regex
  seq alt : Regex → Regex → Regex
  optional star : Regex → Regex
  group : String → Regex → Regex

-- A place in a text: the character before it, what follows, its index, the groups so far.
pub record Cursor : Type 0 where
  pub before : Option ℕ
  pub rest : String
  pub at : ℕ
  pub groups : Dict String

abbrev Goal : Type 0
Goal = Cursor → Option Cursor

abbrev pub when : Bool → Goal → Goal
when true k = k
when false k = λ c. none

unfoldable pub step : (ℕ → Bool) → Goal → Goal
step p k c = elim c.rest [
  | String.[] ↦ none
  | String.◌∷◌ x s ↦
      when (p (code x)) k
        (record { before = some (code x); rest = s; at = c.at + 1; groups = c.groups })
]

-- `x*`: as often as it goes, each round at least one character, then what follows.
unfoldable pub repeat : ℕ → (Goal → Goal) → Goal → Goal
repeat zero m k c = k c
repeat (suc n) m k c = elim (m (λ d. when (not (d.at == c.at)) (repeat n m k) d) c) [
  | some d ↦ some d
  | none ↦ k c
]

unfoldable pub first_of_code : String → Option ℕ
first_of_code String.[] = none
first_of_code (String.◌∷◌ c s) = some (code c)

abbrev word_at : Unicode → Option ℕ → Bool
word_at U none = false
word_at U (some n) = U.is_word n

abbrev test_at : (ℕ → Bool) → Option ℕ → Bool
test_at p none = false
test_at p (some n) = p n

-- `$`: the end, or before a newline at the end
abbrev pub at_line_end : String → Bool
at_line_end String.[] = true
at_line_end (String.◌∷◌ c String.[]) = code c == 10
at_line_end (String.◌∷◌ c (String.◌∷◌ d s)) = false

module _ (U : Unicode) where
  unfoldable pub run : Regex → Goal → Goal
  unfolding step repeat first_of_code insert take xor
  run Regex.nothing k c = k c
  run Regex.boundary k c = when (xor (word_at U c.before) (word_at U (first_of_code c.rest))) k c
  run Regex.line_end k c = when (at_line_end c.rest) k c
  run (Regex.one p) k c = step p k c
  run (Regex.behind p) k c = when (test_at p c.before) k c
  run (Regex.seq r s) k c = run r (run s k) c
  run (Regex.alt r s) k c = elim (run r k c) [ some d ↦ some d | none ↦ run s k c ]
  run (Regex.optional r) k c = elim (run r k c) [ some d ↦ some d | none ↦ k c ]
  run (Regex.star r) k c = repeat (suc (count c.rest)) (run r) k c
  run (Regex.group name r) k c =
      run r (λ d. k (record d { groups = insert name (take (d.at - c.at) c.rest) d.groups })) c

-- A match: where it starts and ends, its text and its groups.
pub record Match : Type 0 where
  pub start : ℕ
  pub stop : ℕ
  pub text : String
  pub groups : Dict String

abbrev at_start : String → Cursor
at_start s = record { before = none; rest = s; at = 0; groups = [] }

-- The cursor after one more character.
abbrev advance : Cursor → Option Cursor
advance c = elim c.rest [
  | String.[] ↦ none
  | String.◌∷◌ x s ↦ some (record { before = some (code x); rest = s; at = c.at + 1; groups = [] })
]

abbrev match_of : Cursor → Cursor → Match
match_of c d = record {
  start = c.at;
  stop = d.at;
  text = take (d.at - c.at) c.rest;
  groups = d.groups;
}

-- Matches from left to right, each from where the one before it ended.
unfoldable pub scan : Unicode → ℕ → Regex → Cursor → List Match
unfolding run take
scan U zero r c = []
scan U (suc n) r c = elim (run U r (λ d. some d) (record c { groups = [] })) [
  | some d ↦
      let onward = scan U n r d in
      let skipped : List Match = elim (advance c) [ none ↦ [] | some e ↦ scan U n r e ] in
      match_of c d ∷ (if d.at == c.at then skipped else onward)
  | none ↦ elim (advance c) [ none ↦ [] | some e ↦ scan U n r e ]
]

unfoldable pub finditer : Unicode → Regex → String → List Match
unfolding scan
finditer U r s = scan U (suc (count s)) r (at_start s)

unfoldable pub search : Unicode → Regex → String → Option Match
unfolding finditer
search U r s = elim (finditer U r s) [ [] ↦ none | m ∷ ms ↦ some m ]

-- `pattern.match(s)`: a match that starts at the beginning
unfoldable pub match_start : Unicode → Regex → String → Option Match
unfolding run take
match_start U r s = elim (run U r (λ d. some d) (at_start s)) [
  | some d ↦ some (match_of (at_start s) d)
  | none ↦ none
]

-- `m.group(name)`
abbrev pub named : String → Match → Option String
named name m = lookup name m.groups

-- `re.split`, for a pattern that matches no empty text and has no group
abbrev pieces : ℕ → String → List Match → List String
pieces from s [] = drop from s ∷ []
pieces from s (m ∷ ms) = take (m.start - from) (drop from s) ∷ pieces m.stop s ms

unfoldable pub split_at : Unicode → Regex → String → List String
unfolding finditer take drop
split_at U r s = pieces 0 s (finditer U r s)

-- How patterns are written.
abbrev pub opt : Regex → Regex
opt r = Regex.optional r

abbrev pub plus : Regex → Regex
plus r = Regex.seq r (Regex.star r)

abbrev pub seqs : List Regex → Regex
seqs [] = Regex.nothing
seqs (r ∷ []) = r
seqs (r ∷ s ∷ rs) = Regex.seq r (seqs (s ∷ rs))

abbrev pub alts : Regex → List Regex → Regex
alts r [] = r
alts r (s ∷ rs) = Regex.alt r (alts s rs)

abbrev pub times : ℕ → Regex → Regex
times zero r = Regex.nothing
times (suc n) r = Regex.seq r (times n r)

abbrev pub among : String → Regex
among s = Regex.one (λ n. has_code n s)

-- The same under IGNORECASE, the set in lower case.
abbrev pub among_fold : String → Regex
among_fold s = Regex.one (λ n. has_code (fold n) s)

-- A word in lower case, under IGNORECASE.
abbrev pub word : String → Regex
word String.[] = Regex.nothing
word (String.◌∷◌ c s) = Regex.seq (Regex.one (λ n. fold n == code c)) (word s)
