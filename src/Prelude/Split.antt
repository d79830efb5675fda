-- ===== src/Prelude/Split.antt =====
-- `str.split(sep)` at one character, `str.strip()`, and that splitting undoes joining.
use Prim.Native.Char.{Char, code}
use Prim.Native.String.{String, ◌++◌ as append}
use Prim.Native.String.append as append_clauses
use mathlib.Core.Path.{◌≡◌, refl, ap, ◌∙◌}
use mathlib.Core.Bool.{Bool, true, false, not, ◌&&◌}
use mathlib.Core.List.{List, [], ◌∷◌}
use Prim.Native.Nat.{ℕ}
use native.Mathlib.Omega.{arith}
use jim_agent.Prelude.Tests.{◌==◌, if◌then◌else◌}
use jim_agent.Prelude.Lists.{All}
use jim_agent.Prelude.Text.{truthy, join}
use jim_agent.Prelude.Runtime.{Unicode}

abbrev pub cons : Char → String → String
cons c s = String.◌∷◌ c s

abbrev pub comma : ℕ
comma = b','

-- A character in front of the first piece.
abbrev cons_first : Char → List String → List String
cons_first c [] = cons c "" ∷ []
cons_first c (x ∷ xs) = cons c x ∷ xs

unfoldable pub split : ℕ → String → List String
split sep String.[] = "" ∷ []
split sep (String.◌∷◌ c s) =
    let rest = split sep s in if code c == sep then "" ∷ rest else cons_first c rest

abbrev pub is_empty : String → Bool
is_empty String.[] = true
is_empty (String.◌∷◌ c s) = false

unfoldable pub lstrip : Unicode → String → String
lstrip U String.[] = ""
lstrip U (String.◌∷◌ c s) = let rest = lstrip U s in if U.is_space (code c) then rest else cons c s

unfoldable pub rstrip : Unicode → String → String
rstrip U String.[] = ""
rstrip U (String.◌∷◌ c s) =
    let rest = rstrip U s in if is_empty rest && U.is_space (code c) then "" else cons c rest

unfoldable pub strip : Unicode → String → String
unfolding lstrip rstrip
strip U s = rstrip U (lstrip U s)

-- `sep not in s`
unfoldable pub lacks : ℕ → String → Bool
lacks sep String.[] = true
lacks sep (String.◌∷◌ c s) = not (code c == sep) && lacks sep s

split-lacks : (s : String) → lacks comma s ≡ true → split comma s ≡ s ∷ []
unfolding split lacks
split-lacks String.[] h = refl
split-lacks (String.◌∷◌ c s) h = ground (arith, split-lacks s)

split-append :
    (s t : String)
    → lacks comma s ≡ true
    → split comma (append s (append "," t)) ≡ s ∷ split comma t
unfolding split lacks
split-append String.[] t h =
    simp append_clauses.nil (rw append_clauses.cons (rw append_clauses.nil))
split-append (String.◌∷◌ c s) t h = rw append_clauses.cons (ground (arith, split-append s t))

-- Splitting at commas undoes joining with them.
pub split-join :
    (x : String) (xs : List String)
    → All (λ s. lacks comma s ≡ true) (x ∷ xs)
    → split comma (join "," (x ∷ xs)) ≡ x ∷ xs
split-join x [] h = split-lacks x h.0
split-join x (y ∷ ys) h = split-append x (join "," (y ∷ ys)) h.0 ∙ ap (◌∷◌ x) (split-join y ys h.1)

truthy-append : (s t : String) → truthy s ≡ true → truthy (append s t) ≡ true
truthy-append String.[] t h = cc
truthy-append (String.◌∷◌ c s) t h = rw append_clauses.cons

pub truthy-join :
    (sep x : String) (xs : List String) → truthy x ≡ true → truthy (join sep (x ∷ xs)) ≡ true
truthy-join sep x [] h = h
truthy-join sep x (y ∷ ys) h = truthy-append x (append sep (join sep (y ∷ ys))) h
