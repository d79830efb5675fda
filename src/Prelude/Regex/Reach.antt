-- ===== src/Prelude/Regex/Reach.antt =====
-- What a pattern without repetition can take off a text: characters of its classes, and how many.
use Prim.Native.Char.{Char, code}
use Prim.Native.String.{String, count, ◌++◌ as append}
use Prim.Native.String.append as append_clauses
use Prim.Native.Nat.{ℕ, ◌+◌, ◌≤◌}
use text.Mathlib.TextLemmas.{length-cons}
use native.Mathlib.Omega.{arith}
use mathlib.Core.Path.{◌≡◌, refl, sym, ap, ◌∙◌, subst}
use mathlib.Core.Logic.{◌⊎◌, inl, inr}
use mathlib.Core.Bool.{Bool, true, false, not, ◌&&◌}
use mathlib.Core.List.{[]}
use mathlib.Core.Option.{Option, none, some}
use jim_agent.Prelude.Tests.{ltb, ◌==◌, is_some, if◌then◌else◌, Bool-cases, Option-cases}
use jim_agent.Prelude.Runtime.{Unicode}
use jim_agent.Prelude.Regex.{Regex, Cursor, when, at_line_end, step, run, match_start}

-- Every character of the text is in the class.
unfoldable pub all_codes : (ℕ → Bool) → String → Bool
all_codes p String.[] = true
all_codes p (String.◌∷◌ c s) = p (code c) && all_codes p s

-- No repetition, and every class lies in `p`.
abbrev pub Within : (ℕ → Bool) → Regex → Type 0
Within p Regex.nothing = Unit
Within p Regex.boundary = Unit
Within p Regex.line_end = Unit
Within p (Regex.one q) = (n : ℕ) → q n ≡ true → p n ≡ true
Within p (Regex.behind q) = Unit
Within p (Regex.seq r s) = Within p r × Within p s
Within p (Regex.alt r s) = Within p r × Within p s
Within p (Regex.optional r) = Within p r
Within p (Regex.star r) = ¬ Unit
Within p (Regex.group name r) = Within p r

unfoldable pub longest : Regex → ℕ
longest Regex.nothing = 0
longest Regex.boundary = 0
longest Regex.line_end = 0
longest (Regex.one q) = 1
longest (Regex.behind q) = 0
longest (Regex.seq r s) = longest r + longest s
longest (Regex.alt r s) = if ltb (longest r) (longest s) then longest s else longest r
longest (Regex.optional r) = longest r
longest (Regex.star r) = 0
longest (Regex.group name r) = longest r

-- From one place to a later one, over at most `n` characters, all of the class.
abbrev pub Reaches : (ℕ → Bool) → ℕ → Cursor → Cursor → Type 0
Reaches p n c d =
    (all_codes p d.rest ≡ true → all_codes p c.rest ≡ true)
    × ((q : ℕ → Bool) → all_codes q c.rest ≡ true → all_codes q d.rest ≡ true)
    × (count c.rest ≤ n + count d.rest)

stay : (p : ℕ → Bool) (n : ℕ) (c : Cursor) → Reaches p n c c
stay p n c = (λ h. h, λ q h. h, omega arith)

Reaches-trans :
    (p : ℕ → Bool) (m n : ℕ) (b c d : Cursor)
    → Reaches p m b c
    → Reaches p n c d
    → Reaches p (m + n) b d
Reaches-trans p m n b c d (f, f', h) (g, g', k) =
    (λ x. f (g x), λ q x. g' q (f' q x), omega (arith, h, k))

Reaches-le : (p : ℕ → Bool) (m n : ℕ) (c d : Cursor) → m ≤ n → Reaches p m c d → Reaches p n c d
Reaches-le p m n c d l (f, g, h) = (f, g, omega (arith, l, h))

-- A match of `r` and then `k` is one of `k` at a place that `r` reaches.
abbrev Arrives : (ℕ → Bool) → ℕ → (Cursor → Option Cursor) → Cursor → Cursor → Type 0
Arrives p n k c d = (e : Cursor) × (k e ≡ some d) × Reaches p n c e

Text-cases : (s : String) → (s ≡ "") ⊎ ((x : Char) × (t : String) × (s ≡ String.◌∷◌ x t))
Text-cases String.[] = inl refl
Text-cases (String.◌∷◌ x t) = inr (x, t, refl)

step_lem :
    (p q : ℕ → Bool) (k : Cursor → Option Cursor) (c d : Cursor)
    → ((n : ℕ) → q n ≡ true → p n ≡ true)
    → step q k c ≡ some d
    → Arrives p 1 k c d
unfolding step all_codes
step_lem p q k c d w h = elim (Text-cases c.rest) [
  | inl e ↦ let bad : step q k c ≡ none = rw (e, step) refl in absurd cc
  | inr (x, t, e) ↦
      let next : Cursor = record {
        before = some (code x);
        rest = t;
        at = c.at + 1;
        groups = c.groups;
      } in
      elim (Bool-cases (q (code x))) [
        | inl y ↦
            let eq : step q k c ≡ k next = rw (e, step, y) refl in
            (
              next,
              sym eq ∙ h,
              (
                (λ z. rw (e, all_codes, w (code x) y) z),
                (λ r z.
                    let both : (r (code x) && all_codes r t) ≡ true =
                      subst (λ u. all_codes r u ≡ true) e z in
                    ground (arith, both)),
                rw (e, length-cons x t) (omega arith),
              ),
            )
        | inr y ↦ let bad : step q k c ≡ none = rw (e, step, y) refl in absurd cc
      ]
]

when_lem :
    (p : ℕ → Bool) (b : Bool) (k : Cursor → Option Cursor) (c d : Cursor)
    → when b k c ≡ some d
    → Arrives p 0 k c d
when_lem p true k c d h = (c, h, stay p 0 c)
when_lem p false k c d h = absurd cc

Arrives-le :
    (p : ℕ → Bool) (m n : ℕ) (k : Cursor → Option Cursor) (c d : Cursor)
    → m ≤ n
    → Arrives p m k c d
    → Arrives p n k c d
Arrives-le p m n k c d l (e, h, r) = (e, h, Reaches-le p m n c e l r)

longer_le : (m n : ℕ) → (m ≤ (if ltb m n then n else m)) × (n ≤ (if ltb m n then n else m))
longer_le m n = ground arith

module _ (U : Unicode) (p : ℕ → Bool) where
  run_lem :
      (r : Regex) (k : Cursor → Option Cursor) (c d : Cursor)
      → Within p r
      → run U r k c ≡ some d
      → Arrives p (longest r) k c d
  unfolding run longest
  run_lem Regex.nothing k c d w h = (c, h, stay p 0 c)
  run_lem Regex.boundary k c d w h = when_lem p _ k c d h
  run_lem Regex.line_end k c d w h = when_lem p _ k c d h
  run_lem (Regex.one q) k c d w h = step_lem p q k c d w h
  run_lem (Regex.behind q) k c d w h = when_lem p _ k c d h
  run_lem (Regex.seq r s) k c d w h =
      let (e, he, re) = run_lem r (run U s k) c d w.0 h in
      let (f, hf, rf) = run_lem s k e d w.1 he in
      (f, hf, Reaches-trans p (longest r) (longest s) c e f re rf)
  run_lem (Regex.alt r s) k c d w h =
      let (left, right) = longer_le (longest r) (longest s) in
      elim (Option-cases (run U r k c)) [
        | inl e ↦
            let other : run U s k c ≡ some d = sym (rw (e, run) refl) ∙ h in
            Arrives-le p (longest s) (longest (Regex.alt r s)) k c d right
              (run_lem s k c d w.1 other)
        | inr (f, e) ↦
            let same : some f ≡ some d = sym (rw (e, run) refl) ∙ h in
            Arrives-le p (longest r) (longest (Regex.alt r s)) k c d left
              (run_lem r k c d w.0 (e ∙ same))
      ]
  run_lem (Regex.optional r) k c d w h = elim (Option-cases (run U r k c)) [
    | inl e ↦
        let other : k c ≡ some d = sym (rw (e, run) refl) ∙ h in (c, other, stay p (longest r) c)
    | inr (f, e) ↦
        let same : some f ≡ some d = sym (rw (e, run) refl) ∙ h in run_lem r k c d w (e ∙ same)
  ]
  run_lem (Regex.star r) k c d w h = absurd (w tt)
  run_lem (Regex.group name r) k c d w h = let (e, he, re) = run_lem r _ c d w h in (_, he, re)

abbrev pub not_newline : ℕ → Bool
not_newline n = not (n == 10)

at_end : (s : String) → all_codes not_newline s ≡ true → at_line_end s ≡ true → s ≡ ""
unfolding all_codes
at_end String.[] h e = refl
at_end (String.◌∷◌ x String.[]) h e = absurd (ground arith)
at_end (String.◌∷◌ x (String.◌∷◌ y t)) h e = absurd cc

line_end_lem :
    (f d : Cursor) → when (at_line_end f.rest) (λ d. some d) f ≡ some d → at_line_end f.rest ≡ true
line_end_lem f d h = elim (Bool-cases (at_line_end f.rest)) [
  | inl e ↦ e
  | inr e ↦ let bad : when (at_line_end f.rest) (λ d. some d) f ≡ none = rw e refl in absurd cc
]

abbrev start_of : String → Cursor
start_of s = record { before = none; rest = s; at = 0; groups = [] }

-- Where a pattern that is anchored by `$` stops.
anchored_stop :
    (U : Unicode) (p : ℕ → Bool) (r : Regex) (s : String)
    → Within p r
    → is_some (match_start U (Regex.seq r Regex.line_end) s) ≡ true
    → (f : Cursor) × Reaches p (longest r) (start_of s) f × (at_line_end f.rest ≡ true)
unfolding match_start run
anchored_stop U p r s w h =
    let k : Cursor → Option Cursor = run U Regex.line_end (λ d. some d) in
    elim (Option-cases (run U r k (start_of s))) [
      | inl e ↦
          let bad : is_some (match_start U (Regex.seq r Regex.line_end) s) ≡ false =
            rw (e, match_start, run) refl in
          absurd cc
      | inr (d, e) ↦
          let (f, hf, reach) = run_lem U p r k (start_of s) d w e in (f, reach, line_end_lem f d hf)
    ]

-- A text without a newline that a pattern and then `$` match from its start is in the classes of the
-- pattern, and no longer than it.
pub anchored_match :
    (U : Unicode) (p : ℕ → Bool) (r : Regex) (s : String)
    → Within p r
    → all_codes not_newline s ≡ true
    → is_some (match_start U (Regex.seq r Regex.line_end) s) ≡ true
    → (all_codes p s ≡ true) × (count s ≤ longest r)
unfolding all_codes
anchored_match U p r s w clean h =
    let (f, (back, onward, size), ends) = anchored_stop U p r s w h in
    let empty : f.rest ≡ "" = at_end f.rest (onward not_newline clean) ends in
    (back (rw (empty, all_codes) refl), omega (arith, size, ap count empty))

at_line_end_codes :
    (p : ℕ → Bool) (s : String)
    → p 10 ≡ true
    → at_line_end s ≡ true
    → (all_codes p s ≡ true) × (count s ≤ 1)
unfolding all_codes
at_line_end_codes p String.[] h e = (refl, omega arith)
at_line_end_codes p (String.◌∷◌ x String.[]) h e =
    (ground arith, rw (length-cons x "") (omega arith))
at_line_end_codes p (String.◌∷◌ x (String.◌∷◌ y t)) h e = absurd cc

-- Where the class has the newline, no more need be known of the text.
pub anchored_line :
    (U : Unicode) (p : ℕ → Bool) (r : Regex) (s : String)
    → Within p r
    → p 10 ≡ true
    → is_some (match_start U (Regex.seq r Regex.line_end) s) ≡ true
    → (all_codes p s ≡ true) × (count s ≤ longest r + 1)
anchored_line U p r s w newline h =
    let (f, (back, onward, size), ends) = anchored_stop U p r s w h in
    let (codes, short) = at_line_end_codes p f.rest newline ends in
    (back codes, omega (arith, size, short))

pub all_codes-append :
    (p : ℕ → Bool) (s t : String)
    → all_codes p s ≡ true
    → all_codes p t ≡ true
    → all_codes p (append s t) ≡ true
unfolding all_codes
all_codes-append p String.[] t hs ht = rw append_clauses.nil ht
all_codes-append p (String.◌∷◌ c s) t hs ht =
    rw append_clauses.cons (ground (arith, all_codes-append p s t))

pub all_codes-weaken :
    (p q : ℕ → Bool) (s : String)
    → ((n : ℕ) → p n ≡ true → q n ≡ true)
    → all_codes p s ≡ true
    → all_codes q s ≡ true
unfolding all_codes
all_codes-weaken p q String.[] w h = refl
all_codes-weaken p q (String.◌∷◌ c s) w h = ground (arith, w (code c), all_codes-weaken p q s w)
