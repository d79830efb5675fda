-- ===== src/Research/Gate/Figures.antt =====
-- Segments of a memo, and the figures of a segment (`_segments`, `_overlaps`, `_segment_figures`
-- of src/jim/research/gate.py).
use Prim.Native.Char.{code}
use Prim.Native.String.{count}
use jim_agent.Prelude.{
  ℕ, ◌+◌, String, append, Bool, false, not, ◌&&◌, ◌||◌, Option, none, some, List, [], ◌∷◌, ◌++◌,
  map, str_eq, any, keep, truthy, is_some, ltb, leb, ◌==◌, if◌then◌else◌,
}
use jim_agent.Prelude.Runtime.{Floats, Unicode}
use jim_agent.Prelude.Regex.{Match, finditer, search, split_at, named, take}
use jim_agent.Prelude.Split.{split, strip, comma, cons}
use jim_agent.Research.Gate.Patterns.{
  figure_re, range_re, wordnum_re, cite_re, anchored_re, sentence_re,
}
use jim_agent.Research.Gate.Numbers.{scale_of, to_float, word_value}

abbrev is_break : ℕ → Bool
is_break n =
    (leb 10 n && leb n 13) || (leb 28 n && leb n 30) || n == 0x85 || n == 0x2028 || n == 0x2029

abbrev in_front : String → List String → List String
in_front c [] = c ∷ []
in_front c (x ∷ xs) = append c x ∷ xs

-- `str.splitlines()`; after a carriage return a newline is no second break.
unfoldable pub splitlines : Bool → String → List String
splitlines after_cr String.[] = []
splitlines after_cr (String.◌∷◌ c s) =
    let same_break = splitlines false s in
    let next_line = "" ∷ splitlines (code c == 13) s in
    let same_line = in_front (cons c "") (splitlines false s) in
    if after_cr && code c == 10
    then same_break
    else if is_break (code c)
    then next_line
    else same_line

-- A figure as it stands in the memo: its text, value and kind.
pub record Figure (Real : Type 0) : Type 0 where
  pub raw : String
  pub value : Real
  pub kind : String

abbrev pub Span : Type 0
Span = ℕ × ℕ

unfoldable pub overlaps : ℕ → ℕ → List Span → Bool
overlaps start end_ spans = any (λ (s : Span). ltb start s.1 && ltb s.0 end_) spans

abbrev span : Match → Span
span m = (m.start, m.stop)

-- `m.lastgroup or "num"`: each alternative of the pattern has one group
abbrev kind_of : Match → String
kind_of m = elim m.groups [ [] ↦ "num" | e ∷ es ↦ e.0 ]

abbrev text_of : String → Match → String
text_of name m = elim (named name m) [ none ↦ "" | some t ↦ t ]

-- The figures found so far, and the spans that they take.
pub record Found (Real : Type 0) : Type 0 where
  pub figures : List (Figure Real)
  pub used : List Span

module _ (U : Unicode) where
  unfoldable pub chunks_of : List String → List String
  unfolding split_at sentence_re
  chunks_of [] = []
  chunks_of (line ∷ lines) = split_at U (sentence_re U) line ++ chunks_of lines

  unfoldable pub segments : String → List String
  unfolding chunks_of splitlines strip
  segments memo = keep (λ c. truthy (strip U c)) (chunks_of (splitlines false memo))

  unfoldable pub cite_spans : String → List Span
  unfolding finditer cite_re
  cite_spans seg = map span (finditer U (cite_re U) seg)

  unfoldable pub ids_in : List Match → List String
  unfolding split strip
  ids_in [] = []
  ids_in (m ∷ ms) = map (strip U) (split comma (text_of "ids" m)) ++ ids_in ms

  -- `[cid.strip() for group in _CITE_RE.findall(seg) for cid in group.split(",")]`
  unfoldable pub cited_ids : String → List String
  unfolding ids_in finditer cite_re
  cited_ids seg = ids_in (finditer U (cite_re U) seg)

  module _ (F : Floats) where
    abbrev State : Type 0
    State = Found F.Real

    abbrev add_figures : State → List (Figure F.Real) → Span → State
    add_figures st new taken = record { figures = st.figures ++ new; used = st.used ++ taken ∷ [] }

    -- Pass A: both ends of a range that carries a currency, a scale or a percent sign.
    unfoldable pub range_figures : List Span → List Match → State → State
    unfolding overlaps strip scale_of
    range_figures cites [] st = st
    range_figures cites (m ∷ ms) st =
        let marked =
          is_some (named "cursym" m) || is_some (named "scale" m) || is_some (named "pctsym" m) in
        let kind =
          if is_some (named "cursym" m)
          then "cur"
          else if is_some (named "pctsym" m)
          then "pct"
          else "wordscale" in
        let end_figure : String → Figure F.Real = λ name. record {
          raw = strip U m.text;
          value = F.mul (F.numeral (text_of name m)) (scale_of F U (named "scale" m));
          kind = kind;
        } in
        range_figures cites ms (
          if overlaps m.start m.stop cites || not marked
          then st
          else add_figures st (end_figure "lo" ∷ end_figure "hi" ∷ []) (span m))

    -- Pass B: the marked and grouped figures.
    unfoldable pub marked_figures : List Span → List Match → State → State
    unfolding overlaps strip to_float
    marked_figures cites [] st = st
    marked_figures cites (m ∷ ms) st = marked_figures cites ms (
        if overlaps m.start m.stop cites || overlaps m.start m.stop st.used
        then st
        else elim (to_float F U m.text (kind_of m)) [
          | none ↦ st
          | some v ↦
              add_figures st (record { raw = strip U m.text; value = v; kind = kind_of m } ∷ [])
                (span m)
        ])

    abbrev anchored_at : String → ℕ → Option Match
    anchored_at seg stop = search U (anchored_re U) (take stop seg)

    -- Pass C: a bare decimal just before a citation.
    unfoldable pub anchored_figures : String → List Span → State → State
    unfolding overlaps to_float search anchored_re take
    anchored_figures seg [] st = st
    anchored_figures seg ((stop, _) ∷ cites) st =
        anchored_figures seg cites (elim (anchored_at seg stop) [
          | none ↦ st
          | some m ↦
              let text = text_of "figure" m in
              let taken : Span = (m.start, m.start + count text) in
              if overlaps taken.0 taken.1 st.used then st else elim (to_float F U text "anchored") [
                | none ↦ st
                | some v ↦
                    add_figures st (record { raw = text; value = v; kind = "anchored" } ∷ []) taken
              ]
        ])

    -- Pass D: spelled-out figures.
    unfoldable pub spelled_figures : List Match → State → State
    unfolding overlaps strip word_value
    spelled_figures [] st = st
    spelled_figures (m ∷ ms) st =
        let scale = text_of "scale" m in
        let figure : Figure F.Real = record {
          raw = strip U m.text;
          value = word_value F U (text_of "words" m) scale;
          kind = if str_eq (U.lower scale) "percent" then "pct" else "wordscale";
        } in
        spelled_figures ms (
          if overlaps m.start m.stop st.used
          then st
          else record { figures = st.figures ++ figure ∷ []; used = st.used })

    unfoldable pub segment_figures : String → List (Figure F.Real)
    unfolding range_figures marked_figures anchored_figures spelled_figures cite_spans finditer
        range_re figure_re wordnum_re
    segment_figures seg =
        let cites = cite_spans seg in
        let ranges =
          range_figures cites (finditer U (range_re U) seg) (record { figures = []; used = [] }) in
        let marked = marked_figures cites (finditer U (figure_re U) seg) ranges in
        let anchored = anchored_figures seg cites marked in
        (spelled_figures (finditer U (wordnum_re U) seg) anchored).figures
