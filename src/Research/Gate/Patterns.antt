-- ===== src/Research/Gate/Patterns.antt =====
-- The regular expressions of src/jim/research/gate.py.
use jim_agent.Prelude.{[], ◌∷◌, map}
use jim_agent.Prelude.Runtime.{Unicode}
use jim_agent.Prelude.Regex.{
  Regex, opt, plus, seqs, alts, times, among, among_fold, word, has_code, fold,
}

module _ (U : Unicode) where
  abbrev pub digit : Regex
  digit = Regex.one U.is_digit

  abbrev pub space : Regex
  space = Regex.one U.is_space

  abbrev digits : Regex
  digits = plus digit

  -- `(?:\.\d+)?`
  abbrev fraction : Regex
  fraction = opt (seqs (among "." ∷ digits ∷ []))

  abbrev scale_word : Regex
  scale_word =
      alts (word "trillion")
        (word "billion" ∷ word "million" ∷ word "thousand" ∷ word "tn" ∷ word "bn" ∷ word "mn" ∷ [])

  abbrev sci_re : Regex
  sci_re = seqs (
      opt (among "-−(")
      ∷ opt space
      ∷ opt (among "$€£")
      ∷ opt space
      ∷ digits
      ∷ fraction
      ∷ among_fold "e"
      ∷ opt (among "+-")
      ∷ digits
      ∷ opt (among ")")
      ∷ [])

  abbrev cur_re : Regex
  cur_re = seqs (
      opt (among "-−(")
      ∷ opt space
      ∷ among "$€£"
      ∷ opt space
      ∷ digit
      ∷ Regex.star (Regex.alt digit (among ",_"))
      ∷ fraction
      ∷ Regex.star space
      ∷ opt (Regex.alt scale_word (among_fold "tbmk"))
      ∷ opt (among ")")
      ∷ [])

  abbrev pct_re : Regex
  pct_re = seqs (
      opt (among "-−")
      ∷ digit
      ∷ Regex.star (Regex.alt digit (among ","))
      ∷ fraction
      ∷ opt space
      ∷ Regex.alt (among "%") (Regex.seq (word "percent") Regex.boundary)
      ∷ [])

  abbrev mult_re : Regex
  mult_re = seqs (digits ∷ fraction ∷ opt space ∷ among_fold "x" ∷ Regex.boundary ∷ [])

  abbrev wordscale_re : Regex
  wordscale_re =
      seqs (opt (among "-−") ∷ digits ∷ fraction ∷ opt space ∷ scale_word ∷ Regex.boundary ∷ [])

  abbrev num_re : Regex
  num_re = seqs (
      digit
      ∷ opt digit
      ∷ opt digit
      ∷ plus (Regex.seq (among ",_") (times 3 digit))
      ∷ fraction
      ∷ Regex.star space
      ∷ opt (alts (word "trillion") (word "billion" ∷ word "million" ∷ word "thousand" ∷ []))
      ∷ [])

  abbrev sufnum_re : Regex
  sufnum_re = seqs (digits ∷ fraction ∷ among "TBMK" ∷ Regex.boundary ∷ [])

  abbrev bigint_re : Regex
  bigint_re = Regex.seq (times 5 digit) (Regex.star digit)

  -- `_FIGURE_RE`
  unfoldable pub figure_re : Regex
  unfolding has_code fold
  figure_re = alts (Regex.group "sci" sci_re) (
      Regex.group "cur" cur_re
      ∷ Regex.group "pct" pct_re
      ∷ Regex.group "mult" mult_re
      ∷ Regex.group "wordscale" wordscale_re
      ∷ Regex.group "num" num_re
      ∷ Regex.group "sufnum" sufnum_re
      ∷ Regex.group "bigint" bigint_re
      ∷ [])

  -- `_RANGE_RE`
  unfoldable pub range_re : Regex
  unfolding has_code fold
  range_re = seqs (
      opt (Regex.group "cursym" (among "$€£"))
      ∷ opt space
      ∷ Regex.group "lo" (Regex.seq digits fraction)
      ∷ opt space
      ∷ among "–—-"
      ∷ opt space
      ∷ opt (among "$€£")
      ∷ Regex.group "hi" (Regex.seq digits fraction)
      ∷ opt space
      ∷ opt (
          Regex.group "scale" (
            Regex.alt (Regex.seq scale_word Regex.boundary)
              (Regex.seq (among "TBMK") Regex.boundary)))
      ∷ opt space
      ∷ opt (Regex.group "pctsym" (among "%"))
      ∷ [])

  abbrev unit_word : Regex
  unit_word =
      alts (word "one")
        (map word ("two" ∷ "three" ∷ "four" ∷ "five" ∷ "six" ∷ "seven" ∷ "eight" ∷ "nine" ∷ []))

  abbrev tens_word : Regex
  tens_word =
      alts (word "twenty")
        (map word ("thirty" ∷ "forty" ∷ "fifty" ∷ "sixty" ∷ "seventy" ∷ "eighty" ∷ "ninety" ∷ []))

  abbrev quantity_words : Regex
  quantity_words = alts (seqs (word "half" ∷ plus space ∷ word "a" ∷ [])) (
      word "an"
      ∷ word "a"
      ∷ unit_word
      ∷ word "ten"
      ∷ word "eleven"
      ∷ word "twelve"
      ∷ Regex.seq tens_word (opt (Regex.seq (among "-") unit_word))
      ∷ [])

  -- `_WORDNUM_RE`
  unfoldable pub wordnum_re : Regex
  unfolding has_code fold
  wordnum_re = seqs (
      Regex.boundary
      ∷ Regex.group "words" quantity_words
      ∷ plus space
      ∷ Regex.group "scale" (
          alts (word "trillion")
            (word "billion" ∷ word "million" ∷ word "thousand" ∷ word "percent" ∷ []))
      ∷ Regex.boundary
      ∷ [])

  abbrev citation_id : Regex
  citation_id = Regex.seq (among "C") digits

  -- `_CITE_RE`
  unfoldable pub cite_re : Regex
  unfolding has_code fold
  cite_re = seqs (
      among "["
      ∷ Regex.group "ids" (
          Regex.seq citation_id (
            Regex.star (seqs (Regex.star space ∷ among "," ∷ Regex.star space ∷ citation_id ∷ []))))
      ∷ among "]"
      ∷ [])

  -- `_ANCHORED_RE`
  unfoldable pub anchored_re : Regex
  unfolding has_code fold
  anchored_re = seqs (
      Regex.group "figure" (seqs (opt (among "-") ∷ digits ∷ among "." ∷ digits ∷ []))
      ∷ Regex.star space
      ∷ Regex.line_end
      ∷ [])

  -- The sentence boundary `(?<=[.!?])\s+`.
  unfoldable pub sentence_re : Regex
  unfolding has_code fold
  sentence_re = Regex.seq (Regex.behind (λ n. has_code n ".!?")) (plus space)
