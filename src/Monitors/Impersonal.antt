-- ===== src/Monitors/Impersonal.antt =====
-- src/jim/monitors/impersonal.py: nothing published speaks to a person or advises one.
use jim_agent.Prelude.{
  String, Bool, List, [], ◌∷◌, ◌++◌, none, some, fmt, mem, is_nil, replace, if◌then◌else◌,
}
use jim_agent.Prelude.Runtime.{Unicode}
use jim_agent.Prelude.Split.{strip}
use jim_agent.Prelude.Regex.{Regex, search, opt, plus, seqs, alts, word, has_code, fold}

-- `DISCLAIMER` of src/jim/research/synthesize.py
abbrev pub disclaimer : String
disclaimer =
    "This is general, impersonal information derived solely from public SEC filings. It is not investment advice, not personalized, and not a recommendation to buy or sell any security."

pub record ImpersonalResult : Type 0 where
  pub passed : Bool
  pub violations : List String

module _ (U : Unicode) where
  abbrev spaces : Regex
  spaces = plus (Regex.one U.is_space)

  abbrev bounded : List Regex → Regex
  bounded rs = Regex.seq Regex.boundary (Regex.seq (seqs rs) Regex.boundary)

  -- `_PATTERNS`
  unfoldable pub patterns : List (Regex × String)
  unfolding has_code fold
  patterns =
      (
        bounded (
            word "you"
            ∷ opt (alts (word "'re") (word "r" ∷ word "rself" ∷ word "rselves" ∷ []))
            ∷ []),
        "second-person address",
      )
      ∷ (
        bounded (Regex.alt (word "we") (word "i") ∷ spaces ∷ word "recommend" ∷ []),
        "recommendation",
      )
      ∷ (bounded (word "recommendation" ∷ opt (word "s") ∷ []), "recommendation")
      ∷ (
        bounded (
            word "should"
            ∷ spaces
            ∷ alts (word "buy") (word "sell" ∷ word "hold" ∷ word "consider" ∷ word "avoid" ∷ [])
            ∷ []),
        "advice",
      )
      ∷ (
        bounded (word "strong" ∷ spaces ∷ Regex.alt (word "buy") (word "sell") ∷ []),
        "rating/recommendation",
      )
      ∷ (bounded (word "price" ∷ spaces ∷ word "target" ∷ opt (word "s") ∷ []), "price target")
      ∷ (
        bounded (
            Regex.alt (word "buy") (word "sell")
            ∷ spaces
            ∷ alts (word "now") (word "today" ∷ word "immediately" ∷ [])
            ∷ []),
        "advice",
      )
      ∷ (
        bounded (
            word "your"
            ∷ spaces
            ∷ alts (word "portfolio") (word "position" ∷ word "holdings" ∷ word "account" ∷ [])
            ∷ []),
        "personalization",
      )
      ∷ []

  -- The loop with `seen` and `violations`.
  unfoldable pub violations_of :
      String → List (Regex × String) → List String → List String → List String
  unfolding search strip
  violations_of body [] seen violations = violations
  violations_of body ((pat, reason) ∷ pats) seen violations = elim (search U pat body) [
    | none ↦ violations_of body pats seen violations
    | some m ↦
        let phrase = strip U m.text in
        let key = fmt (reason ∷ ":" ∷ U.lower phrase ∷ []) in
        let onward =
          violations_of body pats (key ∷ seen)
            (violations ++ fmt (reason ∷ ": \"" ∷ phrase ∷ "\"" ∷ []) ∷ []) in
        let skipped = violations_of body pats seen violations in
        if mem key seen then skipped else onward
  ]

  unfoldable pub check_impersonal : String → ImpersonalResult
  unfolding violations_of patterns replace
  check_impersonal text =
      let violations = violations_of (replace disclaimer " " text) patterns [] [] in
      record { passed = is_nil violations; violations = violations }
