-- ===== src/Tests/Regexes.antt =====
-- The gate's patterns at concrete texts.
use jim_agent.Prelude.{String, ◌≡◌, refl, List, [], ◌∷◌, map}
use jim_agent.Prelude.Regex.{Match, finditer}
use jim_agent.Research.Gate.Patterns.{figure_re}
use jim_agent.Tests.Ascii.{ascii}

abbrev texts : List Match → List String
texts = map (λ m. m.text)

figures_found :
    texts (finditer ascii (figure_re ascii) "Revenue was $391.04 billion, up 5.1% to 12,345 [C1].")
    ≡ " $391.04 billion" ∷ "5.1%" ∷ "12,345 " ∷ []
unfolding finditer figure_re
figures_found = refl
