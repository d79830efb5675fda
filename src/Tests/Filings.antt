-- ===== src/Tests/Filings.antt =====
-- A filer with two years of revenue and a stray quarter.
use jim_agent.Prelude.{
  ℕ, String, ◌*◌, ◌≡◌, refl, Option, none, some, List, [], ◌∷◌, map, str_eq, after_prefix,
  if◌then◌else◌,
}
use jim_agent.Prelude.Dict.{lookup}
use jim_agent.Prelude.Decimal.{show}
use jim_agent.Prelude.Int.{ℤ, pos}
use jim_agent.Research.Edgar.{Entry, Taxonomy, Fetched, fetched, fetch_snapshot}
use jim_agent.Research.Edgar.Cited.{IsCited, fetch_snapshot-IsCited}
use jim_agent.Research.Facts.{Fact, Snapshot}
use jim_agent.Research.Facts.Derived.{by_label}
use jim_agent.Tests.Ascii.{ascii}
use jim_agent.Tests.Milli.{milli}

-- The days of a few dates.
abbrev days : String → Option ℕ
days s =
    if str_eq s "2022-01-01"
    then some 0
    else if str_eq s "2022-12-31"
    then some 364
    else if str_eq s "2023-01-01"
    then some 365
    else if str_eq s "2023-03-31"
    then some 454
    else if str_eq s "2023-12-31"
    then some 729
    else none

abbrev row : String → ℕ → String → String → ℕ → String → Entry ℤ
row form year start end dollars accn = record {
  form = some form;
  fp = some "FY";
  fy = some year;
  start = some start;
  end = some end;
  val = some (pos (dollars * 1000));
  accn = some accn;
  filed = some end;
}

abbrev gaap : Taxonomy ℤ
gaap =
    (
      "Revenues",
      (
        "USD",
        row "10-K" 2022 "2022-01-01" "2022-12-31" 80 "0-22-1"
            ∷ row "10-K" 2023 "2023-01-01" "2023-03-31" 30 "0-23-0"
            ∷ row "10-K" 2023 "2023-01-01" "2023-12-31" 100 "0-23-1"
            ∷ [],
      )
          ∷ [],
    )
    ∷ ("NetIncomeLoss", ("USD", row "10-K/A" 2023 "2023-01-01" "2023-12-31" 25 "0-23-2" ∷ []) ∷ [])
    ∷ []

abbrev answer : Fetched ℤ
answer = fetch_snapshot milli ascii days "acme" "0000000007" 7 none gaap []

-- The snapshot of an answer; an empty one where there is none.
abbrev taken : Fetched ℤ → Snapshot ℤ
taken (fetched s) = s
taken x = record { ticker = ""; cik = ""; entity_name = ""; facts = []; as_of = none; origins = [] }

abbrev snapshot_of : Fetched ℤ → List (String × String × Option String)
snapshot_of (fetched s) = map (λ (f : Fact ℤ). (f.id, f.label, f.accession)) s.facts
snapshot_of x = []

filed :
    snapshot_of answer
    ≡ ("C1", "Revenue", some "0-23-1")
      ∷ ("C2", "Net income", some "0-23-2")
      ∷ ("C3", "Revenue (prior FY)", some "0-22-1")
      ∷ ("C4", "Revenue growth (YoY)", none)
      ∷ ("C5", "Net margin", none)
      ∷ []
unfolding fetch_snapshot lookup after_prefix show by_label
filed = refl

is_fetched : answer ≡ fetched (taken answer)
unfolding fetch_snapshot lookup after_prefix show by_label
is_fetched = refl

fetch_snapshot-IsCited_example : IsCited 7 1 (taken answer).facts
fetch_snapshot-IsCited_example =
    fetch_snapshot-IsCited milli ascii days "acme" "0000000007" 7 none gaap [] (taken answer)
      is_fetched
