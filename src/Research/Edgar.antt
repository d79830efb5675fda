-- ===== src/Research/Edgar.antt =====
-- src/jim/research/edgar.py: annual facts from the XBRL company facts of a filer, from what the SEC
-- answered. A row has the types that the API documents, and any of its fields may be missing; `days`
-- is the day number of an ISO date, `none` where `date.fromisoformat` raises. `cik` is a number, and
-- `none` as a result is an exception other than EdgarError. The two requests are left out.
pub mod Filed
pub mod Cited
use jim_agent.Prelude.{
  ℕ, suc, ◌+◌, String, Bool, true, false, not, Option, none, some, List, [], ◌∷◌, ◌++◌, keep,
  sort_by, fmt, remove, starts_with, str_eq, truthy, is_nil, leb, length, ◌==◌, ◌||◌, if◌then◌else◌,
  append,
}
use jim_agent.Prelude.Decimal.{show}
use jim_agent.Prelude.Dict.{Dict, lookup}
use jim_agent.Prelude.Runtime.{Floats, Unicode}
use jim_agent.Monitors.Diff.{text_lt}
use jim_agent.Research.Facts.{Fact, Snapshot, usd, usd_per_share, shares, percent}
use jim_agent.Research.Facts.Derived.{compute_derived}

pub record Concept : Type 0 where
  pub label : String
  pub unit : String
  pub kind : String
  pub tags : List String

-- A row of a unit of a tag.
pub record Entry (Real : Type 0) : Type 0 where
  pub form : Option String
  pub fp : Option String
  pub fy : Option ℕ
  pub start : Option String
  pub end : Option String
  pub val : Option Real
  pub accn : Option String
  pub filed : Option String

-- Tags, their units, and the rows of a unit.
abbrev pub Taxonomy : Type 0 → Type 0
Taxonomy Real = Dict (Dict (List (Entry Real)))

abbrev pub concept : String → String → String → List String → Concept
concept label unit kind tags = record { label = label; unit = unit; kind = kind; tags = tags }

-- `PRIMARY_CONCEPTS`
abbrev pub primary_concepts : List Concept
primary_concepts =
    concept "Revenue" usd "duration"
      ("RevenueFromContractWithCustomerExcludingAssessedTax" ∷ "Revenues" ∷ "SalesRevenueNet" ∷ [])
    ∷ concept "Cost of revenue" usd "duration"
        ("CostOfGoodsAndServicesSold" ∷ "CostOfRevenue" ∷ "CostOfGoodsSold" ∷ [])
    ∷ concept "Gross profit" usd "duration" ("GrossProfit" ∷ [])
    ∷ concept "Operating income" usd "duration" ("OperatingIncomeLoss" ∷ [])
    ∷ concept "Net income" usd "duration" ("NetIncomeLoss" ∷ [])
    ∷ concept "Research & development" usd "duration" ("ResearchAndDevelopmentExpense" ∷ [])
    ∷ concept "Operating cash flow" usd "duration" (
        "NetCashProvidedByUsedInOperatingActivities"
        ∷ "NetCashProvidedByUsedInOperatingActivitiesContinuingOperations" ∷ [])
    ∷ concept "Total assets" usd "instant" ("Assets" ∷ [])
    ∷ concept "Total liabilities" usd "instant" ("Liabilities" ∷ [])
    ∷ concept "Stockholders' equity" usd "instant" (
        "StockholdersEquity"
        ∷ "StockholdersEquityIncludingPortionAttributableToNoncontrollingInterest" ∷ [])
    ∷ concept "Cash & equivalents" usd "instant" ("CashAndCashEquivalentsAtCarryingValue" ∷ [])
    ∷ concept "Depreciation & amortization" usd "duration" (
        "DepreciationDepletionAndAmortization" ∷ "DepreciationAmortizationAndAccretionNet"
        ∷ "DepreciationAndAmortization" ∷ [])
    ∷ concept "Diluted EPS" usd_per_share "duration"
        ("EarningsPerShareDiluted" ∷ "EarningsPerShareBasicAndDiluted" ∷ [])
    ∷ concept "Dividends per share" usd_per_share "duration"
        ("CommonStockDividendsPerShareDeclared" ∷ "CommonStockDividendsPerShareCashPaid" ∷ [])
    ∷ []

abbrev pub shares_tag : String
shares_tag = "EntityCommonStockSharesOutstanding"

-- `_UNIT_KEY`, for the units of the concepts
abbrev pub unit_key : String → String
unit_key unit = if str_eq unit usd_per_share then "USD/shares" else "USD"

abbrev pub or_empty : Option String → String
or_empty none = ""
or_empty (some s) = s

unfoldable pub filing_url : ℕ → String → String
filing_url cik accession = fmt (
    "https://www.sec.gov/Archives/edgar/data/"
    ∷ show cik
    ∷ "/"
    ∷ remove "-" accession
    ∷ "/"
    ∷ accession
    ∷ "-index.htm"
    ∷ [])

-- The citation ids that `next_id` gives.
abbrev pub cited : ℕ → String
cited n = append "C" (show n)

abbrev same_year : Option ℕ → Option ℕ → Bool
same_year none none = true
same_year none (some n) = false
same_year (some m) none = false
same_year (some m) (some n) = m == n

abbrev year_in : Option ℕ → List (Option ℕ) → Bool
year_in y [] = false
year_in y (z ∷ zs) = same_year y z || year_in y zs

-- At least 300 days from the start to the end, which are both there.
unfoldable pub lasts_a_year : (String → Option ℕ) → String → String → Option Bool
lasts_a_year days start end =
    if not (truthy start) || not (truthy end) then some false else elim (days end) [
      | none ↦ none
      | some last ↦ elim (days start) [
        | none ↦ none
        | some first_day ↦ some (leb (first_day + 300) last)
      ]
    ]

module _ {Real : Type 0} where
  abbrev pub is_10k : Entry Real → Bool
  is_10k e = starts_with "10-K" (or_empty e.form)

  unfoldable pub is_annual : (String → Option ℕ) → String → Entry Real → Option Bool
  unfolding lasts_a_year
  is_annual days kind e =
      if not (is_10k e)
      then some false
      else if not (str_eq (or_empty e.fp) "FY")
      then some false
      else if str_eq kind "duration"
      then lasts_a_year days (or_empty e.start) (or_empty e.end)
      else some (truthy (or_empty e.end))

  unfoldable pub annual_rows :
      (String → Option ℕ) → String → List (Entry Real) → Option (List (Entry Real))
  unfolding is_annual
  annual_rows days kind [] = some []
  annual_rows days kind (e ∷ es) =
      let rest = annual_rows days kind es in
      elim (is_annual days kind e) [
        | none ↦ none
        | some false ↦ rest
        | some true ↦ elim rest [ none ↦ none | some rows ↦ some (e ∷ rows) ]
      ]

  -- The first row of each fiscal year.
  unfoldable pub one_per_year : List (Option ℕ) → List (Entry Real) → List (Entry Real)
  one_per_year seen [] = []
  one_per_year seen (e ∷ es) =
      let rest = one_per_year (if year_in e.fy seen then seen else e.fy ∷ seen) es in
      if year_in e.fy seen then rest else e ∷ rest

  abbrev pub newer : Entry Real → Entry Real → Bool
  newer a b = text_lt (or_empty b.end) (or_empty a.end)

  -- `_annual_entries`
  unfoldable pub annual_entries :
      (String → Option ℕ) → String → List (Entry Real) → Option (List (Entry Real))
  unfolding annual_rows one_per_year text_lt
  annual_entries days kind es = elim (annual_rows days kind es) [
    | none ↦ none
    | some rows ↦ some (one_per_year [] (sort_by newer rows))
  ]

  -- The rows of a tag in a unit, if there are any.
  abbrev pub rows_of : Taxonomy Real → String → String → List (Entry Real)
  rows_of facts tag unit = elim (lookup tag facts) [
    | none ↦ []
    | some units ↦ elim (lookup unit units) [ none ↦ [] | some rows ↦ rows ]
  ]

  -- The first tag with annual data: the tag, its newest row, and the older ones.
  unfoldable pub find_tag :
      (String → Option ℕ)
      → Taxonomy Real
      → String
      → String
      → List String
      → Option (Option (String × Entry Real × List (Entry Real)))
  unfolding annual_entries
  find_tag days gaap unit kind [] = some none
  find_tag days gaap unit kind (tag ∷ tags) =
      let rest = find_tag days gaap unit kind tags in
      elim (annual_entries days kind (rows_of gaap tag unit)) [
        | none ↦ none
        | some [] ↦ rest
        | some (e ∷ es) ↦ some (some (tag, e, es))
      ]

  -- A row as a fact; the value and the accession must be there.
  unfoldable pub filed_fact :
      ℕ → String → String → String → Option String → Entry Real → Option (Fact Real)
  unfolding filing_url
  filed_fact cik id label unit tag e = elim e.val [
    | none ↦ none
    | some value ↦ elim e.accn [
      | none ↦ none
      | some accession ↦ some (record {
        id = id;
        label = label;
        value = value;
        unit = unit;
        source_label = some "SEC EDGAR";
        concept = tag;
        accession = some accession;
        form = e.form;
        fiscal_year = e.fy;
        fiscal_period = e.fp;
        filed = e.filed;
        period_end = e.end;
        source_url = some (filing_url cik accession);
        is_derived = false;
        derived_from = [];
        formula = none;
      })
    ]
  ]

  -- The facts of the concepts, and the rows of the revenue.
  unfoldable pub concept_facts :
      (String → Option ℕ)
      → Taxonomy Real
      → ℕ
      → ℕ
      → List Concept
      → Option (List (Fact Real) × List (Entry Real))
  unfolding find_tag filed_fact
  concept_facts days gaap cik n [] = some ([], [])
  concept_facts days gaap cik n (c ∷ cs) =
      elim (find_tag days gaap (unit_key c.unit) c.kind c.tags) [
        | none ↦ none
        | some none ↦ concept_facts days gaap cik n cs
        | some (some (tag, e, es)) ↦ elim (filed_fact cik (cited n) c.label c.unit (some tag) e) [
          | none ↦ none
          | some f ↦ elim (concept_facts days gaap cik (suc n) cs) [
            | none ↦ none
            | some (fs, series) ↦ some (f ∷ fs, if str_eq c.label "Revenue" then e ∷ es else series)
          ]
        ]
      ]

  -- `max` by the end: the first of the latest
  abbrev pub latest_row : Entry Real → List (Entry Real) → Entry Real
  latest_row e [] = e
  latest_row e (x ∷ xs) = latest_row (if newer x e then x else e) xs

  -- The shares outstanding of the cover page, if there are any.
  unfoldable pub shares_facts : Taxonomy Real → ℕ → ℕ → Option (List (Fact Real))
  unfolding filed_fact text_lt
  shares_facts dei cik n = elim (keep is_10k (rows_of dei shares_tag "shares")) [
    | [] ↦ some []
    | e ∷ es ↦
        elim (filed_fact cik (cited n) "Shares outstanding" shares (some shares_tag)
          (latest_row e es)) [ none ↦ none | some f ↦ some (f ∷ []) ]
  ]

  abbrev pub second : List (Entry Real) → Option (Entry Real)
  second [] = none
  second (e ∷ []) = none
  second (e ∷ p ∷ es) = some p

  -- `_extract`: the facts, and the revenue of the year before.
  unfoldable pub extract :
      (String → Option ℕ)
      → ℕ
      → Taxonomy Real
      → Taxonomy Real
      → Option (List (Fact Real) × Option (Entry Real))
  unfolding concept_facts shares_facts
  extract days cik gaap dei = elim (concept_facts days gaap cik 1 primary_concepts) [
    | none ↦ none
    | some (fs, series) ↦ elim (shares_facts dei cik (length fs + 1)) [
      | none ↦ none
      | some gs ↦ some (fs ++ gs, second series)
    ]
  ]

  unfoldable pub first_label : String → List (Fact Real) → Option (Fact Real)
  first_label label [] = none
  first_label label (f ∷ fs) =
      let rest = first_label label fs in if str_eq f.label label then some f else rest

-- What `fetch_snapshot` makes of the facts that it got.
pub data Fetched (Real : Type 0) : Type 0 where
  fetched : Snapshot Real → Fetched Real
  edgar_error : Fetched Real
  crashed : Fetched Real

module _ (F : Floats) where
  abbrev growth_fact : String → F.Real → Fact F.Real → Fact F.Real → Fact F.Real
  growth_fact id value current prior = record {
    id = id;
    label = "Revenue growth (YoY)";
    value = value;
    unit = percent;
    source_label = none;
    concept = none;
    accession = none;
    form = none;
    fiscal_year = none;
    fiscal_period = none;
    filed = none;
    period_end = none;
    source_url = none;
    is_derived = true;
    derived_from = current.id ∷ prior.id ∷ [];
    formula = some "(Revenue − prior-FY Revenue) / prior-FY Revenue";
  }

  -- `_revenue_growth`: the prior year's revenue and the growth, or nothing.
  unfoldable pub revenue_growth :
      ℕ → List (Fact F.Real) → Option (Entry F.Real) → ℕ → Option (List (Fact F.Real))
  unfolding first_label filed_fact
  revenue_growth cik facts none n = some []
  revenue_growth cik facts (some prior) n = elim (first_label "Revenue" facts) [
    | none ↦ some []
    | some current ↦ elim prior.val [
      | none ↦ some []
      | some v ↦
          if F.eq v (F.decimal 0 0)
          then some []
          else elim (filed_fact cik (cited n) "Revenue (prior FY)" usd current.concept prior) [
            | none ↦ none
            | some p ↦ some (
                p
                ∷ growth_fact (cited (suc n))
                    (F.mul (F.div (F.sub current.value v) v) (F.decimal 100 0)) current p
                ∷ [])
          ]
    ]
  ]

  -- `max((f.filed for f in facts if f.filed), default=None)`
  unfoldable pub last_filed : List (Fact F.Real) → Option String
  unfolding text_lt
  last_filed [] = none
  last_filed (f ∷ fs) =
      let rest = last_filed fs in
      if truthy (or_empty f.filed)
      then elim rest [
        | none ↦ f.filed
        | some t ↦ if text_lt (or_empty f.filed) t then some t else f.filed
      ]
      else rest

  -- The facts with those that are derived from them.
  unfoldable pub with_derived : List (Fact F.Real) → List (Fact F.Real)
  unfolding compute_derived
  with_derived facts =
      facts
      ++ compute_derived F (keep (λ (f : Fact F.Real). not f.is_derived) facts)
          (λ k. cited (length facts + 1 + k))

  -- `fetch_snapshot`, from the answer of the API on.
  unfoldable pub fetch_snapshot :
      Unicode
      → (String → Option ℕ)
      → String
      → String
      → ℕ
      → Option String
      → Taxonomy F.Real
      → Taxonomy F.Real
      → Fetched F.Real
  unfolding extract revenue_growth with_derived last_filed
  fetch_snapshot U days ticker cik_text cik entity gaap dei =
      if is_nil gaap then edgar_error else elim (extract days cik gaap dei) [
        | none ↦ crashed
        | some ([], prior) ↦ edgar_error
        | some (f ∷ fs, prior) ↦ elim (revenue_growth cik (f ∷ fs) prior (length (f ∷ fs) + 1)) [
          | none ↦ crashed
          | some grown ↦
              let facts = with_derived ((f ∷ fs) ++ grown) in
              fetched (record {
                ticker = U.upper ticker;
                cik = cik_text;
                entity_name = elim entity [ none ↦ U.upper ticker | some name ↦ name ];
                facts = facts;
                as_of = last_filed facts;
                origins = [];
              })
        ]
      ]
