-- ===== src/Seller/Response.antt =====
-- `FundamentalsResponse.from_result` of src/jim/research/schemas.py. Of the judge's answer the model
-- has the verdict alone, so `faithfulness` is that; `DISCLAIMER` is an argument.
use jim_agent.Prelude.{
  ℕ, String, Bool, Option, none, some, List, [], ◌∷◌, map, fmt, ◌==◌, if◌then◌else◌,
}
use jim_agent.Prelude.Runtime.{Floats}
use jim_agent.Research.Completeness.{CompletenessResult, FactView}
use jim_agent.Research.Facts.{Fact, Snapshot}
use jim_agent.Research.Gate.Sourcing.{GateResult, Violation}
use jim_agent.Research.Run.{ResearchResult, Economics}

pub record CitationOut (Real : Type 0) : Type 0 where
  pub id : String
  pub label : String
  pub value : Real
  pub unit : String
  pub is_derived : Bool
  pub form : Option String
  pub fiscal_year : Option ℕ
  pub fiscal_period : Option String
  pub accession : Option String
  pub filed : Option String
  pub source_url : Option String
  pub derived_from : List String
  pub formula : Option String

pub record SourcingOut (Real : Type 0) : Type 0 where
  pub passed : Bool
  pub coverage : Real
  pub figures_checked : ℕ
  pub figures_covered : ℕ
  pub violations : List String

pub record CompletenessOut (Real : Type 0) : Type 0 where
  pub coverage : Real
  pub material_coverage : Real
  pub is_passed : Bool
  pub material_omissions : List String

pub record FundamentalsResponse (Real : Type 0) : Type 0 where
  pub product : String
  pub ticker : String
  pub company : Option String
  pub cik : Option String
  pub as_of : Option String
  pub mode : String
  pub status : String
  pub memo : Option String
  pub citations : List (CitationOut Real)
  pub sourcing : Option (SourcingOut Real)
  pub faithfulness : Option Bool
  pub completeness : Option (CompletenessOut Real)
  pub debate : Option String
  pub served_from_cache : Bool
  pub cost : Option (Economics Real)
  pub attempts_made : ℕ
  pub disclaimer : String

abbrev pub citation_out : {Real : Type 0} → Fact Real → CitationOut Real
citation_out f = record {
  id = f.id;
  label = f.label;
  value = f.value;
  unit = f.unit;
  is_derived = f.is_derived;
  form = f.form;
  fiscal_year = f.fiscal_year;
  fiscal_period = f.fiscal_period;
  accession = f.accession;
  filed = f.filed;
  source_url = f.source_url;
  derived_from = f.derived_from;
  formula = f.formula;
}

-- `result.snapshot.facts if result.snapshot else []`
abbrev pub facts_of_run : {Real : Type 0} → Option (Snapshot Real) → List (Fact Real)
facts_of_run none = []
facts_of_run (some s) = s.facts

abbrev pub if_any : {A B : Type 0} → (A → B) → Option A → Option B
if_any f none = none
if_any f (some x) = some (f x)

-- `x if snapshot else None` of a field that may be missing itself
abbrev pub if_there : {A B : Type 0} → (A → Option B) → Option A → Option B
if_there f none = none
if_there f (some x) = f x

module _ (F : Floats) where
  -- `GateResult.coverage`
  unfoldable pub gate_coverage : GateResult → F.Real
  gate_coverage g =
      if g.n_figures == 0
      then F.decimal 1 0
      else F.div (F.decimal g.n_covered 0) (F.decimal g.n_figures 0)

  unfoldable pub sourcing_out : GateResult → SourcingOut F.Real
  unfolding gate_coverage
  sourcing_out g = record {
    passed = g.passed;
    coverage = F.round (gate_coverage g) 4;
    figures_checked = g.n_figures;
    figures_covered = g.n_covered;
    violations = map (λ (v : Violation). fmt (v.reason ∷ ": " ∷ v.figure ∷ [])) g.violations;
  }

  unfoldable pub completeness_out : CompletenessResult F.Real → CompletenessOut F.Real
  completeness_out c = record {
    coverage = F.round c.coverage 4;
    material_coverage = F.round c.material_coverage 4;
    is_passed = c.is_passed;
    material_omissions = map (λ (v : FactView F.Real). v.label) c.material_omissions;
  }

  unfoldable pub from_result : String → ResearchResult F.Real → FundamentalsResponse F.Real
  unfolding sourcing_out completeness_out
  from_result disclaimer r = record {
    product = r.product;
    ticker = r.ticker;
    company = if_any (λ (s : Snapshot F.Real). s.entity_name) r.snapshot;
    cik = if_any (λ (s : Snapshot F.Real). s.cik) r.snapshot;
    as_of = if_there (λ (s : Snapshot F.Real). s.as_of) r.snapshot;
    mode = r.mode;
    status = r.final.status;
    memo = r.final.memo;
    citations = map citation_out (facts_of_run r.snapshot);
    sourcing = if_any sourcing_out r.final.gate;
    faithfulness = r.final.judged;
    completeness = if_any completeness_out r.completeness;
    debate = r.final.debate;
    served_from_cache = r.final.served_from_cache;
    cost = r.cost;
    attempts_made = r.final.attempts_made;
    disclaimer = disclaimer;
  }
