-- ===== src/Research/Completeness.antt =====
-- src/jim/research/completeness.py: which facts a memo leaves out. A signal, not a gate. The set of
-- cited ids is a list; the number of an id is read in ASCII digits.
pub mod Partition
use jim_agent.Prelude.{
  ℕ, ◌-◌, String, Bool, true, false, not, ◌&&◌, Option, none, some, List, [], ◌∷◌, map, mem, keep,
  length, is_nil, sort_by, ltb, after_prefix, if◌then◌else◌,
}
use jim_agent.Prelude.Decimal.Reading.{read}
use jim_agent.Prelude.Runtime.{Floats, Unicode}
use jim_agent.Research.Facts.{Fact, Snapshot}
use jim_agent.Research.Gate.Figures.{cited_ids}

unfoldable pub material_labels : List String
material_labels =
    "Revenue" ∷ "Gross profit" ∷ "Operating income" ∷ "Net income" ∷ "Diluted EPS" ∷ "Basic EPS"
    ∷ "Total assets" ∷ "Total liabilities" ∷ "Stockholders' equity" ∷ "Net margin"
    ∷ "Operating margin" ∷ "Return on equity" ∷ "Price (USD)" ∷ "Market cap (USD)"
    ∷ "Liquidity / TVL (USD)" ∷ "Cumulative volume (USD)" ∷ []

-- `_fact_view`
pub record FactView (Real : Type 0) : Type 0 where
  pub id : String
  pub label : String
  pub value : Real
  pub unit : String

abbrev pub fact_view : {Real : Type 0} → Fact Real → FactView Real
fact_view f = record { id = f.id; label = f.label; value = f.value; unit = f.unit }

pub record CompletenessResult (Real : Type 0) : Type 0 where
  pub coverage : Real
  pub material_coverage : Real
  pub cited : List String
  pub omitted : List (FactView Real)
  pub material_omissions : List (FactView Real)
  pub is_passed : Bool

-- `int(c[1:])`
unfoldable pub number_after : String → ℕ
unfolding after_prefix read
number_after id = elim (after_prefix "C" id) [
  | none ↦ 0
  | some digits ↦ elim (read digits) [ none ↦ 0 | some n ↦ n ]
]

abbrev pub id_lt : String → String → Bool
id_lt a b = ltb (number_after a) (number_after b)

module _ (F : Floats) where
  abbrev share : ℕ → ℕ → F.Real
  share n d = F.div (F.decimal n 0) (F.decimal d 0)

  abbrev pub is_material : Fact F.Real → Bool
  is_material f = mem f.label material_labels

  abbrev pub uncited : List String → List (Fact F.Real) → List (Fact F.Real)
  uncited ids fs = keep (λ (f : Fact F.Real). not (mem f.id ids)) fs

  abbrev pub cited_in : List String → List (Fact F.Real) → List (Fact F.Real)
  cited_in ids fs = keep (λ (f : Fact F.Real). mem f.id ids) fs

  -- The facts against the ids that the memo cites.
  unfoldable pub assess_facts :
      F.Real → List String → List (Fact F.Real) → CompletenessResult F.Real
  unfolding material_labels number_after
  assess_facts floor ids facts =
      let material = keep is_material facts in
      let omissions = uncited ids material in
      let material_coverage : F.Real =
        if is_nil material
        then F.decimal 1 0
        else share (length material - length omissions) (length material) in
      record {
        coverage = share (length (cited_in ids facts)) (length facts);
        material_coverage = material_coverage;
        cited = sort_by id_lt (map (λ (f : Fact F.Real). f.id) (cited_in ids facts));
        omitted = map fact_view (uncited ids facts);
        material_omissions = map fact_view omissions;
        is_passed = F.le floor material_coverage;
      }

  unfoldable pub check_completeness :
      Unicode → F.Real → String → Snapshot F.Real → CompletenessResult F.Real
  unfolding assess_facts cited_ids
  check_completeness U floor memo snapshot =
      if is_nil snapshot.facts
      then record {
        coverage = F.decimal 1 0;
        material_coverage = F.decimal 1 0;
        cited = [];
        omitted = [];
        material_omissions = [];
        is_passed = true;
      }
      else assess_facts floor (cited_ids U memo) snapshot.facts
