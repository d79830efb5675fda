-- ===== src/Research/Facts.antt =====
-- src/jim/research/facts.py: the cited data model. Values are floats of the runtime `F`.
pub mod Derived
use jim_agent.Prelude.{
  ℕ, String, Bool, true, false, not, ◌&&◌, Option, none, some, List, [], ◌∷◌, map, truthy, join,
  fmt, str_eq, ◌==◌, if◌then◌else◌, ◌++◌,
}
use jim_agent.Prelude.Decimal.{show}
use jim_agent.Prelude.Dict.{Dict}
use jim_agent.Prelude.Runtime.{Floats}

-- The unit tags.
abbrev pub usd : String
usd = "USD"

abbrev pub usd_per_share : String
usd_per_share = "USD/shares"

abbrev pub shares : String
shares = "shares"

abbrev pub percent : String
percent = "%"

abbrev pub multiple : String
multiple = "x"

abbrev pub count : String
count = "count"

abbrev pub index : String
index = "index"

pub record Fact (Real : Type 0) : Type 0 where
  pub id : String
  pub label : String
  pub value : Real
  pub unit : String
  pub source_label : Option String
  pub concept : Option String
  pub accession : Option String
  pub form : Option String
  pub fiscal_year : Option ℕ
  pub fiscal_period : Option String
  pub filed : Option String
  pub period_end : Option String
  pub source_url : Option String
  pub is_derived : Bool
  pub derived_from : List String
  pub formula : Option String

pub record Snapshot (Real : Type 0) : Type 0 where
  pub ticker : String
  pub cik : String
  pub entity_name : String
  pub facts : List (Fact Real)
  pub as_of : Option String
  pub origins : Dict String

-- `f"{x}"` of an optional text
abbrev pub shown : Option String → String
shown none = "None"
shown (some s) = s

-- `if x` of an optional text
abbrev pub is_truthy : Option String → Bool
is_truthy none = false
is_truthy (some s) = truthy s

-- One bit of the provenance line, if there is one.
abbrev bit : Bool → String → List String
bit true s = s ∷ []
bit false s = []

-- `f"{x}"` of an optional year, and its truth
abbrev shown_year : Option ℕ → String
shown_year none = "None"
shown_year (some y) = show y

abbrev is_year : Option ℕ → Bool
is_year none = false
is_year (some y) = not (y == 0)

module _ {Real : Type 0} where
  unfoldable pub find_id : String → List (Fact Real) → Option (Fact Real)
  find_id k [] = none
  find_id k (f ∷ fs) = if str_eq f.id k then some f else find_id k fs

  unfoldable pub by_id : Snapshot Real → String → Option (Fact Real)
  unfolding find_id
  by_id s k = find_id k s.facts

  unfoldable pub ids : Snapshot Real → List String
  ids s = map (λ f. f.id) s.facts

  unfoldable pub citation : Fact Real → String
  citation f =
      let meta =
        bit (is_truthy f.filed) (fmt ("filed " ∷ shown f.filed ∷ []))
        ++ bit (is_truthy f.accession) (fmt ("ref " ∷ shown f.accession ∷ [])) in
      if f.is_derived
      then fmt (
          "["
          ∷ f.id
          ∷ "] "
          ∷ f.label
          ∷ " = "
          ∷ shown f.formula
          ∷ " (derived from "
          ∷ join ", " f.derived_from
          ∷ ")"
          ∷ [])
      else join " " (
          fmt ("[" ∷ f.id ∷ "] " ∷ f.label ∷ ":" ∷ [])
          ∷ (bit (is_truthy f.source_label) (shown f.source_label)
              ++ (bit (is_truthy f.form) (shown f.form)
                  ++ (bit (is_truthy f.fiscal_period && is_year f.fiscal_year)
                        (fmt (shown f.fiscal_period ∷ " " ∷ shown_year f.fiscal_year ∷ []))
                      ++ (bit (truthy (join ", " meta)) (fmt ("(" ∷ join ", " meta ∷ ")" ∷ []))
                          ++ bit (is_truthy f.source_url)
                              (fmt ("— " ∷ shown f.source_url ∷ [])))))))

  unfoldable pub citations_block : Snapshot Real → String
  unfolding citation
  citations_block s = join "\n" (map citation s.facts)

module _ (F : Floats) where
  abbrev million : F.Real
  million = F.decimal 1000000 0

  abbrev billion : F.Real
  billion = F.decimal 1000000000 0

  unfoldable pub fmt_usd : F.Real → String
  fmt_usd v =
      if F.le billion (F.absolute v)
      then fmt ("$" ∷ F.show ",.2f" (F.div v billion) ∷ " billion" ∷ [])
      else if F.le million (F.absolute v)
      then fmt ("$" ∷ F.show ",.2f" (F.div v million) ∷ " million" ∷ [])
      else fmt ("$" ∷ F.show ",.0f" v ∷ [])

  unfoldable pub fmt_value : F.Real → String → String
  unfolding fmt_usd
  fmt_value v unit =
      if str_eq unit usd
      then fmt_usd v
      else if str_eq unit usd_per_share
      then fmt ("$" ∷ F.show ",.2f" v ∷ [])
      else if str_eq unit shares
      then fmt (F.show ",.0f" v ∷ " shares" ∷ [])
      else if str_eq unit count
      then F.show ",.0f" v
      else if str_eq unit index
      then F.show ".1f" v
      else if str_eq unit percent
      then fmt (F.show ".1f" v ∷ "%" ∷ [])
      else if str_eq unit multiple
      then fmt (F.show ".2f" v ∷ "x" ∷ [])
      else F.show ",.2f" v

  abbrev provenance : Fact F.Real → String
  provenance f =
      if not f.is_derived
      then fmt (shown f.form ∷ " " ∷ shown f.fiscal_period ∷ " " ∷ shown_year f.fiscal_year ∷ [])
      else fmt ("derived: " ∷ shown f.formula ∷ [])

  unfoldable pub facts_block : Snapshot F.Real → String
  unfolding fmt_value
  facts_block s = join "\n" (
      map
        (λ f. fmt (
          "["
          ∷ f.id
          ∷ "] "
          ∷ f.label
          ∷ " = "
          ∷ fmt_value f.value f.unit
          ∷ "  ("
          ∷ provenance f
          ∷ ")"
          ∷ []))
        s.facts)
