-- ===== src/Tests/Gating.antt =====
-- The sourcing gate at concrete memos.
use jim_agent.Prelude.{String, ◌≡◌, refl, true, false, none, some, [], ◌∷◌, inl, In, any, all, mem}
use jim_agent.Prelude.Int.{ℤ, pos, ◌+ℤ◌, ◌-ℤ◌}
use jim_agent.Research.Facts.{Fact, Snapshot, usd, percent}
use jim_agent.Research.Gate.Figures.{Figure, segments, cited_ids, segment_figures}
use jim_agent.Research.Gate.Sourcing.{check_sourcing, matches}
use jim_agent.Research.Gate.Sourcing.Verdict.{
  segment_ok, all_figures, all_covered, passed-sourced, check_sourcing-exact,
}
use jim_agent.Tests.Ascii.{ascii}
use jim_agent.Tests.Milli.{milli}

abbrev pub primary : String → String → ℤ → String → Fact ℤ
primary id label value unit = record {
  id = id;
  label = label;
  value = value;
  unit = unit;
  source_label = none;
  concept = none;
  accession = some "0000320193";
  form = some "10-K";
  fiscal_year = none;
  fiscal_period = none;
  filed = none;
  period_end = none;
  source_url = none;
  is_derived = false;
  derived_from = [];
  formula = none;
}

abbrev pub apple : Snapshot ℤ
apple = record {
  ticker = "AAPL";
  cik = "0000320193";
  entity_name = "Apple Inc.";
  facts =
      primary "C1" "Revenue" (pos 391_035_000_000_000) usd
      ∷ primary "C2" "Gross margin" (pos 46_200) percent
      ∷ [];
  as_of = some "2024-11-01";
  origins = [];
}

abbrev pub sourced : String
sourced = "Revenue was $391.04 billion [C1]. Margin was 46.2% [C2]."

sourced_passes : (check_sourcing milli ascii apple sourced).passed ≡ true
unfolding check_sourcing ◌+ℤ◌ ◌-ℤ◌
sourced_passes = refl

abbrev first_segment : String
first_segment = "Revenue was $391.04 billion [C1]."

abbrev revenue_figure : Figure ℤ
revenue_figure = record { raw = "$391.04 billion"; value = pos 391_040_000_000_000; kind = "cur" }

first_segment-In : In first_segment (segments ascii sourced)
unfolding segments
first_segment-In = inl refl

revenue_figure-In : In revenue_figure (segment_figures ascii milli first_segment)
unfolding segment_figures
revenue_figure-In = inl refl

passed-sourced_example :
    (f : Fact ℤ) × In f apple.facts
    × (mem f.id (cited_ids ascii first_segment) ≡ true)
    × (matches milli (pos 391_040_000_000_000) "cur" f.value f.unit ≡ true)
passed-sourced_example =
    passed-sourced milli ascii apple sourced first_segment revenue_figure sourced_passes
      first_segment-In revenue_figure-In

check_sourcing-exact_example :
    let g = check_sourcing milli ascii apple sourced in
    (g.passed ≡ all (segment_ok milli ascii apple) (segments ascii sourced))
    × (g.n_figures ≡ all_figures milli ascii apple (segments ascii sourced))
    × (g.n_covered ≡ all_covered milli ascii apple (segments ascii sourced))
check_sourcing-exact_example = check_sourcing-exact milli ascii apple sourced

-- The same with a revenue that no filing has, cited all the same.
abbrev planted : String
planted = "Revenue was five hundred and $500 billion [C1]."

abbrev planted_figure : Figure ℤ
planted_figure = record { raw = "$500 billion"; value = pos 500_000_000_000_000; kind = "cur" }

planted-In : In planted (segments ascii planted)
unfolding segments
planted-In = inl refl

planted_figure-In : In planted_figure (segment_figures ascii milli planted)
unfolding segment_figures
planted_figure-In = inl refl

planted-unmatched :
    any (λ (f : Fact ℤ). matches milli (pos 500_000_000_000_000) "cur" f.value f.unit) apple.facts
    ≡ false
unfolding matches ◌-ℤ◌
planted-unmatched = refl
