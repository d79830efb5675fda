-- ===== src/Monitors/Diff.antt =====
-- src/jim/monitors/diff.py: what moved between a baseline and a fresh snapshot.
use Prim.Native.Nat.{compare, Ordering}
use Prim.Native.Char.{code}
use jim_agent.Prelude.{
  String, Bool, true, false, not, ◌&&◌, Option, none, some, List, [], ◌∷◌, ◌++◌, map, keep, mem,
  truthy, is_nil, if◌then◌else◌,
}
use jim_agent.Prelude.Dict.{Dict, lookup, insert, keys}
use jim_agent.Prelude.Runtime.{Floats}
use jim_agent.Research.Facts.{Fact, Snapshot, is_truthy, shown}
use jim_agent.Monitors.Models.{BaseFact, Baseline}

pub record FactDelta (Real : Type 0) : Type 0 where
  pub label : String
  pub unit : String
  pub fact_id : String
  pub old_value : Option Real
  pub new_value : Real
  pub is_new : Bool

pub record SnapshotDiff (Real : Type 0) : Type 0 where
  pub identifier : String
  pub deltas : Dict (FactDelta Real)
  pub removed : List String
  pub new_accessions : List String
  pub prev_as_of : Option String
  pub new_as_of : Option String
  pub is_first_run : Bool

module _ (F : Floats) where
  abbrev pub is_zero : F.Real → Bool
  is_zero x = F.eq x (F.decimal 0 0)

  unfoldable pub abs_change : FactDelta F.Real → Option F.Real
  abs_change d = elim d.old_value [ none ↦ none | some old ↦ some (F.sub d.new_value old) ]

  unfoldable pub pct_change : FactDelta F.Real → Option F.Real
  pct_change d = elim d.old_value [
    | none ↦ none
    | some old ↦
        if is_zero old
        then none
        else some (F.mul (F.div (F.sub d.new_value old) (F.absolute old)) (F.decimal 100 0))
  ]

-- `s < t` of two texts, by code points
unfoldable pub text_lt : String → String → Bool
text_lt String.[] String.[] = false
text_lt String.[] (String.◌∷◌ d t) = true
text_lt (String.◌∷◌ c s) String.[] = false
text_lt (String.◌∷◌ c s) (String.◌∷◌ d t) = elim (compare (code c) (code d)) [
  | Ordering.lt ↦ true
  | Ordering.eq ↦ text_lt s t
  | Ordering.gt ↦ false
]

-- `accessions.append(a)` for an accession that is there, not in `known` and not yet listed
unfoldable pub note_accession : List String → Option String → List String → List String
note_accession known none seen = seen
note_accession known (some a) seen =
    if truthy a && not (mem a known) && not (mem a seen) then seen ++ a ∷ [] else seen

module _ {Real : Type 0} where
  unfoldable pub as_of_advanced : SnapshotDiff Real → Bool
  unfolding text_lt
  as_of_advanced d =
      is_truthy d.new_as_of
      && is_truthy d.prev_as_of
      && text_lt (shown d.prev_as_of) (shown d.new_as_of)

  unfoldable pub base_facts : List (Fact Real) → Dict (BaseFact Real) → Dict (BaseFact Real)
  base_facts [] d = d
  base_facts (f ∷ fs) d = base_facts fs (
      insert f.label (record { value = f.value; unit = f.unit; id = f.id; accession = f.accession })
        d)

  unfoldable pub accessions_from : List String → List (Fact Real) → List String → List String
  unfolding note_accession
  accessions_from known [] seen = seen
  accessions_from known (f ∷ fs) seen =
      accessions_from known fs (note_accession known f.accession seen)

  unfoldable pub snapshot_to_baseline : Snapshot Real → Baseline Real
  unfolding base_facts accessions_from
  snapshot_to_baseline s = record {
    as_of = s.as_of;
    facts = base_facts s.facts [];
    accessions = accessions_from [] s.facts [];
  }

  abbrev previous : Option (BaseFact Real) → Option Real
  previous none = none
  previous (some b) = some b.value

  unfoldable pub delta : Dict (BaseFact Real) → Fact Real → FactDelta Real
  delta prev f = record {
    label = f.label;
    unit = f.unit;
    fact_id = f.id;
    old_value = previous (lookup f.label prev);
    new_value = f.value;
    is_new = elim (lookup f.label prev) [ none ↦ true | some b ↦ false ];
  }

  unfoldable pub deltas_from :
      Dict (BaseFact Real) → List (Fact Real) → Dict (FactDelta Real) → Dict (FactDelta Real)
  unfolding delta
  deltas_from prev [] d = d
  deltas_from prev (f ∷ fs) d = deltas_from prev fs (insert f.label (delta prev f) d)

  abbrev labels_of : List (Fact Real) → List String
  labels_of = map (λ (f : Fact Real). f.label)

  unfoldable pub first_diff : Snapshot Real → SnapshotDiff Real
  first_diff current = record {
    identifier = current.ticker;
    deltas = [];
    removed = [];
    new_accessions = [];
    prev_as_of = none;
    new_as_of = current.as_of;
    is_first_run = true;
  }

  unfoldable pub diff_from : Baseline Real → Snapshot Real → SnapshotDiff Real
  unfolding deltas_from accessions_from
  diff_from b current = record {
    identifier = current.ticker;
    deltas = deltas_from b.facts current.facts [];
    removed = keep (λ l. not (mem l (labels_of current.facts))) (keys b.facts);
    new_accessions = accessions_from b.accessions current.facts [];
    prev_as_of = b.as_of;
    new_as_of = current.as_of;
    is_first_run = false;
  }

  unfoldable pub diff_snapshots : Option (Baseline Real) → Snapshot Real → SnapshotDiff Real
  unfolding first_diff diff_from
  diff_snapshots none current = first_diff current
  diff_snapshots (some b) current =
      if is_nil b.facts then first_diff current else diff_from b current

unfoldable pub changed_labels : (F : Floats) → SnapshotDiff F.Real → List String
unfolding abs_change
changed_labels F d =
    map (λ e. e.0)
      (keep
        (λ (e : String × FactDelta F.Real).
          not e.1.is_new && elim (abs_change F e.1) [ none ↦ false | some x ↦ not (is_zero F x) ])
        d.deltas)
