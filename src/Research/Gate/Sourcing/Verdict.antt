-- ===== src/Research/Gate/Sourcing/Verdict.antt =====
-- What a verdict of the gate means.
use jim_agent.Prelude.{
  ℕ, ◌+◌, String, ◌≡◌, refl, Bool, true, false, ◌&&◌, Option, none, some, List, [], ◌∷◌, ◌++◌,
  arith, sym, ap, ◌∙◌, all, all-In, any-In, In-any, In, any, is_nil, length, mem, str_eq, eq_iff,
  inl, inr, Bool-cases, if◌then◌else◌,
}
use jim_agent.Prelude.Runtime.{Floats, Unicode}
use jim_agent.Research.Facts.{Fact, Snapshot, by_id, find_id, ids}
use jim_agent.Research.Gate.Figures.{Figure, segments, cited_ids, segment_figures}
use jim_agent.Research.Gate.Sourcing.{
  Tally, matches, is_covered, facts_of, check_ids, check_figure, check_figures, check_segment,
  check_segments, check_sourcing, empty_tally, violation, put,
}

is_nil-append_one {ℓ} : {A : Type ℓ} (xs : List A) (x : A) → is_nil (xs ++ x ∷ []) ≡ false
is_nil-append_one [] x = refl
is_nil-append_one (y ∷ ys) x = refl

module _ (F : Floats) (U : Unicode) where
  check_ids_lem :
      (valid : List String) (seg : String) (cited cs : List String) (t : Tally)
      → let after = check_ids F U valid seg cited cs t in
        (is_nil after.violations ≡ is_nil t.violations && all (λ c. mem c valid) cs)
        × (after.n_figures ≡ t.n_figures)
        × (after.n_covered ≡ t.n_covered)
  unfolding check_ids
  check_ids_lem valid seg cited [] t = ground arith
  check_ids_lem valid seg cited (c ∷ cs) t =
      let phantom = violation F U c "phantom citation" seg cited in
      elim (Bool-cases (mem c valid)) [
        | inl good ↦ rw good (ground (arith, check_ids_lem valid seg cited cs t))
        | inr bad ↦ rw bad (
            ground (
              arith,
              check_ids_lem valid seg cited cs (put F U t phantom),
              is_nil-append_one t.violations phantom,
            ))
      ]

  abbrev pub counted : (Figure F.Real → Bool) → List (Figure F.Real) → ℕ
  counted p [] = 0
  counted p (g ∷ gs) = if p g then counted p gs + 1 else counted p gs

  check_figure_lem :
      (seg : String) (cited : List String) (facts : List (Fact F.Real)) (g : Figure F.Real)
      (t : Tally)
      → let after = check_figure F U seg cited facts g t in
        (is_nil after.violations ≡ is_nil t.violations && is_covered F facts g)
        × (after.n_figures ≡ t.n_figures + 1)
        × (after.n_covered ≡ (if is_covered F facts g then t.n_covered + 1 else t.n_covered))
  unfolding check_figure
  check_figure_lem seg cited [] g t =
      ground (arith, is_nil-append_one t.violations (violation F U g.raw "uncited" seg cited))
  check_figure_lem seg cited (f ∷ fs) g t =
      ground
        (arith, is_nil-append_one t.violations (violation F U g.raw "value mismatch" seg cited))

  check_figures_lem :
      (seg : String) (cited : List String) (facts : List (Fact F.Real)) (gs : List (Figure F.Real))
      (t : Tally)
      → let after = check_figures F U seg cited facts gs t in
        (is_nil after.violations ≡ is_nil t.violations && all (is_covered F facts) gs)
        × (after.n_figures ≡ t.n_figures + length gs)
        × (after.n_covered ≡ t.n_covered + counted (is_covered F facts) gs)
  unfolding check_figures
  check_figures_lem seg cited facts [] t = ground arith
  check_figures_lem seg cited facts (g ∷ gs) t = ground (
    arith,
    check_figure_lem seg cited facts g t,
    check_figures_lem seg cited facts gs (check_figure F U seg cited facts g t),
  )

  counted-all :
      (p : Figure F.Real → Bool) (gs : List (Figure F.Real))
      → all p gs ≡ true
      → counted p gs ≡ length gs
  counted-all p [] h = refl
  counted-all p (g ∷ gs) h = ground (arith, counted-all p gs)

  module _ (snapshot : Snapshot F.Real) where
    abbrev pub facts_in : String → List (Fact F.Real)
    facts_in seg = facts_of snapshot (cited_ids U seg)

    -- Every id that the segment cites is published, and every figure in it is covered.
    abbrev pub segment_ok : String → Bool
    segment_ok seg =
        all (λ c. mem c (ids snapshot)) (cited_ids U seg)
        && all (is_covered F (facts_in seg)) (segment_figures U F seg)

    check_segment_lem :
        (seg : String) (t : Tally)
        → let after = check_segment F U snapshot seg t in
          (is_nil after.violations ≡ is_nil t.violations && segment_ok seg)
          × (after.n_figures ≡ t.n_figures + length (segment_figures U F seg))
          × (after.n_covered
              ≡ t.n_covered + counted (is_covered F (facts_in seg)) (segment_figures U F seg))
    unfolding check_segment
    check_segment_lem seg t =
        let cited = cited_ids U seg in
        let after_ids = check_ids F U (ids snapshot) seg cited cited t in
        ground (
          arith,
          check_ids_lem (ids snapshot) seg cited cited t,
          check_figures_lem seg cited (facts_in seg) (segment_figures U F seg) after_ids,
        )

    abbrev pub all_figures : List String → ℕ
    all_figures [] = 0
    all_figures (seg ∷ segs) = length (segment_figures U F seg) + all_figures segs

    abbrev pub all_covered : List String → ℕ
    all_covered [] = 0
    all_covered (seg ∷ segs) =
        counted (is_covered F (facts_in seg)) (segment_figures U F seg) + all_covered segs

    check_segments_lem :
        (segs : List String) (t : Tally)
        → let after = check_segments F U snapshot segs t in
          (is_nil after.violations ≡ is_nil t.violations && all segment_ok segs)
          × (after.n_figures ≡ t.n_figures + all_figures segs)
          × (after.n_covered ≡ t.n_covered + all_covered segs)
    unfolding check_segments
    check_segments_lem [] t = ground arith
    check_segments_lem (seg ∷ segs) t =
        ground (
          arith,
          check_segment_lem seg t,
          check_segments_lem segs (check_segment F U snapshot seg t),
        )

    find_id-In :
        (k : String) (facts : List (Fact F.Real)) (f : Fact F.Real)
        → find_id k facts ≡ some f
        → In f facts × (f.id ≡ k)
    unfolding find_id
    find_id-In k [] f e = cc
    find_id-In k (g ∷ gs) f e = elim (Bool-cases (str_eq g.id k)) [
      | inl here ↦
          let same : g ≡ f = ground arith in
          (inl (sym same), ap (λ (x : Fact F.Real). x.id) (sym same) ∙ (eq_iff g.id k).0 here)
      | inr there ↦ let (i, named) = find_id-In k gs f (ground arith) in (inr i, named)
    ]

    facts_of-In :
        (cs : List String) (f : Fact F.Real)
        → In f (facts_of snapshot cs)
        → In f snapshot.facts × (mem f.id cs ≡ true)
    unfolding facts_of by_id
    facts_of-In [] f i = absurd i
    facts_of-In (c ∷ cs) f i = go (find_id c snapshot.facts) refl i (facts_of-In cs f)
      where
        go :
            (o : Option (Fact F.Real))
            → find_id c snapshot.facts ≡ o
            → In f (elim o [ none ↦ facts_of snapshot cs | some g ↦ g ∷ facts_of snapshot cs ])
            → (In f (facts_of snapshot cs) → In f snapshot.facts × (mem f.id cs ≡ true))
            → In f snapshot.facts × (mem f.id (c ∷ cs) ≡ true)
        go none e j ih = let (place, named) = ih j in (place, ground arith)
        go (some g) e (inl same) ih =
            let (place, named) = find_id-In c snapshot.facts g e in
            (rw same place, rw same (rw named (ground (arith, eq_iff c c))))
        go (some g) e (inr j) ih = let (place, named) = ih j in (place, ground arith)

    -- The verdict is exact: a memo passes exactly when in each of its segments every cited id is
    -- published and every figure is covered by a fact that this segment cites; the result counts
    -- all figures of all segments, and as covered those that are.
    pub check_sourcing-exact :
        (memo : String)
        → let g = check_sourcing F U snapshot memo in
          (g.passed ≡ all segment_ok (segments U memo))
          × (g.n_figures ≡ all_figures (segments U memo))
          × (g.n_covered ≡ all_covered (segments U memo))
    unfolding check_sourcing
    check_sourcing-exact memo =
        ground (arith, check_segments_lem (segments U memo) (empty_tally F U snapshot))

    -- No unsourced figure ships: for every figure that the extractor finds in a memo which passes,
    -- the snapshot has a fact whose id is cited in the figure's own segment and whose value and
    -- unit match the figure.
    pub passed-sourced :
        (memo seg : String) (g : Figure F.Real)
        → (check_sourcing F U snapshot memo).passed ≡ true
        → In seg (segments U memo)
        → In g (segment_figures U F seg)
        → (f : Fact F.Real) × In f snapshot.facts
          × (mem f.id (cited_ids U seg) ≡ true)
          × (matches F g.value g.kind f.value f.unit ≡ true)
    passed-sourced memo seg g pass is place =
        let every : all segment_ok (segments U memo) ≡ true =
          sym (check_sourcing-exact memo).0 ∙ pass in
        let here : segment_ok seg ≡ true = all-In segment_ok (segments U memo) every is in
        let covered : is_covered F (facts_in seg) g ≡ true =
          all-In (is_covered F (facts_in seg)) (segment_figures U F seg) (ground arith) place in
        let (f, i, m) =
          any-In (λ (f : Fact F.Real). matches F g.value g.kind f.value f.unit) (facts_in seg)
            (unfold is_covered in covered) in
        let (known, named) = facts_of-In (cited_ids U seg) f i in (f, known, named, m)

    -- A planted hallucination is blocked: a memo with a figure that matches no fact of the
    -- snapshot does not pass, whatever it cites.
    pub unmatched_blocked :
        (memo seg : String) (g : Figure F.Real)
        → In seg (segments U memo)
        → In g (segment_figures U F seg)
        → any (λ (f : Fact F.Real). matches F g.value g.kind f.value f.unit) snapshot.facts ≡ false
        → (check_sourcing F U snapshot memo).passed ≡ false
    unmatched_blocked memo seg g is place unmatched =
        elim (Bool-cases (check_sourcing F U snapshot memo).passed) [
          | inl pass ↦
              let (f, i, named, m) = passed-sourced memo seg g pass is place in
              let found : any (λ (f : Fact F.Real). matches F g.value g.kind f.value f.unit)
                    snapshot.facts
                  ≡ true =
                In-any (λ (f : Fact F.Real). matches F g.value g.kind f.value f.unit) snapshot.facts
                  i m in
              cc (found, unmatched)
          | inr fails ↦ fails
        ]

    all_covered_of_ok :
        (segs : List String) → all segment_ok segs ≡ true → all_covered segs ≡ all_figures segs
    all_covered_of_ok [] h = refl
    all_covered_of_ok (seg ∷ segs) h =
        let rest = all_covered_of_ok segs (ground arith) in
        let here =
          counted-all (is_covered F (facts_in seg)) (segment_figures U F seg) (ground arith) in
        omega (arith, rest, here)

    -- A memo that passes has full coverage: it covers as many figures as it has.
    pub passed-full_coverage :
        (memo : String)
        → (check_sourcing F U snapshot memo).passed ≡ true
        → (check_sourcing F U snapshot memo).n_covered
          ≡ (check_sourcing F U snapshot memo).n_figures
    passed-full_coverage memo pass =
        let exact = check_sourcing-exact memo in
        let every : all segment_ok (segments U memo) ≡ true = sym exact.0 ∙ pass in
        let full = all_covered_of_ok (segments U memo) every in
        omega (arith, exact.1, exact.2, full)
