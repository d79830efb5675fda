-- ===== src/Research/Completeness/Partition.antt =====
-- A fact is cited or omitted, and what is material and omitted is omitted.
use jim_agent.Prelude.{
  ◌+◌, String, ◌≡◌, ◌⊎◌, refl, ap, ◌∙◌, Bool, true, false, not, List, [], ◌∷◌, map, mem, keep,
  length, sort_by, insert_by, All, All-of, All-sort_by, In, In-sort_by, arith, is_nil, inl, inr,
  Bool-cases,
}
use jim_agent.Prelude.Runtime.{Floats, Unicode}
use jim_agent.Research.Facts.{Fact, Snapshot}
use jim_agent.Research.Gate.Figures.{cited_ids}
use jim_agent.Research.Completeness.{
  CompletenessResult, fact_view, id_lt, is_material, uncited, cited_in, assess_facts,
  check_completeness,
}

All-In-cons :
    {B : Type 0} (y : B) (ys zs : List B) → All (λ z. In z ys) zs → All (λ z. In z (y ∷ ys)) zs
All-In-cons y ys [] h = tt
All-In-cons y ys (z ∷ zs) h = (inr h.0, All-In-cons y ys zs h.1)

module _ {A : Type 0} where
  length-insert_by :
      (lt : A → A → Bool) (x : A) (xs : List A) → length (insert_by lt x xs) ≡ 1 + length xs
  length-insert_by lt x [] = refl
  length-insert_by lt x (y ∷ ys) = ground (arith, length-insert_by lt x ys)

  length-sort_by : (lt : A → A → Bool) (xs : List A) → length (sort_by lt xs) ≡ length xs
  length-sort_by lt [] = refl
  length-sort_by lt (x ∷ xs) =
      length-insert_by lt x (sort_by lt xs) ∙ ground (arith, length-sort_by lt xs)

  length-map : {B : Type 0} (f : A → B) (xs : List A) → length (map f xs) ≡ length xs
  length-map f [] = refl
  length-map f (x ∷ xs) = ground (arith, length-map f xs)

  length-keep-not :
      (p : A → Bool) (xs : List A)
      → length (keep p xs) + length (keep (λ x. not (p x)) xs) ≡ length xs
  length-keep-not p [] = refl
  length-keep-not p (x ∷ xs) = ground (arith, length-keep-not p xs)

  In-keep : (p : A → Bool) (xs : List A) (x : A) → In x xs → p x ≡ true → In x (keep p xs)
  In-keep p [] x i h = absurd i
  In-keep p (y ∷ ys) x i h = elim (Bool-cases (p y)) [
    | inl kept ↦ rw kept (elim i [ inl e ↦ inl e | inr j ↦ inr (In-keep p ys x j h) ])
    | inr dropped ↦ rw dropped (elim i [
      | inl e ↦ let bad : p y ≡ true = rw (← e) h in absurd cc
      | inr j ↦ In-keep p ys x j h
    ])
  ]

  -- Keeping fewer of what is filtered first keeps no more.
  kept_In :
      {B : Type 0} (f : A → B) (p q : A → Bool) (xs : List A)
      → All (λ v. In v (map f (keep q xs))) (map f (keep q (keep p xs)))
  kept_In f p q [] = tt
  kept_In f p q (x ∷ xs) = elim (Bool-cases (p x)) [
    | inr n ↦ rw n (elim (Bool-cases (q x)) [
      | inl y ↦ rw y (All-In-cons (f x) _ (map f (keep q (keep p xs))) (kept_In f p q xs))
      | inr m ↦ rw m (kept_In f p q xs)
    ])
    | inl y ↦ rw y (elim (Bool-cases (q x)) [
      | inl z ↦ rw z (inl refl, All-In-cons (f x) _ (map f (keep q (keep p xs))) (kept_In f p q xs))
      | inr m ↦ rw m (kept_In f p q xs)
    ])
  ]

module _ {A B : Type 0} (f : A → B) (p : A → Bool) where
  In-kept : (xs : List A) (x : A) → In x xs → p x ≡ true → In (f x) (map f (keep p xs))
  In-kept [] x i h = absurd i
  In-kept (y ∷ ys) x i h = elim (Bool-cases (p y)) [
    | inl kept ↦ rw kept (elim i [ inl e ↦ inl (ap f e) | inr j ↦ inr (In-kept ys x j h) ])
    | inr dropped ↦ rw dropped (elim i [
      | inl e ↦ let bad : p y ≡ true = rw (← e) h in absurd cc
      | inr j ↦ In-kept ys x j h
    ])
  ]

  All-kept :
      (P : B → Type 0) (xs : List A) → ((x : A) → p x ≡ true → P (f x)) → All P (map f (keep p xs))
  All-kept P [] h = tt
  All-kept P (x ∷ xs) h = elim (Bool-cases (p x)) [
    | inl kept ↦ rw kept (h x kept, All-kept P xs h)
    | inr dropped ↦ rw dropped (All-kept P xs h)
  ]

module _ (F : Floats) (ids : List String) where
  -- A fact stands where it belongs: with its id among the cited ones if the memo cites it, else among
  -- the omissions, and there among the material ones if its label is one of those.
  abbrev pub IsPlaced : CompletenessResult F.Real → Fact F.Real → Type 0
  IsPlaced c f =
      ((mem f.id ids ≡ true) × In f.id c.cited)
      ⊎ ((mem f.id ids ≡ false)
          × In (fact_view f) c.omitted
          × ((is_material F f ≡ false) ⊎ In (fact_view f) c.material_omissions))

  abbrev pub IsAccounted : List (Fact F.Real) → CompletenessResult F.Real → Type 0
  IsAccounted facts c =
      All (IsPlaced c) facts
      × All (λ id. mem id ids ≡ true) c.cited
      × (length c.cited + length c.omitted ≡ length facts)
      × All (λ v. In v c.omitted) c.material_omissions

  assess_facts-IsPlaced :
      (floor : F.Real) (facts : List (Fact F.Real)) (f : Fact F.Real)
      → In f facts
      → IsPlaced (assess_facts F floor ids facts) f
  unfolding assess_facts
  assess_facts-IsPlaced floor facts f i =
      let is_cited = λ (g : Fact F.Real). mem g.id ids in
      let is_uncited = λ (g : Fact F.Real). not (mem g.id ids) in
      elim (Bool-cases (mem f.id ids)) [
        | inl cited ↦ inl (
          cited,
          In-sort_by id_lt f.id _ (In-kept (λ (g : Fact F.Real). g.id) is_cited facts f i cited),
        )
        | inr omitted ↦
            let left : is_uncited f ≡ true = rw omitted refl in
            inr (
              omitted,
              In-kept fact_view is_uncited facts f i left,
              elim (Bool-cases (is_material F f)) [
                | inr plain ↦ inl plain
                | inl material ↦
                    let kept : In f (keep (is_material F) facts) =
                      In-keep (is_material F) facts f i material in
                    inr (In-kept fact_view is_uncited (keep (is_material F) facts) f kept left)
              ],
            )
      ]

  assess_facts_lem :
      (floor : F.Real) (facts : List (Fact F.Real))
      → IsAccounted facts (assess_facts F floor ids facts)
  unfolding assess_facts
  assess_facts_lem floor facts =
      let cited = cited_in F ids facts in
      let id_of = λ (f : Fact F.Real). f.id in
      (
        All-of (IsPlaced (assess_facts F floor ids facts)) facts
            (assess_facts-IsPlaced floor facts),
        All-sort_by (λ id. mem id ids ≡ true) id_lt (map id_of cited)
            (All-kept id_of (λ f. mem f.id ids) (λ id. mem id ids ≡ true) facts (λ f h. h)),
        omega (
          arith,
          length-sort_by id_lt (map id_of cited),
          length-map id_of cited,
          length-map fact_view (uncited F ids facts),
          length-keep-not (λ (f : Fact F.Real). mem f.id ids) facts,
        ),
        kept_In fact_view (is_material F) (λ (f : Fact F.Real). not (mem f.id ids)) facts,
      )

module _ (F : Floats) where
  -- The report on any memo places each fact of the snapshot. One whose id the memo cites stands, by
  -- that id, among the cited ones, and nothing else does; any other stands among the omissions, and
  -- if its label is a material one also among the material omissions. The cited ids and the omissions
  -- are as many as the facts together, and each material omission is one of the omissions.
  pub check_completeness-IsAccounted :
      (U : Unicode) (floor : F.Real) (memo : String) (snapshot : Snapshot F.Real)
      → IsAccounted F (cited_ids U memo) snapshot.facts (check_completeness F U floor memo snapshot)
  unfolding check_completeness
  check_completeness-IsAccounted U floor memo snapshot = elim (Bool-cases (is_nil snapshot.facts)) [
    | inl e ↦ rw (e, check_completeness) (empty snapshot.facts e)
    | inr e ↦ rw (e, check_completeness) (assess_facts_lem F _ floor snapshot.facts)
  ]
    where
      nothing : CompletenessResult F.Real
      nothing = record {
        coverage = F.decimal 1 0;
        material_coverage = F.decimal 1 0;
        cited = [];
        omitted = [];
        material_omissions = [];
        is_passed = true;
      }

      empty :
          (fs : List (Fact F.Real)) → is_nil fs ≡ true → IsAccounted F (cited_ids U memo) fs nothing
      empty [] e = (tt, tt, refl, tt)
      empty (f ∷ fs) e = absurd cc
