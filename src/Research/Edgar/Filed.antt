-- ===== src/Research/Edgar/Filed.antt =====
-- Every fact of a fundamentals snapshot has its own number, and is filed or derived.
use jim_agent.Prelude.{
  ℕ, suc, ◌+◌, String, ◌≡◌, refl, sym, subst, ◌⊎◌, inl, inr, Bool, true, false, Option, none, some,
  List, [], ◌∷◌, ◌++◌, arith, All, keep, sort_by, insert_by, length, starts_with, str_eq,
  Bool-cases, Option-cases, if◌then◌else◌,
}
use jim_agent.Research.Facts.{Fact}
use jim_agent.Research.Edgar.{
  Concept, Entry, Taxonomy, unit_key, or_empty, filing_url, cited, is_10k, is_annual, annual_rows,
  one_per_year, newer, annual_entries, rows_of, find_tag, filed_fact, concept_facts, latest_row,
}

-- The ids are the citation ids from `n` on, in order.
abbrev pub IsNumbered : {Real : Type 0} → ℕ → List (Fact Real) → Type 0
IsNumbered n [] = Unit
IsNumbered n (f ∷ fs) = (f.id ≡ cited n) × IsNumbered (suc n) fs

-- A fact is derived, or comes from a 10-K with its accession and a link to the filing.
abbrev pub IsFiled : {Real : Type 0} → ℕ → Fact Real → Type 0
IsFiled cik f =
    (f.is_derived ≡ true)
    ⊎ ((a : String) × (f.accession ≡ some a)
        × (f.source_url ≡ some (filing_url cik a))
        × (starts_with "10-K" (or_empty f.form) ≡ true))

abbrev pub Form10k : {Real : Type 0} → Entry Real → Type 0
Form10k e = is_10k e ≡ true

module _ {Real : Type 0} where
  pub IsNumbered-append :
      (n : ℕ) (fs gs : List (Fact Real))
      → IsNumbered n fs
      → IsNumbered (length fs + n) gs
      → IsNumbered n (fs ++ gs)
  IsNumbered-append n [] gs h k =
      let e : 0 + n ≡ n = omega arith in subst (λ m. IsNumbered m gs) e k
  IsNumbered-append n (f ∷ fs) gs (here, h) k =
      let e : suc (length fs) + n ≡ length fs + suc n = omega arith in
      (here, IsNumbered-append (suc n) fs gs h (subst (λ m. IsNumbered m gs) e k))

  All-insert_by :
      (Q : Entry Real → Type 0) (lt : Entry Real → Entry Real → Bool) (e : Entry Real)
      (es : List (Entry Real))
      → Q e
      → All Q es
      → All Q (insert_by lt e es)
  All-insert_by Q lt e [] here all = (here, tt)
  All-insert_by Q lt e (x ∷ xs) here (q, all) = elim (Bool-cases (lt x e)) [
    | inl y ↦ rw y (q, All-insert_by Q lt e xs here all)
    | inr y ↦ rw y (here, (q, all))
  ]

  All-sort_by :
      (Q : Entry Real → Type 0) (lt : Entry Real → Entry Real → Bool) (es : List (Entry Real))
      → All Q es
      → All Q (sort_by lt es)
  All-sort_by Q lt [] all = tt
  All-sort_by Q lt (x ∷ xs) (q, all) =
      All-insert_by Q lt x (sort_by lt xs) q (All-sort_by Q lt xs all)

  one_per_year-Form10k :
      (seen : List (Option ℕ)) (es : List (Entry Real))
      → All Form10k es
      → All Form10k (one_per_year seen es)
  unfolding one_per_year
  one_per_year-Form10k seen [] all = tt
  one_per_year-Form10k seen (e ∷ es) (q, all) =
      ground (arith, q, one_per_year-Form10k seen es all, one_per_year-Form10k (e.fy ∷ seen) es all)

  -- What a list is, if there is one.
  abbrev Each : Option (List (Entry Real)) → Type 0
  Each none = Unit
  Each (some es) = All Form10k es

  is_annual-Form10k :
      (days : String → Option ℕ) (kind : String) (e : Entry Real)
      → is_annual days kind e ≡ some true
      → Form10k e
  unfolding is_annual
  is_annual-Form10k days kind e h = elim (Bool-cases (is_10k e)) [
    | inl y ↦ y
    | inr y ↦ let bad : is_annual days kind e ≡ some false = rw (y, is_annual) refl in absurd cc
  ]

  annual_rows-Each :
      (days : String → Option ℕ) (kind : String) (es : List (Entry Real))
      → Each (annual_rows days kind es)
  unfolding annual_rows
  annual_rows-Each days kind [] = tt
  annual_rows-Each days kind (e ∷ es) =
      go (is_annual days kind e) refl (annual_rows days kind es) refl
        (annual_rows-Each days kind es)
    where
      go :
          (x : Option Bool)
          → is_annual days kind e ≡ x
          → (y : Option (List (Entry Real))) → annual_rows days kind es ≡ y
          → Each y
          → Each (annual_rows days kind (e ∷ es))
      go none p y q h = rw (p, annual_rows) tt
      go (some false) p y q h = rw (p, annual_rows) (subst Each (sym q) h)
      go (some true) p none q h = rw (p, q, annual_rows) tt
      go (some true) p (some rows) q h = rw (p, q, annual_rows) (is_annual-Form10k days kind e p, h)

  annual_entries-Each :
      (days : String → Option ℕ) (kind : String) (es : List (Entry Real))
      → Each (annual_entries days kind es)
  unfolding annual_entries
  annual_entries-Each days kind es =
      go (annual_rows days kind es) refl (annual_rows-Each days kind es)
    where
      go :
          (x : Option (List (Entry Real)))
          → annual_rows days kind es ≡ x
          → Each x
          → Each (annual_entries days kind es)
      go none p h = rw (p, annual_entries) tt
      go (some rows) p h =
          rw (p, annual_entries)
            (one_per_year-Form10k [] (sort_by newer rows) (All-sort_by Form10k newer rows h))

  abbrev FoundTag : Option (Option (String × Entry Real × List (Entry Real))) → Type 0
  FoundTag none = Unit
  FoundTag (some none) = Unit
  FoundTag (some (some (tag, e, es))) = All Form10k (e ∷ es)

  find_tag-FoundTag :
      (days : String → Option ℕ) (gaap : Taxonomy Real) (unit kind : String) (tags : List String)
      → FoundTag (find_tag days gaap unit kind tags)
  unfolding find_tag
  find_tag-FoundTag days gaap unit kind [] = tt
  find_tag-FoundTag days gaap unit kind (tag ∷ tags) =
      go (annual_entries days kind (rows_of gaap tag unit)) refl
        (annual_entries-Each days kind (rows_of gaap tag unit))
        (find_tag-FoundTag days gaap unit kind tags)
    where
      go :
          (x : Option (List (Entry Real)))
          → annual_entries days kind (rows_of gaap tag unit) ≡ x
          → Each x
          → FoundTag (find_tag days gaap unit kind tags)
          → FoundTag (find_tag days gaap unit kind (tag ∷ tags))
      go none p h rest = rw (p, find_tag) tt
      go (some []) p h rest = rw (p, find_tag) rest
      go (some (e ∷ es)) p h rest = rw (p, find_tag) h

  -- A fact that was made of a row has the id that it was given.
  abbrev pub Made : ℕ → String → Option (Fact Real) → Type 0
  Made cik id none = Unit
  Made cik id (some f) = (f.id ≡ id) × IsFiled cik f

  pub filed_fact-Made :
      (cik : ℕ) (id label unit : String) (tag : Option String) (e : Entry Real)
      → Form10k e
      → Made cik id (filed_fact cik id label unit tag e)
  unfolding filed_fact
  filed_fact-Made cik id label unit tag e h = elim (Option-cases e.val) [
    | inl p ↦ rw (p, filed_fact) tt
    | inr (v, p) ↦ elim (Option-cases e.accn) [
      | inl q ↦ rw (p, q, filed_fact) tt
      | inr (a, q) ↦ rw (p, q, filed_fact) (refl, inr (a, refl, refl, h))
    ]
  ]

  -- Facts from `n` on, and rows of 10-Ks.
  abbrev pub Extracted : ℕ → ℕ → Option (List (Fact Real) × List (Entry Real)) → Type 0
  Extracted cik n none = Unit
  Extracted cik n (some (fs, series)) = IsNumbered n fs × All (IsFiled cik) fs × All Form10k series

  branch-Form10k :
      (b : Bool) (xs ys : List (Entry Real))
      → All Form10k xs
      → All Form10k ys
      → All Form10k (if b then xs else ys)
  branch-Form10k true xs ys hx hy = hx
  branch-Form10k false xs ys hx hy = hy

  pub concept_facts-Extracted :
      (days : String → Option ℕ) (gaap : Taxonomy Real) (cik n : ℕ) (cs : List Concept)
      → Extracted cik n (concept_facts days gaap cik n cs)
  unfolding concept_facts
  concept_facts-Extracted days gaap cik n [] = (tt, tt, tt)
  concept_facts-Extracted days gaap cik n (c ∷ cs) =
      skip_or_take (find_tag days gaap (unit_key c.unit) c.kind c.tags) refl
        (find_tag-FoundTag days gaap (unit_key c.unit) c.kind c.tags)
        (concept_facts-Extracted days gaap cik n cs)
        (concept_facts-Extracted days gaap cik (suc n) cs)
    where
      joined :
          (tag : String) (e : Entry Real) (es : List (Entry Real))
          → find_tag days gaap (unit_key c.unit) c.kind c.tags ≡ some (some (tag, e, es))
          → All Form10k (e ∷ es)
          → (x : Option (Fact Real)) → filed_fact cik (cited n) c.label c.unit (some tag) e ≡ x
          → Made cik (cited n) x
          → (y : Option (List (Fact Real) × List (Entry Real)))
          → concept_facts days gaap cik (suc n) cs ≡ y
          → Extracted cik (suc n) y
          → Extracted cik n (concept_facts days gaap cik n (c ∷ cs))
      joined tag e es p h none q m y r rest = rw (p, q, concept_facts) tt
      joined tag e es p h (some f) q m none r rest = rw (p, q, r, concept_facts) tt
      joined tag e es p h (some f) q (id, filed) (some (fs, series)) r (ids, all, rows) =
          rw (p, q, r, concept_facts)
            (
              (id, ids),
              (filed, all),
              branch-Form10k (str_eq c.label "Revenue") (e ∷ es) series h rows,
            )

      skip_or_take :
          (x : Option (Option (String × Entry Real × List (Entry Real))))
          → find_tag days gaap (unit_key c.unit) c.kind c.tags ≡ x
          → FoundTag x
          → Extracted cik n (concept_facts days gaap cik n cs)
          → Extracted cik (suc n) (concept_facts days gaap cik (suc n) cs)
          → Extracted cik n (concept_facts days gaap cik n (c ∷ cs))
      skip_or_take none p h skipped taken = rw (p, concept_facts) tt
      skip_or_take (some none) p h skipped taken = rw (p, concept_facts) skipped
      skip_or_take (some (some (tag, e, es))) p h skipped taken =
          joined tag e es p h (filed_fact cik (cited n) c.label c.unit (some tag) e) refl
            (filed_fact-Made cik (cited n) c.label c.unit (some tag) e h.0)
            (concept_facts days gaap cik (suc n) cs) refl taken

  either-Form10k :
      (b : Bool) (x y : Entry Real) → Form10k x → Form10k y → Form10k (if b then x else y)
  either-Form10k true x y hx hy = hx
  either-Form10k false x y hx hy = hy

  pub latest_row-Form10k :
      (e : Entry Real) (es : List (Entry Real)) → All Form10k (e ∷ es) → Form10k (latest_row e es)
  latest_row-Form10k e [] h = h.0
  latest_row-Form10k e (x ∷ xs) (here, (next, all)) =
      latest_row-Form10k (if newer x e then x else e) xs
        (either-Form10k (newer x e) x e next here, all)

  pub keep-Form10k : (es : List (Entry Real)) → All Form10k (keep is_10k es)
  keep-Form10k [] = tt
  keep-Form10k (e ∷ es) = elim (Bool-cases (is_10k e)) [
    | inl y ↦ rw y (y, keep-Form10k es)
    | inr y ↦ rw y (keep-Form10k es)
  ]
