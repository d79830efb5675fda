-- ===== src/Research/Edgar/Cited.antt =====
-- Every fact of a fundamentals snapshot has its own number, and is filed or derived.
use jim_agent.Prelude.{
  ℕ, suc, ◌+◌, String, ◌≡◌, refl, subst, inl, inr, false, not, Option, none, some, List, [], ◌∷◌,
  ◌++◌, arith, All, All-append, keep, is_nil, length, Bool-cases, Option-cases,
}
use jim_agent.Prelude.Runtime.{Floats, Unicode}
use jim_agent.Research.Facts.{Fact, Snapshot, shares, usd}
use jim_agent.Research.Facts.Derived.{Metric, metrics, publish, number, compute_derived}
use jim_agent.Research.Edgar.{
  Entry, Taxonomy, primary_concepts, shares_tag, cited, is_10k, rows_of, filed_fact, concept_facts,
  latest_row, shares_facts, extract, second, first_label, Fetched, fetched, edgar_error, crashed,
  revenue_growth, with_derived, fetch_snapshot,
}
use jim_agent.Research.Edgar.Filed.{
  IsNumbered, IsFiled, Form10k, IsNumbered-append, Made, filed_fact-Made, Extracted,
  concept_facts-Extracted, latest_row-Form10k, keep-Form10k,
}

-- Facts that are numbered from `n` on, each of them filed or derived.
abbrev pub IsCited : {Real : Type 0} → ℕ → ℕ → List (Fact Real) → Type 0
IsCited cik n fs = IsNumbered n fs × All (IsFiled cik) fs

abbrev CitedIfAny : {Real : Type 0} → ℕ → ℕ → Option (List (Fact Real)) → Type 0
CitedIfAny cik n none = Unit
CitedIfAny cik n (some fs) = IsCited cik n fs

module _ {Real : Type 0} where
  IsCited-append :
      (cik n : ℕ) (fs gs : List (Fact Real))
      → IsCited cik n fs
      → IsCited cik (length fs + n) gs
      → IsCited cik n (fs ++ gs)
  IsCited-append cik n fs gs (ids, filed) (ids', filed') =
      (IsNumbered-append n fs gs ids ids', All-append (IsFiled cik) fs gs filed filed')

  shares_facts-CitedIfAny :
      (dei : Taxonomy Real) (cik n : ℕ) → CitedIfAny cik n (shares_facts dei cik n)
  unfolding shares_facts
  shares_facts-CitedIfAny dei cik n =
      go (keep is_10k (rows_of dei shares_tag "shares")) refl
        (keep-Form10k (rows_of dei shares_tag "shares"))
    where
      made :
          (e : Entry Real) (es : List (Entry Real))
          → keep is_10k (rows_of dei shares_tag "shares") ≡ e ∷ es
          → (x : Option (Fact Real))
          → filed_fact cik (cited n) "Shares outstanding" shares (some shares_tag) (latest_row e es)
            ≡ x
          → Made cik (cited n) x
          → CitedIfAny cik n (shares_facts dei cik n)
      made e es p none q m = rw (p, q, shares_facts) tt
      made e es p (some f) q (id, filed) = rw (p, q, shares_facts) ((id, tt), (filed, tt))

      go :
          (x : List (Entry Real))
          → keep is_10k (rows_of dei shares_tag "shares") ≡ x
          → All Form10k x
          → CitedIfAny cik n (shares_facts dei cik n)
      go [] p h = rw (p, shares_facts) (tt, tt)
      go (e ∷ es) p h =
          made e es p
            (filed_fact cik (cited n) "Shares outstanding" shares (some shares_tag)
              (latest_row e es))
            refl
            (filed_fact-Made cik (cited n) "Shares outstanding" shares (some shares_tag)
              (latest_row e es) (latest_row-Form10k e es h))

  abbrev PriorFrom10k : Option (Entry Real) → Type 0
  PriorFrom10k none = Unit
  PriorFrom10k (some e) = Form10k e

  second-Form10k : (es : List (Entry Real)) → All Form10k es → PriorFrom10k (second es)
  second-Form10k [] h = tt
  second-Form10k (e ∷ []) h = tt
  second-Form10k (e ∷ p ∷ es) (here, (next, h)) = next

  abbrev Drawn : ℕ → Option (List (Fact Real) × Option (Entry Real)) → Type 0
  Drawn cik none = Unit
  Drawn cik (some (fs, prior)) = IsCited cik 1 fs × PriorFrom10k prior

  extract-Drawn :
      (days : String → Option ℕ) (cik : ℕ) (gaap dei : Taxonomy Real)
      → Drawn cik (extract days cik gaap dei)
  unfolding extract
  extract-Drawn days cik gaap dei =
      go (concept_facts days gaap cik 1 primary_concepts) refl
        (concept_facts-Extracted days gaap cik 1 primary_concepts)
    where
      added :
          (fs : List (Fact Real)) (series : List (Entry Real))
          → concept_facts days gaap cik 1 primary_concepts ≡ some (fs, series)
          → IsNumbered 1 fs × All (IsFiled cik) fs × All Form10k series
          → (y : Option (List (Fact Real))) → shares_facts dei cik (length fs + 1) ≡ y
          → CitedIfAny cik (length fs + 1) y
          → Drawn cik (extract days cik gaap dei)
      added fs series p h none q c = rw (p, q, extract) tt
      added fs series p (ids, filed, rows) (some gs) q c =
          rw (p, q, extract) (IsCited-append cik 1 fs gs (ids, filed) c, second-Form10k series rows)

      go :
          (x : Option (List (Fact Real) × List (Entry Real)))
          → concept_facts days gaap cik 1 primary_concepts ≡ x
          → Extracted cik 1 x
          → Drawn cik (extract days cik gaap dei)
      go none p h = rw (p, extract) tt
      go (some (fs, series)) p h =
          added fs series p h (shares_facts dei cik (length fs + 1)) refl
            (shares_facts-CitedIfAny dei cik (length fs + 1))

module _ (F : Floats) where
  revenue_growth-CitedIfAny :
      (cik n : ℕ) (facts : List (Fact F.Real)) (prior : Option (Entry F.Real))
      → PriorFrom10k prior
      → CitedIfAny cik n (revenue_growth F cik facts prior n)
  unfolding revenue_growth
  revenue_growth-CitedIfAny cik n facts none h = (tt, tt)
  revenue_growth-CitedIfAny cik n facts (some prior) h =
      elim (Option-cases (first_label "Revenue" facts)) [
        | inl p ↦ rw (p, revenue_growth) (tt, tt)
        | inr (current, p) ↦ elim (Option-cases prior.val) [
          | inl q ↦ rw (p, q, revenue_growth) (tt, tt)
          | inr (v, q) ↦ elim (Bool-cases (F.eq v (F.decimal 0 0))) [
            | inl z ↦ rw (p, q, z, revenue_growth) (tt, tt)
            | inr z ↦
                grown current v p q z
                  (filed_fact cik (cited n) "Revenue (prior FY)" usd current.concept prior) refl
                  (filed_fact-Made cik (cited n) "Revenue (prior FY)" usd current.concept prior h)
          ]
        ]
      ]
    where
      grown :
          (current : Fact F.Real) (v : F.Real)
          → first_label "Revenue" facts ≡ some current
          → prior.val ≡ some v
          → F.eq v (F.decimal 0 0) ≡ false
          → (x : Option (Fact F.Real))
          → filed_fact cik (cited n) "Revenue (prior FY)" usd current.concept prior ≡ x
          → Made cik (cited n) x
          → CitedIfAny cik n (revenue_growth F cik facts (some prior) n)
      grown current v p q z none r m = rw (p, q, z, r, revenue_growth) tt
      grown current v p q z (some f) r (id, filed) =
          rw (p, q, z, r, revenue_growth) ((id, (refl, tt)), (filed, (inl refl, tt)))

  number-IsCited :
      (cik n k : ℕ) (ms : List (Metric F.Real))
      → IsCited cik (n + k) (number F (λ j. cited (n + j)) k ms)
  unfolding number publish
  number-IsCited cik n k [] = (tt, tt)
  number-IsCited cik n k (m ∷ ms) =
      let (ids, filed) = number-IsCited cik n (k + 1) ms in
      let next : n + (k + 1) ≡ suc (n + k) = omega arith in
      (
        (refl, subst (λ j. IsNumbered j (number F (λ j. cited (n + j)) (k + 1) ms)) next ids),
        (inl refl, filed),
      )

  with_derived-IsCited :
      (cik : ℕ) (facts : List (Fact F.Real))
      → IsCited cik 1 facts
      → IsCited cik 1 (with_derived F facts)
  unfolding with_derived compute_derived
  with_derived-IsCited cik facts h =
      let ms = metrics F (keep (λ (f : Fact F.Real). not f.is_derived) facts) in
      let from : length facts + 1 + 0 ≡ length facts + 1 = omega arith in
      IsCited-append cik 1 facts (number F (λ k. cited (length facts + 1 + k)) 0 ms) h (
        subst (λ j. IsCited cik j (number F (λ k. cited (length facts + 1 + k)) 0 ms)) from
          (number-IsCited cik (length facts + 1) 0 ms))

  abbrev Fair : ℕ → Fetched F.Real → Type 0
  Fair cik (fetched s) = IsCited cik 1 s.facts
  Fair cik edgar_error = Unit
  Fair cik crashed = Unit

  module _ (U : Unicode) (days : String → Option ℕ) (ticker cik_text : String) (cik : ℕ)
      (entity : Option String) (gaap dei : Taxonomy F.Real) where
    fetch_snapshot-Fair : Fair cik (fetch_snapshot F U days ticker cik_text cik entity gaap dei)
    unfolding fetch_snapshot
    fetch_snapshot-Fair = elim (Bool-cases (is_nil gaap)) [
      | inl e ↦ rw (e, fetch_snapshot) tt
      | inr e ↦ drawn e (extract days cik gaap dei) refl (extract-Drawn days cik gaap dei)
    ]
      where
        grown :
            (f : Fact F.Real) (fs : List (Fact F.Real)) (prior : Option (Entry F.Real))
            → is_nil gaap ≡ false
            → extract days cik gaap dei ≡ some (f ∷ fs, prior)
            → IsCited cik 1 (f ∷ fs)
            → (y : Option (List (Fact F.Real)))
            → revenue_growth F cik (f ∷ fs) prior (length (f ∷ fs) + 1) ≡ y
            → CitedIfAny cik (length (f ∷ fs) + 1) y
            → Fair cik (fetch_snapshot F U days ticker cik_text cik entity gaap dei)
        grown f fs prior e p h none q c = rw (e, p, q, fetch_snapshot) tt
        grown f fs prior e p h (some gs) q c =
            rw (e, p, q, fetch_snapshot)
              (with_derived-IsCited cik ((f ∷ fs) ++ gs) (IsCited-append cik 1 (f ∷ fs) gs h c))

        drawn :
            is_nil gaap ≡ false
            → (x : Option (List (Fact F.Real) × Option (Entry F.Real)))
            → extract days cik gaap dei ≡ x
            → Drawn cik x
            → Fair cik (fetch_snapshot F U days ticker cik_text cik entity gaap dei)
        drawn e none p h = rw (e, p, fetch_snapshot) tt
        drawn e (some ([], prior)) p h = rw (e, p, fetch_snapshot) tt
        drawn e (some (f ∷ fs, prior)) p (h, from) =
            grown f fs prior e p h (revenue_growth F cik (f ∷ fs) prior (length (f ∷ fs) + 1)) refl
              (revenue_growth-CitedIfAny cik (length (f ∷ fs) + 1) (f ∷ fs) prior from)

    -- Every figure of a fundamentals snapshot can be cited. Whatever the SEC answers, if it makes a
    -- snapshot, its facts have the citation ids in order from the first one on, and each of them is
    -- derived or stands in a 10-K, whose accession it names and which its link leads to.
    pub fetch_snapshot-IsCited :
        (s : Snapshot F.Real)
        → fetch_snapshot F U days ticker cik_text cik entity gaap dei ≡ fetched s
        → IsCited cik 1 s.facts
    fetch_snapshot-IsCited s e = subst (Fair cik) e fetch_snapshot-Fair
