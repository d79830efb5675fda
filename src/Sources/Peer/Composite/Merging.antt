-- ===== src/Sources/Peer/Composite/Merging.antt =====
-- The facts of a composition have ids of their own, and the origins name who sold them.
use Prim.Native.String.append as append_clauses
use jim_agent.Prelude.{
  ℕ, suc, ◌+◌, ◌≤◌, ◌<◌, String, ◌≡◌, refl, sym, ap, ◌∙◌, subst, inl, inr, false, Option, none,
  some, List, [], ◌∷◌, ◌++◌, map, arith, mem, str_eq, eq_iff, length, All, All-append, Bool-cases,
  Option-cases, ◌||◌, after_prefix,
}
use mathlib.Core.List.{append_assoc, append-nil}
use jim_agent.Prelude.Dict.{Dict, lookup, insert, lookup-insert}
use jim_agent.Prelude.Decimal.Reading.{read-show}
use jim_agent.Research.Facts.{Fact}
use jim_agent.Sources.Procure.{World}
use jim_agent.Sources.Peer.{GatherResult, Bought, bought, below_floor, not_bought, unusable, broken}
use jim_agent.Sources.Peer.Composite.{
  id_number, greater, max_number, citation_id, is_caught, renumbered, add_origins, merge, Peer,
  combine, gather_peers, with_origins, composite_gather,
}

id_number-citation : (n : ℕ) → id_number (citation_id n) ≡ some n
unfolding id_number after_prefix
id_number-citation n = rw append_clauses.cons (rw append_clauses.nil (read-show n))

abbrev Below : ℕ → Option ℕ → Type 0
Below n none = Unit
Below n (some k) = k < n

Below-suc : (n : ℕ) (o : Option ℕ) → Below n o → Below (suc n) o
Below-suc n none h = tt
Below-suc n (some k) h = omega arith

-- An id whose number is below `n` is not the `n`-th.
other_id : (n : ℕ) (id : String) → Below n (id_number id) → str_eq (citation_id n) id ≡ false
other_id n id h = elim (Bool-cases (str_eq (citation_id n) id)) [
  | inl same ↦
      let e : citation_id n ≡ id = (eq_iff (citation_id n) id).0 same in
      let number : id_number id ≡ some n = rw (← e) (id_number-citation n) in
      let bad : n < n = subst (Below n) number h in absurd (omega arith)
  | inr differs ↦ differs
]

-- No text stands twice in the list.
abbrev pub Distinct : List String → Type 0
Distinct [] = Unit
Distinct (x ∷ xs) = (mem x xs ≡ false) × Distinct xs

mem-append_one :
    (k : String) (xs : List String) (y : String) → mem k (xs ++ y ∷ []) ≡ (mem k xs || str_eq k y)
mem-append_one k [] y = ground arith
mem-append_one k (x ∷ xs) y = ground (arith, mem-append_one k xs y)

Distinct-append_one :
    (xs : List String) (y : String) → Distinct xs → mem y xs ≡ false → Distinct (xs ++ y ∷ [])
Distinct-append_one [] y d h = (refl, tt)
Distinct-append_one (x ∷ xs) y d h = (
  ground (arith, mem-append_one x xs y, eq_iff x y, eq_iff y x),
  Distinct-append_one xs y d.1 (ground arith),
)

greater_le : (a b : ℕ) → (a ≤ greater a b) × (b ≤ greater a b)
greater_le a b = ground arith

module _ {Real : Type 0} where
  abbrev ids_of : List (Fact Real) → List String
  ids_of = map (λ (f : Fact Real). f.id)

  ids_of-append : (fs gs : List (Fact Real)) → ids_of (fs ++ gs) ≡ ids_of fs ++ ids_of gs
  ids_of-append [] gs = refl
  ids_of-append (f ∷ fs) gs = ground (arith, ids_of-append fs gs)

  -- All numbers are below `n`.
  abbrev Under : ℕ → List (Fact Real) → Type 0
  Under n = All (λ (f : Fact Real). Below n (id_number f.id))

  Under-suc : (n : ℕ) (fs : List (Fact Real)) → Under n fs → Under (suc n) fs
  Under-suc n [] h = tt
  Under-suc n (f ∷ fs) h = (Below-suc n (id_number f.id) h.0, Under-suc n fs h.1)

  new_id : (n : ℕ) (fs : List (Fact Real)) → Under n fs → mem (citation_id n) (ids_of fs) ≡ false
  new_id n [] h = refl
  new_id n (f ∷ fs) h = ground (arith, other_id n f.id h.0, new_id n fs h.1)

  -- `n` is above every number and no id stands twice.
  abbrev Fresh : ℕ → List (Fact Real) → Type 0
  Fresh n fs = Under n fs × Distinct (ids_of fs)

  Fresh-renumbered :
      (gs fs : List (Fact Real)) (n : ℕ)
      → Fresh n fs
      → Fresh (n + length gs) (fs ++ renumbered n gs)
  unfolding renumbered
  Fresh-renumbered [] fs n h =
      let e : n + length {A = Fact Real} [] ≡ n = omega arith in rw (append-nil fs, e) h
  Fresh-renumbered (g ∷ gs) fs n (under, distinct) =
      let g' : Fact Real = record g { id = citation_id n } in
      let under' : Under (suc n) (fs ++ g' ∷ []) =
        All-append (λ (f : Fact Real). Below (suc n) (id_number f.id)) fs (g' ∷ [])
          (Under-suc n fs under) (rw (id_number-citation n) (omega arith), tt) in
      let distinct' : Distinct (ids_of (fs ++ g' ∷ [])) =
        rw (ids_of-append fs (g' ∷ []))
          (Distinct-append_one (ids_of fs) (citation_id n) distinct (new_id n fs under)) in
      let e : n + suc (length gs) ≡ suc n + length gs = omega arith in
      rw (e, ← append_assoc fs (g' ∷ []) (renumbered (suc n) gs))
        (Fresh-renumbered gs (fs ++ g' ∷ []) (suc n) (under', distinct'))

  -- An id whose number is below `n` keeps its origin.
  lookup-add_origins :
      (name : String) (gs : List (Fact Real)) (n : ℕ) (d : Dict String) (id : String)
      → Below n (id_number id)
      → lookup id (add_origins name (renumbered n gs) d) ≡ lookup id d
  unfolding add_origins renumbered
  lookup-add_origins name [] n d id h = refl
  lookup-add_origins name (g ∷ gs) n d id h =
      lookup-add_origins name gs (suc n) (insert (citation_id n) name d) id
        (Below-suc n (id_number id) h)
      ∙ ground (arith, lookup-insert (citation_id n) id name d, other_id n id h)

  owned :
      (name : String) (gs : List (Fact Real)) (n : ℕ) (d : Dict String)
      → All
          (λ (f : Fact Real). lookup f.id (add_origins name (renumbered n gs) d) ≡ some name)
          (renumbered n gs)
  unfolding add_origins renumbered
  owned name [] n d = tt
  owned name (g ∷ gs) n d =
      let d' = insert (citation_id n) name d in
      let below : Below (suc n) (id_number (citation_id n)) =
        rw (id_number-citation n) (omega arith) in
      (
        lookup-add_origins name gs (suc n) d' (citation_id n) below
            ∙ ground (
              arith,
              lookup-insert (citation_id n) (citation_id n) name d,
              eq_iff (citation_id n) (citation_id n),
            ),
        owned name gs (suc n) d',
      )

  Under-le : (n k : ℕ) (fs : List (Fact Real)) → n ≤ k → Under n fs → Under k fs
  Under-le n k [] h u = tt
  Under-le n k (f ∷ fs) h u = (Below-le (id_number f.id) u.0, Under-le n k fs h u.1)
    where
      Below-le : (o : Option ℕ) → Below n o → Below k o
      Below-le none b = tt
      Below-le (some j) b = omega arith

  Under-max_number : (fs : List (Fact Real)) → Under (suc (max_number fs)) fs
  unfolding max_number
  Under-max_number [] = tt
  Under-max_number (f ∷ fs) = elim (Option-cases (id_number f.id)) [
    | inl e ↦
        let same : max_number (f ∷ fs) ≡ max_number fs = rw (e, max_number) refl in
        (rw e tt, subst (λ m. Under (suc m) fs) (sym same) (Under-max_number fs))
    | inr (k, e) ↦
        let top : max_number (f ∷ fs) ≡ greater k (max_number fs) = rw (e, max_number) refl in
        let (here, rest) = greater_le k (max_number fs) in
        (
          rw e (omega (arith, here, top)),
          Under-le (suc (max_number fs)) (suc (max_number (f ∷ fs))) fs (omega (arith, rest, top))
              (Under-max_number fs),
        )
  ]

  Under-right : (n : ℕ) (fs gs : List (Fact Real)) → Under n (fs ++ gs) → Under n gs
  Under-right n [] gs u = u
  Under-right n (f ∷ fs) gs u = Under-right n fs gs u.1

  -- Facts that were sold and then renumbered, each with the origins naming its seller.
  abbrev pub AreSold : Dict String → List (String × Fact Real) → List (Fact Real) → Type 0
  AreSold d [] [] = Unit
  AreSold d [] (g ∷ gs) = ⊥
  AreSold d (s ∷ sold) [] = ⊥
  AreSold d (s ∷ sold) (g ∷ gs) =
      (g ≡ record s.1 { id = g.id }) × (lookup g.id d ≡ some s.0) × AreSold d sold gs

  AreSold-append :
      (d : Dict String) (sold sold' : List (String × Fact Real)) (gs gs' : List (Fact Real))
      → AreSold d sold gs
      → AreSold d sold' gs'
      → AreSold d (sold ++ sold') (gs ++ gs')
  AreSold-append d [] sold' [] gs' h h' = h'
  AreSold-append d [] sold' (g ∷ gs) gs' h h' = absurd h
  AreSold-append d (s ∷ sold) sold' [] gs' h h' = absurd h
  AreSold-append d (s ∷ sold) sold' (g ∷ gs) gs' (same, origin, h) h' =
      (same, origin, AreSold-append d sold sold' gs gs' h h')

  still-AreSold :
      (name : String) (gs : List (Fact Real)) (n : ℕ) (d : Dict String)
      (sold : List (String × Fact Real)) (fs : List (Fact Real))
      → Under n fs
      → AreSold d sold fs
      → AreSold (add_origins name (renumbered n gs) d) sold fs
  still-AreSold name gs n d [] [] u h = tt
  still-AreSold name gs n d [] (f ∷ fs) u h = absurd h
  still-AreSold name gs n d (s ∷ sold) [] u h = absurd h
  still-AreSold name gs n d (s ∷ sold) (f ∷ fs) u (same, e, h) =
      (same, lookup-add_origins name gs n d f.id u.0 ∙ e, still-AreSold name gs n d sold fs u.1 h)

  -- The facts of one seller.
  abbrev pub sold_by : String → List (Fact Real) → List (String × Fact Real)
  sold_by name = map (λ (f : Fact Real). (name, f))

  named-AreSold :
      (name : String) (d : Dict String) (gs : List (Fact Real)) (n : ℕ)
      → All (λ (f : Fact Real). lookup f.id d ≡ some name) (renumbered n gs)
      → AreSold d (sold_by name gs) (renumbered n gs)
  unfolding renumbered
  named-AreSold name d [] n h = tt
  named-AreSold name d (g ∷ gs) n (e, h) = (refl, e, named-AreSold name d gs (suc n) h)

  -- What an outcome of a peer brings.
  abbrev pub sale : String → Bought Real → List (String × Fact Real)
  sale name (bought r) = sold_by name r.snapshot.facts
  sale name _ = []

  -- What the peers sell, each with its seller, when they are asked one after the other.
  abbrev pub sales : {P : Type 0} → List (Peer Real P) → World P → List (String × Fact Real)
  sales [] w = []
  sales ((name, gather) ∷ peers) w = sale name (gather w).0 ++ sales peers (gather w).1

module _ {Real : Type 0} (facts : List (Fact Real)) where
  -- The primary facts come first and unchanged, then those that were sold, and ids are distinct.
  abbrev pub IsComposed : List (String × Fact Real) → GatherResult Real → Type 0
  IsComposed sold g =
      (added : List (Fact Real)) × (g.snapshot.facts ≡ facts ++ added)
      × Distinct (ids_of g.snapshot.facts)
      × AreSold g.snapshot.origins sold added

  abbrev Goes : List (String × Fact Real) → ℕ → GatherResult Real → Type 0
  Goes sold n g = IsComposed sold g × Under n g.snapshot.facts

  Goes-merge :
      (sold : List (String × Fact Real)) (name : String) (n : ℕ) (r g : GatherResult Real)
      → Goes sold n g
      → Goes
          (sold ++ sold_by name r.snapshot.facts)
          (n + length r.snapshot.facts)
          (merge name n r g)
  unfolding merge
  Goes-merge sold name n r g ((added, e, distinct, known), under) =
      let gs = r.snapshot.facts in
      let d = g.snapshot.origins in
      let fresh = Fresh-renumbered gs g.snapshot.facts n (under, distinct) in
      let below : Under n added = Under-right n facts added (subst (Under n) e under) in
      let regroup : g.snapshot.facts ++ renumbered n gs ≡ facts ++ (added ++ renumbered n gs) =
        ap (λ fs. fs ++ renumbered n gs) e ∙ append_assoc facts added (renumbered n gs) in
      let d' = add_origins name (renumbered n gs) d in
      (
        (
          added ++ renumbered n gs,
          regroup,
          fresh.1,
          AreSold-append d' sold (sold_by name gs) added (renumbered n gs)
              (still-AreSold name gs n d sold added below known)
              (named-AreSold name d' gs n (owned name gs n d)),
        ),
        fresh.0,
      )

  abbrev Ends : List (String × Fact Real) → Option (GatherResult Real) → Type 0
  Ends sold none = Unit
  Ends sold (some g) = IsComposed sold g

  abbrev Continues : List (String × Fact Real) → Option (GatherResult Real × ℕ) → Type 0
  Continues sold none = Unit
  Continues sold (some (g, m)) = Goes sold m g

  combine_lem :
      (sold : List (String × Fact Real)) (name : String) (n : ℕ) (g : GatherResult Real)
      (outcome : Bought Real)
      → Goes sold n g
      → Continues (sold ++ sale name outcome) (combine name n g outcome)
  unfolding combine
  combine_lem sold name n g (bought r) h = Goes-merge sold name n r g h
  combine_lem sold name n g (below_floor score events) h = rw (append-nil sold) h
  combine_lem sold name n g unusable h = rw (append-nil sold) h
  combine_lem sold name n g broken h = tt
  combine_lem sold name n g (not_bought e) h = elim (Bool-cases (is_caught e)) [
    | inl c ↦ rw (c, append-nil sold, combine) h
    | inr c ↦ rw (c, combine) tt
  ]

  gather_peers_lem :
      {P : Type 0} (peers : List (Peer Real P)) (sold : List (String × Fact Real)) (n : ℕ)
      (g : GatherResult Real) (w : World P)
      → Goes sold n g
      → Ends (sold ++ sales peers w) (gather_peers peers n g w).0
  unfolding gather_peers
  gather_peers_lem [] sold n g w h = rw (append-nil sold) h.0
  gather_peers_lem ((name, gather) ∷ peers) sold n g w h =
      let outcome = (gather w).0 in
      elim (Option-cases (combine name n g outcome)) [
        | inl e ↦ rw (e, gather_peers) tt
        | inr ((next, m), e) ↦
            let goes =
              subst (Continues (sold ++ sale name outcome)) e
                (combine_lem sold name n g outcome h) in
            rw (e, gather_peers)
              (subst (λ x. Ends x (gather_peers peers m next (gather w).1).0)
                (append_assoc sold (sale name outcome) (sales peers (gather w).1))
                (gather_peers_lem peers (sold ++ sale name outcome) m next (gather w).1 goes))
      ]

module _ {Real : Type 0} where
  -- Composition is safe and complete for any peers: if it returns and the ids of the primary facts
  -- are distinct, its facts are the primary ones, unchanged and in front, and then all the facts that
  -- the peers sold, in order, unchanged but for their ids; no citation id stands twice, and the
  -- origins name for each added fact the peer that sold it.
  pub composite_gather-IsComposed :
      {P : Type 0} (primary : String) (peers : List (Peer Real P)) (base r : GatherResult Real)
      (w : World P)
      → Distinct (map (λ (f : Fact Real). f.id) base.snapshot.facts)
      → (composite_gather primary peers base w).0 ≡ some r
      → IsComposed base.snapshot.facts (sales peers w) r
  unfolding composite_gather with_origins
  composite_gather-IsComposed primary peers base r w distinct e =
      let facts = base.snapshot.facts in
      let start : Goes facts [] (suc (max_number facts)) (with_origins primary base) =
        (([], sym (append-nil facts), distinct, tt), Under-max_number facts) in
      subst (Ends facts (sales peers w)) e (
        gather_peers_lem facts peers [] (suc (max_number facts)) (with_origins primary base) w
          start)
