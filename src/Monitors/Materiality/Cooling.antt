-- ===== src/Monitors/Materiality/Cooling.antt =====
-- What the materiality gate publishes, and what it remembers.
use jim_agent.Prelude.{
  ℕ, ◌+◌, ◌≤◌, ◌<◌, String, ◌≡◌, refl, sym, ◌∙◌, subst, any-In, ◌⊎◌, inl, inr, Bool, true, false,
  not, ◌||◌, some, List, [], ◌∷◌, ◌++◌, arith, ltb, str_eq, eq_iff, truthy, is_nil, any, In, All,
  All-append, Bool-cases, if◌then◌else◌,
}
use mathlib.Core.List.{append_assoc, append-nil}
use jim_agent.Prelude.Dict.{Dict, lookup, insert, lookup-insert}
use jim_agent.Prelude.Runtime.{Iso}
use jim_agent.Monitors.Models.{Signal, severity_rank, microseconds}
use jim_agent.Monitors.Materiality.{
  MaterialityVerdict, Sorting, top_severity, is_cooling, is_held, sort, assess,
}

any-append :
    {A : Type 0} (p : A → Bool) (xs : List A) (y : A) → any p (xs ++ y ∷ []) ≡ (any p xs || p y)
any-append p [] y = ground arith
any-append p (x ∷ xs) y = ground (arith, any-append p xs y)

All-In : {A : Type 0} (P : A → Type 0) (xs : List A) {x : A} → All P xs → In x xs → P x
All-In P [] h i = absurd i
All-In P (y ∷ ys) h (inl e) = subst P (sym e) h.0
All-In P (y ∷ ys) h (inr i) = All-In P ys h.1 i

All-map :
    {A : Type 0} (P Q : A → Type 0) → ((x : A) → P x → Q x) → (xs : List A) → All P xs → All Q xs
All-map P Q f [] h = tt
All-map P Q f (x ∷ xs) h = (f x h.0, All-map P Q f xs h.1)

module _ {Real : Type 0} where
  -- Whether a signal of the key is among these.
  abbrev pub fired : String → List (Signal Real) → Bool
  fired k sigs = any (λ (s : Signal Real). str_eq s.key k) sigs

  top-severity-le :
      (severity : String) (sigs : List (Signal Real))
      → (severity_rank severity ≤ severity_rank (top_severity severity sigs))
        × All
            (λ (s : Signal Real).
              severity_rank s.severity ≤ severity_rank (top_severity severity sigs))
            sigs
  unfolding top_severity
  top-severity-le severity [] = (omega arith, tt)
  top-severity-le severity (sig ∷ sigs) =
      let next =
        if ltb (severity_rank severity) (severity_rank sig.severity)
        then sig.severity
        else severity in
      let (more, rest) = top-severity-le next sigs in
      elim (Bool-cases (ltb (severity_rank severity) (severity_rank sig.severity))) [
        | inl up ↦ (ground (arith, more), (ground (arith, more), rest))
        | inr same ↦ (ground (arith, more), (ground (arith, more), rest))
      ]

module _ (T : Iso) (now cooldown_seconds : ℕ) {Real : Type 0} (floor : ℕ)
    (before : Dict String) where
  abbrev pub Passes : Signal Real → Type 0
  Passes sig =
      (floor ≤ severity_rank sig.severity)
      × (is_cooling T now cooldown_seconds (lookup sig.key before) ≡ false)

  abbrev pub IsSuppressible : List (Signal Real) → Signal Real → Type 0
  IsSuppressible published sig =
      (severity_rank sig.severity < floor)
      ⊎ (is_cooling T now cooldown_seconds (lookup sig.key before) ≡ true)
      ⊎ (fired sig.key published ≡ true)

  -- What the loop keeps.
  abbrev IsSorted : Sorting Real → Type 0
  IsSorted st =
      All Passes st.published
      × All (IsSuppressible st.published) st.suppressed
      × ((k : String)
          → lookup k st.cooldowns
            ≡ (if fired k st.published then some (T.isoformat now) else lookup k before))

  suppressed_one :
      (sig : Signal Real) (st : Sorting Real)
      → is_held T now cooldown_seconds floor st.cooldowns sig ≡ true
      → IsSorted st
      → IsSorted (record st { suppressed = st.suppressed ++ sig ∷ [] })
  unfolding is_held
  suppressed_one sig st held (good, why, memory) =
      let reason : IsSuppressible st.published sig =
        elim (Bool-cases (ltb (severity_rank sig.severity) floor)) [
          | inl low ↦ inl (ground arith)
          | inr high ↦ elim (Bool-cases (fired sig.key st.published)) [
            | inl f ↦ inr (inr f)
            | inr f ↦ inr (inl (ground (arith, memory sig.key)))
          ]
        ] in
      (
        good,
        All-append (IsSuppressible st.published) st.suppressed (sig ∷ []) why (reason, tt),
        memory,
      )

  published_one :
      (sig : Signal Real) (st : Sorting Real)
      → is_held T now cooldown_seconds floor st.cooldowns sig ≡ false
      → IsSorted st
      → IsSorted (record {
        published = st.published ++ sig ∷ [];
        suppressed = st.suppressed;
        cooldowns = insert sig.key (T.isoformat now) st.cooldowns;
      })
  unfolding is_held
  published_one sig st free (good, why, memory) =
      let cool : is_cooling T now cooldown_seconds (lookup sig.key before) ≡ false =
        elim (Bool-cases (fired sig.key st.published)) [
          | inl f ↦
              let (s, i, e) = any-In (λ (s : Signal Real). str_eq s.key sig.key) st.published f in
              let ok = All-In Passes st.published good i in ground (arith, ok, eq_iff s.key sig.key)
          | inr f ↦ ground (arith, memory sig.key)
        ] in
      (
        All-append Passes st.published (sig ∷ []) good ((ground arith, cool), tt),
        All-map (IsSuppressible st.published) (IsSuppressible (st.published ++ sig ∷ []))
            (λ s r.
              ground (arith, any-append (λ (x : Signal Real). str_eq x.key s.key) st.published sig))
            st.suppressed why,
        λ k. ground (
          arith,
          memory k,
          lookup-insert sig.key k (T.isoformat now) st.cooldowns,
          any-append (λ (x : Signal Real). str_eq x.key k) st.published sig,
        ),
      )

  sort-IsSorted :
      (sigs : List (Signal Real)) (st : Sorting Real)
      → IsSorted st
      → IsSorted (sort T now cooldown_seconds floor sigs st)
  unfolding sort
  sort-IsSorted [] st h = h
  sort-IsSorted (sig ∷ sigs) st h =
      elim (Bool-cases (is_held T now cooldown_seconds floor st.cooldowns sig)) [
        | inl held ↦ rw (held, sort) (sort-IsSorted sigs _ (suppressed_one sig st held h))
        | inr free ↦ rw (free, sort) (sort-IsSorted sigs _ (published_one sig st free h))
      ]

module _ {Real : Type 0} where
  -- Each signal stands in one of two lists, in order.
  abbrev pub Splits : List (Signal Real) → List (Signal Real) → List (Signal Real) → Type 0
  Splits [] p q = (p ≡ []) × (q ≡ [])
  Splits (s ∷ ss) p q =
      ((p' : List (Signal Real)) × (p ≡ s ∷ p') × Splits ss p' q)
      ⊎ ((q' : List (Signal Real)) × (q ≡ s ∷ q') × Splits ss p q')

  any-Splits :
      (f : Signal Real → Bool) (ss p q : List (Signal Real))
      → Splits ss p q
      → any f ss ≡ (any f p || any f q)
  any-Splits f [] p q (ep, eq) = rw (ep, eq) refl
  any-Splits f (s ∷ ss) p q (inl (p', e, rest)) = rw e (ground (arith, any-Splits f ss p' q rest))
  any-Splits f (s ∷ ss) p q (inr (q', e, rest)) = rw e (ground (arith, any-Splits f ss p q' rest))

  -- A severity that none of the signals has is "info".
  abbrev pub IsAttained : String → List (Signal Real) → Type 0
  IsAttained severity sigs =
      (severity ≡ "info") ⊎ ((s : Signal Real) × In s sigs × (s.severity ≡ severity))

  top-severity-from :
      (severity : String) (sigs : List (Signal Real))
      → (top_severity severity sigs ≡ severity)
        ⊎ ((s : Signal Real) × In s sigs × (s.severity ≡ top_severity severity sigs))
  unfolding top_severity
  top-severity-from severity [] = inl refl
  top-severity-from severity (sig ∷ sigs) =
      elim (Bool-cases (ltb (severity_rank severity) (severity_rank sig.severity))) [
        | inl up ↦
            rw (up, top_severity)
              (elim (top-severity-from sig.severity sigs) [
                | inl e ↦ inr (sig, inl refl, sym e)
                | inr (s, i, e) ↦ inr (s, inr i, e)
              ])
        | inr same ↦
            rw (same, top_severity)
              (elim (top-severity-from severity sigs) [
                | inl e ↦ inl e
                | inr (s, i, e) ↦ inr (s, inr i, e)
              ])
      ]

module _ {Real : Type 0} (T : Iso) (now cooldown_seconds : ℕ) (floor : ℕ) where
  sort-Splits :
      (ss : List (Signal Real)) (st : Sorting Real)
      → let done = sort T now cooldown_seconds floor ss st in
        (p q : List (Signal Real)) × (done.published ≡ st.published ++ p)
        × (done.suppressed ≡ st.suppressed ++ q)
        × Splits ss p q
  unfolding sort
  sort-Splits [] st =
      ([], [], sym (append-nil st.published), sym (append-nil st.suppressed), (refl, refl))
  sort-Splits (s ∷ ss) st =
      elim (Bool-cases (is_held T now cooldown_seconds floor st.cooldowns s)) [
        | inl held ↦
            let (p, q, ep, eq, rest) =
              sort-Splits ss (record st { suppressed = st.suppressed ++ s ∷ [] }) in
            rw (held, sort)
              (p, s ∷ q, ep, eq ∙ append_assoc st.suppressed (s ∷ []) q, inr (q, refl, rest))
        | inr free ↦
            let (p, q, ep, eq, rest) = sort-Splits ss (record {
              published = st.published ++ s ∷ [];
              suppressed = st.suppressed;
              cooldowns = insert s.key (T.isoformat now) st.cooldowns;
            }) in
            rw (free, sort)
              (s ∷ p, q, ep ∙ append_assoc st.published (s ∷ []) p, eq, inl (p, refl, rest))
      ]

  module _ (before : Dict String) where
    none_free :
        (q : List (Signal Real))
        → All (IsSuppressible T now cooldown_seconds floor before []) q
        → any (λ s. not (is_held T now cooldown_seconds floor before s)) q ≡ false
    unfolding is_held
    none_free [] h = refl
    none_free (s ∷ q) (inl low, h) = ground (arith, none_free q h)
    none_free (s ∷ q) (inr (inl cool), h) = ground (arith, none_free q h)
    none_free (s ∷ q) (inr (inr bad), h) = absurd cc

    material_lem :
        (ss p q : List (Signal Real))
        → Splits ss p q
        → All (Passes T now cooldown_seconds floor before) p
        → All (IsSuppressible T now cooldown_seconds floor before p) q
        → not (is_nil p) ≡ any (λ s. not (is_held T now cooldown_seconds floor before s)) ss
    unfolding is_held
    material_lem ss [] q split good why = ground (
      arith,
      none_free q why,
      any-Splits (λ s. not (is_held T now cooldown_seconds floor before s)) ss [] q split,
    )
    material_lem ss (x ∷ p) q split (here, good) why = ground (
      arith,
      any-Splits (λ s. not (is_held T now cooldown_seconds floor before s)) ss (x ∷ p) q split,
    )

module _ {Real : Type 0} (T : Iso) (now cooldown_seconds : ℕ) where
  assess_lem :
      (signals : List (Signal Real)) (severity_floor : String) (cooldowns : Dict String)
      → let v = assess T now cooldown_seconds signals severity_floor cooldowns in
        let floor = severity_rank severity_floor in
        All (Passes T now cooldown_seconds floor cooldowns) v.published
        × All (IsSuppressible T now cooldown_seconds floor cooldowns v.published) v.suppressed
        × ((k : String)
            → lookup k v.cooldowns
              ≡ (if fired k v.published then some (T.isoformat now) else lookup k cooldowns))
  unfolding assess
  assess_lem signals severity_floor cooldowns =
      sort-IsSorted T now cooldown_seconds (severity_rank severity_floor) cooldowns signals
        (record { published = []; suppressed = []; cooldowns = cooldowns }) (tt, tt, λ k. refl)

  -- What a verdict on these signals has to be.
  abbrev pub IsExact : List (Signal Real) → String → Dict String → MaterialityVerdict Real → Type 0
  IsExact signals severity_floor cooldowns v =
      let floor = severity_rank severity_floor in
      Splits signals v.published v.suppressed
      × All (Passes T now cooldown_seconds floor cooldowns) v.published
      × All (IsSuppressible T now cooldown_seconds floor cooldowns v.published) v.suppressed
      × (v.material ≡ any (λ s. not (is_held T now cooldown_seconds floor cooldowns s)) signals)
      × All (λ (s : Signal Real). severity_rank s.severity ≤ severity_rank v.severity) v.published
      × IsAttained v.severity v.published
      × ((k : String)
          → lookup k v.cooldowns
            ≡ (if fired k v.published then some (T.isoformat now) else lookup k cooldowns))

  -- The gate is exact: it splits the signals, each in its order, into the published and the
  -- suppressed ones. It publishes only signals that reach the severity floor and were not cooling
  -- down; it suppresses a signal only below the floor, while it cools down, or where one with its key
  -- is published in the same batch. Something is material just when some signal reaches the floor
  -- and was not cooling down. The severity of the verdict is at least that of each published signal,
  -- and it is that of a published signal, or "info". In the cooldown memory the published keys are
  -- stamped with the time, and every other key keeps its entry.
  pub assess-IsExact :
      (signals : List (Signal Real)) (severity_floor : String) (cooldowns : Dict String)
      → IsExact signals severity_floor cooldowns
          (assess T now cooldown_seconds signals severity_floor cooldowns)
  unfolding assess
  assess-IsExact signals severity_floor cooldowns =
      let (good, why, memory) = assess_lem signals severity_floor cooldowns in
      let v = assess T now cooldown_seconds signals severity_floor cooldowns in
      let floor = severity_rank severity_floor in
      let start : Sorting Real = record {
        published = [];
        suppressed = [];
        cooldowns = cooldowns;
      } in
      let (p, q, ep, eq, split) = sort-Splits T now cooldown_seconds floor signals start in
      let parts : Splits signals v.published v.suppressed = rw (ep, eq) split in
      (
        parts,
        good,
        why,
        material_lem T now cooldown_seconds floor cooldowns signals v.published v.suppressed parts
            good why,
        (top-severity-le "info" v.published).1,
        top-severity-from "info" v.published,
        memory,
      )

  -- The cooldown memory: a key that was published is stamped with the time, every other key keeps
  -- its entry.
  pub cooldown_memory :
      (signals : List (Signal Real)) (severity_floor : String) (cooldowns : Dict String)
      (k : String)
      → let v = assess T now cooldown_seconds signals severity_floor cooldowns in
        lookup k v.cooldowns
        ≡ (if fired k v.published then some (T.isoformat now) else lookup k cooldowns)
  cooldown_memory signals severity_floor cooldowns k =
      (assess_lem signals severity_floor cooldowns).2 k

module _ {Real : Type 0} (T : Iso) (now cooldown_seconds : ℕ) where
  -- No repeated alarm: what was published at `now` is not published again by a later run before the
  -- cooldown has passed, whatever that run's signals and floor, if the time is read back from its
  -- ISO form, which is not empty.
  pub not_repeated :
      (signals again : List (Signal Real)) (severity_floor other_floor : String)
      (cooldowns : Dict String) (later : ℕ) (k : String)
      → T.fromisoformat (T.isoformat now) ≡ some now
      → truthy (T.isoformat now) ≡ true
      → now ≤ later
      → later < now + microseconds cooldown_seconds
      → fired k (assess T now cooldown_seconds signals severity_floor cooldowns).published ≡ true
      → fired k
          (assess T later cooldown_seconds again other_floor
            (assess T now cooldown_seconds signals severity_floor cooldowns).cooldowns).published
        ≡ false
  unfolding is_cooling
  not_repeated signals again severity_floor other_floor cooldowns later k law shown after soon h =
      let v = assess T now cooldown_seconds signals severity_floor cooldowns in
      let w = assess T later cooldown_seconds again other_floor v.cooldowns in
      elim (Bool-cases (fired k w.published)) [
        | inl f ↦
            let (s, i, e) = any-In (λ (s : Signal Real). str_eq s.key k) w.published f in
            let floor = severity_rank other_floor in
            let passes =
              All-In (Passes T later cooldown_seconds floor v.cooldowns) w.published
                (assess_lem T later cooldown_seconds again other_floor v.cooldowns).0 i in
            let memory =
              cooldown_memory T now cooldown_seconds signals severity_floor cooldowns k in
            ground (arith, passes, memory, eq_iff s.key k)
        | inr f ↦ f
      ]
