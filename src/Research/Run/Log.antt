-- ===== src/Research/Run/Log.antt =====
-- The sources' credit and the caches leave the query log alone.
use jim_agent.Prelude.{
  ℕ, String, ◌≡◌, refl, Bool, [], ◌∷◌, inl, inr, str_eq, truthy, fmt, not, ◌&&◌, Bool-cases,
  Option-cases,
}
use jim_agent.Prelude.Dict.{Dict}
use jim_agent.Prelude.Runtime.{Floats, Unicode}
use jim_agent.Interop.Trust.{attribute_gate_outcome}
use jim_agent.Research.Run.{Product, Moments, GraphEnd}
use jim_agent.Research.Run.Books.{record_verdicts, attribute, warm}
use jim_agent.Store.Memory.{MemoryStore, record_trust_event, upsert_insight, put_cached_memo}

module _ {P : Type 0} where
  queries-record_verdicts :
      (now : ℕ) (context : String) (verdicts : Dict Bool) (s : MemoryStore P)
      → (record_verdicts now context verdicts s).queries ≡ s.queries
  unfolding record_verdicts record_trust_event
  queries-record_verdicts now context [] s = refl
  queries-record_verdicts now context ((source, ok) ∷ verdicts) s =
      queries-record_verdicts now context verdicts (record_trust_event now source ok context s)

module _ (F : Floats) (U : Unicode) (sha : String → String) {P : Type 0} (at : Moments)
    (spec : Product F.Real P) (identifier : String) (e : GraphEnd F.Real) where
  pub queries-attribute :
      (s : MemoryStore P) → (attribute F U at spec identifier e s).queries ≡ s.queries
  unfolding attribute
  queries-attribute s = elim (Option-cases e.snapshot) [
    | inl h ↦ rw (h, attribute) refl
    | inr (snapshot, h) ↦ elim (Option-cases e.final.gate) [
      | inl g ↦ rw (h, g, attribute) refl
      | inr (gate, g) ↦ elim (Bool-cases e.final.served_from_cache) [
        | inl c ↦ rw (h, g, c, attribute) refl
        | inr c ↦
            rw (h, g, c, attribute)
              (queries-record_verdicts at.attributed
                (fmt (spec.name ∷ ":" ∷ U.upper identifier ∷ []))
                (attribute_gate_outcome snapshot spec.source_name gate) s)
      ]
    ]
  ]

  pub queries-warm :
      (mode : String) (cache_on : Bool) (s : MemoryStore P)
      → (warm F U sha at spec identifier mode cache_on e s).queries ≡ s.queries
  unfolding warm upsert_insight put_cached_memo
  queries-warm mode cache_on s = elim (Option-cases e.final.memo) [
    | inl h ↦ rw (h, warm) refl
    | inr (memo, h) ↦
        elim (Bool-cases
          (str_eq e.final.status "ok" && truthy memo && not e.final.served_from_cache)) [
            | inr c ↦ rw (h, c, warm) refl
            | inl c ↦ elim (Option-cases e.snapshot) [
              | inl g ↦ rw (h, c, g, warm) refl
              | inr (snapshot, g) ↦ elim (Bool-cases cache_on) [
                | inl k ↦ rw (h, c, g, k, warm) refl
                | inr k ↦ rw (h, c, g, k, warm) refl
              ]
            ]
          ]
  ]
