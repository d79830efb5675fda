-- ===== src/Research/Pipeline/Statuses.antt =====
-- The statuses that a run can end with.
use jim_agent.Prelude.{
  ℕ, zero, suc, ◌+◌, ◌-◌, String, ◌≡◌, refl, ◌⊎◌, inl, inr, Bool, true, false, ◌&&◌, Option, none,
  some, List, [], ◌∷◌, ◌++◌, Bool-cases, Option-cases, if◌then◌else◌,
}
use jim_agent.Prelude.Runtime.{Floats, Unicode}
use jim_agent.Research.Cost.{Usage}
use jim_agent.Research.Facts.{Snapshot}
use jim_agent.Research.Gate.Sourcing.{GateResult, check_sourcing, feedback}
use jim_agent.Research.Pipeline.{Final, Models, judge_memo, give_up, write, compose, serve, or_none}
use jim_agent.Store.Memory.{CachedMemo}

abbrev pub IsKnown : String → Type 0
IsKnown s = (s ≡ "ok") ⊎ ((s ≡ "rejected") ⊎ (s ≡ "error"))

-- Either way that a test decides.
chosen :
    (b : Bool) (x y : Final)
    → IsKnown x.status
    → IsKnown y.status
    → IsKnown (if b then x else y).status
chosen true x y hx hy = hx
chosen false x y hx hy = hy

verdict-IsKnown : (b : Bool) → IsKnown (if b then "ok" else "rejected")
verdict-IsKnown true = inl refl
verdict-IsKnown false = inr (inl refl)

module _ (F : Floats) (U : Unicode) (models : Models) (snapshot : Snapshot F.Real) where
  judge-IsKnown :
      (memo : String) (gate : GateResult) (debate : Option String) (n : ℕ) (usages : List Usage)
      → IsKnown (judge_memo F U models snapshot memo gate debate n usages).status
  unfolding judge_memo
  judge-IsKnown memo gate debate n usages = elim (Option-cases (models.judge memo)) [
    | inl e ↦ rw (e, judge_memo) (inr (inr refl))
    | inr (verdict, e) ↦ rw (e, judge_memo) (verdict-IsKnown (gate.passed && verdict.0))
  ]

  write-IsKnown :
      (left n : ℕ) (notes debate : Option String) (usages : List Usage)
      → IsKnown (write F U models snapshot left n notes debate usages).status
  unfolding write give_up
  write-IsKnown zero n notes debate usages = elim (Option-cases (models.synthesize n notes)) [
    | inl e ↦ rw (e, write) (inr (inr refl))
    | inr (reply, e) ↦
        let gate = check_sourcing F U snapshot reply.0 in
        let spent = usages ++ reply.1 ∷ [] in
        rw (e, write)
          (chosen gate.passed (judge_memo F U models snapshot reply.0 gate debate (n + 1) spent)
            (give_up F U models snapshot reply.0 gate debate (n + 1) spent)
            (judge-IsKnown reply.0 gate debate (n + 1) spent) (inr (inl refl)))
  ]
  write-IsKnown (suc left) n notes debate usages = elim (Option-cases (models.synthesize n notes)) [
    | inl e ↦ rw (e, write) (inr (inr refl))
    | inr (reply, e) ↦
        let gate = check_sourcing F U snapshot reply.0 in
        let spent = usages ++ reply.1 ∷ [] in
        let notes' = or_none (feedback gate) in
        rw (e, write)
          (chosen gate.passed (judge_memo F U models snapshot reply.0 gate debate (n + 1) spent)
            (write F U models snapshot left (n + 1) notes' debate spent)
            (judge-IsKnown reply.0 gate debate (n + 1) spent)
            (write-IsKnown left (n + 1) notes' debate spent))
  ]

  compose-IsKnown :
      (enable_debate : Bool) (max_attempts : ℕ)
      → IsKnown (compose F U models snapshot enable_debate max_attempts).status
  unfolding compose
  compose-IsKnown false max_attempts = write-IsKnown (max_attempts - 1) 0 none none []
  compose-IsKnown true max_attempts = elim (Option-cases models.debate) [
    | inl e ↦ rw (e, compose) (inr (inr refl))
    | inr (d, e) ↦ rw (e, compose) (write-IsKnown (max_attempts - 1) 0 none (some d.0) d.1)
  ]

  pub serve-IsKnown :
      (cached : Option CachedMemo) (enable_debate : Bool) (max_attempts : ℕ)
      → IsKnown (serve F U models snapshot cached enable_debate max_attempts).status
  unfolding serve
  serve-IsKnown none enable_debate max_attempts = compose-IsKnown enable_debate max_attempts
  serve-IsKnown (some cached) enable_debate max_attempts =
      elim (Bool-cases (check_sourcing F U snapshot cached.memo).passed) [
        | inl pass ↦ rw (pass, serve) (inl refl)
        | inr fail ↦ rw (fail, serve) (compose-IsKnown enable_debate max_attempts)
      ]
