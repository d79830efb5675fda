-- ===== src/Research/Pipeline/Shipped.antt =====
-- What ships has passed the gate.
use jim_agent.Prelude.{
  ℕ, zero, suc, ◌+◌, ◌-◌, ◌≤◌, String, ◌≡◌, ◌≢◌, ◌⊎◌, refl, Bool, true, false, Option, none, some,
  List, [], ◌∷◌, ◌++◌, arith, inl, inr, Bool-cases, Option-cases, if◌then◌else◌,
}
use jim_agent.Prelude.Runtime.{Floats, Unicode}
use jim_agent.Research.Cost.{Usage}
use jim_agent.Research.Facts.{Snapshot}
use jim_agent.Research.Gate.Sourcing.{check_sourcing, feedback}
use jim_agent.Research.Pipeline.{Final, Models, judge_memo, give_up, write, compose, serve, or_none}
use jim_agent.Store.Memory.{CachedMemo}

module _ (F : Floats) (U : Unicode) (models : Models) (snapshot : Snapshot F.Real) where
  -- The memo passed the gate, the judge passed it or it came from the cache, and the gate's result is
  -- kept.
  abbrev pub IsShippable : Final → Type 0
  IsShippable r =
      (memo : String) × (r.memo ≡ some memo)
      × ((check_sourcing F U snapshot memo).passed ≡ true)
      × ((r.judged ≡ some true) ⊎ (r.served_from_cache ≡ true))
      × (r.gate ≡ some (check_sourcing F U snapshot memo))

  abbrev IsSafe : ℕ → Final → Type 0
  IsSafe n r = ((r.status ≢ "ok") ⊎ IsShippable r) × (r.attempts_made ≤ n)

  judge_lem :
      (memo : String) (debate : Option String) (n : ℕ) (usages : List Usage)
      → (check_sourcing F U snapshot memo).passed ≡ true
      → IsSafe n
          (judge_memo F U models snapshot memo (check_sourcing F U snapshot memo) debate n usages)
  unfolding judge_memo
  judge_lem memo debate n usages good = elim (Option-cases (models.judge memo)) [
    | inl e ↦ rw (e, judge_memo) (inl (λ h. cc), omega arith)
    | inr (verdict, e) ↦ elim (Bool-cases verdict.0) [
      | inl pass ↦
          simp (e, judge_memo, good, pass) (inr (memo, refl, good, inl refl, refl), omega arith)
      | inr fail ↦ rw (e, judge_memo, good, fail) (inl (λ h. cc), omega arith)
    ]
  ]

  -- Either way that the gate decides.
  routed :
      (n : ℕ) (b : Bool) (x y : Final)
      → (b ≡ true → IsSafe n x)
      → (b ≡ false → IsSafe n y)
      → IsSafe n (if b then x else y)
  routed n true x y hx hy = hx refl
  routed n false x y hx hy = hy refl

  IsSafe-le : (n k : ℕ) (r : Final) → n ≤ k → IsSafe n r → IsSafe k r
  IsSafe-le n k r h s = (s.0, omega (arith, s.1))

  write_lem :
      (left n : ℕ) (notes debate : Option String) (usages : List Usage)
      → IsSafe (n + 1 + left) (write F U models snapshot left n notes debate usages)
  unfolding write give_up
  write_lem zero n notes debate usages = elim (Option-cases (models.synthesize n notes)) [
    | inl e ↦ rw (e, write) (inl (λ h. cc), omega arith)
    | inr (reply, e) ↦
        let gate = check_sourcing F U snapshot reply.0 in
        let spent = usages ++ reply.1 ∷ [] in
        let judged = judge_memo F U models snapshot reply.0 gate debate (n + 1) spent in
        rw (e, write)
          (routed (n + 1 + 0) gate.passed judged
            (give_up F U models snapshot reply.0 gate debate (n + 1) spent)
            (λ p.
              IsSafe-le (n + 1) (n + 1 + 0) judged (omega arith)
                (judge_lem reply.0 debate (n + 1) spent p))
            (λ p. (inl (λ h. cc), omega arith)))
  ]
  write_lem (suc left) n notes debate usages = elim (Option-cases (models.synthesize n notes)) [
    | inl e ↦ rw (e, write) (inl (λ h. cc), omega arith)
    | inr (reply, e) ↦
        let gate = check_sourcing F U snapshot reply.0 in
        let spent = usages ++ reply.1 ∷ [] in
        let judged = judge_memo F U models snapshot reply.0 gate debate (n + 1) spent in
        let notes' = or_none (feedback gate) in
        let again = write F U models snapshot left (n + 1) notes' debate spent in
        rw (e, write)
          (routed (n + 1 + suc left) gate.passed judged again
            (λ p.
              IsSafe-le (n + 1) (n + 1 + suc left) judged (omega arith)
                (judge_lem reply.0 debate (n + 1) spent p))
            (λ p.
              IsSafe-le (n + 1 + 1 + left) (n + 1 + suc left) again (omega arith)
                (write_lem left (n + 1) notes' debate spent)))
  ]

  compose_lem :
      (enable_debate : Bool) (max_attempts : ℕ)
      → IsSafe (1 + (max_attempts - 1)) (compose F U models snapshot enable_debate max_attempts)
  unfolding compose
  compose_lem false max_attempts = write_lem (max_attempts - 1) 0 none none []
  compose_lem true max_attempts = elim (Option-cases models.debate) [
    | inl e ↦ rw (e, compose) (inl (λ h. cc), omega arith)
    | inr (d, e) ↦ rw (e, compose) (write_lem (max_attempts - 1) 0 none (some d.0) d.1)
  ]

  serve_lem :
      (cached : Option CachedMemo) (enable_debate : Bool) (max_attempts : ℕ)
      → IsSafe
          (1 + (max_attempts - 1))
          (serve F U models snapshot cached enable_debate max_attempts)
  unfolding serve
  serve_lem none enable_debate max_attempts = compose_lem enable_debate max_attempts
  serve_lem (some cached) enable_debate max_attempts =
      let kept : Final = record {
        status = "ok";
        memo = some cached.memo;
        gate = some (check_sourcing F U snapshot cached.memo);
        judged = none;
        debate = cached.debate;
        attempts_made = 0;
        served_from_cache = true;
        usages = [];
      } in
      routed (1 + (max_attempts - 1)) (check_sourcing F U snapshot cached.memo).passed kept
        (compose F U models snapshot enable_debate max_attempts)
        (λ pass. (inr (cached.memo, refl, pass, inr refl, refl), omega arith))
        (λ fail. compose_lem enable_debate max_attempts)

  -- A run that ends with the status ok has a memo that passes the sourcing gate against the facts of
  -- this run, even if it is a cached one, and the judge passed it unless it is; the gate's result that it
  -- carries is the one of this memo. This holds whatever
  -- the models answer and whatever the cache gave.
  pub ok-IsShippable :
      (cached : Option CachedMemo) (enable_debate : Bool) (max_attempts : ℕ)
      → (serve F U models snapshot cached enable_debate max_attempts).status ≡ "ok"
      → IsShippable (serve F U models snapshot cached enable_debate max_attempts)
  ok-IsShippable cached enable_debate max_attempts h =
      elim (serve_lem cached enable_debate max_attempts).0 [
        | inl bad ↦ absurd (bad h)
        | inr good ↦ good
      ]

  -- A run writes at most as many memos as it has attempts, and one where it is allowed none.
  pub attempts_bounded :
      (cached : Option CachedMemo) (enable_debate : Bool) (max_attempts : ℕ)
      → (serve F U models snapshot cached enable_debate max_attempts).attempts_made
        ≤ 1 + (max_attempts - 1)
  attempts_bounded cached enable_debate max_attempts =
      (serve_lem cached enable_debate max_attempts).1
