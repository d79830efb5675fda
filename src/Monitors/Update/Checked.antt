-- ===== src/Monitors/Update/Checked.antt =====
-- Whatever the model answers, the note is checked and its cost is bounded.
use jim_agent.Prelude.{
  ℕ, zero, suc, ◌+◌, ◌≤◌, String, ◌≡◌, refl, Bool, true, false, ◌⊎◌, inl, inr, Option, List, [],
  ◌∷◌, ◌++◌, arith, length, length-append, Bool-cases, Option-cases, if◌then◌else◌,
}
use jim_agent.Prelude.Runtime.{Floats, Unicode}
use jim_agent.Prelude.Split.{strip}
use jim_agent.Research.Facts.{Snapshot}
use jim_agent.Research.Gate.Sourcing.{check_sourcing}
use jim_agent.Research.Cost.{Usage}
use jim_agent.Monitors.Models.{Signal}
use jim_agent.Monitors.Impersonal.{check_impersonal}
use jim_agent.Monitors.Update.{
  UpdateResult, accept, fallback, fallback_memo, prompt, notes_of, attempts, synthesize_update,
}

module _ (F : Floats) (U : Unicode) (snapshot : Snapshot F.Real) (signals : List (Signal F.Real))
    (severity mode : String) (ask : ℕ → String → Option (String × Usage)) where
  -- Both gates passed on the note that is shipped, or the note is the one built from the facts.
  abbrev pub IsChecked : UpdateResult → Type 0
  IsChecked u =
      (u.gate ≡ check_sourcing F U snapshot u.memo)
      × (((u.used_fallback ≡ true) × (u.memo ≡ fallback_memo F U snapshot signals))
          ⊎ ((u.used_fallback ≡ false)
              × (u.gate.passed ≡ true)
              × ((check_impersonal U u.memo).passed ≡ true)))

  attempts_lem :
      (left n : ℕ) (notes : String) (usages : List Usage)
      → let (u, calls) = attempts F U snapshot signals severity mode ask left n notes usages in
        IsChecked u × (calls ≤ n + left) × (length u.usages + n ≤ length usages + calls)
  unfolding attempts fallback accept
  attempts_lem zero n notes usages = ((refl, inl (refl, refl)), omega arith, omega arith)
  attempts_lem (suc left) n notes usages =
      elim (Option-cases (ask n (prompt F U snapshot signals severity mode notes))) [
        | inl e ↦ rw (e, attempts) ((refl, inl (refl, refl)), omega arith, omega arith)
        | inr (reply, e) ↦
            let memo = strip U reply.0 in
            elim (Bool-cases (accept F U snapshot signals severity mode memo).0) [
              | inl good ↦
                  let both : (check_sourcing F U snapshot memo).passed ≡ true
                      × ((check_impersonal U memo).passed ≡ true) =
                    ground arith in
                  rw (e, attempts, good)
                    (
                      (refl, inr (refl, both.0, both.1)),
                      omega arith,
                      omega (arith, length-append usages (reply.1 ∷ [])),
                    )
              | inr bad ↦
                  let later =
                    notes_of F U snapshot signals severity mode
                      (accept F U snapshot signals severity mode memo).1
                      (accept F U snapshot signals severity mode memo).2 in
                  let (checked, fewer, paid) =
                    attempts_lem left (n + 1) later (usages ++ reply.1 ∷ []) in
                  rw (e, attempts, bad)
                    (
                      checked,
                      omega (arith, fewer),
                      omega (arith, paid, length-append usages (reply.1 ∷ [])),
                    )
            ]
      ]

  -- The note that ships is the one the sourcing gate's result is about, and either both gates passed
  -- it or it is the note built from the facts of the signals. The model is called at most as often
  -- as attempts are allowed (`more` and one), and not at all without a key, where a call that raises
  -- counts too; no more usages are billed than calls were made. This holds for any answers of the
  -- model, failures included.
  pub synthesize_update-IsChecked :
      (has_key : Bool) (more : ℕ)
      → let (u, calls) = synthesize_update F U snapshot signals severity mode ask has_key more in
        IsChecked u × (calls ≤ (if has_key then suc more else 0)) × (length u.usages ≤ calls)
  unfolding synthesize_update fallback accept
  synthesize_update-IsChecked true more =
      let (checked, fewer, paid) = attempts_lem (suc more) 0 "" [] in
      (checked, omega (arith, fewer), omega (arith, paid))
  synthesize_update-IsChecked false more = ((refl, inl (refl, refl)), omega arith, omega arith)
