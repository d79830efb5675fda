-- ===== src/Interop/Attest/Receipts.antt =====
-- What a signed receipt of a run says is true, and it verifies.
use Prim.Native.String.append as append_clauses
use jim_agent.Prelude.{
  String, ◌≡◌, refl, Bool, true, Option, some, List, arith, eq_iff, inl, inr, str_eq, truthy,
  starts_with, after_prefix, Bool-cases,
}
use jim_agent.Prelude.Json.{Json, Members}
use jim_agent.Prelude.Runtime.{Floats, Unicode}
use jim_agent.Interop.Attest.{
  Account, Claim, verified, build_attestation, hex_signature, sign_attestation, check_signer,
  verify_attestation, claim_of, attest_result,
}
use jim_agent.Research.Facts.{Snapshot}
use jim_agent.Research.Gate.Sourcing.{check_sourcing}
use jim_agent.Research.Gate.Sourcing.Verdict.{passed-full_coverage}
use jim_agent.Research.Identifiers.{canonical as let_in, canonicalize}
use jim_agent.Research.Pipeline.{Models, fingerprint}
use jim_agent.Research.Run.{Product, RunSettings, Moments, ResearchResult}
use jim_agent.Research.Run.Billing.{IsBilled, run_research-IsBilled}
use jim_agent.Research.Run.Request.{run_research}
use jim_agent.Sources.Procure.{World}
use jim_agent.Store.Memory.{QueryRow}

pub hex_signature-truthy : (s : String) → truthy (hex_signature s) ≡ true
unfolding hex_signature after_prefix
hex_signature-truthy String.[] = refl
hex_signature-truthy (String.◌∷◌ c t) = elim (Bool-cases (starts_with "0x" (String.◌∷◌ c t))) [
  | inl e ↦ rw (e, hex_signature) refl
  | inr e ↦ rw (e, hex_signature) (rw append_clauses.cons refl)
]

-- What `eth_account` is relied on for: a signature by a key recovers to the key's address, which is not
-- empty; and `str` leaves a text alone.
pub record IsSound {Real : Type 0} (account : Account Real) (text : Json Real → String)
    : Type 0 where
  pub recovers :
      (m key : String)
      → account.recover m (Json.str (hex_signature (account.sign m key)))
        ≡ some (account.address key)
  pub addressed : (key : String) → truthy (account.address key) ≡ true
  pub text_of_text : (s : String) → text (Json.str s) ≡ s

module _ (F : Floats) (U : Unicode) (account : Account F.Real) (canonical : Members F.Real → String)
    (text : Json F.Real → String) (sound : IsSound account text) where
  check_signer_lem :
      (payload : Members F.Real) (key : String)
      → check_signer F account canonical U text payload
          (Json.str (account.address key))
          (Json.str (hex_signature (account.sign (canonical payload) key)))
        ≡ verified (account.address key)
  unfolding check_signer
  check_signer_lem payload key =
      let same : str_eq (U.lower (account.address key)) (U.lower (account.address key)) ≡ true =
        (eq_iff _ _).1 refl in
      rw
        (
          sound.recovers (canonical payload) key,
          check_signer,
          sound.text_of_text (account.address key),
          same,
        )
        refl

  -- A statement that was signed verifies, and names the signer.
  verify-sign :
      (sha256 : String → String) (c : Claim) (key : String)
      → verify_attestation F account canonical U text
          (sign_attestation F account canonical (build_attestation F sha256 c) key)
        ≡ verified (account.address key)
  unfolding verify_attestation sign_attestation build_attestation
  verify-sign sha256 c key =
      let payload = build_attestation F sha256 c in
      rw (sound.addressed key, hex_signature-truthy (account.sign (canonical payload) key))
        (check_signer_lem payload key)

  -- A receipt with a claim that the gate passed and covered every figure of the run's own memo, against
  -- the run's own facts, and that verifies.
  abbrev pub IsTrueReceipt :
      (String → String)
      → (String → String)
      → String
      → ResearchResult F.Real
      → Members F.Real
      → Type 0
  IsTrueReceipt sha sha256 key r signed =
      (c : Claim) × (s : Snapshot F.Real) × (signed
        ≡ sign_attestation F account canonical (build_attestation F sha256 c) key)
      × (verify_attestation F account canonical U text signed ≡ verified (account.address key))
      × (r.final.memo ≡ some c.memo)
      × (r.snapshot ≡ some s)
      × (c.snapshot_fingerprint ≡ fingerprint F sha s)
      × ((check_sourcing F U s c.memo).passed ≡ true)
      × (c.gate_passed ≡ true)
      × (c.figures_checked ≡ (check_sourcing F U s c.memo).n_figures)
      × (c.figures_covered ≡ c.figures_checked)

  attest_lem :
      (sha sha256 : String → String) (key network service memo : String) (s : Snapshot F.Real)
      (r : ResearchResult F.Real) (signed : Members F.Real)
      → r.final.memo ≡ some memo
      → r.snapshot ≡ some s
      → (check_sourcing F U s memo).passed ≡ true
      → r.final.gate ≡ some (check_sourcing F U s memo)
      → attest_result F account canonical sha sha256 key network service r ≡ some signed
      → IsTrueReceipt sha sha256 key r signed
  unfolding attest_result
  attest_lem sha sha256 key network service memo s r signed written facts pass gate h =
      let c = claim_of F account canonical sha network service r memo s in
      let same : signed ≡ sign_attestation F account canonical (build_attestation F sha256 c) key =
        ground (arith, h, written, facts) in
      (
        c,
        s,
        same,
        rw same (verify-sign sha256 c key),
        written,
        facts,
        refl,
        pass,
        ground (arith, gate, pass),
        ground (arith, gate),
        ground (arith, gate, passed-full_coverage F U s memo pass),
      )

  ok_of_attested :
      (sha sha256 : String → String) (key network service : String) (r : ResearchResult F.Real)
      (signed : Members F.Real)
      → attest_result F account canonical sha sha256 key network service r ≡ some signed
      → r.final.status ≡ "ok"
  unfolding attest_result
  ok_of_attested sha sha256 key network service r signed h =
      elim (Bool-cases (str_eq r.final.status "ok")) [
        | inl e ↦ (eq_iff r.final.status "ok").0 e
        | inr e ↦ ground (arith, h)
      ]

  module _ (sha sha256 : String → String) (settings : RunSettings F.Real)
      (models : String → Snapshot F.Real → Models) {P : Type 0} where
    billed_lem :
        (spec : Product F.Real P) (before after : List QueryRow) (key network service : String)
        (r : ResearchResult F.Real) (signed : Members F.Real)
        → IsBilled F U models spec before r after
        → r.final.status ≡ "ok"
        → attest_result F account canonical sha sha256 key network service r ≡ some signed
        → IsTrueReceipt sha sha256 key r signed
    billed_lem spec before after key network service r signed
          (inl (ok, (s, facts, (memo, written, pass, judged, gate)), log)) h e =
        attest_lem sha sha256 key network service memo s r signed written facts pass gate e
    billed_lem spec before after key network service r signed (inr (inl (no_ok, log))) h e =
        absurd cc
    billed_lem spec before after key network service r signed (inr (inr (no_ok, log))) h e =
        absurd cc

    -- A receipt tells the truth. If the result of a run, for a product on sale and an identifier that
    -- is let in, whatever the models, the source and the caches answer, is attested, then the receipt
    -- verifies and names the signer, and its claim is about the run's memo and the fingerprint of the
    -- run's facts: the memo passes the sourcing gate against these facts, as the claim says, and the
    -- claim's counts are those of the gate, with every figure covered. Signing is sound.
    pub attest_result-IsTrueReceipt :
        (products : String → Option (Product F.Real P)) (at : Moments) (raw product mode : String)
        (enable_debate use_memo_cache : Option Bool) (w after : World P) (r : ResearchResult F.Real)
        (identifier : String) (spec : Product F.Real P) (key network service : String)
        (signed : Members F.Real)
        → canonicalize U raw product ≡ let_in identifier
        → products product ≡ some spec
        → run_research F U sha settings models products at raw product mode enable_debate
            use_memo_cache w
          ≡ some (r, after)
        → attest_result F account canonical sha sha256 key network service r ≡ some signed
        → IsTrueReceipt sha sha256 key r signed
    attest_result-IsTrueReceipt products at raw product mode enable_debate use_memo_cache w after r
          identifier spec key network service signed named sold h e =
        billed_lem spec _ after.store.queries key network service r signed
          (run_research-IsBilled F U sha settings models products at raw product mode enable_debate
            use_memo_cache w after r identifier spec named sold h)
          (ok_of_attested sha sha256 key network service r signed e) e
