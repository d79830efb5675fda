-- ===== src/Interop/Attest.antt =====
-- src/jim/interop/attest.py: signed gate verdicts. Of `eth_account` the model takes the signature of a
-- text by a key (EIP-191), a key's address, and the address that a signature recovers to, if it can be
-- read. `canonical` is `json.dumps` with sorted keys, which does not tell counts from other numbers.
pub mod Receipts
use jim_agent.Prelude.{
  ℕ, String, append, Bool, true, false, not, ◌&&◌, ◌||◌, Option, none, some, str_eq, truthy,
  starts_with, if◌then◌else◌,
}
use jim_agent.Prelude.Json.{Json, Members, get, json_truth}
use jim_agent.Prelude.Runtime.{Floats, Unicode}
use jim_agent.Research.Facts.{Snapshot}
use jim_agent.Research.Gate.Sourcing.{GateResult}
use jim_agent.Research.Pipeline.{fingerprint}
use jim_agent.Research.Run.{ResearchResult}

-- `ATTESTATION_SCHEMA`
abbrev pub attestation_schema : String
attestation_schema = "jim.gate.verdict/1"

pub record Account (Real : Type 0) : Type 0 where
  pub sign : String → String → String
  pub address : String → String
  pub recover : String → Json Real → Option String

-- What a statement binds together: the arguments of `build_attestation`.
pub record Claim : Type 0 where
  pub service : String
  pub product : String
  pub identifier : String
  pub network : String
  pub memo : String
  pub snapshot_fingerprint : String
  pub gate_passed : Bool
  pub figures_checked : ℕ
  pub figures_covered : ℕ
  pub settlement_tx : Option String
  pub issued_at : Option String

-- The reasons of `verify_attestation`.
pub data Verdict : Type 0 where
  verified : String → Verdict
  malformed unknown_schema unreadable : Verdict
  mismatch : String → Verdict

abbrev pub optional : {Real : Type 0} → Option String → Json Real
optional none = Json.null
optional (some s) = Json.str s

module _ (F : Floats) where
  abbrev counted : ℕ → Json F.Real
  counted n = Json.num (F.decimal n 0)

  -- `sha256` is the hex digest of a text.
  unfoldable pub build_attestation : (String → String) → Claim → Members F.Real
  build_attestation sha256 c = Members.member "schema" (Json.str attestation_schema) (
      Members.member "service" (Json.str c.service) (
        Members.member "product" (Json.str c.product) (
          Members.member "identifier" (Json.str c.identifier) (
            Members.member "network" (Json.str c.network) (
              Members.member "memo_sha256" (Json.str (sha256 c.memo)) (
                Members.member "snapshot_fingerprint" (Json.str c.snapshot_fingerprint) (
                  Members.member "gate"
                    (Json.object (
                      Members.member "passed" (Json.flag c.gate_passed) (
                        Members.member "figures_checked" (counted c.figures_checked) (
                          Members.member "figures_covered" (counted c.figures_covered)
                            Members.last))))
                    (Members.member "settlement_tx" (optional c.settlement_tx)
                      (Members.member "issued_at" (optional c.issued_at) Members.last)))))))))

-- `0x` in front, unless it is there
unfoldable pub hex_signature : String → String
hex_signature s = if starts_with "0x" s then s else append "0x" s

module _ (F : Floats) (account : Account F.Real) (canonical : Members F.Real → String) where
  unfoldable pub sign_attestation : Members F.Real → String → Members F.Real
  unfolding hex_signature
  sign_attestation payload key = Members.member "attestation" (Json.object payload) (
      Members.member "signer" (Json.str (account.address key)) (
        Members.member "signature" (Json.str (hex_signature (account.sign (canonical payload) key)))
          Members.last))

  abbrev is_schema : Json F.Real → Bool
  is_schema (Json.str s) = str_eq s attestation_schema
  is_schema x = false

  -- The recovered signer against the claimed one, `text` of which is `str`.
  unfoldable pub check_signer :
      Unicode → (Json F.Real → String) → Members F.Real → Json F.Real → Json F.Real → Verdict
  check_signer U text payload claimed signature =
      elim (account.recover (canonical payload) signature) [
        | none ↦ unreadable
        | some recovered ↦
            if str_eq (U.lower recovered) (U.lower (text claimed))
            then verified recovered
            else mismatch recovered
      ]

  unfoldable pub verify_attestation : Unicode → (Json F.Real → String) → Members F.Real → Verdict
  unfolding check_signer
  verify_attestation U text signed = elim (get "attestation" signed) [
    | Json.object payload ↦
        if json_truth F (get "signer" signed) && json_truth F (get "signature" signed)
        then if is_schema (get "schema" payload)
          then check_signer U text payload (get "signer" signed) (get "signature" signed)
          else unknown_schema
        else malformed
    | _ ↦ malformed
  ]

  abbrev gate_passed_of : Option GateResult → Bool
  gate_passed_of none = false
  gate_passed_of (some g) = g.passed

  abbrev n_figures_of : Option GateResult → ℕ
  n_figures_of none = 0
  n_figures_of (some g) = g.n_figures

  abbrev n_covered_of : Option GateResult → ℕ
  n_covered_of none = 0
  n_covered_of (some g) = g.n_covered

  -- The statement about a result.
  abbrev pub claim_of :
      (String → String) → String → String → ResearchResult F.Real → String → Snapshot F.Real → Claim
  claim_of sha network service r memo snapshot = record {
    service = service;
    product = r.product;
    identifier = r.ticker;
    network = network;
    memo = memo;
    snapshot_fingerprint = fingerprint F sha snapshot;
    gate_passed = gate_passed_of r.final.gate;
    figures_checked = n_figures_of r.final.gate;
    figures_covered = n_covered_of r.final.gate;
    settlement_tx = none;
    issued_at = none;
  }

  -- `none` is the ValueError. `sha` gives the first digits of a digest and `sha256` all of it.
  unfoldable pub attest_result :
      (String → String)
      → (String → String)
      → String
      → String
      → String
      → ResearchResult F.Real
      → Option (Members F.Real)
  attest_result sha sha256 key network service r =
      if str_eq r.final.status "ok"
      then elim r.final.memo [
        | none ↦ none
        | some memo ↦ elim r.snapshot [
          | none ↦ none
          | some snapshot ↦
              if truthy memo
              then some (
                  sign_attestation
                    (build_attestation F sha256 (claim_of sha network service r memo snapshot)) key)
              else none
        ]
      ]
      else none
