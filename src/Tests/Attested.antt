-- ===== src/Tests/Attested.antt =====
-- A run that is attested, by an account whose signatures are its keys in hex.
use jim_agent.Prelude.{String, ◌≡◌, refl, none, some, Option}
use jim_agent.Prelude.Int.{ℤ, ◌-ℤ◌}
use jim_agent.Prelude.Json.{Json, Members}
use jim_agent.Interop.Attest.{
  Account, hex_signature, attest_result, sign_attestation, build_attestation, claim_of,
}
use jim_agent.Interop.Attest.Receipts.{
  IsSound, IsTrueReceipt, hex_signature-truthy, attest_result-IsTrueReceipt,
}
use jim_agent.Research.Identifiers.{canonicalize, fundamentals_re}
use jim_agent.Research.Run.{after_gather}
use jim_agent.Research.Run.Books.{close_books}
use jim_agent.Tests.Answers.{world, product, settings, good, at, sha, end, let_in}
use jim_agent.Tests.Ascii.{ascii}
use jim_agent.Tests.Milli.{milli}
use jim_agent.Tests.Polling.{priced}

abbrev read : Json ℤ → Option String
read (Json.str s) = some s
read x = none

abbrev account : Account ℤ
account = record {
  sign = λ m key. key;
  address = λ key. hex_signature key;
  recover = λ m signature. read signature;
}

abbrev text : Json ℤ → String
text (Json.str s) = s
text x = "…"

account-IsSound : IsSound account text
account-IsSound = record {
  recovers = λ m key. refl;
  addressed = λ key. hex_signature-truthy key;
  text_of_text = λ s. refl;
}

abbrev canonical : Members ℤ → String
canonical ms = "{…}"

abbrev signed : Members ℤ
signed =
    sign_attestation milli account canonical
      (build_attestation milli sha (
        claim_of milli account canonical sha "base" "jim" end.0 "Price is $2.00 [C1]."
          (priced 200)))
      "51"

signs : attest_result milli account canonical sha sha "51" "base" "jim" end.0 ≡ some signed
unfolding attest_result close_books after_gather ◌-ℤ◌
signs = refl

attest_result-IsTrueReceipt_example :
    IsTrueReceipt milli ascii account canonical text account-IsSound sha sha "51" end.0 signed
unfolding canonicalize fundamentals_re
attest_result-IsTrueReceipt_example =
    attest_result-IsTrueReceipt milli ascii account canonical text account-IsSound sha sha settings
      good (λ name. some product) (at 5) "aapl" "fundamentals" "human" none none world end.1 end.0
      "AAPL" product "51" "base" "jim" signed refl refl let_in signs
