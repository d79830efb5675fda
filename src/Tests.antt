-- ===== src/Tests.antt =====
-- Runs of the model and the theorems at concrete inputs.
mod Ascii
mod Milli
mod Regexes
mod Gating
mod Identifiers
mod Buying
mod Chains
mod Breakers
mod Clock
mod Polling
mod Standings
mod Runs
mod Answers
mod Peers
mod Configured
mod Authoring
mod Creating
mod Reports
mod Ledgers
mod Attested
mod Filings
