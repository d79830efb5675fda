-- ===== src/Lib.antt =====
-- jim: cited financial research that is sold over x402 and buys its own data over x402.
--
-- The model follows the Python package src/jim. A research query gathers facts, buying what is not
-- cached under a budget; a memo is written from the facts by a language model; the sourcing gate
-- checks every figure of the memo against the facts that it cites, and the outcome of the gate is
-- the reputation of the sources. Monitors poll the sources and speak only of
-- material changes, in notes that pass the same gate. Agents that buy from agents carry a call chain that refuses loops.
--
-- Which file models what:
--   Research/Gate/*          src/jim/research/gate.py: patterns, values of figures, extraction, verdict
--   Research/Edgar*          src/jim/research/edgar.py: from the answer of the SEC on
--   Research/Facts*          src/jim/research/facts.py: facts, snapshots, derived metrics
--   Research/Pipeline*       src/jim/research/engine.py: the graph after the gathering
--   Research/Run*            src/jim/research/engine.py: run_research
--   Research/Identifiers*    src/jim/research/identifiers.py
--   Research/Completeness*   src/jim/research/completeness.py
--   Seller/Response          src/jim/research/schemas.py
--   Seller/Delivery          src/jim/seller/app.py: _deliver_or_refuse
--   Seller/Audit             src/jim/seller/audit.py
--   Research/Budget*         src/jim/research/budget.py
--   Interop/CallChain*       src/jim/interop/callchain.py
--   Interop/Trust*           src/jim/interop/trust.py
--   Interop/Attest*          src/jim/interop/attest.py
--   Net/Resilience*          src/jim/net/resilience.py
--   Sources/Pay              src/jim/buyer/client.py: pay
--   Sources/Procure*         src/jim/sources/base.py: procure
--   Sources/Peer*            src/jim/sources/peer.py; Specs also src/jim/research/products.py: _compose_peers
--   Store/Memory*            src/jim/store/repo.py: MemoryStore
--   Store/MonitorTables      src/jim/store/repo.py: the monitor tables of MemoryStore
--   Store/Reputation*        src/jim/store/repo.py: _summarize_trust
--   Store/Ledger*            src/jim/store/repo.py: _summarize, _summarize_receipts
--   Research/Cost            src/jim/research/cost.py
--   Monitors/Models*         src/jim/monitors/models.py
--   Monitors/Diff            src/jim/monitors/diff.py
--   Monitors/Triggers*       src/jim/monitors/triggers.py
--   Monitors/Materiality*    src/jim/monitors/materiality.py
--   Monitors/Impersonal      src/jim/monitors/impersonal.py
--   Monitors/Update*         src/jim/monitors/update.py
--   Monitors/Notify*         src/jim/monitors/notify.py
--   Monitors/Authoring*      src/jim/monitors/nl.py: validate_triggers
--   Monitors/Authoring/Watch*  src/jim/monitors/nl.py and create.py: create_monitor
--   Monitors/Engine*         src/jim/monitors/engine.py and scheduler.py
--   Prelude/Regex, Split, Text, Dict, Decimal   what the program uses of re, str, dict
--   Prelude/Json             what json.loads gives
--   Prelude/Regex/Reach      what a pattern can take off a text
--   Prelude/Runtime          float, Unicode and ISO dates, as parameters
--   Tests/*                  runs of the model, with ASCII tables and three-decimal numbers
--
-- Functions and records keep the names of the source. A method that mutates its object returns the
-- new one; an exception is a constructor of a result type, and the text of a message is kept as the
-- constructor with what it quotes. The clock is an argument.
--
-- One request is run_research: it canonicalizes the identifier, gathers through the product's source
-- (which may be composed with peers that are paid), serves or writes a memo, and leaves its economics
-- in the store; the seller delivers, withholds or refuses what it returns.
--
-- In the monitors an exception that leaves a function is `none`; a trigger's params are JSON's null,
-- numbers, texts and lists of texts. HMAC, the reading of integers, the model's answers and the
-- webhooks are parameters. The scheduler takes the runs of a tick one after the other.
--
-- Numbers: amounts of money are natural numbers of nano-dollars, so the tolerance 1e-9 of the code is
-- 1 and a base unit of USDC is 1000; values of facts are the floats of a parameter without laws, so
-- the theorems on the gate hold for any rounding. Trust scores are in ten-thousandths.
--
-- Bounds: the retry loop runs on the attempts that are left, retries + 1 at the start. A repetition
-- in a pattern runs on the characters that are left plus one, and each round takes at least one; a
-- search goes through the text in at most one step for each character and one more.
--
-- Settings and amounts that the code only means to be positive (retries, intervals, advertised prices)
-- are natural numbers here: a negative setting, which nothing refuses, is not modelled, nor is the
-- cancellation of a task.
--
-- Not modelled: HTTP, signing and settlement (the library x402 and the sellers are the input
-- Exchange), the SQL backend, language model calls, command lines and pages. The sleeping in between
-- attempts is the list of delays.
pub mod Prelude
pub mod Interop
pub mod Net
pub mod Store
pub mod Sources
pub mod Research
pub mod Monitors
pub mod Seller
mod Tests
