-- ===== src/Lib.antt =====
-- A model of workerbees, the part of the repository that governs how one agent sends work to another:
-- a registry of agents, messages and their validation, a policy, a durable control layer, a router, and
-- a gateway that takes a request through all of them before it calls a model.
--
-- The parts and their files. A definition has the name of the function, or of the step, that it models.
--   workerbees/registry.py    Registry (look-ups), Registry/Load (Registry.load, from parsed files)
--   workerbees/envelope.py    Envelope (the records), Envelope/Validate (validate)
--   workerbees/policy.py      Policy (evaluate; one definition for each rule), Policy/Data, Policy/Rules
--                             (the monad of a rule: it notes the rule's name, and passes or denies)
--   workerbees/control.py     Control/Tables (control.sqlite, each table a list of rows), Control/Runs,
--                             Control/Replay, Control/Approvals (the methods), Control/Ops (histories)
--   workerbees/router.py      Router
--   workerbees/gateway.py     Gateway/Data (state, results, events, the monad of a step), Gateway/Steps
--                             and Gateway/Dispatch (Gateway.dispatch, step by step in its order)
--   workerbees/lineup_router.py  Lineup (the routing matrix on run records), Lineup/Plan
--   workerbees/ledger.py      Ledger (the data), Ledger/Load (load of the JSONL file), Ledger/Record (the
--                             lines that are appended), Ledger/Export (to_json, from_json), Ledger/Lint,
--                             Ledger/Rollup, Ledger/Mermaid
--   workerbees/reviewer.py    Reviewer/Verdicts (the judgement of what a review returns), Reviewer/Review
--                             (the route, the tool or the gateway that is called, the reading of the output)
--   workerbees/verifier.py    Verifier/Verify, Verifier/Drafts
--   workerbees/pipeline.py    Pipeline/Worker (one dispatch and its result), Pipeline/Brief (brief)
--   skills/speckit-pipeline/scripts/phase_registry.py   Phases/Table, Phases/Resolve
--   skills/speckit-pipeline/scripts/resolve_phases.py   Phases/Cli
-- The gateway calls the policy, which reads the registry, and the methods of the control layer; the
-- control layer knows none of the others. A review picks its route by the router and calls a worker or the
-- gateway; a brief joins the router, the worker, the verifier and the review. The ledger and the
-- resolver of phases stand alone. The other files hold what is proved: Policy/Trail,
-- Policy/Permits and Policy/Allowed; Control/Once, Control/Lease, Control/Budget, Control/Rows and
-- Control/TwoPerson; Gateway/Guards, Gateway/Entry, Gateway/Clearance, Gateway/Closing,
-- Gateway/Ends, Gateway/Invocation and Gateway/Raises; Envelope/Valid, Registry/Load/WellFormed,
-- Router/Fits, Router/Chain, Lineup/Steps; Ledger/Keyed, Ledger/RoundTrip, Ledger/Depth, Ledger/Deep, Ledger/Loops,
-- Ledger/Clean, Ledger/Descent, Ledger/Pushes, Ledger/Subtree, Ledger/Merge, Ledger/Escapes,
-- Ledger/Reasons;
-- Reviewer/Judged, Reviewer/Vendor; Verifier/Anchors, Verifier/Reports; Pipeline/Verified, Pipeline/Quality and
-- Pipeline/Bounds; Phases/Order, Phases/Plans, Phases/Plannable,
-- Phases/Printed and Phases/Offences. Base is shared, and Tests and Registry/Load/Tests run the definitions at small inputs.
--
-- How the model stands to the code.
--   State is passed on: a method of the control layer takes the tables and returns its result and the
--   tables. Each call also takes what SQLite reports, nothing, a read-only error or another error; on an
--   error a transaction leaves no trace. A dispatch is a step monad over the tables and a list of events
--   that stands for the ledger and the providers; a step goes on, ends the dispatch with a result, or lets
--   an exception out.
--   Ids that the code draws, the clock where it is read, the result of a worker and the time that it took
--   are arguments. So are the tables models.json and routing.json, the reading of ISO 8601 (after Z is
--   replaced), the sizes of JSON texts and the hash of canonical JSON.
--   Texts for people (reasons) and times that are stored and never read are left out. Reason codes, rule
--   names and statuses are constructors. Times, durations and limits of seconds are natural numbers of
--   microseconds, so that nothing rounds; limits of a budget are not negative, and neither are the calls
--   and seconds of a bounded reservation, whose sign the code does not test (the gateway, its only
--   caller, reserves one call and no seconds). Strip and case folding are those of ASCII. A command that
--   cannot be built, where the code allows the dispatch and calls no worker, is logged as a call.
--   Regular expressions, the reading and writing of JSON, and the splitting of texts at commas are
--   parameters. Sets are lists whose order and repetitions no test sees.
--   Loops over finite lists are structural recursion. Two loops follow the parents and the children of a
--   ledger's nodes and run on fuel: compute_depth on one step for each node and one more, since no id is
--   passed twice, and the walk of rollup on n * (n + 1) + 2 rounds for n nodes, since each of the n visits
--   puts at most n ids on the stack. Both are shown to end with a result. The loop of brief recurses on the
--   corrections that are left.
--
-- Not modelled: the mirror of the control tables in store.py, which is taken not to raise, and with it the
-- check of the variable WORKERBEES_STORE; the ledger's file, so that recording never raises; the second
-- check of the provider in step 8 of the dispatch, which the first one makes unreachable; Gateway's
-- constructor; the fallback to check_replay for a control layer of another class; from_dict, the checks of
-- field types and canonical_hash of envelopes; is_authorized, check_dispatch and paused of policy.py; the
-- ledger's mirror in SQLite, and fields of its file that have another type than the ledger writes; the
-- prompts of briefs and reviews; paragraphs of verifier.py; what a brief records in the ledger and binds
-- as artifacts, its exceptions from files, and how it marks unresolved sentences, which is a parameter.
-- The store, the adapters and the other scripts are left to later work or are input and
-- output only.
pub mod Base
pub mod Control
pub mod Envelope
pub mod Gateway
pub mod Ledger
pub mod Lineup
pub mod Phases
pub mod Pipeline
pub mod Policy
pub mod Registry
pub mod Reviewer
pub mod Router
pub mod Tests
pub mod Verifier
