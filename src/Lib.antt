-- ===== src/Lib.antt =====
-- UniGrok MCP server: the stores of src/unigrok_public/state.py that decide whether money may be
-- spent and which worker may act, the verifier that decides whether a mission is done, and the
-- limiter before the local endpoint.
--
-- The server keeps its state in one sqlite file. Each operation of the class in
-- src/unigrok_public/state.py is one transaction on it, and the operations of several workers
-- interleave freely. Its parts are modelled with what drives them.
--
-- SpendGuard: the ledger that a provider call must pass. `reserve_spend_guard` holds an amount of
-- a scope's daily limit under a reservation id and answers whether the provider may be called,
-- `reconcile_spend_guard` reports the cost, `resolve_spend_guard_unknown` settles unknown spend,
-- and every one of them first marks stale reservations unknown. A scope's day starts from a
-- snapshot of the telemetry that was already written for its caller.
--   SpendGuard/State: tables, errors and transactions.
--   SpendGuard/Ticks: `_spend_guard_ticks`, decimal dollars to integer ticks.
--   SpendGuard/Queries: expiry, baselines, totals and the payload of an answer.
--   SpendGuard/Reserve, SpendGuard/Reconcile: the operations.
--   SpendGuard/Retention: the spend-guard part of `_prune_retention_connection`.
--   SpendGuard/Limit, SpendGuard/Once, SpendGuard/FailClosed: sequences of transactions.
-- The modules under them (Effect, Baselines, Admission, Rows, Keeps, Bounds, Changes, Operations)
-- describe what an operation leaves behind and carry the proofs.
--
-- Missions: long-running work that workers drive under a fenced lease. A worker claims a mission,
-- keeps the lease alive, moves the status by compare-and-swap on status, checkpoint version and
-- lease generation, and adds events, artifacts, evidence and receipts under its fence; the sweeper
-- of src/unigrok_public/mission/sweeper.py requeues missions whose lease expired. The end of a
-- mission closes its autonomy job.
--   Missions/Status: src/unigrok_public/mission/types.py.
--   Missions/State: tables and lookups; src/unigrok_public/mission/lease.py.
--   Missions/Lease: create, claim, heartbeat, envelope and retention.
--   Missions/Cas: compare-and-swap and requeue.
--   Missions/Records: events, artifacts, evidence, side effects.
--   Missions/Sweep: the list of expired leases and the sweep.
--   Missions/Calls: sequences of calls.
--   Missions/Evolution, Missions/Fencing, Missions/Winner, Missions/Exclusive,
--   Missions/Creation, Missions/Completion, Missions/Sweep/Recovery: what these calls can do to
--     a mission.
--
-- Verification: CommitDone, the deterministic verifier of src/unigrok_public/mission/. It
-- classifies the task (task_class.py), reads the gaps of the candidate's text and of the evidence
-- (verify.py, evidence.py), and accepts a candidate that has none. The voters of voters.py only
-- advise.
--   Verification/Python: what the verifier takes from Python, as parameters.
--   Verification/TaskClass, Verification/Evidence, Verification/Gaps, Verification/Voters: the
--     parts.
--   Verification/Commit: `verify_commit`; Verification/Commit/Accepted describes what it
--     accepts.
--
-- Epoch: `seal_mission_epoch` of src/unigrok_public/mission/epoch.py, which ends a worker's
-- quantum. It renews the lease, freezes the candidate, moves the mission to `verifying`, asks the
-- verifier and swaps the mission to its next status. The calls of other workers before each of its
-- own are an argument, so that the theorems hold for every interleaving.
--   Epoch: requests and documents; Epoch/Run: the run.
--   Epoch/Live: the stores that a run passes through.
--   Epoch/Committed: what the ends of a run mean for the store; Epoch/Verdict, Epoch/Steps,
--     Epoch/Seal: that each run keeps to it.
--
-- LocalBudget: the daily budget of a local operator in src/unigrok_public/caller_budget.py: one
-- metered operation at a time reserves the day, and settles it with its cost.
--   LocalBudget: the two transactions; LocalBudget/Settle: the calls around them.
--   LocalBudget/Spec: what a day promises, without its table; LocalBudget/View: the day of a
--     table.
--   LocalBudget/Refinement, LocalBudget/Settling: the transactions keep the promise.
--   LocalBudget/Calls, LocalBudget/Blocked, LocalBudget/Exclusive, LocalBudget/Charges:
--     sequences of calls.
--
-- Autonomy: the durable jobs of src/unigrok_public/state.py that one caller at a time continues
-- under a claim, with their ledger of events. Autonomy/Claims has calls in sequence,
-- Autonomy/Pages and Autonomy/Events the reading of the ledger. The claim reads a row and then
-- writes it, which is one step only under the write lock of one process.
--
-- LocalAuth: the limiter of failed attempts of src/unigrok_public/local_auth.py, which the
-- middleware asks before it answers a peer. LocalAuth/Memory has its calls in sequence.
--
-- Base has the SQL statements on tables as lists of rows, in Base/Tables, and their lemmas.
--
-- Conventions. Identifiers, tokens, digests and texts are only compared for equality, and numbers
-- stand for them, 0 for the empty text. Instants are microseconds since the epoch, which order as
-- the ISO texts of one time zone do, and the instant of each transaction is an argument of it,
-- also where the source reads the clock twice within one, for an expiry and for the time of the
-- write. A transaction that raises keeps the store as it was. Numbers are unbounded: sqlite's
-- 64-bit range is written out where the source tests it, in `bounded_ticks`. Nothing runs on fuel,
-- since every loop runs over the rows of a table or the events of a peer. The sum that sqlite
-- takes of the telemetry's costs as text is a parameter, `sum_cost`, of the spend guard. Amounts
-- of a local budget are floats, which numbers stand for in their order; their sum is a parameter,
-- `plus`, that overflows to none. Sequences of calls run between two retention passes, save for
-- Limit, which has them as steps; a creation of a mission, which ends in such a pass, is not among
-- the calls of Missions/Calls. In Missions/Sweep no call of another worker comes between the list
-- of expired leases and the requeues, while the calls of Missions/Calls have the requeue of one
-- mission among them, between any others.
--
-- Not modelled: the pattern of spend-guard identifiers, the parsing of decimal texts and dollars
-- as floats; redaction and JSON encoding, in whose place the stored texts are the arguments; agent
-- jobs and the envelopes of a continuation; the governor of missions, the billing record and the
-- envelopes of an epoch; the regular expressions and text analyses of the verifier, which are
-- parameters; the middleware of the local endpoint and remote authentication, the configuration of
-- budgets, the context cabinet, the server, its provider clients and the host's integration.
pub mod Base
pub mod SpendGuard
pub mod Missions
pub mod LocalAuth
pub mod Verification
pub mod Epoch
pub mod LocalBudget
pub mod Autonomy
