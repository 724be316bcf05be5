-- ===== src/Lib.antt =====
-- 2nd Mind's backend (backend/src/secondmind): a personal memory. A turn's message becomes operations
-- on items, entities, links, relations and triggers; the memory writer puts each one to the write
-- policy and commits the turn's operations in one transaction, with a write log and numbered versions
-- (memory/, policy/). Before a turn starts, and on other model calls, the spend gate asks the spend
-- store and the person's quota (metering/). A model is called through the router, which retries, falls
-- back to another model and keeps a circuit breaker per provider (providers/). An undo plans the ops that
-- take a turn's write log back, for the same writer. A link is checked before it is fetched, its page cut
-- into chunks (links/); a question's candidates are selected for the answer (retrieval/). The times of a
-- message and of a question are resolved from their words, and a proposed memory is decided against what
-- is stored (ingestion/); which model each step runs on is settled when the program starts (config/).
--
-- Which file models what, file first; the paths of the code are under backend/src/secondmind:
-- Core: core/memory_model.py and core/events.py, the vocabularies, a kind's states and the verdicts.
-- Policy: policy/rules.py. Policy/Rules has a function for each rule, Policy/Evaluate the loop.
-- Memory/Records, Memory/Ops, Memory/Changes: memory/records.py and memory/ops.py.
-- Memory/Tables: the tables and writes of memory/adapters/inmemory.py, which stand for the store.
-- Memory/Exec: what a step of the writer does: it returns, gives its op up, or fails the commit.
-- Memory/Writer: memory/writer.py, by the writer's methods; Commit has the loop and the transaction.
-- Memory/CoreLayer: the token budget of memory/core_layer.py.
-- Memory/Sound: the invariant of the stored items, and held turns.
-- Memory/Replay: a reading of the write log of memory/writer.py.
-- Metering/Quota: metering/quota.py. Metering/Store: metering/adapters/inmemory.py.
-- Metering/Limits, Metering/Gate: metering/gate.py; the other files are about its properties.
-- Providers/Breaker: providers/resilience.py. Providers/Router: the loop of providers/router.py.
-- Memory/Undo: memory/undo.py. Undo/Diff and Undo/Inverse have a row's inverse, Undo/Plan the plan.
-- Memory/Recurrence: memory/recurrence.py.
-- Memory/Quick: memory/quick.py. Config/Prices: config/prices.py and core/money.py.
-- Config/Routing: config/routing.py; Routing/Picker has the models that a person may pick.
-- Auth/Sessions: auth/sessions.py.
-- Ingestion/Dates: Python's dates, by their ordinals. Ingestion/Result: a result or an exception.
-- Ingestion/Time: ingestion/time.py. Time/Rules and Time/Months have the rules for a day's words,
-- Time/Clocks a time of day, Time/Resolve and Time/Expressions resolve, resolve_lead and reminder_time,
-- Time/Windows, Time/Anchors and Time/Ranges the windows of a recall.
-- Ingestion/Reconcile: ingestion/reconcile.py; Reconcile/Decide has decide.
-- Links/Address, Links/Spelling, Links/Parse: the rules of links/urls.py on what may be fetched.
-- Links/Chunks: links/chunking.py.
-- Retrieval/Candidates, Retrieval/Select: retrieval/select.py, with a candidate of retrieval/fusion.py.
-- Metering/Ledger: a ledger of costs, which metering/gate.py's counters are compared with.
--
-- How the model stands for the code: identifiers, providers and dictionary keys are numbers, a moment
-- is in microseconds since the first Python datetime, a confidence and a ratio are in millionths,
-- money is in the quantum of core/money.py. A dictionary is a list in insertion order (Base/Dict); the
-- dict of an op's changes is a record of options; JSON details are texts. What the clock, new_id, an
-- adapter or another process gives is a function of how many were asked before, or of the state of the
-- call. A call that may raise returns an option or an outcome, with the state that it leaves. The
-- router's loop runs on fuel of three more than the retries: it makes two more tries than these at
-- most, and asks the breaker once again. The loop of expand_rrule has fuel for the limit and for each
-- moment until a day after the window's start; the cutting of a long sentence has a step for each word. An
-- rrule, a zone, the hash of a token, urlsplit, the idna codec and the splitting of sentences are
-- arguments; addresses are numbers, with Python 3.12's registries of special ones, and texts of hosts
-- are lists of codes, where int takes the digits and spaces of ASCII only. A date is its ordinal; what
-- the regular expressions of ingestion/time.py find in a text, its _norm and _routine, and a move by
-- months or years are arguments. The search for a date's year or month has fuel for each of them. In
-- config/routing.py the fake provider is number 0, and the overrides of the environment are an argument.
--
-- Not modelled: the web layer, the database and Redis adapters, prompts, the graph of a turn, the
-- extraction of a message and the pipeline about it, the reading of routines, the plan of a search and its
-- channels, the reading of pages, of configuration files and of the environment's overrides, the frontend;
-- of the writer the diffs, result texts and events; of the router streaming, usage and cancelled calls.
pub mod Base
pub mod Core
pub mod Policy
pub mod Memory
pub mod Metering
pub mod Providers
pub mod Ingestion
pub mod Links
pub mod Retrieval
pub mod Config
pub mod Auth
