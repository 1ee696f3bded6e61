-- ===== src/Lib.antt =====
-- SEEDING plan backend: planning of advertising campaigns, and their execution and release on the
-- Juguang platform under signed grants.
--
-- The program and the files that model it (paths from the repository's root):
--   Errors: app/seeding/errors.py. `SeedingError` as its code, the other exceptions, and methods as
--     functions from a state to a result and a state, since what was written before a raise stays.
--   State: app/seeding/state.py. The three state surfaces of a project and their transition tables;
--     State/Paths has the theorems on sequences of transitions.
--   Store: app/seeding/store.py, class `SeedingStore`, over the tables of app/seeding/migrations. A
--     database `Db` is a record of tables, a table a list of rows, and `transaction` rolls back on a
--     raise. Store/Tables has some of the tables, Store/Rows the INSERTs that operations share,
--     Store/Projects the transitions of a project, Store/Members the creation of projects and their
--     members, Store/Artifacts and Store/Plans the results of planning, Store/Results those of
--     executions, Store/Jobs the durable queue, Store/Grants the grants, Store/Outbox the delivery
--     of events. Every operation takes what `utc_now` and `uuid4` return as arguments; `sha256` is a
--     parameter.
--   Service: app/seeding/service.py, class `SeedingService`. Service/Access has who may call what,
--     Service/Worker the round `process_next_job`, for any handler of the jobs, Service/Execute the
--     handler of test executions, Service/Reconcile those of reconciliations and creations.
--   Release: app/seeding/release.py, class `ProductionReleaseEngine`. The platform client and the
--     safety adapter are a `World` of answers, which may depend on all calls before and may raise.
--   Execution: app/seeding/execution.py, class `TestExecutionEngine`, whose `execute` runs in
--     Execution/Engine against such a `World`; Execution/Readback has `_readback` and its
--     comparisons, Execution/Steps and Execution/Relock what a run establishes, and
--     Execution/Reconcile `reconcile` with its searches by name, and the exceptions of `int` and of a
--     set on the rows found, which leave it.
--   Algorithms: app/seeding/algorithms.py, `uniform_budget_capacity`; `overlap_metrics` is in
--     Decision/Overlap. The floats of the decisions are a type with its comparisons, parameters.
--   Decision: app/seeding/decision.py. Decision/Union has `_UnionFind`, which groups the
--     duplicates, Decision/Overlap the choice among audiences that overlap, Decision/Gate
--     `search_release_allowed`.
--   Prelude: Boolean tests on numbers, and lists with SELECT and UPDATE on them.
-- Workers claim jobs from the store, run an engine, and report through the store under the lease
-- that the claim gave them; a grant in the store pays for each job that writes to the platform.
--
-- Bounds: SQLite runs one transaction at a time, so an interleaving of workers is a sequence of
-- operations. Fuel is used in `find` of the union-find alone, one more than its entries; every other
-- loop is structural recursion. Timestamps are numbers of microseconds. Amounts and ids are natural
-- numbers. In `_compare_keywords` two sorted lists are compared as rearrangements of each other, and
-- the TypeError that Python raises where it sorts null with a text or a number is not modelled; nor
-- is that of a filter state that is a list or an object in a row read back, which both callers of
-- `_readback` catch.
--
-- Not modelled: the metrics and migrations of the store, which report and set up; the scores and
-- quantiles of the algorithms, which are floating point; the rest of the decisions; the other
-- handlers of the jobs in the service, and the calls that enqueue jobs and issue grants, which
-- validate requests; the contracts, the HTTP client and the API.
pub mod Prelude
pub mod Algorithms
pub mod Errors
pub mod State
pub mod Service
pub mod Store
pub mod Release
pub mod Decision
pub mod Execution
