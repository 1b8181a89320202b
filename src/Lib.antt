-- ===== src/Lib.antt =====
-- Aart runs workflows of typed steps: values flow between the steps by `{{ }}` expressions, blocks do
-- the work, governance validates what an author wrote, and the engine carries a run through its waits.
--
-- Expr          packages/expr/src/parser.ts: `parseExpression` is `parse_expression`, on the text
--               left to read in place of an index; a thrown error is an `err`.
-- Resolver      packages/expr/src/resolver.ts, and the token functions of parser.ts: `resolvePath`
--               and `resolveExpression`, with the caller's secret resolver, `JSON.stringify` and the
--               members of `Object.prototype` as parameters.
-- Csv           packages/blocks-core/src/lib/csv.ts: `parseCsv`, `stringifyCsv` and their loops, with the
--               members of `Object.prototype` as a parameter.
-- EditDistance  packages/governance/src/validation/edit-distance.ts: `levenshteinDistance`, with its
--               rows as lists of cells, and `computeDidYouMean`.
-- Governance    packages/governance/src: gates.ts, approval.ts, risk-tiers.ts, standing-approvals.ts
--               and capability.ts, under the functions' own names. Governance/Closure has the walk of
--               `computeCapabilityClosure`, the depth of its calls as fuel, for which the number of
--               blocks in the catalog is enough. Governance/Subjects has the encoding of a workflow
--               version as the subject of a task, of approval-tasks.ts.
-- Queue         packages/store/src/adapters/sqlite/stores/simple-stores.ts: `SqliteJobQueueStore`, its
--               statements as functions on the rows; packages/server/src/worker/claim.ts:
--               `tryClaimNextRun`. Queue/Leases has the calls of several workers as steps.
-- Queue/Reclaim packages/server/src/worker/reclaim.ts: `runReclaimSweep`.
-- Poison        packages/server/src/poison.ts, with `Array.prototype.sort` as a parameter. Poison/Sorting
--               has what it promises, `IsSort`, and Poison/Insertion a sort that keeps it.
-- Concurrency   packages/engine/src/concurrency.ts: `decideConcurrency`, with SHA-256 as a parameter.
-- Intake        packages/server/src/triggers/intake.ts: `processTriggerIntake`, which asks Poison for its
--               guards and Resolver for the inputs, over a record `Boundary` of the operations of the
--               store and the engine; its laws are `IsLawful`, in Intake/Trail.
-- Cron          packages/server/src/ticker/cron.ts: `parseCron`, `cronMatches` and
--               `cronFireTimesBetween`, with the time zone's clock and `Number` as parameters.
-- Duration      packages/engine/src/duration.ts: `parseDurationMs`.
-- Wait          packages/engine/src/wait/wait-machine.ts: `enterWait` (Wait/Enter), `claimAndCompleteWait`,
--               `failExpiredWait` (Wait/Resume), the resume mechanisms (Wait/Mechanisms) and the
--               listings (Wait/Listing). Wait/Store has the rows of packages/store/src/adapters/fs: runs.ts,
--               waits.ts and signals.ts; Wait/Taint and Wait/Audit what packages/engine/src/redaction.ts
--               merges and hides. A transaction is a function of the store whose `err` keeps the store.
--               The redaction of a value and of a run, and the revocation of cached results, are the
--               functions of `Layer`; no law is asked of them.
-- Base          what the others share: Boolean tests on native numbers, lists, texts, results, the
--               names that `Object.prototype` has, and the addition of doubles (Base/Doubles).
--
-- A string is the list of its code units. The loop of the parser and the scan for tokens run on fuel;
-- every round reads a character at least, and the fuel is the length of the text. The loop over cron
-- minutes has the code's own guard for its fuel, and the loop over the values of a cron step a round
-- for each number up to the last one: a loop that needs more than that does not end.
-- Asynchronous code runs one call at a time, so that a rejected promise is an `err`. Error messages
-- are constructors that hold what the message is made of, not its wording.
--
-- Not modelled: input and output (HTTP, files, SQL, processes, model providers), the dashboard's
-- pages, and the parts of the engine, the server and governance that no file above names. An object's
-- keys keep their insertion order here; JavaScript moves keys that look like array indices forward.
-- Of the wait machine, what a revocation writes to other runs and rows of waits, the repair of other
-- records that newly known secrets bring, and the notification of ended runs.
pub mod Base
pub mod EditDistance
pub mod Csv
pub mod Expr
pub mod Resolver
pub mod Queue
pub mod Governance
pub mod Poison
pub mod Concurrency
pub mod Cron
pub mod Intake
pub mod Duration
pub mod Wait
